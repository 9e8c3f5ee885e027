-- ===== src/Sender/Look.antt =====
-- Sender: what the loop finds when it looks at the ring.
use network_ydxlib.Base.{
  ℕ, ◌+◌, ◌^◌, ◌≤◌, ◌<◌, ◌≡◌, refl, sym, ap, ◌∙◌, Bool-cases, inl, inr, List, [], ◌∷◌, ◌++◌, arith,
  length, append_assoc, append-nil, length-append, ltb, lt→ltb, if◌then◌else◌, take,
}
use network_ydxlib.Base.Int.{pos}
use network_ydxlib.Base.Words.{
  int_bytes, length-int_bytes, int_of_bytes-int_bytes, add_size, size_of_int,
}
use network_ydxlib.Stream.{Stream, used, int_size, peek_out_must}
use network_ydxlib.Stream.Inv.{IsValid, contents, used-contents}
use network_ydxlib.Stream.Message.{frame, frames, length-frame}
use network_ydxlib.Sender.{polling, skipping, Writer, ready, heading, bodying, counting, look}
use native.Mathlib.Decide.{dec_lt}
use network_ydxlib.Base.Slices.{take-append_self}
use network_ydxlib.Stream.Out.{peek_out_must-take}
use network_ydxlib.Stream.Front.{length-contents}
use network_ydxlib.Sender.Counted.{Room, part}

look-none : (s : Stream) → used s < int_size → look s ≡ polling
unfolding look peek_out_must
look-none s h = rw (lt→ltb (used s) int_size h) refl

look-head :
    (s : Stream) (n : ℕ) (more : List ℕ)
    → IsValid s
    → n < 2 ^ 31
    → contents s ≡ int_bytes (pos n) ++ more
    → int_size ≤ used s
    → look s ≡ (if ltb (used s) (n + 4) then polling else skipping (pos n))
unfolding look
look-head s n more v h e four =
    let hl = length-int_bytes (pos n) in
    let tot : add_size (size_of_int (pos n)) int_size ≡ n + 4 = omega arith in
    let bytes =
      ap (take int_size) e ∙ take-append_self (int_bytes (pos n)) more int_size (sym hl) in
    rw (peek_out_must-take s int_size v four, bytes, int_of_bytes-int_bytes n h, tot) refl

-- What the loop finds at the front of the ring.
pub data Found (s : Stream) (ms : List (List ℕ)) : Type 0 where
  absent : look s ≡ polling → Found s ms
  there :
      (m : List ℕ) (rest : List (List ℕ))
      → ms ≡ m ∷ rest
      → look s ≡ skipping (pos (length m))
      → length m + 4 ≤ used s
      → Found s ms

head-Found :
    (s : Stream) (m : List ℕ) (rest : List (List ℕ)) (more : List ℕ)
    → IsValid s
    → length m < 2 ^ 31
    → contents s ≡ int_bytes (pos (length m)) ++ more
    → int_size ≤ used s
    → Found s (m ∷ rest)
head-Found s m rest more v h e four =
    let seen = look-head s (length m) more v h e four in
    elim (Bool-cases (ltb (used s) (length m + 4))) [
      | inl b ↦ absent (seen ∙ ap (λ b. if b then polling else skipping (pos (length m))) b)
      | inr b ↦
          there m rest refl (seen ∙ ap (λ b. if b then polling else skipping (pos (length m))) b)
            (ground (arith, b))
    ]

-- A message of which the call of `send` has put the length alone is not found.
part-look :
    (w : Writer) (s : Stream)
    → IsValid s
    → s.size < 2 ^ 31
    → Room w s
    → contents s ≡ part w
    → int_size ≤ used s
    → look s ≡ polling
part-look ready s v small r e h = absurd (omega (arith, used-contents s v, ap length e))
part-look (heading m) s v small r e h = absurd (omega (arith, used-contents s v, ap length e))
part-look counting s v small r e h = absurd (omega (arith, used-contents s v, ap length e))
part-look (bodying m inb) s v small (four, some_there, room) e h =
    let bytes : List ℕ = int_bytes (pos (length m)) in
    let short : used s < length m + 4 =
      omega
        (arith, used-contents s v, ap length e, length-int_bytes (pos (length m)), some_there) in
    look-head s (length m) [] v (omega (arith, room, small)) (e ∙ sym (append-nil bytes)) h
    ∙ ap (λ b. if b then polling else skipping (pos (length m)))
        (lt→ltb (used s) (length m + 4) short)

pub look-Found :
    (s : Stream) (ms : List (List ℕ)) (w : Writer)
    → IsValid s
    → s.size < 2 ^ 31
    → Room w s
    → contents s ≡ frames ms ++ part w
    → Found s ms
look-Found s ms w v small r e = elim (dec_lt (used s) int_size) [
  | yes none_there ↦ absent (look-none s none_there)
  | no four ↦ go ms e (omega (arith, four))
]
  where
    go : (ms : List (List ℕ)) → contents s ≡ frames ms ++ part w → int_size ≤ used s → Found s ms
    go [] e h = absent (part-look w s v small r e h)
    go (m ∷ rest) e h =
        let e' = e ∙ append_assoc (frame m) (frames rest) (part w) in
        head-Found s m rest (m ++ (frames rest ++ part w)) v
          (omega (
            arith,
            small,
            ap length e',
            length-append (frame m) (frames rest ++ part w),
            length-frame m,
            length-contents s v,
          ))
          (e' ∙ append_assoc (int_bytes (pos (length m))) m (frames rest ++ part w)) h
