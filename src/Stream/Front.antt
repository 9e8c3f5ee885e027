-- ===== src/Stream/Front.antt =====
-- StreamBuffer: `read_buffer` on a ring that holds whole messages.
use network_ydxlib.Base.{
  ℕ, ◌+◌, ◌^◌, ◌≤◌, ◌<◌, ◌≡◌, refl, sym, ap, ◌∙◌, List, [], ◌∷◌, ◌++◌, arith, length, take, true,
  false, Bool, length-append, append_assoc,
}
use native.Mathlib.Decide.{dec_lt}
use network_ydxlib.Base.Int.{pos}
use network_ydxlib.Base.Words.{size_of_int, int_of_bytes, int_bytes, length-int_bytes}
use network_ydxlib.Base.Slices.{take-append_self}
use network_ydxlib.Stream.{
  Stream, used, advance_out, copy_out_must, has_read, read_buffer, peek_out_must, int_size,
}
use network_ydxlib.Stream.Inv.{IsValid, contents, used-contents, length-straight, length-wrapped}
use network_ydxlib.Stream.Out.{peek_out_must-take}
use network_ydxlib.Stream.Message.{frame, frames, length-frame, contents-read_buffer}
use network_ydxlib.Stream.Overflow.{read_buffer-none, read_buffer-short}

pub has_read-size : (s : Stream) (len : ℕ) → (has_read s len).1.size ≡ s.size
unfolding has_read advance_out
has_read-size s len = ground arith

pub copy_out_must-size :
    (s : Stream) (buf : Bool) (len : ℕ) → (copy_out_must s buf len).2.size ≡ s.size
unfolding copy_out_must advance_out
copy_out_must-size s buf len = ground arith

pub read_buffer-size : (s : Stream) → (read_buffer s true).3.size ≡ s.size
unfolding read_buffer
read_buffer-size s =
    let n = size_of_int (int_of_bytes (peek_out_must s true int_size).1) in
    ground (arith, has_read-size s int_size, copy_out_must-size (has_read s int_size).1 true n)

-- What `read_buffer` does with the messages of a ring: it takes the first of them, or leaves all
-- where they are.
pub data Front (s : Stream) (ms : List (List ℕ)) : Type 0 where
  got :
      (m : List ℕ) (rest : List (List ℕ)) (t : Stream)
      → ms ≡ m ∷ rest
      → read_buffer s true ≡ (true, m, pos (length m), t)
      → contents t ≡ frames rest
      → IsValid t
      → Front s ms
  left : read_buffer s true ≡ (false, [], pos 0, s) → Front s ms

frame-Front :
    (s : Stream) (m : List ℕ) (rest : List (List ℕ))
    → IsValid s
    → length m < 2 ^ 31
    → contents s ≡ frame m ++ frames rest
    → Front s (m ∷ rest)
frame-Front s m rest v h e =
    let head = int_bytes (pos (length m)) in
    let hl = length-int_bytes (pos (length m)) in
    elim (dec_lt (used s) int_size) [
      | yes none_there ↦ left (read_buffer-none s none_there)
      | no four ↦ elim (dec_lt (used s) (length m + 4)) [
        | yes short ↦ left (
            read_buffer-short s (length m) h short (
              peek_out_must-take s int_size v (omega (arith, four))
              ∙ ap (λ x. (int_size, x))
                  (ap (take int_size) (e ∙ append_assoc head m (frames rest))
                    ∙ take-append_self head (m ++ frames rest) int_size (sym hl))))
        | no whole ↦
            let (t, read, rests, tv) =
              contents-read_buffer s m (frames rest) v h e (omega (arith, length-frame m)) in
            got m rest t refl read rests tv
      ]
    ]

pub length-contents : (s : Stream) → IsValid s → length (contents s) ≤ s.size
length-contents s v = elim (dec_lt s.in_off s.out_off) [
  | yes w ↦ omega (arith, v, length-wrapped v w)
  | no w ↦ omega (arith, v, w, length-straight v (omega arith))
]

pub read_buffer-Front :
    (s : Stream) (ms : List (List ℕ))
    → IsValid s
    → s.size < 2 ^ 31
    → contents s ≡ frames ms
    → Front s ms
read_buffer-Front s [] v small e =
    left (read_buffer-none s (omega (arith, ap length e, used-contents s v)))
read_buffer-Front s (m ∷ rest) v small e =
    frame-Front s m rest v
      (omega (
        arith,
        v,
        ap length e,
        length-append (frame m) (frames rest),
        length-frame m,
        length-contents s v,
      ))
      e
