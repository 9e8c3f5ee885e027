-- ===== src/Stream/Message.antt =====
-- StreamBuffer: messages, as `write_buffer` puts them in and `read_buffer` takes them out.
use network_ydxlib.Base.{
  ℕ, ◌+◌, ◌^◌, ◌≤◌, ◌<◌, ◌≡◌, refl, sym, ap, ◌∙◌, some, List, [], ◌∷◌, ◌++◌, arith, length, take,
  drop, length-append, true, append_assoc, append-nil, not-ltb, eq_refl,
}
use network_ydxlib.Base.Int.{pos}
use network_ydxlib.Base.Words.{
  int_bytes, int_of_bytes-int_bytes, length-int_bytes, size_of_int, add_size,
}
use network_ydxlib.Base.Slices.{take-append_self, drop-append_self}
use network_ydxlib.Stream.{
  Stream, used, unused, copy_in_must, has_read, advance_out, peek_out_must, copy_out_must,
  write_buffer, read_buffer, int_size,
}
use network_ydxlib.Stream.Inv.{IsValid, contents}
use network_ydxlib.Stream.Ring.{
  copy_in_must-pushed, le-unused, pushed, pushed-kept, contents-pushed,
}
use network_ydxlib.Stream.Out.{
  contents-copy_out_must, has_read-advance, peek_out_must-take, contents-advance_out, used-le,
  used-advance_out,
}

-- A message on the ring: its length in four bytes, then its bytes.
abbrev pub frame : List ℕ → List ℕ
frame m = int_bytes (pos (length m)) ++ m

-- Messages, one behind the other.
abbrev pub frames : List (List ℕ) → List ℕ
frames [] = []
frames (m ∷ ms) = frame m ++ frames ms

pub frames-append_one :
    (ms : List (List ℕ)) (m : List ℕ) → frames (ms ++ (m ∷ [])) ≡ frames ms ++ frame m
frames-append_one [] m = append-nil (frame m)
frames-append_one (x ∷ ms) m =
    ap (λ l. frame x ++ l) (frames-append_one ms m)
    ∙ sym (append_assoc (frame x) (frames ms) (frame m))

pub length-frame : (m : List ℕ) → length (frame m) ≡ length m + 4
length-frame m =
    length-append (int_bytes (pos (length m))) m ∙ omega (arith, length-int_bytes (pos (length m)))

pub size_of_length : (m : List ℕ) → length m < 2 ^ 31 → size_of_int (pos (length m)) ≡ length m
size_of_length m h = omega arith

total : (m : List ℕ) → length m < 2 ^ 31 → add_size int_size (length m) ≡ length m + 4
total m h = omega arith

write_buffer-of :
    (s s1 s2 : Stream) (m : List ℕ)
    → length m < 2 ^ 31
    → length m + 4 ≤ unused s
    → copy_in_must s (some (int_bytes (pos (length m)))) int_size ≡ (int_size, s1)
    → copy_in_must s1 (some m) (length m) ≡ (length m, s2)
    → write_buffer s (some m) (pos (length m)) ≡ (true, s2)
unfolding write_buffer
write_buffer-of s s1 s2 m h room e f =
    let swap : add_size (length m) int_size ≡ length m + 4 = omega arith in
    rw (
      e,
      size_of_length m h,
      f,
      swap,
      total m h,
      not-ltb (unused s) (length m + 4) room,
      eq_refl (length m + 4),
    )

-- A message of less than 2^31 bytes that fits a valid ring with one byte to spare is accepted, and
-- stands behind what the ring held.
pub contents-write_buffer :
    (s : Stream) (m : List ℕ)
    → IsValid s
    → length m < 2 ^ 31
    → length (contents s) + length (frame m) ≤ s.size
    → let (done, t) = write_buffer s (some m) (pos (length m)) in
      (done ≡ true) × (contents t ≡ contents s ++ frame m) × IsValid t
contents-write_buffer s m v h room =
    let head : List ℕ = int_bytes (pos (length m)) in
    let t : Stream = pushed s head in
    let hl = length-int_bytes (pos (length m)) in
    let fl = length-frame m in
    let (held, tv) = contents-pushed s head v (omega arith) in
    let there = ap length held ∙ length-append (contents s) head in
    let kept = pushed-kept s head in
    let (all, uv) = contents-pushed t m tv (omega arith) in
    let first : copy_in_must s (some head) int_size ≡ (int_size, t) =
      rw hl at (copy_in_must-pushed s head (le-unused s (length head) v (omega arith))) in
    let e =
      write_buffer-of s t (pushed t m) m h (le-unused s (length m + 4) v (omega arith)) first
        (copy_in_must-pushed t m (le-unused t (length m) tv (omega arith))) in
    rw e (refl, all ∙ ap (λ x. x ++ m) held ∙ append_assoc (contents s) head m, uv)

read_buffer-of :
    (s t u : Stream) (m xs : List ℕ)
    → length m < 2 ^ 31
    → length m + 4 ≤ used s
    → peek_out_must s true int_size ≡ (int_size, int_bytes (pos (length m)))
    → has_read s int_size ≡ (true, t)
    → copy_out_must t true (length m) ≡ (length m, xs, u)
    → read_buffer s true ≡ (true, xs, pos (length m), u)
unfolding read_buffer
read_buffer-of s t u m xs h room e f g =
    let swap : add_size (length m) int_size ≡ length m + 4 = omega arith in
    rw (
      e,
      f,
      int_of_bytes-int_bytes (length m) h,
      size_of_length m h,
      g,
      swap,
      total m h,
      not-ltb (used s) (length m + 4) room,
      eq_refl (length m + 4),
    )

-- The message at the front of a valid ring, of less than 2^31 bytes, is read, whole, with its
-- length, and those behind it stay, whenever `used` counts it in full.
pub contents-read_buffer :
    (s : Stream) (m rest : List ℕ)
    → IsValid s
    → length m < 2 ^ 31
    → contents s ≡ frame m ++ rest
    → length (frame m) ≤ used s
    → (t : Stream) × (read_buffer s true ≡ (true, m, pos (length m), t))
      × (contents t ≡ rest)
      × IsValid t
contents-read_buffer s m rest v h e room =
    let head : List ℕ = int_bytes (pos (length m)) in
    let hl = length-int_bytes (pos (length m)) in
    let fl = length-frame m in
    let whole : contents s ≡ head ++ (m ++ rest) = e ∙ append_assoc head m rest in
    let peeked =
      peek_out_must-take s int_size v (omega arith)
      ∙ ap (λ x. (int_size, x))
          (ap (take int_size) whole ∙ take-append_self head (m ++ rest) int_size (sym hl)) in
    let t : Stream = advance_out s int_size in
    let (left, tv) = contents-advance_out s int_size v (used-le int_size v (omega arith)) in
    let left' : contents t ≡ m ++ rest =
      left ∙ ap (drop int_size) whole ∙ drop-append_self head (m ++ rest) int_size (sym hl) in
    let more = used-advance_out s int_size v (omega arith) in
    let (n, xs, held, uv) = contents-copy_out_must t (length m) tv (omega arith) in
    let u : Stream = (copy_out_must t true (length m)).2 in
    let got = xs ∙ ap (take (length m)) left' ∙ take-append_self m rest (length m) refl in
    (
      u,
      read_buffer-of s t u m m h (omega arith) peeked (has_read-advance s int_size (omega arith))
          (λ i. (n i, got i, u)),
      held ∙ ap (drop (length m)) left' ∙ drop-append_self m rest (length m) refl,
      uv,
    )
