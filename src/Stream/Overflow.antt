-- ===== src/Stream/Overflow.antt =====
-- StreamBuffer where the held bytes go round the end of the array: `used` adds `size_` and not
-- `size_ + 1`, and what follows from that.
use network_ydxlib.Base.{
  ℕ, ◌+◌, ◌-◌, ◌^◌, ◌<◌, ◌%◌, ◌≡◌, refl, sym, ap, ◌∙◌, some, List, [], arith, length, take, drop,
  true, false, lt→ltb,
}
use native.Mathlib.Decide.{dec_lt}
use network_ydxlib.Base.Int.{pos}
use network_ydxlib.Base.Words.{int_bytes, int_of_bytes-int_bytes, length-int_bytes, add_size}
use network_ydxlib.Base.Slices.{splice, take-append_self}
use network_ydxlib.Stream.{Stream, used, unused, copy_in_must, peek_out_must, read_buffer, int_size}
use network_ydxlib.Stream.Inv.{
  IsValid, IsWrapped, contents, used-wrapped, length-wrapped, unused_lem, contents-straight,
}
use network_ydxlib.Stream.Ring.{pushed-one, moved, copy_in_must-pushed}
use network_ydxlib.Stream.Out.{peek_out_must-take}
use network_ydxlib.Stream.Message.{frame, length-frame}

-- If the held bytes go round the end of the array, `copy_in_must` accepts as many bytes as `unused`
-- counts; the in offset then meets the out offset, and the ring counts as empty: the bytes just
-- written and all that it held before are lost.
pub copy_in_must-overflow :
    (s : Stream) (xs : List ℕ)
    → IsValid s
    → IsWrapped s
    → length xs ≡ unused s
    → let (n, t) = copy_in_must s (some xs) (length xs) in (n ≡ length xs) × (contents t ≡ [])
copy_in_must-overflow s xs v w e =
    let u = used-wrapped v w in
    let at_out : s.in_off + length xs ≡ s.out_off = omega (arith, v, unused_lem v) in
    let z : s.in_off + length xs - s.out_off ≡ 0 = omega arith in
    let t : Stream = moved s xs (splice s.bytes s.in_off xs) (s.in_off + length xs) in
    let empty : contents t ≡ [] =
      contents-straight t (omega arith) ∙ ap (λ k. take k (drop s.out_off t.bytes)) z in
    rw (copy_in_must-pushed s xs (omega arith))
      (refl, ap contents (pushed-one s xs v (omega (arith, v))) ∙ empty)

pub read_buffer-none : (s : Stream) → used s < int_size → read_buffer s true ≡ (false, [], pos 0, s)
unfolding read_buffer peek_out_must
read_buffer-none s h = rw (lt→ltb (used s) int_size h)

pub read_buffer-short :
    (s : Stream) (n : ℕ)
    → n < 2 ^ 31
    → used s < n + 4
    → peek_out_must s true int_size ≡ (int_size, int_bytes (pos n))
    → read_buffer s true ≡ (false, [], pos 0, s)
unfolding read_buffer
read_buffer-short s n h short e =
    let tot : add_size (n % 2 ^ 64) int_size ≡ n + 4 = omega arith in
    rw (e, int_of_bytes-int_bytes n h, tot, lt→ltb (used s) (n + 4) short)

-- A message that is alone in the ring and goes round the end of the array is not read: the call
-- says that there is none.
pub read_buffer-stuck :
    (s : Stream) (m : List ℕ)
    → IsValid s
    → IsWrapped s
    → length m < 2 ^ 31
    → contents s ≡ frame m
    → read_buffer s true ≡ (false, [], pos 0, s)
read_buffer-stuck s m v w h e =
    let head : List ℕ = int_bytes (pos (length m)) in
    let count = ap length e ∙ length-frame m in
    let u = used-wrapped v w in
    let l = length-wrapped v w in
    elim (dec_lt (used s) int_size) [
      | yes short ↦ read_buffer-none s short
      | no long ↦ read_buffer-short s (length m) h (omega (arith, v)) (
          peek_out_must-take s int_size v (omega arith)
          ∙ ap (λ x. (int_size, x))
              (ap (take int_size) e
                ∙ take-append_self head m int_size (sym (length-int_bytes (pos (length m))))))
    ]
