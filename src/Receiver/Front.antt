-- ===== src/Receiver/Front.antt =====
-- Receiver: a message at the front of the buffer, as the loop of `onMessage` reads it.
use network_ydxlib.Base.{
  ℕ, ◌+◌, ◌-◌, ◌^◌, ◌≤◌, ◌<◌, ◌≡◌, refl, sym, ap, ◌∙◌, Option, none, some, List, ◌++◌, arith,
  length, take, drop, length-append, append_assoc,
}
use network_ydxlib.Base.Int.{ℤ, pos}
use network_ydxlib.Base.Words.{
  size_of_int, int_of_bytes, int_bytes, int_of_bytes-int_bytes, length-int_bytes,
}
use network_ydxlib.Base.Slices.{take-take, drop-take, drop-drop, take-append_self, drop-append_self}
use network_ydxlib.Buffer
use network_ydxlib.Buffer.{Buffer, readable_bytes, peek, retrieve}
use network_ydxlib.Buffer.Inv
use network_ydxlib.Buffer.Inv.{readable-eq, length-contents, contents-retrieve}
use network_ydxlib.Stream.{Stream, int_size, write_buffer, copy_in_must, copy_in, advance_in}
use network_ydxlib.Stream.Message.{frame}
use network_ydxlib.Receiver.{message_len}

pub copy_in_must-size :
    (s : Stream) (buf : Option (List ℕ)) (len : ℕ) → (copy_in_must s buf len).1.size ≡ s.size
unfolding copy_in_must advance_in copy_in
copy_in_must-size s none len = refl
copy_in_must-size s (some xs) len = ground arith

pub write_buffer-size :
    (s : Stream) (buf : Option (List ℕ)) (len : ℤ) → (write_buffer s buf len).1.size ≡ s.size
unfolding write_buffer
write_buffer-size s buf len = ground (
  arith,
  copy_in_must-size s (some (int_bytes len)) int_size,
  copy_in_must-size (copy_in_must s (some (int_bytes len)) int_size).1 buf (size_of_int len),
)

-- The bytes of the array from the reader index on begin with the contents.
peek-contents :
    (b : Buffer) (n : ℕ)
    → Buffer.Inv.IsValid b
    → n ≤ length (Buffer.Inv.contents b)
    → peek b n ≡ take n (Buffer.Inv.contents b)
unfolding peek
peek-contents b n v h = sym (
    take-take n (b.writer_index - b.reader_index) (drop b.reader_index b.bytes)
      (omega (arith, length-contents v, readable-eq v)))

peek_behind-contents :
    (b : Buffer) (n m : ℕ)
    → Buffer.Inv.IsValid b
    → m + n ≤ length (Buffer.Inv.contents b)
    → take n (drop (b.reader_index + m) b.bytes) ≡ take n (drop m (Buffer.Inv.contents b))
peek_behind-contents b n m v h =
    ap (take n) (sym (drop-drop b.reader_index m (b.reader_index + m) b.bytes refl))
    ∙ sym (
        ap (take n) (
          drop-take m (b.writer_index - b.reader_index - m) (b.writer_index - b.reader_index)
            (drop b.reader_index b.bytes) (omega (arith, length-contents v, readable-eq v)))
        ∙ take-take n (b.writer_index - b.reader_index - m) (drop m (drop b.reader_index b.bytes))
            (omega (arith, length-contents v, readable-eq v)))

-- A message at the front of the buffer: its length and its bytes as the loop reads them, and the
-- buffer behind it.
pub message_len-frame :
    (b : Buffer) (n : ℕ) (more : List ℕ)
    → Buffer.Inv.IsValid b
    → n < 2 ^ 31
    → Buffer.Inv.contents b ≡ int_bytes (pos n) ++ more
    → message_len b ≡ pos n
unfolding message_len
message_len-frame b n more v h e =
    let hl = length-int_bytes (pos n) in
    let l = ap length e ∙ length-append (int_bytes (pos n)) more in
    ap int_of_bytes (
      peek-contents b int_size v (omega arith)
      ∙ ap (take int_size) e
      ∙ take-append_self (int_bytes (pos n)) more int_size (sym hl))
    ∙ int_of_bytes-int_bytes n h

pub body-frame :
    (b : Buffer) (m more : List ℕ)
    → Buffer.Inv.IsValid b
    → Buffer.Inv.contents b ≡ frame m ++ more
    → take (length m) (drop (b.reader_index + int_size) b.bytes) ≡ m
body-frame b m more v e =
    let hl = length-int_bytes (pos (length m)) in
    let e' : Buffer.Inv.contents b ≡ int_bytes (pos (length m)) ++ (m ++ more) =
      e ∙ append_assoc (int_bytes (pos (length m))) m more in
    let l = ap length e' ∙ length-append (int_bytes (pos (length m))) (m ++ more) in
    peek_behind-contents b (length m) int_size v (omega (arith, length-append m more))
    ∙ ap (λ x. take (length m) (drop int_size x)) e'
    ∙ ap (take (length m))
        (drop-append_self (int_bytes (pos (length m))) (m ++ more) int_size (sym hl))
    ∙ take-append_self m more (length m) refl
