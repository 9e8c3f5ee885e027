-- ===== src/Stream.antt =====
-- class StreamBuffer of stream_buffer.h and stream_buffer.cpp: a ring of `size + 1` bytes, and the
-- messages in it, each four bytes of length and then that many bytes. What `malloc` gives is an
-- argument; a null pointer is `none` or `false`.
pub mod Inv
pub mod Ring
pub mod Out
pub mod Message
pub mod Overflow
pub mod Front
mod Tests
use network_ydxlib.Base.{
  ℕ, ◌+◌, ◌-◌, ◌%◌, ◌^◌, min, Bool, true, false, ◌||◌, not, Option, none, some, List, [], ◌++◌, ltb,
  ◌==◌, if◌then◌else◌, take, drop,
}
use network_ydxlib.Base.Int.{ℤ, pos, negsuc}
use network_ydxlib.Base.Slices.{splice}
use network_ydxlib.Base.Words.{add_size, sub_size, size_of_int, int_bytes, int_of_bytes}

pub record Stream : Type 0 where
  pub in_off : ℕ
  pub out_off : ℕ
  pub size : ℕ
  pub bytes : List ℕ

abbrev pub fresh : Stream
fresh = record { in_off = 0; out_off = 0; size = 0; bytes = [] }

-- `block` is what `malloc(size + 1)` gives.
unfoldable pub alloc : Stream → ℕ → Option (List ℕ) → ℤ × Stream
alloc s size none = (negsuc 0, record s { size = size; bytes = [] })
alloc s size (some block) = (pos 0, record s { size = size; bytes = block })

unfoldable pub clear : Stream → Stream
clear s = record s { in_off = 0; out_off = 0 }

-- `int64_t n = in_ - out_`; its sign is the top bit of the difference.
unfoldable pub used : Stream → ℕ
used s = let n = sub_size s.in_off s.out_off in if ltb n (2 ^ 63) then n else add_size n s.size

unfoldable pub unused : Stream → ℕ
unused s = sub_size s.size (used s)

-- How much fits between an offset and the end of the array.
unfoldable pub to_end : Stream → ℕ → ℕ → ℕ
to_end s off len = min len (sub_size (add_size s.size 1) off)

unfoldable pub copy_in : Stream → List ℕ → ℕ → Stream
copy_in s xs len =
    let l = to_end s s.in_off len in
    record s { bytes = splice (splice s.bytes s.in_off (take l xs)) 0 (take (len - l) (drop l xs)) }

-- What is copied to the caller's array.
unfoldable pub copy_out : Stream → ℕ → List ℕ
copy_out s len =
    let l = to_end s s.out_off len in take l (drop s.out_off s.bytes) ++ take (len - l) s.bytes

unfoldable pub advance_in : Stream → ℕ → Stream
advance_in s len = record s { in_off = add_size s.in_off len % add_size s.size 1 }

unfoldable pub advance_out : Stream → ℕ → Stream
advance_out s len = record s { out_off = add_size s.out_off len % add_size s.size 1 }

unfoldable pub copy_in_must : Stream → Option (List ℕ) → ℕ → ℕ × Stream
copy_in_must s none len = (0, s)
copy_in_must s (some xs) len =
    if ltb (unused s) len then (0, s) else (len, advance_in (copy_in s xs len) len)

-- The count, what the caller's array holds afterwards, and the ring.
unfoldable pub copy_out_must : Stream → (buf : Bool) → ℕ → ℕ × List ℕ × Stream
copy_out_must s buf len =
    if ltb (used s) len || not buf then (0, [], s) else (len, copy_out s len, advance_out s len)

unfoldable pub peek_out_must : Stream → (buf : Bool) → ℕ → ℕ × List ℕ
peek_out_must s buf len =
    if ltb (used s) len then (0, []) else (len, if buf then copy_out s len else [])

unfoldable pub has_writen : Stream → ℕ → Bool × Stream
has_writen s len = if ltb (unused s) len then (false, s) else (true, advance_in s len)

unfoldable pub has_read : Stream → ℕ → Bool × Stream
has_read s len = if ltb (used s) len then (false, s) else (true, advance_out s len)

abbrev pub int_size : ℕ
int_size = 4

unfoldable pub write_buffer : Stream → Option (List ℕ) → ℤ → Bool × Stream
write_buffer s buf len =
    let totb = add_size (size_of_int len) int_size in
    let (head, s1) = copy_in_must s (some (int_bytes len)) int_size in
    let (body, s2) = copy_in_must s1 buf (size_of_int len) in
    if ltb (unused s) totb then (false, s) else (add_size head body == totb, s2)

-- Whether a message was read, what the caller's array and its `len` hold, and the ring.
unfoldable pub read_buffer : Stream → (buf : Bool) → Bool × List ℕ × ℤ × Stream
read_buffer s buf =
    let (n, head) = peek_out_must s true int_size in
    let len = int_of_bytes head in
    let totb = add_size (size_of_int len) int_size in
    let (skipped, s1) = has_read s int_size in
    let (body, xs, s2) = copy_out_must s1 buf (size_of_int len) in
    if n == 0
    then (false, [], pos 0, s)
    else if ltb (used s) totb
    then (false, [], pos 0, s)
    else (add_size (if skipped then int_size else 0) body == totb, xs, len, s2)
