-- ===== src/Stream/Tests.antt =====
-- StreamBuffer at concrete rings.
use network_ydxlib.Base.{ℕ, ◌≡◌, refl, some, List, [], ◌∷◌, arith, true, false, none}
use network_ydxlib.Base.Int.{pos, negsuc}
use network_ydxlib.Base.Words.{int_bytes, int_of_bytes}
use network_ydxlib.Stream.{
  Stream, used, unused, alloc, fresh, copy_in_must, copy_out_must, write_buffer, read_buffer,
  to_end, copy_in, copy_out, advance_in, advance_out, has_read, peek_out_must,
}
use network_ydxlib.Stream.Inv.{IsValid, contents, IsValid-alloc}
use network_ydxlib.Stream.Message.{frame, contents-write_buffer, contents-read_buffer}

abbrev block : List ℕ
block = 0 ∷ 0 ∷ 0 ∷ 0 ∷ 0 ∷ 0 ∷ 0 ∷ 0 ∷ 0 ∷ 0 ∷ []

-- Nine bytes can be held; none are.
abbrev empty : Stream
empty = record { in_off = 6; out_off = 6; size = 9; bytes = block }

-- The message 7, 8 stands in the array from index 6 on and goes round its end.
abbrev round : Stream
round = record {
  in_off = 2;
  out_off = 6;
  size = 9;
  bytes = 7 ∷ 8 ∷ 0 ∷ 0 ∷ 0 ∷ 0 ∷ 2 ∷ 0 ∷ 0 ∷ 0 ∷ [];
}

-- The same message from the array's start on, with one byte behind it.
abbrev straight : Stream
straight = record {
  in_off = 7;
  out_off = 0;
  size = 9;
  bytes = 2 ∷ 0 ∷ 0 ∷ 0 ∷ 7 ∷ 8 ∷ 5 ∷ 0 ∷ 0 ∷ 0 ∷ [];
}

round-IsValid : IsValid round
round-IsValid = omega arith

frame-two : frame (7 ∷ 8 ∷ []) ≡ 2 ∷ 0 ∷ 0 ∷ 0 ∷ 7 ∷ 8 ∷ []
unfolding int_bytes
frame-two = refl

-- The four cases of the source run as expected.
write-empty : write_buffer empty (some (7 ∷ 8 ∷ [])) (pos 2) ≡ (true, round)
unfolding write_buffer copy_in_must used unused to_end copy_in advance_in int_bytes
write-empty = refl

write-full : (write_buffer straight (some (7 ∷ 8 ∷ [])) (pos 2)) ≡ (false, straight)
unfolding write_buffer copy_in_must used unused to_end copy_in advance_in int_bytes
write-full = refl

read-negative :
    (read_buffer
      (record {
        in_off = 6;
        out_off = 0;
        size = 9;
        bytes = 255 ∷ 255 ∷ 255 ∷ 255 ∷ 1 ∷ 2 ∷ 0 ∷ 0 ∷ 0 ∷ 0 ∷ [];
      })
      true).0
    ≡ false
unfolding read_buffer has_read peek_out_must copy_out_must used to_end copy_out advance_out
    int_of_bytes
read-negative = refl

alloc-fails : (alloc fresh 16 none).0 ≡ negsuc 0
unfolding alloc
alloc-fails = refl

alloc-nine : IsValid (alloc fresh 9 (some block)).1 × (contents (alloc fresh 9 (some block)).1 ≡ [])
alloc-nine = IsValid-alloc fresh 9 block refl refl (omega arith) refl

contents-write_buffer_example :
    let (done, t) = write_buffer empty (some (7 ∷ 8 ∷ [])) (pos 2) in
    (done ≡ true) × (contents t ≡ frame (7 ∷ 8 ∷ [])) × IsValid t
unfolding int_bytes
contents-write_buffer_example =
    contents-write_buffer empty (7 ∷ 8 ∷ []) (omega arith) (omega arith) (omega arith)

contents-read_buffer_example :
    (t : Stream) × (read_buffer straight true ≡ (true, 7 ∷ 8 ∷ [], pos 2, t))
    × (contents t ≡ 5 ∷ [])
    × IsValid t
unfolding int_bytes used
contents-read_buffer_example =
    contents-read_buffer straight (7 ∷ 8 ∷ []) (5 ∷ []) (omega arith) (omega arith) refl
      (omega arith)
