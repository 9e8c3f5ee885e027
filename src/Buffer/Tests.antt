-- ===== src/Buffer/Tests.antt =====
-- Buffer at concrete arrays.
use network_ydxlib.Base.{◌≡◌, refl, some, [], ◌∷◌, arith}
use network_ydxlib.Base.Int.{pos}
use network_ydxlib.Buffer.{
  Buffer, readable_bytes, writeable_bytes, prepend_bytes, peek, unwrite, append, iov_room, read_fd,
  received, make_space, ensure_writeable_bytes, copy_to_write, has_written,
}
use network_ydxlib.Buffer.Inv.{IsValid, contents, contents-append}
use network_ydxlib.Buffer.Growth.{contents-unwrite}
use network_ydxlib.Buffer.ReadFd.{contents-read_fd}

-- Six bytes, of which the two in the middle are readable.
abbrev middle : Buffer
middle = record { bytes = 0 ∷ 0 ∷ 5 ∷ 6 ∷ 0 ∷ 0 ∷ []; reader_index = 2; writer_index = 4 }

-- Three bytes more do not fit behind the two, but do once these have moved to the front.
abbrev compacted : Buffer
compacted = record { bytes = 5 ∷ 6 ∷ 7 ∷ 8 ∷ 9 ∷ 0 ∷ []; reader_index = 0; writer_index = 5 }

append-middle : append middle (7 ∷ 8 ∷ 9 ∷ []) ≡ some compacted
unfolding append ensure_writeable_bytes make_space copy_to_write has_written readable_bytes
    writeable_bytes prepend_bytes peek
append-middle = refl

contents-append_example :
    (c : Buffer) × (append middle (7 ∷ 8 ∷ 9 ∷ []) ≡ some c)
    × (contents c ≡ 5 ∷ 6 ∷ 7 ∷ 8 ∷ 9 ∷ [])
    × IsValid c
contents-append_example = contents-append middle (7 ∷ 8 ∷ 9 ∷ []) (omega arith) (omega arith)

contents-unwrite_one :
    (c : Buffer) × (unwrite middle 1 ≡ some c) × (contents c ≡ 5 ∷ []) × IsValid c
unfolding readable_bytes
contents-unwrite_one = contents-unwrite middle 1 (omega arith) (omega arith)

contents-read_fd_example :
    (c : Buffer) × (read_fd middle (received (7 ∷ 8 ∷ 9 ∷ [])) 0 ≡ some (pos 3, 0, c))
    × (contents c ≡ 5 ∷ 6 ∷ 7 ∷ 8 ∷ 9 ∷ [])
    × IsValid c
unfolding iov_room writeable_bytes
contents-read_fd_example =
    contents-read_fd middle (7 ∷ 8 ∷ 9 ∷ []) 0 (omega arith) (omega arith) (omega arith)
