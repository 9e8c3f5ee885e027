-- ===== src/Buffer.antt =====
-- class Buffer of buffer.h and buffer.cpp: a growing byte array with a read and a write index.
-- `none` is a failed `assert` (the Makefile does not define NDEBUG). That a growing vector throws
-- for want of memory is not modelled. `readv` is the environment's: its result is an argument.
pub mod Inv
pub mod Growth
pub mod ReadFd
mod Tests
use network_ydxlib.Base.{
  ℕ, ◌+◌, ◌-◌, ◌≡◌, Bool, Option, none, some, List, ltb, leb, if◌then◌else◌, length, take, drop,
  replicate,
}
use network_ydxlib.Base.Int.{ℤ, pos, negsuc}
use network_ydxlib.Base.Slices.{splice, resize}
use network_ydxlib.Base.Words.{add_size, sub_size, int_of_size, size_of_int}

pub record Buffer : Type 0 where
  pub bytes : List ℕ
  pub reader_index : ℕ
  pub writer_index : ℕ

abbrev pub head_space : ℕ
head_space = 0

abbrev pub init_space : ℕ
init_space = 2048

pub init : ℕ → Buffer
init size = record {
  bytes = replicate (head_space + size) 0;
  reader_index = head_space;
  writer_index = head_space;
}

unfoldable pub readable_bytes : Buffer → ℕ
readable_bytes b = sub_size b.writer_index b.reader_index

unfoldable pub writeable_bytes : Buffer → ℕ
writeable_bytes b = sub_size (length b.bytes) b.writer_index

unfoldable pub prepend_bytes : Buffer → ℕ
prepend_bytes b = b.reader_index

-- The bytes from `peek()` on, `len` of them.
unfoldable pub peek : Buffer → ℕ → List ℕ
peek b len = take len (drop b.reader_index b.bytes)

unfoldable pub retrieve_all : Buffer → Buffer
retrieve_all b = record b { reader_index = head_space; writer_index = head_space }

unfoldable pub retrieve : Buffer → ℕ → Buffer
retrieve b len =
    if ltb len (readable_bytes b)
    then record b { reader_index = add_size b.reader_index len }
    else retrieve_all b

unfoldable pub retrieve_string : Buffer → ℕ → List ℕ × Buffer
retrieve_string b len = (peek b len, retrieve b len)

unfoldable pub has_written : Buffer → ℕ → Option Buffer
has_written b len =
    if leb len (writeable_bytes b)
    then some (record b { writer_index = add_size b.writer_index len })
    else none

unfoldable pub unwrite : Buffer → ℕ → Option Buffer
unwrite b len =
    if leb len (readable_bytes b)
    then some (record b { writer_index = sub_size b.writer_index len })
    else none

-- The readable bytes move to the front, if the space there and behind them is enough.
unfoldable pub make_space : Buffer → ℕ → Buffer
make_space b len =
    if ltb (add_size (writeable_bytes b) (prepend_bytes b)) (add_size len head_space)
    then record b { bytes = resize b.bytes (add_size b.writer_index len) 0 }
    else record {
      bytes = splice b.bytes head_space (peek b (readable_bytes b));
      reader_index = head_space;
      writer_index = add_size head_space (readable_bytes b);
    }

unfoldable pub ensure_writeable_bytes : Buffer → ℕ → Buffer
ensure_writeable_bytes b len = if ltb (writeable_bytes b) len then make_space b len else b

-- `std::copy` to `begin_write()`.
unfoldable pub copy_to_write : Buffer → List ℕ → Buffer
copy_to_write b xs = record b { bytes = splice b.bytes b.writer_index xs }

unfoldable pub append : Buffer → List ℕ → Option Buffer
append b xs = has_written (copy_to_write (ensure_writeable_bytes b (length xs)) xs) (length xs)

-- The view that `to_string_piece` makes: its length goes through an `int`.
unfoldable pub to_string_piece : Buffer → List ℕ
to_string_piece b = peek b (size_of_int (int_of_size (readable_bytes b)))

unfoldable pub swap : Buffer × Buffer → Buffer × Buffer
swap p = (p.1, p.0)

unfoldable pub shrink : Buffer → ℕ → Option Buffer
shrink b reserve =
    elim (append (ensure_writeable_bytes (init init_space) (add_size (readable_bytes b) reserve))
      (to_string_piece b)) [ none ↦ none | some other ↦ some (swap (b, other)).0 ]

-- What `readv` gives: the bytes that it stored, or an error number.
pub data Readv : Type 0 where
  received : List ℕ → Readv
  failed : ℕ → Readv

abbrev pub extra_size : ℕ
extra_size = 65535

-- The room in the one or two parts of `vec`.
unfoldable pub iov_room : Buffer → ℕ
iov_room b =
    if ltb (writeable_bytes b) extra_size then writeable_bytes b + extra_size else writeable_bytes b

-- `readv` fills the array behind the write index, then `extra_buf`. The result is what is
-- returned, `*savedErrno` (given its old value) and the buffer.
unfoldable pub read_fd : Buffer → Readv → ℕ → Option (ℤ × ℕ × Buffer)
read_fd b (failed e) saved = some (negsuc 0, e, b)
read_fd b (received inp) saved =
    let room = writeable_bytes b in
    let b' = copy_to_write b (take room inp) in
    if leb (length inp) room
    then some (
      pos (length inp),
      saved,
      record b' { writer_index = add_size b'.writer_index (length inp) },
    )
    else elim (append (record b' { writer_index = length b'.bytes })
        (take (length inp - room) (drop room inp))) [
          | none ↦ none
          | some c ↦ some (pos (length inp), saved, c)
        ]
