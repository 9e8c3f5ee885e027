-- ===== src/Buffer/ReadFd.antt =====
-- Buffer::read_fd: `readv` fills the free end of the array and a block on the stack, and what
-- went into the block is appended.
use network_ydxlib.Base.{
  ℕ, ◌+◌, ◌-◌, ◌^◌, ◌≤◌, ◌<◌, ◌≡◌, refl, ap, ◌∙◌, inl, inr, some, List, ◌++◌, arith, tests,
  Bool-cases, length, take, drop, leb, length-take, length-drop, take-append-drop, append_assoc,
}
use network_ydxlib.Base.Int.{pos}
use network_ydxlib.Base.Slices.{splice, length-splice, take_all}
use network_ydxlib.Buffer.{
  Buffer, writeable_bytes, copy_to_write, append, received, extra_size, iov_room, read_fd,
}
use network_ydxlib.Buffer.Inv.{IsValid, contents, writeable-eq, fill_lem, contents-append}

module _ (b : Buffer) (inp : List ℕ) (saved : ℕ) (v : IsValid b) where
  -- What is read fits behind the write index.
  read_fd-short :
      length inp ≤ writeable_bytes b
      → (c : Buffer) × (read_fd b (received inp) saved ≡ some (pos (length inp), saved, c))
        × (contents c ≡ contents b ++ inp)
        × IsValid c
  unfolding read_fd copy_to_write
  read_fd-short h =
      let n : ℕ = b.writer_index + length inp in
      let (same, valid) = fill_lem b inp n v refl (omega (arith, writeable-eq v)) in
      (
        record b { bytes = splice b.bytes b.writer_index inp; writer_index = n },
        ground (arith, take_all inp (writeable_bytes b) h, writeable-eq v),
        same,
        valid,
      )

  -- The array when the free end has been filled.
  filled : Buffer
  filled = record b {
    bytes = splice b.bytes b.writer_index (take (writeable_bytes b) inp);
    writer_index = length (splice b.bytes b.writer_index (take (writeable_bytes b) inp));
  }

  filled_lem :
      writeable_bytes b < length inp
      → (contents filled ≡ contents b ++ take (writeable_bytes b) inp)
        × IsValid filled
        × (length filled.bytes ≡ length b.bytes)
        × (filled.writer_index ≡ length b.bytes)
  unfolding filled
  filled_lem h =
      let size = length-splice b.bytes b.writer_index (take (writeable_bytes b) inp) in
      let (same, valid) =
        fill_lem b (take (writeable_bytes b) inp) filled.writer_index v
          (omega (arith, writeable-eq v, size, length-take (writeable_bytes b) inp))
          (omega (arith, size)) in
      (same, valid, size, size)

  read_fd-append :
      (c : Buffer)
      → writeable_bytes b < length inp
      → append filled (drop (writeable_bytes b) inp) ≡ some c
      → read_fd b (received inp) saved ≡ some (pos (length inp), saved, c)
  unfolding read_fd copy_to_write filled
  read_fd-append c h e = ground (
    arith,
    e,
    take_all (drop (writeable_bytes b) inp) (length inp - writeable_bytes b)
        (omega (arith, length-drop (writeable_bytes b) inp)),
  )

  -- Some of what is read went into the block on the stack.
  read_fd-long :
      writeable_bytes b < length inp
      → length inp ≤ writeable_bytes b + extra_size
      → length b.bytes + extra_size < 2 ^ 63
      → (c : Buffer) × (read_fd b (received inp) saved ≡ some (pos (length inp), saved, c))
        × (contents c ≡ contents b ++ inp)
        × IsValid c
  read_fd-long h top room =
      let (same, valid, _, full) = filled_lem h in
      let (c, done, all, cv) =
        contents-append filled (drop (writeable_bytes b) inp) valid
          (omega (arith, length-drop (writeable_bytes b) inp, full)) in
      (
        c,
        read_fd-append c h done,
        all
            ∙ ap (λ t. t ++ drop (writeable_bytes b) inp) same
            ∙ append_assoc (contents b) (take (writeable_bytes b) inp)
                (drop (writeable_bytes b) inp)
            ∙ ap (λ t. contents b ++ t) (take-append-drop (writeable_bytes b) inp),
        cv,
      )

-- With a valid buffer, whatever `readv` stores in the one or two parts of `vec` ends up, complete
-- and in order, behind the bytes that were readable before; the count returned is that of the
-- bytes read, and no assertion fails.
pub contents-read_fd :
    (b : Buffer) (inp : List ℕ) (saved : ℕ)
    → IsValid b
    → length inp ≤ iov_room b
    → length b.bytes + extra_size < 2 ^ 63
    → (c : Buffer) × (read_fd b (received inp) saved ≡ some (pos (length inp), saved, c))
      × (contents c ≡ contents b ++ inp)
      × IsValid c
unfolding iov_room
contents-read_fd b inp saved v h room = elim (Bool-cases (leb (length inp) (writeable_bytes b))) [
  | inl fits ↦ read_fd-short b inp saved v (omega (tests, fits))
  | inr over ↦ read_fd-long b inp saved v (ground arith) (ground arith) room
]
