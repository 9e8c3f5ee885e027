-- ===== src/Buffer/Inv.antt =====
-- Buffer as a queue of bytes: its invariant, and what each operation does to the readable bytes.
use network_ydxlib.Base.{
  ℕ, ◌+◌, ◌-◌, ◌^◌, ◌≤◌, ◌<◌, ◌≡◌, refl, sym, ap, ◌∙◌, inl, inr, some, List, ◌++◌, arith,
  Bool-cases, length, take, drop, length-take, length-drop, ltb, tests,
}
use network_ydxlib.Base.Slices.{
  splice, length-splice, length-resize, drop-drop, drop-take, take-drop-splice, take-drop-resize,
  drop_all, resize,
}
use network_ydxlib.Base.Words.{add_size}
use network_ydxlib.Buffer.{
  Buffer, readable_bytes, writeable_bytes, prepend_bytes, peek, retrieve_all, retrieve, has_written,
  make_space, ensure_writeable_bytes, copy_to_write, append,
}

pub record IsValid (b : Buffer) : Type 0 where
  pub ordered : b.reader_index ≤ b.writer_index
  pub inside : b.writer_index ≤ length b.bytes
  pub small : length b.bytes < 2 ^ 63

-- The bytes that have been appended and not yet retrieved.
abbrev pub contents : Buffer → List ℕ
contents b = take (b.writer_index - b.reader_index) (drop b.reader_index b.bytes)

pub readable-eq : {b : Buffer} → IsValid b → readable_bytes b ≡ b.writer_index - b.reader_index
unfolding readable_bytes
readable-eq v = omega arith

pub writeable-eq : {b : Buffer} → IsValid b → writeable_bytes b ≡ length b.bytes - b.writer_index
unfolding writeable_bytes
writeable-eq v = omega arith

pub length-contents : {b : Buffer} → IsValid b → length (contents b) ≡ readable_bytes b
length-contents {b} v = omega (
  arith,
  readable-eq v,
  length-take (b.writer_index - b.reader_index) (drop b.reader_index b.bytes),
  length-drop b.reader_index b.bytes,
)

pub retrieve-IsValid : {b : Buffer} (len : ℕ) → IsValid b → IsValid (retrieve b len)
unfolding retrieve retrieve_all
retrieve-IsValid len v = ground (arith, readable-eq v)

contents-retrieve_in :
    (b : Buffer) (len r : ℕ)
    → r ≡ b.reader_index + len
    → r ≤ b.writer_index
    → take (b.writer_index - r) (drop r b.bytes) ≡ drop len (contents b)
contents-retrieve_in b len r e h =
    ap (take (b.writer_index - r)) (sym (drop-drop b.reader_index len r b.bytes e))
    ∙ sym (
        drop-take len (b.writer_index - r) (b.writer_index - b.reader_index)
          (drop b.reader_index b.bytes) (omega arith))

-- On a valid buffer `retrieve(len)` drops the first `len` readable bytes, all of them if there are
-- not so many, and keeps the indices in order.
pub contents-retrieve :
    (b : Buffer) (len : ℕ)
    → IsValid b
    → (contents (retrieve b len) ≡ drop len (contents b)) × IsValid (retrieve b len)
unfolding retrieve retrieve_all
contents-retrieve b len v = elim (Bool-cases (ltb len (readable_bytes b))) [
  | inl lt ↦ (
    rw lt (
        contents-retrieve_in b len (add_size b.reader_index len) (omega (tests, readable-eq v))
          (omega (tests, readable-eq v))),
    retrieve-IsValid len v,
  )
  | inr ge ↦ (
    rw ge (sym (drop_all (contents b) len (ground (arith, length-contents v)))),
    retrieve-IsValid len v,
  )
]

-- `make_space` keeps the readable bytes and makes room for `len` more, so that afterwards `append`
-- writes inside the array.
pub record Spaced (b : Buffer) (len : ℕ) (c : Buffer) : Type 0 where
  pub same : contents c ≡ contents b
  pub valid : IsValid c
  pub front : c.writer_index ≤ b.writer_index
  pub room : c.writer_index + len ≤ length c.bytes

make_space-grow :
    (b : Buffer) (len n : ℕ)
    → IsValid b
    → n ≡ b.writer_index + len
    → n < 2 ^ 63
    → length b.bytes ≤ n
    → Spaced b len (record b { bytes = resize b.bytes n 0 })
make_space-grow b len n v e h g = record {
  same =
      take-drop-resize b.reader_index (b.writer_index - b.reader_index) b.bytes n 0 (omega arith)
        (omega arith);
  valid = omega (arith, length-resize b.bytes n 0);
  front = omega arith;
  room = omega (arith, length-resize b.bytes n 0);
}

make_space-compact :
    (b : Buffer) (len : ℕ)
    → IsValid b
    → (b.writer_index - b.reader_index) + len ≤ length b.bytes
    → Spaced b len (record {
      bytes = splice b.bytes 0 (contents b);
      reader_index = 0;
      writer_index = b.writer_index - b.reader_index;
    })
make_space-compact b len v h = record {
  same =
      let e : b.writer_index - b.reader_index - 0 ≡ b.writer_index - b.reader_index = omega arith in
      rw e (
        take-drop-splice 0 0 0 (b.writer_index - b.reader_index) b.bytes (contents b) refl
          (omega (arith, length-contents v, readable-eq v))
          (omega (arith, length-contents v, readable-eq v)));
  valid = omega (arith, length-splice b.bytes 0 (contents b));
  front = omega arith;
  room = omega (arith, length-splice b.bytes 0 (contents b));
}

make_space-Spaced :
    (b : Buffer) (len : ℕ)
    → IsValid b
    → b.writer_index + len < 2 ^ 63
    → length b.bytes < b.writer_index + len
    → Spaced b len (make_space b len)
unfolding make_space prepend_bytes peek
make_space-Spaced b len v h g =
    elim (Bool-cases (ltb (add_size (writeable_bytes b) b.reader_index) (add_size len 0))) [
      | inl lt ↦ rw lt (
          make_space-grow b len (add_size b.writer_index len) v (omega arith) (omega arith)
            (omega arith))
      | inr ge ↦
          let e : add_size 0 (readable_bytes b) ≡ b.writer_index - b.reader_index =
            omega (arith, readable-eq v) in
          rw (ge, e, readable-eq v) (make_space-compact b len v (ground (arith, writeable-eq v)))
    ]

pub ensure-Spaced :
    (b : Buffer) (len : ℕ)
    → IsValid b
    → b.writer_index + len < 2 ^ 63
    → Spaced b len (ensure_writeable_bytes b len)
unfolding ensure_writeable_bytes
ensure-Spaced b len v h = elim (Bool-cases (ltb (writeable_bytes b) len)) [
  | inl lt ↦ rw lt (make_space-Spaced b len v h (omega (tests, writeable-eq v, lt)))
  | inr ge ↦ rw ge (record {
    same = refl;
    valid = v;
    front = omega arith;
    room = ground (arith, writeable-eq v);
  })
]

-- With room for them, bytes copied behind the write index become readable when the index moves.
pub fill_lem :
    (b : Buffer) (xs : List ℕ) (n : ℕ)
    → IsValid b
    → n ≡ b.writer_index + length xs
    → n ≤ length b.bytes
    → let c : Buffer = record b { bytes = splice b.bytes b.writer_index xs; writer_index = n } in
      (contents c ≡ contents b ++ xs) × IsValid c
fill_lem b xs n v e h = (
  take-drop-splice b.reader_index (b.writer_index - b.reader_index) b.writer_index
      (n - b.reader_index) b.bytes xs (omega arith) (omega arith) (omega arith),
  omega (arith, length-splice b.bytes b.writer_index xs),
)

write_lem :
    (b : Buffer) (xs : List ℕ)
    → IsValid b
    → b.writer_index + length xs ≤ length b.bytes
    → (c : Buffer) × (has_written (copy_to_write b xs) (length xs) ≡ some c)
      × (contents c ≡ contents b ++ xs)
      × IsValid c
unfolding has_written copy_to_write writeable_bytes
write_lem b xs v h =
    let (same, valid) = fill_lem b xs (b.writer_index + length xs) v refl h in
    (_, ground (arith, length-splice b.bytes b.writer_index xs), same, valid)

-- On a valid buffer `append` never fails its assertion, and adds exactly the given bytes behind
-- the readable ones, if the array can be indexed at all (2^63 is above what a vector can hold).
pub contents-append :
    (b : Buffer) (xs : List ℕ)
    → IsValid b
    → b.writer_index + length xs < 2 ^ 63
    → (c : Buffer) × (append b xs ≡ some c) × (contents c ≡ contents b ++ xs) × IsValid c
unfolding append
contents-append b xs v h =
    let s = ensure-Spaced b (length xs) v h in
    let (c, done, all, valid) =
      write_lem (ensure_writeable_bytes b (length xs)) xs s.valid s.room in
    (c, done, all ∙ ap (λ t. t ++ xs) s.same, valid)
