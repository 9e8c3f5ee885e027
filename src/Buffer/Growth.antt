-- ===== src/Buffer/Growth.antt =====
-- Buffer: a fresh one, `unwrite`, when the array grows, and `shrink`.
use network_ydxlib.Base.{
  ℕ, ◌+◌, ◌-◌, ◌^◌, ◌≤◌, ◌<◌, ◌≡◌, sym, ap, ap₂, ◌∙◌, some, List, [], ◌++◌, arith, length, take,
  drop, length-replicate,
}
use network_ydxlib.Base.Slices.{length-splice, take-take}
use network_ydxlib.Base.Words.{add_size, size_of_int, int_of_size}
use network_ydxlib.Buffer.{
  Buffer, init, init_space, readable_bytes, prepend_bytes, unwrite, make_space,
  ensure_writeable_bytes, copy_to_write, has_written, append, to_string_piece, peek, shrink, swap,
}
use network_ydxlib.Buffer.Inv.{
  IsValid, Spaced, contents, readable-eq, writeable-eq, length-contents, ensure-Spaced,
  contents-append,
}

pub init_lem :
    (size : ℕ)
    → size < 2 ^ 63
    → IsValid (init size)
      × (contents (init size) ≡ [])
      × (length (init size).bytes ≡ size)
      × ((init size).writer_index ≡ 0)
unfolding init
init_lem size h = ground (arith, length-replicate {A = ℕ} (0 + size) 0)

-- `unwrite(len)` takes back the last `len` readable bytes.
pub contents-unwrite :
    (b : Buffer) (len : ℕ)
    → IsValid b
    → len ≤ readable_bytes b
    → (c : Buffer) × (unwrite b len ≡ some c)
      × (contents c ≡ take (readable_bytes b - len) (contents b))
      × IsValid c
unfolding unwrite
contents-unwrite b len v h = (
  record b { writer_index = b.writer_index - len },
  ground (arith, readable-eq v),
  let e : b.writer_index - len - b.reader_index ≡ readable_bytes b - len =
        omega (arith, readable-eq v) in
      ap (λ k. take k (drop b.reader_index b.bytes)) e
      ∙ sym (
          take-take (readable_bytes b - len) (b.writer_index - b.reader_index)
            (drop b.reader_index b.bytes) (omega (arith, readable-eq v))),
  omega (arith, readable-eq v),
)

ensure-size :
    (b : Buffer) (len : ℕ)
    → IsValid b
    → readable_bytes b + len ≤ length b.bytes
    → length (ensure_writeable_bytes b len).bytes ≡ length b.bytes
unfolding ensure_writeable_bytes make_space prepend_bytes
ensure-size b len v h =
    ground
      (arith, writeable-eq v, readable-eq v, length-splice b.bytes 0 (peek b (readable_bytes b)))

append-ensured :
    (b c : Buffer) (xs : List ℕ)
    → append b xs ≡ some c
    → length c.bytes ≡ length (ensure_writeable_bytes b (length xs)).bytes
unfolding append has_written copy_to_write
append-ensured b c xs e =
    let o : Buffer = ensure_writeable_bytes b (length xs) in
    ground (arith, length-splice o.bytes o.writer_index xs)

-- The array grows only if the free bytes in front of and behind the readable ones are not enough;
-- else `append` leaves its size alone.
pub append-size :
    (b c : Buffer) (xs : List ℕ)
    → IsValid b
    → readable_bytes b + length xs ≤ length b.bytes
    → append b xs ≡ some c
    → length c.bytes ≡ length b.bytes
append-size b c xs v h e = append-ensured b c xs e ∙ ensure-size b (length xs) v h

to_string_piece-contents :
    (b : Buffer) → IsValid b → readable_bytes b < 2 ^ 31 → to_string_piece b ≡ contents b
unfolding to_string_piece peek
to_string_piece-contents b v h =
    let e : size_of_int (int_of_size (readable_bytes b)) ≡ b.writer_index - b.reader_index =
      ground (arith, readable-eq v) in
    rw e

shrink-of :
    (b c : Buffer) (reserve : ℕ)
    → append
        (ensure_writeable_bytes (init init_space) (add_size (readable_bytes b) reserve))
        (to_string_piece b)
      ≡ some c
    → shrink b reserve ≡ some c
unfolding shrink swap
shrink-of b c reserve e = ground (arith, e)

-- `shrink(reserve)` keeps the readable bytes, if an `int` can count them, and leaves an array that
-- holds them and `reserve` bytes more.
pub shrink_lem :
    (b : Buffer) (reserve : ℕ)
    → IsValid b
    → readable_bytes b < 2 ^ 31
    → readable_bytes b + reserve < 2 ^ 63
    → (c : Buffer) × (shrink b reserve ≡ some c)
      × (contents c ≡ contents b)
      × (readable_bytes b + reserve ≤ length c.bytes)
      × IsValid c
shrink_lem b reserve v h g =
    let (iv, none_yet, _, at_start) = init_lem init_space (omega arith) in
    let n : ℕ = add_size (readable_bytes b) reserve in
    let s : Spaced (init init_space) n (ensure_writeable_bytes (init init_space) n) =
      ensure-Spaced (init init_space) n iv (omega arith) in
    let o : Buffer = ensure_writeable_bytes (init init_space) n in
    let piece = to_string_piece-contents b v h in
    let (c, done, all, cv) =
      contents-append o (to_string_piece b) s.valid
        (omega (arith, ap length piece, length-contents v, s)) in
    let same : contents c ≡ contents b = all ∙ ap₂ ◌++◌ (s.same ∙ none_yet) piece in
    let size =
      append-size o c (to_string_piece b) s.valid
        (omega (
          arith,
          ap length piece,
          length-contents v,
          length-contents s.valid,
          ap length (s.same ∙ none_yet),
          s,
        ))
        done in
    (c, shrink-of b c reserve done, same, omega (arith, size, s), cv)
