-- ===== src/Stream/Ring.antt =====
-- StreamBuffer: `copy_in_must` puts bytes behind those that the ring holds.
use network_ydxlib.Base.{
  ℕ, ◌+◌, ◌-◌, ◌%◌, ◌≤◌, ◌<◌, ◌≡◌, refl, sym, ap, ap₂, ◌∙◌, some, List, ◌++◌, arith, length, take,
  drop, length-take, length-drop, append_assoc, take-append-drop,
}
use native.Mathlib.Decide.{dec_lt, dec_le}
use native.Mathlib.Nat.{mod-eq_of_lt, mod-eq-sub-mod}
use network_ydxlib.Base.Slices.{
  splice, overwrite-nil, take-nil, length-splice, take_all, drop_all, take-drop-splice,
  drop-splice_below,
}
use network_ydxlib.Base.Words.{add_size}
use network_ydxlib.Stream.{Stream, unused, to_end, copy_in, advance_in, copy_in_must}
use network_ydxlib.Stream.Inv.{
  IsValid, contents, contents-straight, contents-wrapped, length-straight, length-wrapped,
  unused_lem, used-contents,
}

-- `(off + len) % (size_ + 1)`, on either side of the end of the array.
pub step_inside :
    (s : Stream) (off len : ℕ)
    → IsValid s
    → off + len ≤ s.size
    → add_size off len % add_size s.size 1 ≡ off + len
step_inside s off len v h =
    let e : add_size off len ≡ off + len = omega arith in
    let f : add_size s.size 1 ≡ s.size + 1 = omega arith in rw (e, f) (mod-eq_of_lt (omega arith))

pub step_round :
    (s : Stream) (off len j : ℕ)
    → IsValid s
    → off ≤ s.size
    → off + len ≡ s.size + 1 + j
    → j ≤ s.size
    → add_size off len % add_size s.size 1 ≡ j
step_round s off len j v o h g =
    let e : add_size off len ≡ s.size + 1 + j = omega arith in
    let f : add_size s.size 1 ≡ s.size + 1 = omega arith in
    let d : s.size + 1 + j - (s.size + 1) ≡ j = omega arith in
    rw (e, f) (mod-eq-sub-mod (omega arith) ∙ rw d (mod-eq_of_lt (omega arith)))

module _ (s : Stream) (xs : List ℕ) where
  -- The ring after bytes were copied in, by the bytes of the array and the new in offset.
  abbrev pub moved : List ℕ → ℕ → Stream
  moved bytes i = record s { bytes = bytes; in_off = i }

  moved_wrapped :
      IsValid s
      → s.in_off + length xs < s.out_off
      → let t = moved (splice s.bytes s.in_off xs) (s.in_off + length xs) in
        contents t ≡ contents s ++ xs
  moved_wrapped v h =
      contents-wrapped (moved (splice s.bytes s.in_off xs) (s.in_off + length xs)) h
      ∙ ap₂ ◌++◌ (drop-splice_below s.out_off s.in_off s.bytes xs (omega arith)) (
          take-drop-splice 0 s.in_off s.in_off (s.in_off + length xs) s.bytes xs (omega arith) refl
            (omega (arith, v)))
      ∙ sym (append_assoc (drop s.out_off s.bytes) (take s.in_off s.bytes) xs)
      ∙ ap (λ t. t ++ xs) (sym (contents-wrapped s (omega arith)))

  moved_straight :
      IsValid s
      → s.out_off ≤ s.in_off
      → s.in_off + length xs ≤ s.size
      → let t = moved (splice s.bytes s.in_off xs) (s.in_off + length xs) in
        contents t ≡ contents s ++ xs
  moved_straight v o h =
      contents-straight (moved (splice s.bytes s.in_off xs) (s.in_off + length xs)) (omega arith)
      ∙ take-drop-splice s.out_off (s.in_off - s.out_off) s.in_off
          (s.in_off + length xs - s.out_off) s.bytes xs (omega arith) (omega arith)
          (omega (arith, v))
      ∙ ap (λ t. t ++ xs) (sym (contents-straight s o))

  -- The bytes that reach the end, and those that go on at the start.
  moved_round :
      (l j : ℕ)
      → IsValid s
      → s.out_off ≤ s.in_off
      → s.in_off + l ≡ s.size + 1
      → l + j ≡ length xs
      → j < s.out_off
      → let t = moved (splice (splice s.bytes s.in_off (take l xs)) 0 (drop l xs)) j in
        contents t ≡ contents s ++ xs
  moved_round l j v o e f h =
      let lt = length-take l xs in
      let ld = length-drop l xs in
      let first : List ℕ = splice s.bytes s.in_off (take l xs) in
      let lf : length first ≡ length s.bytes = length-splice s.bytes s.in_off (take l xs) in
      let upper : drop s.out_off first ≡ contents s ++ take l xs =
        sym (
          take_all (drop s.out_off first) (s.size + 1 - s.out_off)
            (omega (arith, v, length-drop s.out_off first)))
        ∙ take-drop-splice s.out_off (s.in_off - s.out_off) s.in_off (s.size + 1 - s.out_off)
            s.bytes (take l xs) (omega arith) (omega arith) (omega (arith, v))
        ∙ ap (λ t. t ++ take l xs) (sym (contents-straight s o)) in
      contents-wrapped (moved (splice first 0 (drop l xs)) j) h
      ∙ ap₂ ◌++◌ (drop-splice_below s.out_off 0 first (drop l xs) (omega arith) ∙ upper)
          (take-drop-splice 0 0 0 j first (drop l xs) refl (omega arith) (omega (arith, v)))
      ∙ append_assoc (contents s) (take l xs) (drop l xs)
      ∙ ap (λ t. contents s ++ t) (take-append-drop l xs)

-- The ring that `copy_in` and the new offset make up.
pub pushed : Stream → List ℕ → Stream
pushed s xs = advance_in (copy_in s xs (length xs)) (length xs)

pub pushed-kept :
    (s : Stream) (xs : List ℕ) → ((pushed s xs).size ≡ s.size) × ((pushed s xs).out_off ≡ s.out_off)
unfolding pushed advance_in copy_in
pushed-kept s xs = (refl, refl)

-- With one `memcpy`, and with two.
pub pushed-one :
    (s : Stream) (xs : List ℕ)
    → IsValid s
    → s.in_off + length xs ≤ s.size
    → pushed s xs ≡ moved s xs (splice s.bytes s.in_off xs) (s.in_off + length xs)
unfolding pushed advance_in copy_in to_end
pushed-one s xs v h =
    let l : to_end s s.in_off (length xs) ≡ length xs = omega arith in
    rw (
      l,
      take_all xs (length xs) (omega arith),
      drop_all xs (length xs) (omega arith),
      take-nil {A = ℕ} (length xs - length xs),
      overwrite-nil,
      step_inside s s.in_off (length xs) v h,
    )

pushed-two :
    (s : Stream) (xs : List ℕ) (l j : ℕ)
    → IsValid s
    → s.in_off + l ≡ s.size + 1
    → l + j ≡ length xs
    → j ≤ s.size
    → pushed s xs ≡ moved s xs (splice (splice s.bytes s.in_off (take l xs)) 0 (drop l xs)) j
unfolding pushed advance_in copy_in to_end
pushed-two s xs l j v e f h =
    let q : to_end s s.in_off (length xs) ≡ l = omega (arith, v) in
    rw (
      q,
      take_all (drop l xs) (length xs - l) (omega (arith, length-drop l xs)),
      step_round s s.in_off (length xs) j v v.in_inside (omega arith) h,
    )

pushed-IsValid :
    (s : Stream) (xs : List ℕ) (bytes : List ℕ) (i : ℕ)
    → IsValid s
    → pushed s xs ≡ moved s xs bytes i
    → length bytes ≡ length s.bytes
    → i ≤ s.size
    → IsValid (pushed s xs)
pushed-IsValid s xs bytes i v e g h = rw e (omega (arith, v))

-- What is pushed stands behind what the ring held, if there is room: one byte stays free.
pub contents-pushed :
    (s : Stream) (xs : List ℕ)
    → IsValid s
    → length (contents s) + length xs ≤ s.size
    → (contents (pushed s xs) ≡ contents s ++ xs) × IsValid (pushed s xs)
contents-pushed s xs v h = elim (dec_lt s.in_off s.out_off) [
  | yes w ↦
      let room : s.in_off + length xs < s.out_off = omega (arith, length-wrapped v w) in
      let e = pushed-one s xs v (omega (arith, v)) in
      (
        ap contents e ∙ moved_wrapped s xs v room,
        pushed-IsValid s xs _ _ v e (length-splice s.bytes s.in_off xs) (omega (arith, v)),
      )
  | no nw ↦ elim (dec_le (s.in_off + length xs) s.size) [
    | yes fits ↦
        let o : s.out_off ≤ s.in_off = omega arith in
        let e = pushed-one s xs v fits in
        (
          ap contents e ∙ moved_straight s xs v o fits,
          pushed-IsValid s xs _ _ v e (length-splice s.bytes s.in_off xs) fits,
        )
    | no over ↦
        let o : s.out_off ≤ s.in_off = omega arith in
        let l : ℕ = s.size + 1 - s.in_off in
        let j : ℕ = length xs - l in
        let first : List ℕ = splice s.bytes s.in_off (take l xs) in
        let held = length-straight v o in
        let e = pushed-two s xs l j v (omega (arith, v)) (omega (arith, v)) (omega (arith, v)) in
        (
          ap contents e
              ∙ moved_round s xs l j v o (omega (arith, v)) (omega (arith, v)) (omega (arith, v)),
          pushed-IsValid s xs _ _ v e
              (length-splice first 0 (drop l xs) ∙ length-splice s.bytes s.in_off (take l xs))
              (omega (arith, v)),
        )
  ]
]

pub copy_in_must-pushed :
    (s : Stream) (xs : List ℕ)
    → length xs ≤ unused s
    → copy_in_must s (some xs) (length xs) ≡ (length xs, pushed s xs)
unfolding copy_in_must pushed
copy_in_must-pushed s xs h = ground arith

-- What fits with one byte to spare is accepted.
pub le-unused : (s : Stream) (n : ℕ) → IsValid s → length (contents s) + n ≤ s.size → n ≤ unused s
le-unused s n v h = ground (arith, used-contents s v, unused_lem v)

-- If a valid ring has room for all the bytes with one byte to spare, `copy_in_must` takes them,
-- puts them behind those that it held, and keeps the offsets inside the array.
pub contents-copy_in_must :
    (s : Stream) (xs : List ℕ)
    → IsValid s
    → length (contents s) + length xs ≤ s.size
    → let (n, t) = copy_in_must s (some xs) (length xs) in
      (n ≡ length xs) × (contents t ≡ contents s ++ xs) × IsValid t
contents-copy_in_must s xs v h =
    rw (copy_in_must-pushed s xs (le-unused s (length xs) v h))
      (refl, (contents-pushed s xs v h).0, (contents-pushed s xs v h).1)
