-- ===== src/Stream/Out.antt =====
-- StreamBuffer: `copy_out_must` and `has_read` take bytes from the front of those that it holds.
use network_ydxlib.Base.{
  ℕ, ◌+◌, ◌-◌, ◌≤◌, ◌≡◌, refl, sym, ap, ◌∙◌, ◌++◌, arith, not-ltb, length, take, drop, length-drop,
  true, min, append-nil,
}
use native.Mathlib.Decide.{dec_lt, dec_le}
use network_ydxlib.Base.Slices.{
  take_all, take-take, take-append, drop-append, take-append_over, drop-append_over, drop-drop,
  drop-take,
}
use network_ydxlib.Stream.{
  Stream, used, to_end, copy_out, advance_out, copy_out_must, has_read, peek_out_must,
}
use network_ydxlib.Stream.Inv.{
  IsValid, contents, used-straight, used-wrapped, contents-straight, contents-wrapped,
  length-straight, length-wrapped, used-contents,
}
use network_ydxlib.Stream.Ring.{step_inside, step_round}

module _ (s : Stream) (len : ℕ) (v : IsValid s) where
  to_end-eq : to_end s s.out_off len ≡ min len (s.size + 1 - s.out_off)
  unfolding to_end
  to_end-eq = omega arith

  copy_out-one : len ≤ s.size + 1 - s.out_off → copy_out s len ≡ take len (drop s.out_off s.bytes)
  unfolding copy_out
  copy_out-one h =
      let l : to_end s s.out_off len ≡ len = omega (arith, to_end-eq) in
      let z : len - len ≡ 0 = omega arith in
      rw (l, z) (append-nil (take len (drop s.out_off s.bytes)))

  copy_out-two :
      (k : ℕ)
      → s.size + 1 + k ≡ s.out_off + len
      → copy_out s len ≡ drop s.out_off s.bytes ++ take k s.bytes
  unfolding copy_out
  copy_out-two k e =
      let l : to_end s s.out_off len ≡ s.size + 1 - s.out_off = omega (arith, to_end-eq) in
      let z : len - (s.size + 1 - s.out_off) ≡ k = omega (arith, v) in
      rw (l, z)
        (ap (λ t. t ++ take k s.bytes)
          (take_all (drop s.out_off s.bytes) (s.size + 1 - s.out_off)
            (omega (arith, v, length-drop s.out_off s.bytes))))

  -- The bytes copied out are the first `len` that the ring holds.
  pub copy_out-contents : len ≤ length (contents s) → copy_out s len ≡ take len (contents s)
  copy_out-contents h = elim (dec_lt s.in_off s.out_off) [
    | yes w ↦
        let held = length-wrapped v w in
        let upper = length-drop s.out_off s.bytes in
        elim (dec_le len (s.size + 1 - s.out_off)) [
          | yes one ↦
              copy_out-one one
              ∙ sym (
                  take-append len (drop s.out_off s.bytes) (take s.in_off s.bytes)
                    (omega (arith, v)))
              ∙ ap (take len) (sym (contents-wrapped s w))
          | no two ↦
              let k : ℕ = s.out_off + len - (s.size + 1) in
              copy_out-two k (omega arith)
              ∙ ap (λ t. drop s.out_off s.bytes ++ t)
                  (sym (take-take k s.in_off s.bytes (omega (arith, v))))
              ∙ sym (
                  take-append_over len k (drop s.out_off s.bytes) (take s.in_off s.bytes)
                    (omega (arith, v)))
              ∙ ap (take len) (sym (contents-wrapped s w))
        ]
    | no nw ↦
        let o : s.out_off ≤ s.in_off = omega arith in
        let held = length-straight v o in
        copy_out-one (omega (arith, v))
        ∙ sym (take-take len (s.in_off - s.out_off) (drop s.out_off s.bytes) (omega (arith, v)))
        ∙ ap (take len) (sym (contents-straight s o))
  ]

  abbrev from : ℕ → Stream
  from o = record s { out_off = o }

  -- The out offset moved over `len` of the bytes held.
  pub contents-advance_out :
      len ≤ length (contents s)
      → (contents (advance_out s len) ≡ drop len (contents s)) × IsValid (advance_out s len)
  unfolding advance_out
  contents-advance_out h = elim (dec_lt s.in_off s.out_off) [
    | yes w ↦
        let held = length-wrapped v w in
        let upper = length-drop s.out_off s.bytes in
        elim (dec_le (s.out_off + len) s.size) [
          | yes inside ↦ rw (step_inside s s.out_off len v inside) (
            contents-wrapped (from (s.out_off + len)) (omega arith)
                ∙ ap (λ t. t ++ take s.in_off s.bytes)
                    (sym (drop-drop s.out_off len (s.out_off + len) s.bytes refl))
                ∙ sym (
                    drop-append len (drop s.out_off s.bytes) (take s.in_off s.bytes)
                      (omega (arith, v)))
                ∙ ap (drop len) (sym (contents-wrapped s w)),
            omega (arith, v),
          )
          | no round ↦
              let j : ℕ = s.out_off + len - (s.size + 1) in
              rw (step_round s s.out_off len j v v.out_inside (omega arith) (omega (arith, v))) (
                contents-straight (from j) (omega (arith, v))
                    ∙ sym (drop-take j (s.in_off - j) s.in_off s.bytes (omega (arith, v)))
                    ∙ sym (
                        drop-append_over len j (drop s.out_off s.bytes) (take s.in_off s.bytes)
                          (omega (arith, v)))
                    ∙ ap (drop len) (sym (contents-wrapped s w)),
                omega (arith, v),
              )
        ]
    | no nw ↦
        let o : s.out_off ≤ s.in_off = omega arith in
        let held = length-straight v o in
        rw (step_inside s s.out_off len v (omega (arith, v))) (
          contents-straight (from (s.out_off + len)) (omega (arith, v))
              ∙ ap (take (s.in_off - (s.out_off + len)))
                  (sym (drop-drop s.out_off len (s.out_off + len) s.bytes refl))
              ∙ sym (
                  drop-take len (s.in_off - (s.out_off + len)) (s.in_off - s.out_off)
                    (drop s.out_off s.bytes) (omega (arith, v)))
              ∙ ap (drop len) (sym (contents-straight s o)),
          omega (arith, v),
        )
  ]

pub used-le : {s : Stream} (len : ℕ) → IsValid s → len ≤ used s → len ≤ length (contents s)
used-le {s} len v h = ground (arith, used-contents s v)

-- As many bytes of a valid ring as `used` counts can be taken: they are the first that the ring
-- held, and those behind them stay.
pub contents-copy_out_must :
    (s : Stream) (len : ℕ)
    → IsValid s
    → len ≤ used s
    → let (n, xs, t) = copy_out_must s true len in
      (n ≡ len) × (xs ≡ take len (contents s)) × (contents t ≡ drop len (contents s)) × IsValid t
unfolding copy_out_must
contents-copy_out_must s len v h =
    let within = used-le len v h in
    let moved = contents-advance_out s len v within in
    rw (not-ltb (used s) len h) (refl, copy_out-contents s len v within, moved.0, moved.1)

pub has_read-advance :
    (s : Stream) (len : ℕ) → len ≤ used s → has_read s len ≡ (true, advance_out s len)
unfolding has_read
has_read-advance s len h = ground arith

pub peek_out_must-take :
    (s : Stream) (len : ℕ)
    → IsValid s
    → len ≤ used s
    → peek_out_must s true len ≡ (len, take len (contents s))
unfolding peek_out_must
peek_out_must-take s len v h =
    rw (not-ltb (used s) len h, copy_out-contents s len v (used-le len v h))

advance_out-inside :
    (s : Stream) (len : ℕ)
    → IsValid s
    → s.out_off + len ≤ s.size
    → ((advance_out s len).out_off ≡ s.out_off + len) × ((advance_out s len).in_off ≡ s.in_off)
unfolding advance_out
advance_out-inside s len v h = (step_inside s s.out_off len v h, refl)

-- Taking bytes takes no more than those away from what `used` counts.
pub used-advance_out :
    (s : Stream) (len : ℕ) → IsValid s → len ≤ used s → used s ≤ used (advance_out s len) + len
used-advance_out s len v h =
    let t : Stream = advance_out s len in
    let (left, tv) = contents-advance_out s len v (used-le len v h) in
    let count = ap length left ∙ length-drop len (contents s) in
    elim (dec_lt s.in_off s.out_off) [
      | yes w ↦ ground (arith, used-wrapped v w, length-wrapped v w, used-contents t tv, count)
      | no nw ↦
          let o : s.out_off ≤ s.in_off = omega arith in
          let (e, f) = advance_out-inside s len v (omega (arith, v, used-straight v o)) in
          omega (
            arith,
            used-straight v o,
            used-straight tv (omega (arith, e, f, used-straight v o)),
            e,
            f,
          )
    ]
