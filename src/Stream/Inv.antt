-- ===== src/Stream/Inv.antt =====
-- StreamBuffer: the invariant, the bytes that the ring holds, and what `used` and `unused` count.
use network_ydxlib.Base.{
  ℕ, ◌+◌, ◌-◌, ◌^◌, ◌≤◌, ◌<◌, ◌≡◌, ap, ◌∙◌, inl, inr, some, List, [], ◌++◌, arith, tests,
  Bool-cases, length, take, drop, ltb, if◌then◌else◌, length-append, length-take, length-drop,
  lt→ltb,
}
use network_ydxlib.Stream.{Stream, used, unused, alloc}

pub record IsValid (s : Stream) : Type 0 where
  pub in_inside : s.in_off ≤ s.size
  pub out_inside : s.out_off ≤ s.size
  pub block : length s.bytes ≡ s.size + 1
  pub small : s.size < 2 ^ 62

-- The bytes from the out offset round to the in offset.
abbrev pub contents : Stream → List ℕ
contents s =
    if ltb s.in_off s.out_off
    then drop s.out_off s.bytes ++ take s.in_off s.bytes
    else take (s.in_off - s.out_off) (drop s.out_off s.bytes)

-- The held bytes go round the end of the array.
abbrev pub IsWrapped : Stream → Type 0
IsWrapped s = s.in_off < s.out_off

pub used-straight : {s : Stream} → IsValid s → s.out_off ≤ s.in_off → used s ≡ s.in_off - s.out_off
unfolding used
used-straight v h = ground arith

pub used-wrapped : {s : Stream} → IsValid s → IsWrapped s → used s ≡ s.size + s.in_off - s.out_off
unfolding used
used-wrapped v h = ground arith

pub contents-straight :
    (s : Stream)
    → s.out_off ≤ s.in_off
    → contents s ≡ take (s.in_off - s.out_off) (drop s.out_off s.bytes)
contents-straight s h = elim (Bool-cases (ltb s.in_off s.out_off)) [
  | inl lt ↦ absurd (omega (tests, lt))
  | inr ge ↦ rw ge
]

pub contents-wrapped :
    (s : Stream) → IsWrapped s → contents s ≡ drop s.out_off s.bytes ++ take s.in_off s.bytes
contents-wrapped s h = rw (lt→ltb s.in_off s.out_off h)

pub length-straight :
    {s : Stream} → IsValid s → s.out_off ≤ s.in_off → length (contents s) ≡ s.in_off - s.out_off
length-straight {s} v h =
    ap length (contents-straight s h)
    ∙ omega (
      arith,
      v,
      length-take (s.in_off - s.out_off) (drop s.out_off s.bytes),
      length-drop s.out_off s.bytes,
    )

pub length-wrapped :
    {s : Stream} → IsValid s → IsWrapped s → length (contents s) ≡ s.size + 1 + s.in_off - s.out_off
length-wrapped {s} v h =
    ap length (contents-wrapped s h)
    ∙ omega (
      arith,
      v,
      length-append (drop s.out_off s.bytes) (take s.in_off s.bytes),
      length-take s.in_off s.bytes,
      length-drop s.out_off s.bytes,
    )

-- `used` counts the held bytes where they do not go round the end of the array, and one too few
-- where they do; so `unused` then counts one byte too many.
pub used-contents :
    (s : Stream)
    → IsValid s
    → used s + (if ltb s.in_off s.out_off then 1 else 0) ≡ length (contents s)
used-contents s v = elim (Bool-cases (ltb s.in_off s.out_off)) [
  | inl lt ↦
      let h : IsWrapped s = omega (tests, lt) in
      ap (λ b. used s + (if b then 1 else 0)) lt
      ∙ omega (arith, used-wrapped v h, length-wrapped v h)
  | inr ge ↦
      let h : s.out_off ≤ s.in_off = ground arith in
      ap (λ b. used s + (if b then 1 else 0)) ge
      ∙ omega (arith, used-straight v h, length-straight v h)
]

pub unused_lem : {s : Stream} → IsValid s → unused s + used s ≡ s.size
unfolding unused used
unused_lem v = ground arith

pub IsValid-alloc :
    (s : Stream) (size : ℕ) (block : List ℕ)
    → s.in_off ≡ 0
    → s.out_off ≡ 0
    → size < 2 ^ 62
    → length block ≡ size + 1
    → IsValid (alloc s size (some block)).1 × (contents (alloc s size (some block)).1 ≡ [])
unfolding alloc
IsValid-alloc s size block i o h e = ground arith
