-- ===== src/Log/Hex.antt =====
-- `convertHex`: the text of an address reads back as it.
use network_ydxlib.Base.{
  ℕ, zero, suc, ◌-◌, ◌/◌, ◌%◌, ◌^◌, ◌≤◌, ◌<◌, ◌≡◌, ◌≢◌, refl, ap, leb, ◌&&◌, ◌∙◌, inl, inr, false,
  Bool-cases, Option, none, some, List, [], ◌∷◌, ◌==◌, if◌then◌else◌, get_or, length, arith,
}
use network_ydxlib.Log.Numeral.{read_numeral, read_numeral-snoc}
use network_ydxlib.Log.{reverse, digits_hex, convert_hex_loop, convert_hex}
use network_ydxlib.Log.Decimal.{length-reverse}

-- The digits are 0 to 9 and A to F.
abbrev pub hex_digit : ℕ → Option ℕ
hex_digit c =
    if leb 48 c && leb c 57
    then some (c - 48)
    else if leb 65 c && leb c 70
    then some (c - 55)
    else none

abbrev pub read_hex : List ℕ → Option ℕ
read_hex xs = read_numeral 16 hex_digit xs

hex_digit-digit : (d : ℕ) → d < 16 → hex_digit (get_or digits_hex d 0) ≡ some d
hex_digit-digit zero h = refl
hex_digit-digit (suc zero) h = refl
hex_digit-digit (suc (suc zero)) h = refl
hex_digit-digit (suc (suc (suc zero))) h = refl
hex_digit-digit (suc (suc (suc (suc zero)))) h = refl
hex_digit-digit (suc (suc (suc (suc (suc zero))))) h = refl
hex_digit-digit (suc (suc (suc (suc (suc (suc zero)))))) h = refl
hex_digit-digit (suc (suc (suc (suc (suc (suc (suc zero))))))) h = refl
hex_digit-digit (suc (suc (suc (suc (suc (suc (suc (suc zero)))))))) h = refl
hex_digit-digit (suc (suc (suc (suc (suc (suc (suc (suc (suc zero))))))))) h = refl
hex_digit-digit (suc (suc (suc (suc (suc (suc (suc (suc (suc (suc zero)))))))))) h = refl
hex_digit-digit (suc (suc (suc (suc (suc (suc (suc (suc (suc (suc (suc zero))))))))))) h = refl
hex_digit-digit (suc (suc (suc (suc (suc (suc (suc (suc (suc (suc (suc (suc zero)))))))))))) h =
    refl
hex_digit-digit (suc (suc (suc (suc (suc (suc (suc (suc (suc (suc (suc (suc (suc zero)))))))))))))
      h =
    refl
hex_digit-digit
      (suc (suc (suc (suc (suc (suc (suc (suc (suc (suc (suc (suc (suc (suc zero)))))))))))))) h =
    refl
hex_digit-digit
      (suc (suc (suc (suc (suc (suc (suc (suc (suc (suc (suc (suc (suc (suc (suc zero)))))))))))))))
      h =
    refl
hex_digit-digit
      (suc
        (suc (suc (suc (suc (suc (suc (suc (suc (suc (suc (suc (suc (suc (suc (suc d))))))))))))))))
      h =
    absurd (omega (arith, h))

-- The digits of `m`, as the loop gives them.
record Digits (m k : ℕ) (ds : List ℕ) : Type 0 where
  value : read_hex (reverse ds) ≡ some m
  short : length ds ≤ k

more-Digits :
    (m k : ℕ) (ds : List ℕ)
    → m / 16 ≢ 0
    → Digits (m / 16) k ds
    → Digits m (suc k) (get_or digits_hex (m % 16) 0 ∷ ds)
more-Digits m k ds nz d = record {
  value =
      read_numeral-snoc 16 hex_digit (m / 16) (get_or digits_hex (m % 16) 0) (m % 16) (reverse ds)
        refl (hex_digit-digit (m % 16) (omega arith)) nz d.value
      ∙ ap some (omega arith);
  short = omega (arith, d.short);
}

one-Digits : (m k : ℕ) → m / 16 ≡ 0 → Digits m (suc k) (get_or digits_hex (m % 16) 0 ∷ [])
one-Digits m k e = record {
  value = hex_digit-digit (m % 16) (omega arith) ∙ ap some (omega (arith, e));
  short = omega arith;
}

convert_hex_loop-step :
    (k m : ℕ)
    → ((m / 16 == 0) ≡ false
        → (ds : List ℕ) × (convert_hex_loop k (m / 16) ≡ some ds) × Digits (m / 16) k ds)
    → (ds : List ℕ) × (convert_hex_loop (suc k) m ≡ some ds) × Digits m (suc k) ds
unfolding convert_hex_loop
convert_hex_loop-step k m more = elim (Bool-cases (m / 16 == 0)) [
  | inl e ↦ rw e (get_or digits_hex (m % 16) 0 ∷ [], refl, one-Digits m k (ground (arith, e)))
  | inr e ↦
      let (ds, c, d) = more e in
      rw (e, c)
        (
          get_or digits_hex (m % 16) 0 ∷ ds,
          refl,
          more-Digits m k ds (λ q. absurd (ground (arith, e, q))) d,
        )
]

convert_hex_loop-Digits :
    (k m : ℕ)
    → m < 16 ^ suc k
    → (ds : List ℕ) × (convert_hex_loop (suc k) m ≡ some ds) × Digits m (suc k) ds
convert_hex_loop-Digits zero m h =
    convert_hex_loop-step zero m
      (λ e. let q0 : m / 16 ≡ 0 = omega (arith, h) in absurd (ground (arith, e, q0)))
convert_hex_loop-Digits (suc k) m h =
    convert_hex_loop-step (suc k) m (λ e. convert_hex_loop-Digits k (m / 16) (omega (arith, h)))

convert_hex-of :
    (v : ℕ) (ds : List ℕ) → convert_hex_loop 16 v ≡ some ds → convert_hex v ≡ some (reverse ds)
unfolding convert_hex
convert_hex-of v ds e =
    ap (λ (o : Option (List ℕ)). elim o [ none ↦ none | some ds ↦ some (reverse ds) ]) e

-- `convertHex` ends for an address of 64 bits, and gives it in hexadecimal: a numeral of digits alone,
-- at least one, with no zero ahead of others, that reads back as it. The text has at most 16
-- characters.
pub read_hex-convert_hex :
    (v : ℕ)
    → v < 2 ^ 64
    → (xs : List ℕ) × (convert_hex v ≡ some xs) × (read_hex xs ≡ some v) × (length xs ≤ 16)
read_hex-convert_hex v h =
    let (ds, e, d) = convert_hex_loop-Digits 15 v (omega (arith, h)) in
    (reverse ds, convert_hex-of v ds e, d.value, omega (arith, length-reverse ds, d.short))
