-- ===== src/Log/Decimal.antt =====
-- `convert`: the text of an integer reads back as that integer.
use network_ydxlib.Base.{
  ℕ, zero, suc, ◌+◌, ◌-◌, ◌/◌, ◌%◌, ◌^◌, ◌≤◌, ◌<◌, ◌≡◌, ◌≢◌, refl, sym, ap, leb, ◌&&◌, ◌∙◌, inl,
  inr, false, Bool-cases, Option, none, some, List, [], ◌∷◌, ◌++◌, ◌==◌, if◌then◌else◌, get_or,
  length, length-append, arith, append-nil, not-eq,
}
use network_ydxlib.Base.Int.{ℤ, pos, negsuc, pos_part, neg_part}
use network_ydxlib.Log.Numeral.{read_numeral, read_numeral-snoc}
use network_ydxlib.Log.{
  reverse, digits, digit_index, div_ten, is_zero, is_negative, convert_loop, convert,
}

abbrev pub decimal_digit : ℕ → Option ℕ
decimal_digit c = if leb 48 c && leb c 57 then some (c - 48) else none

abbrev pub read_decimal : List ℕ → Option ℕ
read_decimal xs = read_numeral 10 decimal_digit xs

abbrev pub read_natural : Option ℕ → Option ℤ
read_natural none = none
read_natural (some n) = some (pos n)

-- What follows a minus sign is not zero.
abbrev pub read_negative : Option ℕ → Option ℤ
read_negative none = none
read_negative (some zero) = none
read_negative (some (suc n)) = some (negsuc n)

-- A decimal numeral, or a minus sign and one that is not zero; `none` is a text that is neither.
abbrev pub read_integer : List ℕ → Option ℤ
read_integer [] = none
read_integer (c ∷ cs) =
    if c == 45 then read_negative (read_decimal cs) else read_natural (read_decimal (c ∷ cs))

abbrev magnitude : ℤ → ℕ
magnitude i = pos_part i + neg_part i

digit-index :
    (d : ℕ) → d < 10 → (get_or digits (9 + d) 0 ≡ 48 + d) × (get_or digits (9 - d) 0 ≡ 48 + d)
digit-index zero h = (refl, refl)
digit-index (suc zero) h = (refl, refl)
digit-index (suc (suc zero)) h = (refl, refl)
digit-index (suc (suc (suc zero))) h = (refl, refl)
digit-index (suc (suc (suc (suc zero)))) h = (refl, refl)
digit-index (suc (suc (suc (suc (suc zero))))) h = (refl, refl)
digit-index (suc (suc (suc (suc (suc (suc zero)))))) h = (refl, refl)
digit-index (suc (suc (suc (suc (suc (suc (suc zero))))))) h = (refl, refl)
digit-index (suc (suc (suc (suc (suc (suc (suc (suc zero)))))))) h = (refl, refl)
digit-index (suc (suc (suc (suc (suc (suc (suc (suc (suc zero))))))))) h = (refl, refl)
digit-index (suc (suc (suc (suc (suc (suc (suc (suc (suc (suc d)))))))))) h =
    absurd (omega (arith, h))

div_ten-magnitude : (i : ℤ) → magnitude (div_ten i) ≡ magnitude i / 10
unfolding div_ten
div_ten-magnitude i = ground arith

is_zero-magnitude : (i : ℤ) → is_zero i ≡ (magnitude i == 0)
unfolding is_zero
is_zero-magnitude i = ground arith

lsd-magnitude : (i : ℤ) → get_or digits (digit_index i) 0 ≡ 48 + magnitude i % 10
unfolding digit_index
lsd-magnitude (pos n) = ground (arith, (digit-index (n % 10) (omega arith)).0)
lsd-magnitude (negsuc n) = ground (arith, (digit-index (suc n % 10) (omega arith)).1)

decimal_digit-digit : (d : ℕ) → d < 10 → decimal_digit (48 + d) ≡ some d
decimal_digit-digit d h = ground (arith, h)

-- The digits of `m`, as the loop gives them.
record Digits (m k : ℕ) (ds : List ℕ) : Type 0 where
  value : read_decimal (reverse ds) ≡ some m
  short : length ds ≤ k

one-Digits : (m k : ℕ) → m / 10 ≡ 0 → Digits m (suc k) ((48 + m % 10) ∷ [])
one-Digits m k e = record {
  value = decimal_digit-digit (m % 10) (omega arith) ∙ ap some (omega (arith, e));
  short = omega arith;
}

more-Digits :
    (m k : ℕ) (ds : List ℕ)
    → m / 10 ≢ 0
    → Digits (m / 10) k ds
    → Digits m (suc k) ((48 + m % 10) ∷ ds)
more-Digits m k ds nz d = record {
  value =
      read_numeral-snoc 10 decimal_digit (m / 10) (48 + m % 10) (m % 10) (reverse ds) refl
        (decimal_digit-digit (m % 10) (omega arith)) nz d.value
      ∙ ap some (omega arith);
  short = omega (arith, d.short);
}

convert_loop-step :
    (k m : ℕ) (i : ℤ)
    → magnitude i ≡ m
    → ((m / 10 == 0) ≡ false
        → (ds : List ℕ) × (convert_loop k (div_ten i) ≡ some ds) × Digits (m / 10) k ds)
    → (ds : List ℕ) × (convert_loop (suc k) i ≡ some ds) × Digits m (suc k) ds
unfolding convert_loop
convert_loop-step k m i q more =
    let lsd : get_or digits (digit_index i) 0 ≡ 48 + m % 10 =
      lsd-magnitude i ∙ ap (λ n. 48 + n % 10) q in
    let z : is_zero (div_ten i) ≡ (m / 10 == 0) =
      is_zero-magnitude (div_ten i) ∙ ap (λ n. n == 0) (div_ten-magnitude i ∙ ap (λ n. n / 10) q) in
    elim (Bool-cases (m / 10 == 0)) [
      | inl e ↦ rw (z, e, lsd) ((48 + m % 10) ∷ [], refl, one-Digits m k (ground (arith, e)))
      | inr e ↦
          let (ds, c, d) = more e in
          rw (z, e, c, lsd)
            ((48 + m % 10) ∷ ds, refl, more-Digits m k ds (λ q. absurd (ground (arith, e, q))) d)
    ]

convert_loop-Digits :
    (k m : ℕ) (i : ℤ)
    → magnitude i ≡ m
    → m < 10 ^ suc k
    → (ds : List ℕ) × (convert_loop (suc k) i ≡ some ds) × Digits m (suc k) ds
convert_loop-Digits zero m i q h =
    convert_loop-step zero m i q
      (λ e. let q0 : m / 10 ≡ 0 = omega (arith, h) in absurd (ground (arith, e, q0)))
convert_loop-Digits (suc k) m i q h = convert_loop-step (suc k) m i q (λ e.
    convert_loop-Digits k (m / 10) (div_ten i) (div_ten-magnitude i ∙ ap (λ n. n / 10) q)
      (omega (arith, h)))

reverse-snoc : (xs : List ℕ) (d : ℕ) → reverse (xs ++ (d ∷ [])) ≡ d ∷ reverse xs
reverse-snoc [] d = refl
reverse-snoc (x ∷ xs) d = ap (λ l. l ++ (x ∷ [])) (reverse-snoc xs d)

pub length-reverse : (xs : List ℕ) → length (reverse xs) ≡ length xs
length-reverse [] = refl
length-reverse (x ∷ xs) = omega (arith, length-append (reverse xs) (x ∷ []), length-reverse xs)

read_decimal-minus : (cs : List ℕ) → read_decimal (45 ∷ cs) ≡ none
read_decimal-minus [] = refl
read_decimal-minus (c ∷ cs) = refl

read_integer-unsigned :
    (cs : List ℕ) (n : ℕ) → read_decimal cs ≡ some n → read_integer cs ≡ some (pos n)
read_integer-unsigned [] n e = absurd (cc e)
read_integer-unsigned (c ∷ cs) n e =
    rw
      (not-eq c 45 (λ same.
        absurd (cc (sym (read_decimal-minus cs) ∙ ap (λ x. read_decimal (x ∷ cs)) (sym same) ∙ e))))
      (ap read_natural e)

convert-of :
    (v : ℤ) (ds : List ℕ)
    → convert_loop 20 v ≡ some ds
    → convert v ≡ some (reverse (ds ++ (if is_negative v then 45 ∷ [] else [])))
unfolding convert
convert-of v ds e =
    ap
      (λ (o : Option (List ℕ)). elim o [
        | none ↦ none
        | some ds ↦ some (reverse (ds ++ (if is_negative v then 45 ∷ [] else [])))
      ])
      e

-- `convert` ends for an integer of 64 bits, signed or not, and gives it in decimal: a numeral of digits
-- alone, at least one, with no zero ahead of others and behind a minus sign where the integer is
-- negative, that reads back as it. The text has at most 21 characters.
pub read_integer-convert :
    (v : ℤ)
    → pos_part v < 2 ^ 64
    → neg_part v ≤ 2 ^ 63
    → (xs : List ℕ) × (convert v ≡ some xs) × (read_integer xs ≡ some v) × (length xs ≤ 21)
unfolding is_negative
read_integer-convert (pos n) h g =
    let (ds, e, d) = convert_loop-Digits 19 n (pos n) (omega arith) (omega (arith, h)) in
    (
      reverse ds,
      convert-of (pos n) ds e ∙ ap (λ l. some (reverse l)) (append-nil ds),
      read_integer-unsigned (reverse ds) n d.value,
      omega (arith, length-reverse ds, d.short),
    )
read_integer-convert (negsuc n) h g =
    let (ds, e, d) = convert_loop-Digits 19 (suc n) (negsuc n) (omega arith) (omega (arith, g)) in
    (
      45 ∷ reverse ds,
      convert-of (negsuc n) ds e ∙ ap some (reverse-snoc ds 45),
      ap read_negative d.value,
      omega (arith, length-reverse ds, d.short),
    )
