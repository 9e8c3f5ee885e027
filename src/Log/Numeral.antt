-- ===== src/Log/Numeral.antt =====
-- log_stream.cpp: what a numeral is, against which the text of `convert` and `convertHex` is read.
use network_ydxlib.Base.{
  ℕ, ◌+◌, ◌*◌, ◌≡◌, ◌≢◌, refl, sym, ap, ◌∙◌, inl, inr, false, Bool-cases, Option, none, some,
  some-inj, not-eq, List, [], ◌∷◌, ◌++◌, ◌==◌, if◌then◌else◌, arith,
}

abbrev pub and_then : Option ℕ → (ℕ → Option ℕ) → Option ℕ
and_then none f = none
and_then (some d) f = f d

-- The number whose digits go on after those of `acc`, from the first one; `digit` gives the value of a
-- digit, and nothing else may stand there.
abbrev pub read_digits : (base : ℕ) (digit : ℕ → Option ℕ) → ℕ → List ℕ → Option ℕ
read_digits base digit acc [] = some acc
read_digits base digit acc (c ∷ cs) =
    and_then (digit c) (λ d. read_digits base digit (acc * base + d) cs)

-- A numeral has a digit, and no zero ahead of others; `none` is a text that is not one.
abbrev pub read_numeral : (base : ℕ) (digit : ℕ → Option ℕ) → List ℕ → Option ℕ
read_numeral base digit [] = none
read_numeral base digit (c ∷ []) = digit c
read_numeral base digit (c ∷ d ∷ cs) =
    if c == 48 then none else read_digits base digit 0 (c ∷ d ∷ cs)

and_then-some :
    (o : Option ℕ) (f : ℕ → Option ℕ) (n : ℕ)
    → and_then o f ≡ some n
    → (d : ℕ) × (o ≡ some d) × (f d ≡ some n)
and_then-some none f n e = absurd (cc e)
and_then-some (some d) f n e = (d, refl, e)

module _ (base : ℕ) (digit : ℕ → Option ℕ) where
  read_digits-snoc :
      (acc n c d : ℕ) (xs : List ℕ)
      → digit c ≡ some d
      → read_digits base digit acc xs ≡ some n
      → read_digits base digit acc (xs ++ (c ∷ [])) ≡ some (n * base + d)
  read_digits-snoc acc n c d [] e r = rw e (ap (λ k. some (k * base + d)) (some-inj r))
  read_digits-snoc acc n c d (x ∷ xs) e r =
      let (k, is_digit, more) =
        and_then-some (digit x) (λ d. read_digits base digit (acc * base + d) xs) n r in
      ap (λ o. and_then o (λ k. read_digits base digit (acc * base + k) (xs ++ (c ∷ [])))) is_digit
      ∙ read_digits-snoc (acc * base + k) n c d xs e more

  -- A digit behind a numeral that is not zero.
  pub read_numeral-snoc :
      (n c d : ℕ) (xs : List ℕ)
      → digit 48 ≡ some 0
      → digit c ≡ some d
      → n ≢ 0
      → read_numeral base digit xs ≡ some n
      → read_numeral base digit (xs ++ (c ∷ [])) ≡ some (n * base + d)
  read_numeral-snoc n c d [] z e nz r = absurd (cc r)
  read_numeral-snoc n c d (x ∷ []) z e nz r =
      let first : (x == 48) ≡ false =
        not-eq x 48 (λ same. nz (some-inj (sym r ∙ ap digit same ∙ z))) in
      rw (first, r) (read_digits-snoc (0 * base + n) n c d [] e (ap some (omega arith)))
  read_numeral-snoc n c d (x ∷ y ∷ xs) z e nz r = elim (Bool-cases (x == 48)) [
    | inl zero_first ↦ absurd (
        cc (
          ap (λ b. if b then none else read_digits base digit 0 (x ∷ y ∷ xs)) (sym zero_first) ∙ r))
    | inr other ↦ rw other (
        read_digits-snoc 0 n c d (x ∷ y ∷ xs) e
          (ap (λ b. if b then none else read_digits base digit 0 (x ∷ y ∷ xs)) (sym other) ∙ r))
  ]
