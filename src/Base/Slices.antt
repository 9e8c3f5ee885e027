-- ===== src/Base/Slices.antt =====
-- `memcpy` and `std::copy` into a byte array, and the part of an array between two indices.
use Prim.Native.Nat.{ℕ, zero, suc, ◌+◌, ◌≤◌}
use mathlib.Core.Path.{◌≡◌, refl, ap, sym, ◌∙◌}
use mathlib.Core.List.{List, [], ◌∷◌, ◌++◌}
use native.Mathlib.Omega.{arith}
use network_ydxlib.Base.Lists.{length, take, drop, replicate}

module _ {ℓ} {A : Type ℓ} where
  abbrev pub overwrite : List A → List A → List A
  overwrite [] ys = []
  overwrite (x ∷ xs) [] = x ∷ xs
  overwrite (x ∷ xs) (y ∷ ys) = y ∷ overwrite xs ys

  -- Write `ys` from index `i` on; what would fall behind the end is not written.
  abbrev pub splice : List A → ℕ → List A → List A
  splice xs zero ys = overwrite xs ys
  splice [] (suc i) ys = []
  splice (x ∷ xs) (suc i) ys = x ∷ splice xs i ys

  -- `std::vector::resize`: cut, or fill up with `d`.
  abbrev pub resize : List A → ℕ → A → List A
  resize xs zero d = []
  resize [] (suc n) d = d ∷ replicate n d
  resize (x ∷ xs) (suc n) d = x ∷ resize xs n d

  pub length-overwrite : (xs ys : List A) → length (overwrite xs ys) ≡ length xs
  length-overwrite [] ys = refl
  length-overwrite (x ∷ xs) [] = refl
  length-overwrite (x ∷ xs) (y ∷ ys) = ap suc (length-overwrite xs ys)

  pub length-splice : (xs : List A) (i : ℕ) (ys : List A) → length (splice xs i ys) ≡ length xs
  length-splice [] zero ys = refl
  length-splice (x ∷ xs) zero ys = length-overwrite (x ∷ xs) ys
  length-splice [] (suc i) ys = refl
  length-splice (x ∷ xs) (suc i) ys = ap suc (length-splice xs i ys)

  pub length-resize : (xs : List A) (n : ℕ) (d : A) → length (resize xs n d) ≡ n
  length-resize [] zero d = refl
  length-resize (x ∷ xs) zero d = refl
  length-resize [] (suc n) d = ap suc (fill n)
    where
      fill : (n : ℕ) → length (replicate n d) ≡ n
      fill zero = refl
      fill (suc n) = ap suc (fill n)
  length-resize (x ∷ xs) (suc n) d = ap suc (length-resize xs n d)

  pub take_all : (xs : List A) (n : ℕ) → length xs ≤ n → take n xs ≡ xs
  take_all [] zero h = refl
  take_all [] (suc n) h = refl
  take_all (x ∷ xs) zero h = absurd (omega arith)
  take_all (x ∷ xs) (suc n) h = ap (λ t. x ∷ t) (take_all xs n (omega arith))

  pub drop_all : (xs : List A) (n : ℕ) → length xs ≤ n → drop n xs ≡ []
  drop_all [] zero h = refl
  drop_all [] (suc n) h = refl
  drop_all (x ∷ xs) zero h = absurd (omega arith)
  drop_all (x ∷ xs) (suc n) h = drop_all xs n (omega arith)

  pub drop-nil : (n : ℕ) → drop {A = A} n [] ≡ []
  drop-nil zero = refl
  drop-nil (suc n) = refl

  pub take-nil : (n : ℕ) → take {A = A} n [] ≡ []
  take-nil zero = refl
  take-nil (suc n) = refl

  -- The sum is a variable with an equation, since `m + n` does not compute at variables.
  pub drop-drop : (m n k : ℕ) (xs : List A) → k ≡ m + n → drop n (drop m xs) ≡ drop k xs
  drop-drop zero n k xs e = let e' : n ≡ k = omega arith in ap (λ j. drop j xs) e'
  drop-drop (suc m) n k [] e = drop-nil n ∙ sym (drop-nil k)
  drop-drop (suc m) n zero (x ∷ xs) e = absurd (omega arith)
  drop-drop (suc m) n (suc k) (x ∷ xs) e = drop-drop m n k xs (omega arith)

  pub drop-take : (m n k : ℕ) (xs : List A) → k ≡ m + n → drop m (take k xs) ≡ take n (drop m xs)
  drop-take zero n k xs e = let e' : k ≡ n = omega arith in ap (λ j. take j xs) e'
  drop-take (suc m) n k [] e = ap (drop (suc m)) (take-nil k) ∙ sym (take-nil n)
  drop-take (suc m) n zero (x ∷ xs) e = absurd (omega arith)
  drop-take (suc m) n (suc k) (x ∷ xs) e = drop-take m n k xs (omega arith)

  pub take-append : (n : ℕ) (xs ys : List A) → n ≤ length xs → take n (xs ++ ys) ≡ take n xs
  take-append zero xs ys h = refl
  take-append (suc n) [] ys h = absurd (omega arith)
  take-append (suc n) (x ∷ xs) ys h = ap (λ t. x ∷ t) (take-append n xs ys (omega arith))

  pub drop-append : (n : ℕ) (xs ys : List A) → n ≤ length xs → drop n (xs ++ ys) ≡ drop n xs ++ ys
  drop-append zero xs ys h = refl
  drop-append (suc n) [] ys h = absurd (omega arith)
  drop-append (suc n) (x ∷ xs) ys h = drop-append n xs ys (omega arith)

  pub take-append_self : (xs ys : List A) (n : ℕ) → n ≡ length xs → take n (xs ++ ys) ≡ xs
  take-append_self [] ys zero e = refl
  take-append_self [] ys (suc n) e = absurd (omega arith)
  take-append_self (x ∷ xs) ys zero e = absurd (omega arith)
  take-append_self (x ∷ xs) ys (suc n) e = ap (λ t. x ∷ t) (take-append_self xs ys n (omega arith))

  pub drop-append_self : (xs ys : List A) (n : ℕ) → n ≡ length xs → drop n (xs ++ ys) ≡ ys
  drop-append_self [] ys zero e = refl
  drop-append_self [] ys (suc n) e = absurd (omega arith)
  drop-append_self (x ∷ xs) ys zero e = absurd (omega arith)
  drop-append_self (x ∷ xs) ys (suc n) e = drop-append_self xs ys n (omega arith)

  pub take-take : (m n : ℕ) (xs : List A) → m ≤ n → take m (take n xs) ≡ take m xs
  take-take zero n xs h = refl
  take-take (suc m) zero xs h = absurd (omega arith)
  take-take (suc m) (suc n) [] h = refl
  take-take (suc m) (suc n) (x ∷ xs) h = ap (λ t. x ∷ t) (take-take m n xs (omega arith))

  -- Behind the write position nothing of an array's front changes.
  pub take-splice : (xs : List A) (i : ℕ) (ys : List A) → take i (splice xs i ys) ≡ take i xs
  take-splice xs zero ys = refl
  take-splice [] (suc i) ys = refl
  take-splice (x ∷ xs) (suc i) ys = ap (λ t. x ∷ t) (take-splice xs i ys)

  -- What stands in the array from the write position on.
  pub drop-overwrite :
      (xs ys : List A) → length ys ≤ length xs → overwrite xs ys ≡ ys ++ drop (length ys) xs
  drop-overwrite [] [] h = refl
  drop-overwrite [] (y ∷ ys) h = absurd (omega arith)
  drop-overwrite (x ∷ xs) [] h = refl
  drop-overwrite (x ∷ xs) (y ∷ ys) h = ap (λ t. y ∷ t) (drop-overwrite xs ys (omega arith))

  -- A window that ends where the write begins is longer by the bytes written.
  pub take-drop-splice :
      (r n i k : ℕ) (xs ys : List A)
      → i ≡ r + n
      → k ≡ n + length ys
      → i + length ys ≤ length xs
      → take k (drop r (splice xs i ys)) ≡ take n (drop r xs) ++ ys
  take-drop-splice zero zero zero k xs ys e f h =
      ap (take k) (drop-overwrite xs ys (omega arith))
      ∙ take-append_self ys (drop (length ys) xs) k (omega arith)
  take-drop-splice zero zero (suc i) k xs ys e f h = absurd (omega arith)
  take-drop-splice zero (suc n) zero k xs ys e f h = absurd (omega arith)
  take-drop-splice zero (suc n) (suc i) k [] ys e f h = absurd (omega arith)
  take-drop-splice zero (suc n) (suc i) zero (x ∷ xs) ys e f h = absurd (omega arith)
  take-drop-splice zero (suc n) (suc i) (suc k) (x ∷ xs) ys e f h =
      ap (λ t. x ∷ t) (take-drop-splice zero n i k xs ys (omega arith) (omega arith) (omega arith))
  take-drop-splice (suc r) n zero k xs ys e f h = absurd (omega arith)
  take-drop-splice (suc r) n (suc i) k [] ys e f h = absurd (omega arith)
  take-drop-splice (suc r) n (suc i) k (x ∷ xs) ys e f h =
      take-drop-splice r n i k xs ys (omega arith) (omega arith) (omega arith)

  -- A write in front of a window leaves it alone.
  pub drop-splice_below :
      (r i : ℕ) (xs ys : List A) → i + length ys ≤ r → drop r (splice xs i ys) ≡ drop r xs
  drop-splice_below zero zero [] ys h = refl
  drop-splice_below zero zero (x ∷ xs) [] h = refl
  drop-splice_below zero zero (x ∷ xs) (y ∷ ys) h = absurd (omega arith)
  drop-splice_below zero (suc i) xs ys h = absurd (omega arith)
  drop-splice_below (suc r) zero [] ys h = refl
  drop-splice_below (suc r) zero (x ∷ xs) [] h = refl
  drop-splice_below (suc r) zero (x ∷ xs) (y ∷ ys) h = below r xs ys (omega arith)
    where
      below : (r : ℕ) (xs ys : List A) → length ys ≤ r → drop r (overwrite xs ys) ≡ drop r xs
      below r [] ys h = refl
      below r (x ∷ xs) [] h = refl
      below zero (x ∷ xs) (y ∷ ys) h = absurd (omega arith)
      below (suc r) (x ∷ xs) (y ∷ ys) h = below r xs ys (omega arith)
  drop-splice_below (suc r) (suc i) [] ys h = refl
  drop-splice_below (suc r) (suc i) (x ∷ xs) ys h = drop-splice_below r i xs ys (omega arith)

  -- Growing an array keeps its front.
  pub take-resize :
      (k : ℕ) (xs : List A) (n : ℕ) (d : A)
      → k ≤ length xs
      → k ≤ n
      → take k (resize xs n d) ≡ take k xs
  take-resize zero xs n d h g = refl
  take-resize (suc k) xs zero d h g = absurd (omega arith)
  take-resize (suc k) [] (suc n) d h g = absurd (omega arith)
  take-resize (suc k) (x ∷ xs) (suc n) d h g =
      ap (λ t. x ∷ t) (take-resize k xs n d (omega arith) (omega arith))

  pub take-drop-resize :
      (r k : ℕ) (xs : List A) (n : ℕ) (d : A)
      → r + k ≤ length xs
      → r + k ≤ n
      → take k (drop r (resize xs n d)) ≡ take k (drop r xs)
  take-drop-resize zero k xs n d h g = take-resize k xs n d (omega arith) (omega arith)
  take-drop-resize (suc r) k xs zero d h g = absurd (omega arith)
  take-drop-resize (suc r) k [] (suc n) d h g = absurd (omega arith)
  take-drop-resize (suc r) k (x ∷ xs) (suc n) d h g =
      take-drop-resize r k xs n d (omega arith) (omega arith)

  pub overwrite-nil : (xs : List A) → overwrite xs [] ≡ xs
  overwrite-nil [] = refl
  overwrite-nil (x ∷ xs) = refl

  pub take-append_over :
      (n k : ℕ) (xs ys : List A) → n ≡ length xs + k → take n (xs ++ ys) ≡ xs ++ take k ys
  take-append_over n k [] ys e = let e' : n ≡ k = omega arith in ap (λ j. take j ys) e'
  take-append_over zero k (x ∷ xs) ys e = absurd (omega arith)
  take-append_over (suc n) k (x ∷ xs) ys e =
      ap (λ t. x ∷ t) (take-append_over n k xs ys (omega arith))

  pub drop-append_over :
      (n k : ℕ) (xs ys : List A) → n ≡ length xs + k → drop n (xs ++ ys) ≡ drop k ys
  drop-append_over n k [] ys e = let e' : n ≡ k = omega arith in ap (λ j. drop j ys) e'
  drop-append_over zero k (x ∷ xs) ys e = absurd (omega arith)
  drop-append_over (suc n) k (x ∷ xs) ys e = drop-append_over n k xs ys (omega arith)
