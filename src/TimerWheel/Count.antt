-- ===== src/TimerWheel/Count.antt =====
-- TimerWheel: what the pointers in the buckets say of one node.
use network_ydxlib.Base.{
  ℕ, suc, ◌+◌, ◌<◌, ◌≡◌, refl, ap, ap₂, ==_iff, ◌∙◌, Bool, true, false, ◌||◌, Option, none, some,
  List, [], ◌∷◌, ◌++◌, ◌==◌, if◌then◌else◌, arith, length, length-append, inl, inr, ◌⊎◌, some-inj,
  Bool-cases,
}
use network_ydxlib.TimerWheel.{holds, is_held, release, on_last}

abbrev pub count : ℕ → List ℕ → ℕ
count n [] = 0
count n (x ∷ xs) = (if n == x then 1 else 0) + count n xs

pub count-append : (n : ℕ) (xs ys : List ℕ) → count n (xs ++ ys) ≡ count n xs + count n ys
count-append n [] ys = omega arith
count-append n (x ∷ xs) ys = omega (arith, count-append n xs ys)

pub holds-append : (n : ℕ) (xs ys : List ℕ) → holds n (xs ++ ys) ≡ (holds n xs || holds n ys)
holds-append n [] ys = refl
holds-append n (x ∷ xs) ys = ground (arith, holds-append n xs ys)

-- The pointers of a bucket that goes destroy a node just once, and only where no other holds it.
pub count-release :
    (n : ℕ) (xs : List ℕ) (others : List (List ℕ))
    → count n (release xs others) ≡ (if is_held n others then 0 else if holds n xs then 1 else 0)
count-release n [] others = ground arith
count-release n (x ∷ xs) others = elim (Bool-cases (n == x)) [
  | inl e ↦
      let same : n ≡ x = (==_iff n x).0 e in
      ground (
        arith,
        count-release n xs others,
        ap (λ k. holds k xs) same,
        ap (λ k. is_held k others) same,
      )
  | inr d ↦ ground (arith, count-release n xs others, d)
]

-- How many buckets came after the newest one that holds the node.
abbrev pub newer : Bool → ℕ → Option ℕ → Option ℕ
newer here k (some a) = some a
newer true k none = some k
newer false k none = none

abbrev pub age : ℕ → List (List ℕ) → Option ℕ
age n [] = none
age n (x ∷ xs) = newer (holds n x) (length xs) (age n xs)

abbrev pub is_some : Option ℕ → Bool
is_some none = false
is_some (some a) = true

abbrev pub older : Option ℕ → Option ℕ
older none = none
older (some a) = some (suc a)

newer-is_some : (b : Bool) (k : ℕ) (o : Option ℕ) → (b || is_some o) ≡ is_some (newer b k o)
newer-is_some true k none = refl
newer-is_some false k none = refl
newer-is_some true k (some a) = refl
newer-is_some false k (some a) = refl

newer-older : (b : Bool) (k : ℕ) (o : Option ℕ) → newer b (suc k) (older o) ≡ older (newer b k o)
newer-older true k none = refl
newer-older false k none = refl
newer-older true k (some a) = refl
newer-older false k (some a) = refl

newer-some : (b : Bool) (k a : ℕ) → newer b k (some a) ≡ some a
newer-some true k a = refl
newer-some false k a = refl

pub is_held-age : (n : ℕ) (xs : List (List ℕ)) → is_held n xs ≡ is_some (age n xs)
is_held-age n [] = refl
is_held-age n (x ∷ xs) =
    ap (λ b. holds n x || b) (is_held-age n xs) ∙ newer-is_some (holds n x) (length xs) (age n xs)

pub age-push : (n : ℕ) (xs : List (List ℕ)) → age n (xs ++ ([] ∷ [])) ≡ older (age n xs)
age-push n [] = refl
age-push n (x ∷ xs) =
    ap₂ (λ k o. newer (holds n x) k o) size (age-push n xs)
    ∙ newer-older (holds n x) (length xs) (age n xs)
  where
    size : length (xs ++ ([] ∷ [])) ≡ suc (length xs)
    size = omega (arith, length-append xs ([] ∷ []))

pub length-on_last : (k : ℕ) (xs : List (List ℕ)) → length (on_last k xs) ≡ length xs
length-on_last k [] = refl
length-on_last k (x ∷ []) = refl
length-on_last k (x ∷ y ∷ xs) = ap suc (length-on_last k (y ∷ xs))

pub age-on_last-other :
    (n k : ℕ) (xs : List (List ℕ)) → (n == k) ≡ false → age n (on_last k xs) ≡ age n xs
age-on_last-other n k [] d = refl
age-on_last-other n k (x ∷ []) d = ap (λ b. newer b 0 none) (holds-append n x (k ∷ []) ∙ same)
  where
    same : (holds n x || holds n (k ∷ [])) ≡ holds n x
    same = ground (arith, d)
age-on_last-other n k (x ∷ y ∷ xs) d =
    ap₂ (λ j o. newer (holds n x) j o) (length-on_last k (y ∷ xs))
      (age-on_last-other n k (y ∷ xs) d)

pub age-on_last : (n : ℕ) (xs : List (List ℕ)) → 0 < length xs → age n (on_last n xs) ≡ some 0
age-on_last n [] h = absurd (omega arith)
age-on_last n (x ∷ []) h = ap (λ b. newer b 0 none) (holds-append n x (n ∷ []) ∙ here)
  where
    here : (holds n x || holds n (n ∷ [])) ≡ true
    here = ground arith
age-on_last n (x ∷ y ∷ xs) h =
    ap (λ o. newer (holds n x) (length (on_last n (y ∷ xs))) o)
      (age-on_last n (y ∷ xs) (omega arith))
    ∙ newer-some (holds n x) (length (on_last n (y ∷ xs))) 0

-- A node that the last bucket of a ring holds, or not, with the rest told.
pub newer-some_inv :
    (b : Bool) (k : ℕ) (o : Option ℕ) (a : ℕ)
    → newer b k o ≡ some a
    → (o ≡ some a) ⊎ ((o ≡ none) × (b ≡ true) × (k ≡ a))
newer-some_inv true k none a e = inr (refl, refl, some-inj e)
newer-some_inv false k none a e = absurd (cc e)
newer-some_inv true k (some c) a e = inl e
newer-some_inv false k (some c) a e = inl e

pub newer-none_inv :
    (b : Bool) (k : ℕ) (o : Option ℕ) → newer b k o ≡ none → (o ≡ none) × (b ≡ false)
newer-none_inv true k none e = absurd (cc e)
newer-none_inv false k none e = (refl, refl)
newer-none_inv true k (some c) e = absurd (cc e)
newer-none_inv false k (some c) e = absurd (cc e)

pub age-bound : (n : ℕ) (xs : List (List ℕ)) (a : ℕ) → age n xs ≡ some a → a < length xs
age-bound n [] a e = absurd (cc e)
age-bound n (x ∷ xs) a e = elim (newer-some_inv (holds n x) (length xs) (age n xs) a e) [
  | inl f ↦ omega (arith, age-bound n xs a f)
  | inr (f, h, k) ↦ omega arith
]
