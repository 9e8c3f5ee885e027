-- ===== src/Server/Keys.antt =====
-- TcpServer: the connections counted by name, in the map and among what the loops were asked.
use network_ydxlib.Base.{
  ℕ, ◌+◌, ◌<◌, ◌≡◌, refl, ap, ◌∙◌, Bool, true, false, ◌&&◌, some, List, [], ◌∷◌, ◌==◌,
  if◌then◌else◌, arith, ==_iff, inl, inr, Bool-cases, eq_refl, ap₂,
}
use network_ydxlib.Server.{Conn, Task, established, destroyed, eq_name, assign, kept, erase}

pub eq_name_refl : (xs : List ℕ) → eq_name xs xs ≡ true
eq_name_refl [] = refl
eq_name_refl (x ∷ xs) = ap₂ (λ a b. a && b) (eq_refl x) (eq_name_refl xs)

and-true : (a b : Bool) → (a && b) ≡ true → (a ≡ true) × (b ≡ true)
and-true true true e = (refl, refl)
and-true true false e = absurd (cc e)
and-true false b e = absurd (cc e)

pub eq_name-eq : (xs ys : List ℕ) → eq_name xs ys ≡ true → xs ≡ ys
eq_name-eq [] [] e = refl
eq_name-eq [] (y ∷ ys) e = absurd (cc e)
eq_name-eq (x ∷ xs) [] e = absurd (cc e)
eq_name-eq (x ∷ xs) (y ∷ ys) e =
    let (same, more) = and-true (x == y) (eq_name xs ys) e in
    ap₂ (λ z zs. z ∷ zs) ((==_iff x y).0 same) (eq_name-eq xs ys more)

abbrev pub one : List ℕ → List ℕ → ℕ
one k j = if eq_name k j then 1 else 0

-- How many entries of the map have the name `k`.
abbrev pub held : List ℕ → List (List ℕ × Conn) → ℕ
held k [] = 0
held k ((j, c) ∷ m) = one k j + held k m

abbrev pub made_by : List ℕ → Task → ℕ
made_by k (established c) = one k c.name
made_by k (destroyed c) = 0

abbrev pub gone_by : List ℕ → Task → ℕ
gone_by k (established c) = 0
gone_by k (destroyed c) = one k c.name

-- How often a connection named `k` has been established, and destroyed.
abbrev pub made : List ℕ → List (ℕ × Task) → ℕ
made k [] = 0
made k ((l, t) ∷ ts) = made_by k t + made k ts

abbrev pub gone : List ℕ → List (ℕ × Task) → ℕ
gone k [] = 0
gone k ((l, t) ∷ ts) = gone_by k t + gone k ts

-- A new name gets an entry.
pub held-assign :
    (j k : List ℕ) (c : Conn) (m : List (List ℕ × Conn))
    → held k m ≡ 0
    → held j (assign k c m) ≡ one j k + held j m
held-assign j k c [] h = omega arith
held-assign j k c ((i, d) ∷ m) h = elim (Bool-cases (eq_name k i)) [
  | inl e ↦ absurd (ground (arith, e, h))
  | inr e ↦
      ap (held j) (ap (λ b. if b then (i, c) ∷ m else (i, d) ∷ assign k c m) e)
      ∙ omega (arith, held-assign j k c m (ground (arith, e, h)))
]

-- A name that has an entry loses one.
pub held-erase :
    (k : List ℕ) (m : List (List ℕ × Conn))
    → 0 < held k m
    → (m' : List (List ℕ × Conn)) × (erase k m ≡ some m')
      × ((j : List ℕ) → one j k + held j m' ≡ held j m)
held-erase k [] h = absurd (omega arith)
held-erase k ((i, d) ∷ m) h = elim (Bool-cases (eq_name k i)) [
  | inl e ↦ (
    m,
    ap (λ b. if b then some m else kept (i, d) (erase k m)) e,
    λ j. ap (λ x. one j x + held j m) (eq_name-eq k i e),
  )
  | inr e ↦
      let (m', found, same) = held-erase k m (ground (arith, e, h)) in
      (
        (i, d) ∷ m',
        ap (λ b. if b then some m else kept (i, d) (erase k m)) e ∙ ap (kept (i, d)) found,
        λ j. omega (arith, same j),
      )
]
