-- ===== src/Timers/Expiry.antt =====
-- TimerSet: `getExpired` takes out the timers whose time has come, and `insert` keeps the order.
use network_ydxlib.Base.{
  ℕ, ◌≤◌, ◌<◌, ◌≡◌, refl, ap, inl, inr, Bool, true, false, Bool-cases, Option, none, some, List, [],
  ◌∷◌, ◌++◌, arith, subst,
}
use network_ydxlib.Timers.{
  Timer, TimerSet, uintptr_max, before, insert_at, insert_entry, insert, is_earliest, split,
  is_later, get_expired,
}

abbrev pub AllAfter : ℕ × ℕ → List (ℕ × ℕ) → Type 0
AllAfter x [] = Unit
AllAfter x (y ∷ ys) = (before x y ≡ true) × AllAfter x ys

abbrev pub IsSorted : List (ℕ × ℕ) → Type 0
IsSorted [] = Unit
IsSorted (x ∷ xs) = AllAfter x xs × IsSorted xs

abbrev pub AreAddresses : List (ℕ × ℕ) → Type 0
AreAddresses [] = Unit
AreAddresses (x ∷ xs) = (x.1 < uintptr_max) × AreAddresses xs

abbrev pub AreDue : ℕ → List (ℕ × ℕ) → Type 0
AreDue now [] = Unit
AreDue now (x ∷ xs) = (x.0 ≤ now) × AreDue now xs

abbrev pub AreLater : ℕ → List (ℕ × ℕ) → Type 0
AreLater now [] = Unit
AreLater now (x ∷ xs) = (now < x.0) × AreLater now xs

before_trans : (x y z : ℕ × ℕ) → before x y ≡ true → before y z ≡ true → before x z ≡ true
unfolding before
before_trans x y z h k = ground (arith, h, k)

AllAfter-trans :
    (x y : ℕ × ℕ) (zs : List (ℕ × ℕ)) → before x y ≡ true → AllAfter y zs → AllAfter x zs
AllAfter-trans x y [] h a = tt
AllAfter-trans x y (z ∷ zs) h a = (before_trans x y z h a.0, AllAfter-trans x y zs h a.1)

later-AreLater :
    (now : ℕ) (x : ℕ × ℕ) (ys : List (ℕ × ℕ)) → now < x.0 → AllAfter x ys → AreLater now ys
unfolding before
later-AreLater now x [] h a = tt
later-AreLater now x (y ∷ ys) h a = (ground (arith, a.0), later-AreLater now x ys h a.1)

before-sentry : (now : ℕ) (x : ℕ × ℕ) → before x (now, uintptr_max) ≡ true → x.0 ≤ now
unfolding before
before-sentry now x h = ground arith

not_before-sentry :
    (now : ℕ) (x : ℕ × ℕ) → x.1 < uintptr_max → before x (now, uintptr_max) ≡ false → now < x.0
unfolding before
not_before-sentry now x g h = ground arith

split-lem :
    (now : ℕ) (xs : List (ℕ × ℕ))
    → IsSorted xs
    → AreAddresses xs
    → let (front, back) = split now xs in
      (front ++ back ≡ xs) × AreDue now front × AreLater now back
unfolding split
split-lem now [] s a = (refl, tt, tt)
split-lem now (x ∷ xs) s a = elim (Bool-cases (before x (now, uintptr_max))) [
  | inl e ↦
      let (same, due, later) = split-lem now xs s.1 a.1 in
      rw e (ap (λ l. x ∷ l) same, (before-sentry now x e, due), later)
  | inr e ↦
      let h = not_before-sentry now x a.0 e in rw e (refl, tt, (h, later-AreLater now x xs h s.0))
]

is_later-AreLater : (now : ℕ) (xs : List (ℕ × ℕ)) → AreLater now xs → is_later now xs ≡ true
unfolding is_later
is_later-AreLater now [] h = refl
is_later-AreLater now (x ∷ xs) h = ground (arith, h.0)

-- From a set in order `getExpired` takes out exactly the entries whose time has come, in order,
-- and the assertion in it holds. No address is the sentry's.
pub get_expired_lem :
    (now : ℕ) (s : TimerSet)
    → IsSorted s.container
    → AreAddresses s.container
    → (front : List (ℕ × ℕ)) × (s' : TimerSet) × (get_expired now s ≡ some (front, s'))
      × (front ++ s'.container ≡ s.container)
      × AreDue now front
      × AreLater now s'.container
unfolding get_expired
get_expired_lem now s o a =
    let (same, due, later) = split-lem now s.container o a in
    let (front, back) = split now s.container in
    rw (is_later-AreLater now (split now s.container).1 later)
      (front, record s { container = back }, refl, same, due, later)

-- The result of `insert_entry`, if there is one, comes after `z` if all that goes into it does.
abbrev AfterIf : ℕ × ℕ → Option (List (ℕ × ℕ)) → Type 0
AfterIf z none = Unit
AfterIf z (some xs) = AllAfter z xs

insert_at-AfterIf :
    (z x y : ℕ × ℕ) (ys : List (ℕ × ℕ)) (rest : Option (List (ℕ × ℕ)))
    → before z x ≡ true
    → (before z y ≡ true) × AllAfter z ys
    → AfterIf z rest
    → AfterIf z (insert_at x y ys rest)
unfolding insert_at
insert_at-AfterIf z x y ys none h a r = elim (Bool-cases (before x y)) [
  | inl e ↦ rw e (h, a)
  | inr e ↦ rw e tt
]
insert_at-AfterIf z x y ys (some zs) h a r = elim (Bool-cases (before x y)) [
  | inl e ↦ rw e (h, a)
  | inr e ↦ elim (Bool-cases (before y x)) [ inl f ↦ rw (e, f) (a.0, r) | inr f ↦ rw (e, f) tt ]
]

insert_entry-AfterIf :
    (z x : ℕ × ℕ) (ys : List (ℕ × ℕ))
    → before z x ≡ true
    → AllAfter z ys
    → AfterIf z (insert_entry x ys)
unfolding insert_entry
insert_entry-AfterIf z x [] h a = (h, tt)
insert_entry-AfterIf z x (y ∷ ys) h a =
    insert_at-AfterIf z x y ys (insert_entry x ys) h a (insert_entry-AfterIf z x ys h a.1)

abbrev pub SortedIf : Option (List (ℕ × ℕ)) → Type 0
SortedIf none = Unit
SortedIf (some xs) = IsSorted xs

insert_at-SortedIf :
    (x y : ℕ × ℕ) (ys : List (ℕ × ℕ)) (rest : Option (List (ℕ × ℕ)))
    → IsSorted (y ∷ ys)
    → (before y x ≡ true → AfterIf y rest)
    → SortedIf rest
    → SortedIf (insert_at x y ys rest)
unfolding insert_at
insert_at-SortedIf x y ys none s a r = elim (Bool-cases (before x y)) [
  | inl e ↦ rw e ((e, AllAfter-trans x y ys e s.0), s)
  | inr e ↦ rw e tt
]
insert_at-SortedIf x y ys (some zs) s a r = elim (Bool-cases (before x y)) [
  | inl e ↦ rw e ((e, AllAfter-trans x y ys e s.0), s)
  | inr e ↦ elim (Bool-cases (before y x)) [ inl f ↦ rw (e, f) (a f, r) | inr f ↦ rw (e, f) tt ]
]

pub insert_entry-SortedIf :
    (x : ℕ × ℕ) (ys : List (ℕ × ℕ)) → IsSorted ys → SortedIf (insert_entry x ys)
unfolding insert_entry
insert_entry-SortedIf x [] s = (tt, tt)
insert_entry-SortedIf x (y ∷ ys) s =
    insert_at-SortedIf x y ys (insert_entry x ys) s (λ f. insert_entry-AfterIf y x ys f s.0)
      (insert_entry-SortedIf x ys s.1)

abbrev InsertedIf : Option (Bool × TimerSet) → Type 0
InsertedIf none = Unit
InsertedIf (some (e, s)) = IsSorted s.container

insert-InsertedIf :
    (p : ℕ) (t : Timer) (s : TimerSet) → IsSorted s.container → InsertedIf (insert p t s)
unfolding insert
insert-InsertedIf p t s o =
    place p t s (insert_entry (t.expiration, p) s.container)
      (insert_entry-SortedIf (t.expiration, p) s.container o)
  where
    place :
        (p : ℕ) (t : Timer) (s : TimerSet) (o : Option (List (ℕ × ℕ)))
        → SortedIf o
        → InsertedIf (elim o [
          | none ↦ none
          | some xs ↦ some (is_earliest t.expiration s.container, record s { container = xs })
        ])
    place p t s none h = tt
    place p t s (some xs) h = h

-- If the entries are in order and `insert` meets no equal entry, they are in order afterwards.
pub insert-IsSorted :
    (p : ℕ) (t : Timer) (s s' : TimerSet) (earliest : Bool)
    → IsSorted s.container
    → insert p t s ≡ some (earliest, s')
    → IsSorted s'.container
insert-IsSorted p t s s' earliest o e = subst InsertedIf e (insert-InsertedIf p t s o)
