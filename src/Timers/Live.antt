-- ===== src/Timers/Live.antt =====
-- TimerSet: putting timers that have run back, or deleting them, leaves a set of live timers.
use network_ydxlib.Base.{
  subst, ◌<◌, ℕ, ◌≡◌, ◌≢◌, refl, sym, ap, ◌∙◌, inl, inr, ◌⊎◌, ap₂, Bool, true, false, Bool-cases,
  Option, none, some, List, [], ◌∷◌, ◌==◌, if◌then◌else◌, arith, not-eq, eq_refl,
}
use network_ydxlib.Timers.Expiry.{IsSorted, AreAddresses, SortedIf, insert_entry-SortedIf}
use network_ydxlib.Timers.{
  uintptr_max, Timer, TimerSet, before, insert_at, insert_entry, insert, put, put_back, put_all,
  restart,
}

-- No entry of the list is of the timer at `p`.
abbrev pub Lacks : ℕ → List (ℕ × ℕ) → Type 0
Lacks p [] = Unit {0}
Lacks p (x ∷ xs) = (p ≢ x.1) × Lacks p xs

abbrev pub Distinct : List (ℕ × ℕ) → Type 0
Distinct [] = Unit {0}
Distinct (x ∷ xs) = Lacks x.1 xs × Distinct xs

-- Every entry is of a timer that is there, with the time at which it expires.
abbrev pub Live : (ℕ → Option Timer) → List (ℕ × ℕ) → Type 0
Live f [] = Unit {0}
Live f (x ∷ xs) = ((t : Timer) × (f x.1 ≡ some t) × (t.expiration ≡ x.0)) × Live f xs

-- The entries of the one list have other timers than those of the other.
abbrev pub Apart : List (ℕ × ℕ) → List (ℕ × ℕ) → Type 0
Apart [] ys = Unit {0}
Apart (x ∷ xs) ys = Lacks x.1 ys × Apart xs ys

pub record IsLive (s : TimerSet) : Type 0 where
  pub sorted : IsSorted s.container
  pub bounded : AreAddresses s.container
  pub distinct : Distinct s.container
  pub live : Live s.timers s.container

-- What a change of the timer at `p` leaves.
pub Live-put :
    (p : ℕ) (t : Option Timer) (f : ℕ → Option Timer) (xs : List (ℕ × ℕ))
    → Lacks p xs
    → Live f xs
    → Live (λ q. if p == q then t else f q) xs
Live-put p t f [] l v = tt
Live-put p t f (x ∷ xs) (d, l) ((u, e, g), v) =
    ((u, ap (λ (b : Bool). if b then t else f x.1) (not-eq p x.1 d) ∙ e, g), Live-put p t f xs l v)

insert_at-splits :
    (x y : ℕ × ℕ) (ys zs : List (ℕ × ℕ))
    → x.1 ≢ y.1
    → ((insert_at x y ys (some zs) ≡ some (x ∷ y ∷ ys))
        ⊎ (insert_at x y ys (some zs) ≡ some (y ∷ zs)))
unfolding insert_at before
insert_at-splits x y ys zs d = elim (Bool-cases (before x y)) [
  | inl e ↦ inl (
      ap (λ (b : Bool). if b then some (x ∷ y ∷ ys) else if before y x then some (y ∷ zs) else none)
        e)
  | inr e ↦ inr (
      ap₂ (λ (b c : Bool). if b then some (x ∷ y ∷ ys) else if c then some (y ∷ zs) else none) e
        (other e))
]
  where
    other : before x y ≡ false → before y x ≡ true
    other e = ground (arith, e, d)

-- An entry of another timer goes in, and nothing is lost.
pub record Inserted (f : ℕ → Option Timer) (x : ℕ × ℕ) (ys : List (ℕ × ℕ)) (zs : List (ℕ × ℕ))
    : Type 0 where
  pub lacks : (p : ℕ) → p ≢ x.1 → Lacks p ys → Lacks p zs
  pub distinct : Distinct ys → Distinct zs
  pub live : Live f (x ∷ ys) → Live f zs
  pub bounded : x.1 < uintptr_max → AreAddresses ys → AreAddresses zs

pub insert-Inserted :
    (f : ℕ → Option Timer) (x : ℕ × ℕ) (ys : List (ℕ × ℕ))
    → Lacks x.1 ys
    → (zs : List (ℕ × ℕ)) × (insert_entry x ys ≡ some zs) × Inserted f x ys zs
unfolding insert_entry
insert-Inserted f x [] l = (
  x ∷ [],
  refl,
  record {
    lacks = λ p d m. (d, tt);
    distinct = λ d. (tt, tt);
    live = λ v. v;
    bounded = λ b a. (b, tt);
  },
)
insert-Inserted f x (y ∷ ys) (d, l) =
    let (zs, e, i) = insert-Inserted f x ys l in
    elim (insert_at-splits x y ys zs d) [
      | inl g ↦ (
        x ∷ y ∷ ys,
        ap (insert_at x y ys) e ∙ g,
        record {
          lacks = λ p n m. (n, m);
          distinct = λ c. ((d, l), c);
          live = λ v. v;
          bounded = λ b a. (b, a);
        },
      )
      | inr g ↦ (
        y ∷ zs,
        ap (insert_at x y ys) e ∙ g,
        record {
          lacks = λ p n m. (m.0, i.lacks p n m.1);
          distinct = λ c. (i.lacks y.1 (λ q. d (sym q)) c.0, i.distinct c.1);
          live = λ v. (v.1.0, i.live (v.0, v.1.1));
          bounded = λ b a. (a.0, i.bounded b a.1);
        },
      )
    ]

abbrev pub second : Option (Bool × TimerSet) → Option TimerSet
second none = none
second (some (earliest, s)) = some s

pub insert-of :
    (p : ℕ) (t : Timer) (s : TimerSet) (zs : List (ℕ × ℕ))
    → insert_entry (t.expiration, p) s.container ≡ some zs
    → second (insert p t s) ≡ some (record s { container = zs })
unfolding insert
insert-of p t s zs e = rw (second, e) refl

put_back-repeats :
    (now p : ℕ) (t : Timer) (s : TimerSet)
    → t.repeats ≡ true
    → put_back now p t s ≡ second (insert p (restart now t) (put p (some (restart now t)) s))
unfolding put_back
put_back-repeats now p t s r =
    ap
      (λ (b : Bool).
        if b
        then second (insert p (restart now t) (put p (some (restart now t)) s))
        else some (put p none s))
      r

put_back-once :
    (now p : ℕ) (t : Timer) (s : TimerSet)
    → t.repeats ≡ false
    → put_back now p t s ≡ some (put p none s)
unfolding put_back
put_back-once now p t s r = rw r refl

-- Once a timer that has run is put back or deleted, the set is as before, and the entries that were
-- taken out with it are of live timers still.
pub record Kept (x : ℕ × ℕ) (s s' : TimerSet) : Type 0 where
  pub sound : IsLive s'
  pub others : (ys : List (ℕ × ℕ)) → Lacks x.1 ys → Live s.timers ys → Live s'.timers ys
  pub lacks : (p : ℕ) → p ≢ x.1 → Lacks p s.container → Lacks p s'.container
  pub same_ran : s'.ran ≡ s.ran

put_back-Kept :
    (now : ℕ) (x : ℕ × ℕ) (t : Timer) (s : TimerSet)
    → IsLive s
    → x.1 < uintptr_max
    → Lacks x.1 s.container
    → (s' : TimerSet) × (put_back now x.1 t s ≡ some s') × Kept x s s'
put_back-Kept now x t s h bound l = elim (Bool-cases t.repeats) [
  | inl r ↦
      let u : Timer = restart now t in
      let f : ℕ → Option Timer = λ q. if x.1 == q then some u else s.timers q in
      let (zs, e, i) = insert-Inserted f (u.expiration, x.1) s.container l in
      let s1 : TimerSet = put x.1 (some u) s in
      (
        record s1 { container = zs },
        put_back-repeats now x.1 t s r ∙ insert-of x.1 u s1 zs e,
        record {
          sound = record {
            sorted =
                subst SortedIf e (insert_entry-SortedIf (u.expiration, x.1) s.container h.sorted);
            bounded = i.bounded bound h.bounded;
            distinct = i.distinct h.distinct;
            live = i.live (
              (u, ap (λ (b : Bool). if b then some u else s.timers x.1) (eq_refl x.1), refl),
              Live-put x.1 (some u) s.timers s.container l h.live,
            );
          };
          others = λ ys m v. Live-put x.1 (some u) s.timers ys m v;
          lacks = λ p d m. i.lacks p d m;
          same_ran = refl;
        },
      )
  | inr r ↦ (
    put x.1 none s,
    put_back-once now x.1 t s r,
    record {
      sound = record {
        sorted = h.sorted;
        bounded = h.bounded;
        distinct = h.distinct;
        live = Live-put x.1 none s.timers s.container l h.live;
      };
      others = λ ys m v. Live-put x.1 none s.timers ys m v;
      lacks = λ p d m. m;
      same_ran = refl;
    },
  )
]

Apart-Kept :
    (x : ℕ × ℕ) (s s' : TimerSet) (xs : List (ℕ × ℕ))
    → Kept x s s'
    → Lacks x.1 xs
    → Apart xs s.container
    → Apart xs s'.container
Apart-Kept x s s' [] k l a = tt
Apart-Kept x s s' (y ∷ ys) k (d, l) (m, a) =
    (k.lacks y.1 (λ e. d (sym e)) m, Apart-Kept x s s' ys k l a)

put_all-of :
    (now : ℕ) (x : ℕ × ℕ) (xs : List (ℕ × ℕ)) (s s' : TimerSet) (t : Timer)
    → s.timers x.1 ≡ some t
    → put_back now x.1 t s ≡ some s'
    → put_all now (x ∷ xs) s ≡ put_all now xs s'
unfolding put_all
put_all-of now x xs s s' t e f = rw (put_all, e, f) refl

pub put_all-IsLive :
    (now : ℕ) (xs : List (ℕ × ℕ)) (s : TimerSet)
    → IsLive s
    → AreAddresses xs
    → Distinct xs
    → Live s.timers xs
    → Apart xs s.container
    → (s' : TimerSet) × (put_all now xs s ≡ some s') × IsLive s' × (s'.ran ≡ s.ran)
unfolding put_all
put_all-IsLive now [] s h b d v a = (s, refl, h, refl)
put_all-IsLive now (x ∷ xs) s h (bound, b) (l, d) ((t, e, g), v) (m, a) =
    let (s1, done, k) = put_back-Kept now x t s h bound m in
    let (s2, rest, sound, ran) =
      put_all-IsLive now xs s1 k.sound b d (k.others xs l v) (Apart-Kept x s s1 xs k l a) in
    (s2, put_all-of now x xs s s1 t e done ∙ rest, sound, ran ∙ k.same_ran)
