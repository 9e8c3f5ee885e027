-- ===== src/Timers/Posted.antt =====
-- TimerSet: `addTimer` and `cancel` from any thread, which go through `runInLoop`.
use network_ydxlib.Base.{
  ℕ, ◌+◌, ◌≡◌, refl, sym, ap, ◌∙◌, some-inj, subst, ◌&&◌, Bool, true, false, Bool-cases, inl, inr,
  Option, none, some, List, [], ◌∷◌, ◌++◌, ◌==◌, if◌then◌else◌, arith, eq_refl,
}
use network_ydxlib.Timers.{
  Timer, TimerSet, before, insert_at, insert_entry, insert, erase_entry, put, add_timer_in_loop,
  cancel_in_loop, reset_timerfd, is_earliest,
}
use network_ydxlib.Timers.Live.{Lacks, insert-Inserted}

-- The functors that `addTimer` and `cancel` give to the loop.
pub data Request : Type 0 where
  adding cancelling : ℕ → Request

-- `waiting` are the functors that other threads queued and the loop has not called.
pub record Posted : Type 0 where
  pub set : TimerSet
  pub waiting : List Request

unfoldable pub run : Request → (now : ℕ) → TimerSet → Option TimerSet
run (adding p) now s = add_timer_in_loop p now s
run (cancelling p) now s = cancel_in_loop p s

-- `runInLoop`; `own` says whether the caller is the loop's own thread.
unfoldable pub post : (own : Bool) → Request → (now : ℕ) → Posted → Option Posted
unfolding run
post own r now q =
    if own
    then elim (run r now q.set) [ none ↦ none | some s ↦ some (record q { set = s }) ]
    else some (record q { waiting = q.waiting ++ (r ∷ []) })

-- `p` is where `new` puts the timer `t`.
unfoldable pub add_timer : (own : Bool) → ℕ → Timer → (now : ℕ) → Posted → Option Posted
unfolding post
add_timer own p t now q = post own (adding p) now (record q { set = put p (some t) q.set })

unfoldable pub cancel : (own : Bool) → ℕ → (now : ℕ) → Posted → Option Posted
unfolding post
cancel own p now q = post own (cancelling p) now q

-- The loop calls the functors in turn; `clock k` is the time when it calls the `k`th.
unfoldable pub run_each : (clock : ℕ → ℕ) → (k : ℕ) → List Request → TimerSet → Option TimerSet
unfolding run
run_each clock k [] s = some s
run_each clock k (r ∷ rs) s = elim (run r (clock k) s) [
  | none ↦ none
  | some s' ↦ run_each clock (k + 1) rs s'
]

unfoldable pub do_pending : (clock : ℕ → ℕ) → Posted → Option Posted
unfolding run_each
do_pending clock q = elim (run_each clock 0 q.waiting q.set) [
  | none ↦ none
  | some s ↦ some (record { set = s; waiting = [] })
]

before-other : (x y : ℕ × ℕ) → before y x ≡ true → ((x.0 == y.0) && (x.1 == y.1)) ≡ false
unfolding before
before-other x y e = ground (arith, e)

erase_entry-head : (x : ℕ × ℕ) (xs : List (ℕ × ℕ)) → erase_entry x (x ∷ xs) ≡ xs
unfolding erase_entry
erase_entry-head x xs = rw (eq_refl x.0, eq_refl x.1) refl

erase_entry-behind :
    (x y : ℕ × ℕ) (xs : List (ℕ × ℕ))
    → before y x ≡ true
    → erase_entry x (y ∷ xs) ≡ y ∷ erase_entry x xs
unfolding erase_entry
erase_entry-behind x y xs e = rw (before-other x y e) refl

erase_entry-insert_at :
    (x y : ℕ × ℕ) (xs ys : List (ℕ × ℕ)) (rest : Option (List (ℕ × ℕ)))
    → ((zs : List (ℕ × ℕ)) → rest ≡ some zs → erase_entry x zs ≡ xs)
    → insert_at x y xs rest ≡ some ys
    → erase_entry x ys ≡ y ∷ xs
unfolding insert_at
erase_entry-insert_at x y xs ys none back e = elim (Bool-cases (before x y)) [
  | inl a ↦
      subst (λ zs. erase_entry x zs ≡ y ∷ xs)
        (some-inj (ap (λ b. if b then some (x ∷ y ∷ xs) else none) (sym a) ∙ e))
        (erase_entry-head x (y ∷ xs))
  | inr a ↦ absurd a
]
  where
    absurd : before x y ≡ false → erase_entry x ys ≡ y ∷ xs
    absurd a = ground (arith, e, a)
erase_entry-insert_at x y xs ys (some zs) back e = elim (Bool-cases (before x y)) [
  | inl a ↦
      subst (λ us. erase_entry x us ≡ y ∷ xs)
        (some-inj (
          ap (λ b. if b then some (x ∷ y ∷ xs) else if before y x then some (y ∷ zs) else none)
            (sym a)
          ∙ e))
        (erase_entry-head x (y ∷ xs))
  | inr a ↦ elim (Bool-cases (before y x)) [
    | inl b ↦
        subst (λ us. erase_entry x us ≡ y ∷ xs) (found a b)
          (erase_entry-behind x y zs b ∙ ap (λ us. y ∷ us) (back zs refl))
    | inr b ↦ absurd a b
  ]
]
  where
    found : before x y ≡ false → before y x ≡ true → y ∷ zs ≡ ys
    found a b = ground (arith, e, a, b)

    absurd : before x y ≡ false → before y x ≡ false → erase_entry x ys ≡ y ∷ xs
    absurd a b = ground (arith, e, a, b)

-- An entry that goes in and comes out again leaves the other entries as they were.
erase_entry-insert_entry :
    (x : ℕ × ℕ) (xs ys : List (ℕ × ℕ)) → insert_entry x xs ≡ some ys → erase_entry x ys ≡ xs
unfolding insert_entry
erase_entry-insert_entry x [] ys e =
    subst (λ zs. erase_entry x zs ≡ []) (some-inj e) (erase_entry-head x [])
erase_entry-insert_entry x (y ∷ xs) ys e =
    erase_entry-insert_at x y xs ys (insert_entry x xs) (erase_entry-insert_entry x xs) e

abbrev pub and_then : Option Posted → (Posted → Option Posted) → Option Posted
and_then none f = none
and_then (some q) f = f q

-- No functor waits.
abbrev pub idle : TimerSet → Posted
idle s = record { set = s; waiting = [] }

-- Where the loop's thread cancels a timer that another thread has added, and whose functor is still in
-- the queue, the timer is deleted and the functor then uses it.
pub cancel-early :
    (p now later : ℕ) (clock : ℕ → ℕ) (t : Timer) (s : TimerSet)
    → and_then
        (and_then (add_timer false p t now (idle s)) (cancel true p later))
        (do_pending clock)
      ≡ none
unfolding add_timer cancel post run do_pending cancel_in_loop add_timer_in_loop
cancel-early p now later clock t s =
    rw (eq_refl p, do_pending, run_each, run, add_timer_in_loop, eq_refl p) refl

cancel_in_loop-put :
    (p : ℕ) (t : Timer) (s : TimerSet) (xs : List (ℕ × ℕ))
    → s.timers p ≡ some t
    → insert_entry (t.expiration, p) xs ≡ some s.container
    → (s' : TimerSet) × (cancel_in_loop p s ≡ some s') × (s'.container ≡ xs) × (s'.timers p ≡ none)
unfolding cancel_in_loop
cancel_in_loop-put p t s xs e i = (
  put p none (record s { container = erase_entry (t.expiration, p) s.container }),
  rw (cancel_in_loop, e) refl,
  erase_entry-insert_entry (t.expiration, p) xs s.container i,
  rw (eq_refl p) refl,
)

add_timer_in_loop-put :
    (p now : ℕ) (t : Timer) (s : TimerSet)
    → s.timers p ≡ some t
    → Lacks p s.container
    → (s' : TimerSet) × (add_timer_in_loop p now s ≡ some s')
      × (insert_entry (t.expiration, p) s.container ≡ some s'.container)
      × (s'.timers p ≡ some t)
unfolding add_timer_in_loop insert
add_timer_in_loop-put p now t s e l =
    let (zs, f, i) = insert-Inserted s.timers (t.expiration, p) s.container l in
    elim (Bool-cases (is_earliest t.expiration s.container)) [
      | inl a ↦ (
        reset_timerfd t.expiration now (record s { container = zs }),
        rw (add_timer_in_loop, e, insert, f, a) refl,
        f,
        e,
      )
      | inr a ↦ (record s { container = zs }, rw (add_timer_in_loop, e, insert, f, a) refl, f, e)
    ]

-- A thread that is not the loop's adds a timer and cancels it before the loop calls a functor: the
-- functors, called in turn, delete the timer and leave the entries of the set as they were.
pub cancel-posted :
    (p now later : ℕ) (clock : ℕ → ℕ) (t : Timer) (s : TimerSet)
    → Lacks p s.container
    → (s' : TimerSet) × (and_then
          (and_then (add_timer false p t now (idle s)) (cancel false p later))
          (do_pending clock)
        ≡ some (idle s'))
      × (s'.container ≡ s.container)
      × (s'.timers p ≡ none)
unfolding add_timer cancel post run do_pending run_each
cancel-posted p now later clock t s l =
    let (s1, a, i, g) =
      add_timer_in_loop-put p (clock 0) t (put p (some t) s)
        (ap (λ (b : Bool). if b then some t else s.timers p) (eq_refl p)) l in
    let (s2, c, k, n) = cancel_in_loop-put p t s1 s.container g i in
    (s2, rw (do_pending, run_each, run, a) (rw (run_each, run, c) refl), k, n)
