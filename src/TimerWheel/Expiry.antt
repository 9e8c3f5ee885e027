-- ===== src/TimerWheel/Expiry.antt =====
-- TimerWheel: when a node that nobody refreshes fires.
use network_ydxlib.Base.{
  ℕ, zero, suc, ◌+◌, ◌<◌, ◌≡◌, refl, sym, ap, ap₂, ◌∙◌, Bool, true, false, Option, none, some, List,
  [], ◌∷◌, ◌==◌, ltb, if◌then◌else◌, arith, length, subst,
}
use network_ydxlib.Base.Int.{ℤ, pos, negsuc}
use network_ydxlib.Timestamp.{Timestamp, time_difference_micro}
use network_ydxlib.TimerWheel.{Circular, IsCircular, TimerWheel}
use network_ydxlib.TimerWheel.Count.{count, age, is_some, age-bound}
use network_ydxlib.TimerWheel.Deadline.{
  put, Countdown, passes, tick, ticks, add_diff, Call, adds, refreshes, after_call, after_calls,
}
use network_ydxlib.TimerWheel.Simulation.{buckets, calls, Shows, Shows-calls}

-- The buckets that calls which start at `now` bring, and no call of theirs is about node `n`.
abbrev pub steps : ℤ → ℕ
steps (pos k) = k
steps (negsuc k) = 0

abbrev pub next_time : ℤ → (time now : Timestamp) → Timestamp
next_time (pos zero) time now = now
next_time (pos (suc k)) time now = time
next_time (negsuc k) time now = now

abbrev pub elapsed : Timestamp → List Call → ℕ
elapsed now [] = 0
elapsed now (refreshes k ∷ cs) = elapsed now cs
elapsed now (adds time k ∷ cs) =
    let d = time_difference_micro time now in steps d + elapsed (next_time d time now) cs

abbrev pub Spares : ℕ → List Call → Type 0
Spares n [] = Unit {0}
Spares n (adds time k ∷ cs) = ((n == k) ≡ false) × Spares n cs
Spares n (refreshes k ∷ cs) = ((n == k) ≡ false) × Spares n cs

-- What `k` buckets do to a node that was last put on `a` buckets ago.
abbrev pub aged : ℕ → ℕ → Option ℕ
aged len m = if ltb m len then some m else none

abbrev pub due : ℕ → ℕ → ℕ
due len m = if ltb m len then 0 else 1

aged-less : (len m : ℕ) → m < len → aged len m ≡ some m
aged-less len m h = ground arith

due-less : (len m : ℕ) → m < len → due len m ≡ 0
due-less len m h = ground arith

abbrev at_age : ℕ → (fired age : ℕ) → Timestamp → Countdown
at_age len f m t = record { time = t; age = aged len m; fired = f + due len m }

tick-at_age : (len f m : ℕ) (t : Timestamp) → tick len (at_age len f m t) ≡ at_age len f (suc m) t
tick-at_age len f m t =
    ap₂ (λ (o : Option ℕ) (k : ℕ). record { time = t; age = o; fired = k }) went.0 went.1
  where
    went :
        ((passes len (aged len m)).0 ≡ aged len (suc m))
        × (f + due len m + (passes len (aged len m)).1 ≡ f + due len (suc m))
    went = ground arith

ticks-at_age :
    (len k f m : ℕ) (t : Timestamp) → ticks len k (at_age len f m t) ≡ at_age len f (m + k) t
ticks-at_age len zero f m t = ap (λ j. at_age len f j t) (omega arith)
ticks-at_age len (suc k) f m t =
    ap (ticks len k) (tick-at_age len f m t)
    ∙ ticks-at_age len k f (suc m) t
    ∙ ap (λ j. at_age len f j t) (omega arith)

add_diff-at_age :
    (len : ℕ) (d : ℤ) (time t : Timestamp) (f m : ℕ)
    → add_diff len false d time (at_age len f m t) ≡ at_age len f (m + steps d) (next_time d time t)
add_diff-at_age len (pos zero) time t f m = ap (λ j. at_age len f j t) (omega arith)
add_diff-at_age len (pos (suc k)) time t f m = ticks-at_age len (suc k) f m time
add_diff-at_age len (negsuc k) time t f m = ap (λ j. at_age len f j t) (omega arith)

after_call-spared :
    (len n k : ℕ) (time t : Timestamp) (f m : ℕ)
    → (n == k) ≡ false
    → after_call len n (adds time k) (at_age len f m t)
      ≡ add_diff len false (time_difference_micro time t) time (at_age len f m t)
after_call-spared len n k time t f m e =
    ap (λ b. add_diff len b (time_difference_micro time t) time (at_age len f m t)) e

refresh-spared : (b c : Bool) (s : Countdown) → b ≡ false → (if c then put b s else s) ≡ s
refresh-spared true c s e = absurd (cc e)
refresh-spared false true s e = refl
refresh-spared false false s e = refl

after_calls-at_age :
    (len n : ℕ) (cs : List Call) (f m : ℕ) (t : Timestamp)
    → Spares n cs
    → (t' : Timestamp) × (after_calls len n cs (at_age len f m t)
        ≡ at_age len f (m + elapsed t cs) t')
after_calls-at_age len n [] f m t sp = (t, ap (λ j. at_age len f j t) (omega arith))
after_calls-at_age len n (refreshes k ∷ cs) f m t (other, sp) =
    let (t', e) = after_calls-at_age len n cs f m t sp in
    (
      t',
      ap (after_calls len n cs)
            (refresh-spared (n == k) (is_some (aged len m)) (at_age len f m t) other)
          ∙ e,
    )
after_calls-at_age len n (adds time k ∷ cs) f m t (other, sp) =
    let d : ℤ = time_difference_micro time t in
    let (t', e) = after_calls-at_age len n cs f (m + steps d) (next_time d time t) sp in
    (
      t',
      ap (after_calls len n cs)
            (after_call-spared len n k time t f m other ∙ add_diff-at_age len d time t f m)
          ∙ e
          ∙ ap (λ j. at_age len f j t') (omega arith),
    )

module _ {C : Circular} where
  -- On a ring of at least one bucket that keeps boost's laws, a node that was last put on the wheel
  -- `a` buckets ago, and about which no call is, is gone after calls of `addNode` and `refreshNode`
  -- just if the buckets that they brought, with `a`, are as many as the ring has. Its callback has
  -- then been called once more than before, and not at all while it is still there.
  pub calls-due :
      (law : IsCircular C) (n a : ℕ) (cs : List Call) (w : TimerWheel C)
      → age n (buckets w) ≡ some a
      → Spares n cs
      → let len = length (buckets w) in
        (age n (buckets (calls cs w)) ≡ aged len (a + elapsed w.time cs))
        × (count n (calls cs w).fired ≡ count n w.fired + due len (a + elapsed w.time cs))
  calls-due law n a cs w here sp =
      let len = length (buckets w) in
      let less = age-bound n (buckets w) a here in
      let (t', e) = after_calls-at_age len n cs (count n w.fired) a w.time sp in
      let h : Shows len n w (at_age len (count n w.fired) a w.time) = record {
        size = refl;
        times = refl;
        aged = here ∙ sym (aged-less len a less);
        count_fired = omega (arith, due-less len a less);
      } in
      let got =
        subst (Shows len n (calls cs w)) e (Shows-calls law len n (omega (arith, less)) cs w _ h) in
      (got.aged, got.count_fired)
