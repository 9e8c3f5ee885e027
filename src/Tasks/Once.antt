-- ===== src/Tasks/Once.antt =====
-- ThreadPool: each task is run once.
use network_ydxlib.Base.{
  ℕ, ◌+◌, ◌-◌, ◌<◌, ◌≡◌, sym, ap, ◌∙◌, subst, Bool, true, false, some-inj, Option, none, some, List,
  [], ◌∷◌, ◌++◌, append_assoc, length, length-append, arith, if◌then◌else◌,
}
use mathlib.Core.List.{Perm, perm_append_singleton, perm_middle}
use mathlib.Core.List.Perm
use network_ydxlib.Tasks.{ThreadPool, run, take, take_from, stop}
use network_ydxlib.Tasks.Order.{IsOrdered, runs}
use network_ydxlib.Tasks.Order
use network_ydxlib.Tasks.Workers.{
  Workers, test_running, took, finish, Step, Reach, here, next, submits, tests, finishes,
}
use network_ydxlib.Tasks.Workers

module _ {T : Type 0} where
  -- Of `n` workers.
  pub record IsKept (n : ℕ) (w : Workers T) : Type 0 where
    pub ordered : IsOrdered w.pool
    pub once : Perm w.pool.taken (w.executed ++ w.busy)
    pub workers : w.testing + w.taking + length w.busy + w.ended ≡ n

  -- What `take` and `run` do to the tasks taken so far.
  data Taken (p : ThreadPool T) (o : Option T) (q : ThreadPool T) : Type 0 where
    empty : o ≡ none → q.taken ≡ p.taken → Taken p o q
    front : (task : T) → o ≡ some task → q.taken ≡ p.taken ++ (task ∷ []) → Taken p o q

  of_none :
      (b : Bool) (p q : ThreadPool T) (o : Option T)
      → if◌then◌else◌ {A = Option (Option T × ThreadPool T)} b none (some (none, p)) ≡ some (o, q)
      → Taken p o q
  of_none true p q o e = absurd (cc e)
  of_none false p q o e =
      let h = some-inj e in empty (sym (ap (λ x. x.0) h)) (sym (ap (λ x. x.1.taken) h))

  take_from-Taken :
      (ts : List T) (p q : ThreadPool T) (o : Option T) → take_from ts p ≡ some (o, q) → Taken p o q
  unfolding take_from
  take_from-Taken [] p q o e = of_none p.running p q o e
  take_from-Taken (t ∷ ts) p q o e =
      let h = some-inj e in front t (sym (ap (λ x. x.0) h)) (sym (ap (λ x. x.1.taken) h))

  take-Taken : (p q : ThreadPool T) (o : Option T) → take p ≡ some (o, q) → Taken p o q
  unfolding take
  take-Taken p q o e = take_from-Taken p.queue p q o e

  run-taken : (task : T) (p q : ThreadPool T) → run task p ≡ some q → q.taken ≡ p.taken
  unfolding run
  run-taken task p q e = ground (arith, e)

  tested :
      {n : ℕ} (b : Bool) (w : Workers T)
      → IsKept n w
      → 0 < w.testing
      → IsKept n (
          if b
          then record w { testing = w.testing - 1; taking = w.taking + 1 }
          else record w { testing = w.testing - 1; ended = w.ended + 1 })
  tested true w k h = record {
    ordered = k.ordered;
    once = k.once;
    workers = omega (arith, k.workers);
  }
  tested false w k h = record {
    ordered = k.ordered;
    once = k.once;
    workers = omega (arith, k.workers);
  }

  test-IsKept : {n : ℕ} (w : Workers T) → IsKept n w → 0 < w.testing → IsKept n (test_running w)
  unfolding test_running
  test-IsKept w k h = tested w.pool.running w k h

  took-IsKept :
      {n : ℕ} (w : Workers T) (o : Option T) (p : ThreadPool T)
      → IsKept n w
      → 0 < w.taking
      → IsOrdered p
      → Taken w.pool o p
      → IsKept n (took (o, p) w)
  unfolding took
  took-IsKept w none p k h ordered (empty _ same) = record {
    ordered = ordered;
    once = subst (λ l. Perm l (w.executed ++ w.busy)) (sym same) k.once;
    workers = omega (arith, k.workers);
  }
  took-IsKept w none p k h ordered (front t e same) = absurd (cc e)
  took-IsKept w (some task) p k h ordered (empty e same) = absurd (cc e)
  took-IsKept w (some task) p k h ordered (front t e same) = record {
    ordered = ordered;
    once =
        let there : p.taken ≡ w.pool.taken ++ (task ∷ []) =
          same ∙ ap (λ x. w.pool.taken ++ (x ∷ [])) (sym (some-inj e)) in
        subst (λ l. Perm l (w.executed ++ (task ∷ w.busy))) (sym there)
          (Perm.trans (perm_append_singleton task w.pool.taken)
            (Perm.trans (Perm.cons task k.once) (Perm.symm (perm_middle w.executed w.busy))));
    workers = omega (arith, k.workers);
  }

  finish-IsKept :
      {n : ℕ} (w : Workers T) (task : T) (before behind : List T)
      → IsKept n w
      → w.busy ≡ before ++ (task ∷ behind)
      → IsKept n (finish task before behind w)
  unfolding finish
  finish-IsKept w task before behind k e = record {
    ordered = k.ordered;
    once =
        subst (Perm w.pool.taken) (sym (append_assoc w.executed (task ∷ []) (before ++ behind))) (
          Perm.trans (subst (λ l. Perm w.pool.taken (w.executed ++ l)) e k.once)
            (Perm.append_left w.executed (perm_middle before behind)));
    workers = omega (
      arith,
      k.workers,
      ap length e,
      length-append before (task ∷ behind),
      length-append before behind,
    );
  }

  Step-IsKept : {n : ℕ} {w x : Workers T} → IsKept n w → Step w x → IsKept n x
  unfolding stop
  Step-IsKept {n} {w} k (submits {p = p} task e) = record {
    ordered = Order.Step-IsOrdered k.ordered (runs task e);
    once = subst (λ l. Perm l (w.executed ++ w.busy)) (sym (run-taken task w.pool p e)) k.once;
    workers = k.workers;
  }
  Step-IsKept k Workers.stops = record {
    ordered = Order.Step-IsOrdered k.ordered Order.stops;
    once = k.once;
    workers = k.workers;
  }
  Step-IsKept {n} {w} k (tests h) = test-IsKept w k h
  Step-IsKept {n} {w} k (Workers.takes o p h e) =
      took-IsKept w o p k h (Order.Step-IsOrdered k.ordered (Order.takes o e))
        (take-Taken w.pool p o e)
  Step-IsKept {n} {w} k (finishes task before behind e) = finish-IsKept w task before behind k e

  Reach-IsKept : {n : ℕ} {v w : Workers T} → IsKept n v → Reach v w → IsKept n w
  Reach-IsKept k here = k
  Reach-IsKept k (next r s) = Step-IsKept (Reach-IsKept k r) s

  -- Let the tasks taken off the queue so far be, in some order, those run to their end and those
  -- that workers are running, with the queue in order and within its bound, and each of the `n`
  -- workers be somewhere. Then however calls of `run` and `stop` and the workers' steps follow each
  -- other: the tasks accepted so far are, in some order and each exactly as often as it was accepted, those run to
  -- their end, those that workers are running, and the queue; and no worker is lost.
  pub accepted-executed :
      {n : ℕ} {v w : Workers T}
      → IsKept n v
      → Reach v w
      → Perm w.pool.accepted ((w.executed ++ w.busy) ++ w.pool.queue)
        × (w.testing + w.taking + length w.busy + w.ended ≡ n)
  accepted-executed {n} {v} {w} k r =
      let c = Reach-IsKept k r in
      (
        subst (λ l. Perm l ((w.executed ++ w.busy) ++ w.pool.queue)) (sym c.ordered.fifo)
            (Perm.append_right w.pool.queue c.once),
        c.workers,
      )
