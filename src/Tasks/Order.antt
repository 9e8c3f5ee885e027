-- ===== src/Tasks/Order.antt =====
-- ThreadPool: whatever the callers and the workers do, one at a time under the mutex, tasks are taken
-- in the order in which they were accepted, and the queue keeps its bound.
use network_ydxlib.Base.{
  ◌≤◌, ◌<◌, ◌≡◌, ◌↔◌, refl, sym, ap, ◌∙◌, inl, inr, Bool-cases, Bool, true, false, Option, none,
  some, List, [], ◌∷◌, ◌++◌, append_assoc, ◌==◌, if◌then◌else◌, length, length-append, arith, subst,
}
use network_ydxlib.Tasks.{ThreadPool, is_full, stop, run, take, take_from}

module _ {T : Type 0} where
  pub data Step : ThreadPool T → ThreadPool T → Type 0 where
    runs : {p q : ThreadPool T} (task : T) → run task p ≡ some q → Step p q
    takes : {p q : ThreadPool T} (o : Option T) → take p ≡ some (o, q) → Step p q
    stops : {p : ThreadPool T} → Step p (stop p)

  pub data Reach (p : ThreadPool T) : ThreadPool T → Type 0 where
    here : Reach p p
    next : {q r : ThreadPool T} → Reach p q → Step q r → Reach p r

  pub record IsOrdered (p : ThreadPool T) : Type 0 where
    pub fifo : p.accepted ≡ p.taken ++ p.queue
    pub bounded : 0 < p.max_queue_size → length p.queue ≤ p.max_queue_size

  abbrev OrderedIf : Option (ThreadPool T) → Type 0
  OrderedIf none = Unit
  OrderedIf (some p) = IsOrdered p

  abbrev OrderedTake : Option (Option T × ThreadPool T) → Type 0
  OrderedTake none = Unit
  OrderedTake (some (o, p)) = IsOrdered p

  room-of :
      (p : ThreadPool T)
      → is_full p ≡ false
      → 0 < p.max_queue_size
      → length p.queue < p.max_queue_size
  unfolding is_full
  room-of p f h = ground arith

  run-IsOrdered : (task : T) (p : ThreadPool T) → IsOrdered p → OrderedIf (run task p)
  unfolding run
  run-IsOrdered task p o = elim (Bool-cases (p.threads == 0)) [
    | inl e ↦ rw e (record { fifo = o.fifo; bounded = o.bounded })
    | inr e ↦ elim (Bool-cases (is_full p)) [
      | inl f ↦ rw (e, f) tt
      | inr f ↦
          rw (e, f)
            (record {
              fifo = ap (λ l. l ++ (task ∷ [])) o.fifo ∙ append_assoc p.taken p.queue (task ∷ []);
              bounded = λ h. omega (arith, room-of p f h, length-append p.queue (task ∷ []));
            })
    ]
  ]

  wait-IsOrdered :
      (b : Bool) (p : ThreadPool T) → IsOrdered p → OrderedTake (if b then none else some (none, p))
  wait-IsOrdered true p o = tt
  wait-IsOrdered false p o = o

  take_from-IsOrdered :
      (ts : List T) (p : ThreadPool T) → p.queue ≡ ts → IsOrdered p → OrderedTake (take_from ts p)
  unfolding take_from
  take_from-IsOrdered [] p e o = wait-IsOrdered p.running p o
  take_from-IsOrdered (t ∷ ts) p e o = record {
    fifo = o.fifo ∙ ap (λ l. p.taken ++ l) e ∙ sym (append_assoc p.taken (t ∷ []) ts);
    bounded = λ h. omega (arith, o.bounded h, ap length e);
  }

  pub Step-IsOrdered : {p q : ThreadPool T} → IsOrdered p → Step p q → IsOrdered q
  unfolding take stop
  Step-IsOrdered {p} o (runs task e) = subst OrderedIf e (run-IsOrdered task p o)
  Step-IsOrdered {p} o (takes t e) = subst OrderedTake e (take_from-IsOrdered p.queue p refl o)
  Step-IsOrdered o stops = record { fifo = o.fifo; bounded = o.bounded }

  -- If that is so before, then however calls of `run`, `take` and `stop` follow each other, the
  -- tasks accepted so far are those taken, in the same order, and then those in the queue; and a
  -- queue with a bound keeps to it.
  pub Reach-IsOrdered : {p q : ThreadPool T} → IsOrdered p → Reach p q → IsOrdered q
  Reach-IsOrdered o here = o
  Reach-IsOrdered o (next r s) = Step-IsOrdered (Reach-IsOrdered o r) s

  take_from-waits :
      (ts : List T) (p : ThreadPool T)
      → (take_from ts p ≡ none → (ts ≡ []) × (p.running ≡ true))
        × ((ts ≡ []) × (p.running ≡ true) → take_from ts p ≡ none)
  unfolding take_from
  take_from-waits [] p = (λ e. (refl, ground arith), λ h. ground (arith, h.1))
  take_from-waits (t ∷ ts) p = (λ e. ground arith, λ h. ground (arith, h.0))

  pub run-waits :
      (p : ThreadPool T) (task : T)
      → ((run task p ≡ none)
          ↔ ((0 < p.threads) × (0 < p.max_queue_size) × (p.max_queue_size ≤ length p.queue)))
  unfolding run is_full
  run-waits p task = ground arith

  -- A worker waits exactly at an empty queue while the pool runs, and a caller exactly when there are
  -- workers and the queue is at its bound.
  pub take-waits :
      (p : ThreadPool T) (task : T)
      → ((take p ≡ none) ↔ ((p.queue ≡ []) × (p.running ≡ true)))
        × ((run task p ≡ none)
            ↔ ((0 < p.threads) × (0 < p.max_queue_size) × (p.max_queue_size ≤ length p.queue)))
  unfolding take
  take-waits p task = (take_from-waits p.queue p, run-waits p task)
