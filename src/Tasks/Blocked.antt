-- ===== src/Tasks/Blocked.antt =====
-- ThreadPool: `stop` wakes no caller that waits in `run`.
use network_ydxlib.Base.{◌≤◌, ◌<◌, ◌≡◌, sym, ap, ◌∙◌, none, [], ◌∷◌, arith, length, length-append}
use network_ydxlib.Tasks.{run, stop}
use network_ydxlib.Tasks.Order.{run-waits}
use network_ydxlib.Tasks.Workers.{Workers, Step, Reach, here, next, submits, tests, takes, finishes}
use network_ydxlib.Tasks.Workers

module _ {T : Type 0} where
  -- Every worker has left its loop, and the queue is at its bound.
  pub record IsOver (w : Workers T) : Type 0 where
    pub threads : 0 < w.pool.threads
    pub bound : 0 < w.pool.max_queue_size
    pub full : w.pool.max_queue_size ≤ length w.pool.queue
    pub none_tests : w.testing ≡ 0
    pub none_takes : w.taking ≡ 0
    pub none_runs : w.busy ≡ []

  IsOver-waits : (w : Workers T) (task : T) → IsOver w → run task w.pool ≡ none
  IsOver-waits w task o = (run-waits w.pool task).1 (o.threads, o.bound, o.full)

  Step-IsOver : {w x : Workers T} → IsOver w → Step w x → IsOver x
  unfolding stop
  Step-IsOver {w} o (submits task e) = absurd (cc (sym e ∙ IsOver-waits w task o))
  Step-IsOver o Workers.stops = record {
    threads = o.threads;
    bound = o.bound;
    full = o.full;
    none_tests = o.none_tests;
    none_takes = o.none_takes;
    none_runs = o.none_runs;
  }
  Step-IsOver o (tests h) = absurd (omega (arith, h, o.none_tests))
  Step-IsOver o (takes _ _ h e) = absurd (omega (arith, h, o.none_takes))
  Step-IsOver o (finishes task front behind e) =
      absurd (omega (arith, ap length (sym e ∙ o.none_runs), length-append front (task ∷ behind)))

  Reach-IsOver : {v w : Workers T} → IsOver v → Reach v w → IsOver w
  Reach-IsOver o here = o
  Reach-IsOver o (next r s) = Step-IsOver (Reach-IsOver o r) s

  -- Once all workers of a pool have left their loops, as they do after `stop`, with the queue at its
  -- bound, a caller of `run` waits, and goes on waiting whatever steps follow, `stop` included.
  pub run-blocked : {v w : Workers T} (task : T) → IsOver v → Reach v w → run task w.pool ≡ none
  run-blocked {v} {w} task o r = IsOver-waits w task (Reach-IsOver o r)
