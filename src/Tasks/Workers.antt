-- ===== src/Tasks/Workers.antt =====
-- ThreadPool: the worker threads of runInThread, as steps in any order with the callers of `run`.
use network_ydxlib.Base.{
  ℕ, ◌+◌, ◌-◌, ◌<◌, ◌≡◌, Option, none, some, List, [], ◌∷◌, ◌++◌, if◌then◌else◌,
}
use network_ydxlib.Tasks.{ThreadPool, run, take, stop}

-- How many workers are at the test of `running_`, are in `take`, and have left the loop; the tasks
-- that the other ones are running; and the tasks that were run to their end.
pub record Workers (T : Type 0) : Type 0 where
  pub pool : ThreadPool T
  pub testing : ℕ
  pub taking : ℕ
  pub busy : List T
  pub ended : ℕ
  pub executed : List T

module _ {T : Type 0} where
  unfoldable pub test_running : Workers T → Workers T
  test_running w =
      if w.pool.running
      then record w { testing = w.testing - 1; taking = w.taking + 1 }
      else record w { testing = w.testing - 1; ended = w.ended + 1 }

  -- An empty task is not called.
  unfoldable pub took : Option T × ThreadPool T → Workers T → Workers T
  took (none, p) w = record w { pool = p; taking = w.taking - 1; testing = w.testing + 1 }
  took (some task, p) w = record w { pool = p; taking = w.taking - 1; busy = task ∷ w.busy }

  -- `task` was behind the tasks `front`.
  unfoldable pub finish : T → (front behind : List T) → Workers T → Workers T
  finish task front behind w = record w {
    busy = front ++ behind;
    executed = w.executed ++ (task ∷ []);
    testing = w.testing + 1;
  }

  pub data Step : Workers T → Workers T → Type 0 where
    submits :
        {w : Workers T} {p : ThreadPool T} (task : T)
        → run task w.pool ≡ some p
        → Step w (record w { pool = p })
    stops : {w : Workers T} → Step w (record w { pool = stop w.pool })
    tests : {w : Workers T} → 0 < w.testing → Step w (test_running w)
    takes :
        {w : Workers T} (o : Option T) (p : ThreadPool T)
        → 0 < w.taking
        → take w.pool ≡ some (o, p)
        → Step w (took (o, p) w)
    finishes :
        {w : Workers T} (task : T) (front behind : List T)
        → w.busy ≡ front ++ (task ∷ behind)
        → Step w (finish task front behind w)

  pub data Reach (v : Workers T) : Workers T → Type 0 where
    here : Reach v v
    next : {w x : Workers T} → Reach v w → Step w x → Reach v x
