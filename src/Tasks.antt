-- ===== src/Tasks.antt =====
-- class ThreadPool of thread_pool.h and thread_pool.cpp: a bounded queue of tasks for worker threads.
-- `none` is a call that waits on a condition. `accepted`, `taken` and `inline` keep the history.
pub mod Order
pub mod Workers
pub mod Once
pub mod Blocked
mod Tests
use network_ydxlib.Base.{
  ℕ, ◌+◌, Bool, true, false, ◌&&◌, Option, none, some, List, [], ◌∷◌, ◌++◌, ltb, leb, ◌==◌,
  if◌then◌else◌, length,
}

pub record ThreadPool (T : Type 0) : Type 0 where
  pub threads : ℕ
  pub queue : List T
  pub max_queue_size : ℕ
  pub running : Bool
  pub accepted : List T
  pub taken : List T
  pub inline : List T

module _ {T : Type 0} where
  unfoldable pub is_full : ThreadPool T → Bool
  is_full p = ltb 0 p.max_queue_size && leb p.max_queue_size (length p.queue)

  unfoldable pub start : ℕ → ThreadPool T → ThreadPool T
  start num_threads p = record p { running = true; threads = p.threads + num_threads }

  unfoldable pub stop : ThreadPool T → ThreadPool T
  stop p = record p { running = false }

  unfoldable pub run : T → ThreadPool T → Option (ThreadPool T)
  unfolding is_full
  run task p =
      if p.threads == 0
      then some (record p { inline = p.inline ++ (task ∷ []) })
      else if is_full p
      then none
      else some (record p { queue = p.queue ++ (task ∷ []); accepted = p.accepted ++ (task ∷ []) })

  -- The task is empty when the pool has stopped.
  unfoldable pub take_from : List T → ThreadPool T → Option (Option T × ThreadPool T)
  take_from [] p = if p.running then none else some (none, p)
  take_from (t ∷ ts) p = some (some t, record p { queue = ts; taken = p.taken ++ (t ∷ []) })

  unfoldable pub take : ThreadPool T → Option (Option T × ThreadPool T)
  unfolding take_from
  take p = take_from p.queue p
