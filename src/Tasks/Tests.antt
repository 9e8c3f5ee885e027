-- ===== src/Tasks/Tests.antt =====
-- ThreadPool with one worker and a bound of two.
use network_ydxlib.Base.{ℕ, ◌≡◌, refl, some, false, [], ◌∷◌, true, arith}
use network_ydxlib.Tasks.{ThreadPool, run, take, take_from, stop, is_full}
use network_ydxlib.Tasks.Order
use network_ydxlib.Tasks.Order.{IsOrdered, runs, Reach-IsOrdered}
use network_ydxlib.Tasks.Workers.{
  Workers, Reach, here, next, tests, takes, finishes, test_running, took, finish,
}
use network_ydxlib.Tasks.Once.{accepted-executed}
use mathlib.Core.List.{Perm}
use mathlib.Core.List.Perm

abbrev pool : ThreadPool ℕ
pool = record {
  threads = 1;
  queue = 5 ∷ [];
  max_queue_size = 2;
  running = true;
  accepted = 4 ∷ 5 ∷ [];
  taken = 4 ∷ [];
  inline = [];
}

abbrev fuller : ThreadPool ℕ
fuller = record pool { queue = 5 ∷ 6 ∷ []; accepted = 4 ∷ 5 ∷ 6 ∷ [] }

abbrev later : ThreadPool ℕ
later = record fuller { queue = 6 ∷ []; taken = 4 ∷ 5 ∷ [] }

pool-IsOrdered : IsOrdered pool
pool-IsOrdered = record { fifo = refl; bounded = λ h. omega arith }

run-pool : run 6 pool ≡ some fuller
unfolding run is_full
run-pool = refl

take-fuller : take fuller ≡ some (some 5, later)
unfolding take take_from
take-fuller = refl

Reach-IsOrdered_example : IsOrdered (stop later)
Reach-IsOrdered_example = Reach-IsOrdered pool-IsOrdered (
    Order.next
      (Order.next (Order.next Order.here (runs 6 run-pool)) (Order.takes (some 5) take-fuller))
      Order.stops)

-- The one worker is at the test, and 4 has been run.
abbrev one_worker : Workers ℕ
one_worker = record {
  pool = pool;
  testing = 1;
  taking = 0;
  busy = [];
  ended = 0;
  executed = 4 ∷ [];
}

abbrev after_five : Workers ℕ
after_five = record {
  pool = record pool { queue = []; taken = 4 ∷ 5 ∷ [] };
  testing = 1;
  taking = 0;
  busy = [];
  ended = 0;
  executed = 4 ∷ 5 ∷ [];
}

take-pool : take pool ≡ some (some 5, record pool { queue = []; taken = 4 ∷ 5 ∷ [] })
unfolding take take_from
take-pool = refl

one_worker-Reach : Reach one_worker after_five
unfolding test_running took finish
one_worker-Reach =
    next
      (next (next here (tests (omega arith)))
        (takes (some 5) (record pool { queue = []; taken = 4 ∷ 5 ∷ [] }) (omega arith) take-pool))
      (finishes 5 [] [] refl)

accepted-executed_example : Perm {A = ℕ} (4 ∷ 5 ∷ []) (4 ∷ 5 ∷ []) × ◌≡◌ {A = ℕ} 1 1
accepted-executed_example =
    accepted-executed
      (record { ordered = pool-IsOrdered; once = Perm.refl (4 ∷ []); workers = refl })
      one_worker-Reach

-- Stopped with two tasks in the queue, and the worker gone.
abbrev stopped : Workers ℕ
stopped = record {
  pool = record fuller { running = false };
  testing = 0;
  taking = 0;
  busy = [];
  ended = 1;
  executed = 4 ∷ [];
}
