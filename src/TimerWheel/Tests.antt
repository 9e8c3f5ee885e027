-- ===== src/TimerWheel/Tests.antt =====
-- TimerWheel on a ring that is a list.
use network_ydxlib.Base.{ℕ, ◌+◌, ◌≡◌, refl, some, none, List, [], ◌∷◌, ◌++◌, arith, drop}
use network_ydxlib.Base.Int.{pos}
use network_ydxlib.Timestamp.{Timestamp, time_difference_micro}
use network_ydxlib.TimerWheel.{
  Circular, IsCircular, TimerWheel, on_last, push_empty, push_empties, put_back, add_after,
  add_node, refresh_node,
}
use network_ydxlib.TimerWheel.Count.{count, age}
use network_ydxlib.TimerWheel.Deadline.{Call, adds, refreshes, after_calls}
use network_ydxlib.TimerWheel.Simulation.{buckets, calls, Shows, Shows-calls}
use network_ydxlib.TimerWheel.Expiry.{calls-due}

abbrev ring : Circular
ring = record {
  Buffer = List (List ℕ);
  elements = λ b. b;
  push_empty = λ b. drop 1 b ++ ([] ∷ []);
  put_back = on_last;
}

ring-IsCircular : IsCircular ring
ring-IsCircular = record { elements-push_empty = λ b. refl; elements-put_back = λ n b. refl }

abbrev at : ℕ → Timestamp
at n = record { micro_seconds_since_epoch = pos n }

-- Three buckets; node 1 is in two of them.
abbrev wheel : TimerWheel ring
wheel = record {
  node_circle_buf = (1 ∷ 2 ∷ []) ∷ (1 ∷ []) ∷ [] ∷ [];
  bucket_num = 3;
  time = at 5000;
  fired = [];
}

abbrev work : List Call
work = adds (at 6500) 3 ∷ refreshes 2 ∷ adds (at 7500) 4 ∷ []

-- Node 2 goes with the first bucket, node 1 with the second.
work-fired : (calls work wheel).fired ≡ 2 ∷ 1 ∷ []
unfolding add_node time_difference_micro add_after push_empties push_empty put_back refresh_node
work-fired = refl

-- A node that is refused fires at once.
late-fired : (calls (adds (at 3000) 9 ∷ []) wheel).fired ≡ 9 ∷ []
unfolding add_node time_difference_micro add_after
late-fired = refl

Shows-calls_example :
    Shows 3 2
      (calls work wheel)
      (after_calls 3 2 work (record { time = at 5000; age = some 2; fired = 0 }))
Shows-calls_example =
    Shows-calls ring-IsCircular 3 2 (omega arith) work wheel
      (record { time = at 5000; age = some 2; fired = 0 })
      (record { size = refl; times = refl; aged = refl; count_fired = refl })

calls-due_example :
    (age 1 (buckets (calls work wheel)) ≡ none) × (count 1 (calls work wheel).fired ≡ 0 + 1)
unfolding time_difference_micro
calls-due_example = calls-due ring-IsCircular 1 1 work wheel refl (refl, (refl, (refl, tt)))
