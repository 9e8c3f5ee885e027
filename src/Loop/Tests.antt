-- ===== src/Loop/Tests.antt =====
-- The event loop at concrete functors: functor `n` queues functor `n - 1`, and 0 queues none.
use network_ydxlib.Base.{
  ℕ, zero, suc, ◌+◌, ◌≡◌, ◌≤◌, ◌<◌, ◌⊎◌, inl, refl, List, [], ◌∷◌, false, arith, length,
}
use network_ydxlib.Channel.{channel}
use network_ydxlib.Loop.{Loop, do_pending_functors, grow, push}
use network_ydxlib.Loop.Pending.{do_pending_functors_lem}
use network_ydxlib.Loop.Wakeup.{Shared, waiting, here, next, other_push, IsAwake, Reach-heard}
use network_ydxlib.Loop.Rounds.{grow-lt}

abbrev adds : ℕ → List ℕ
adds zero = []
adds (suc n) = n ∷ []

abbrev loop : Loop ℕ
loop = record {
  pending = 2 ∷ 0 ∷ 1 ∷ [];
  calling = false;
  quitting = false;
  wakeups = 0;
  done = [];
  events_size = 16;
  chans = channel;
}

do_pending_functors_lem_example :
    let l = do_pending_functors adds loop in
    (l.done ≡ 2 ∷ 0 ∷ 1 ∷ [])
    × (l.pending ≡ 1 ∷ 0 ∷ [])
    × (l.wakeups ≡ 0 + length l.pending)
    × (l.calling ≡ false)
do_pending_functors_lem_example = do_pending_functors_lem adds loop

abbrev asleep : Shared ℕ
asleep = record { loop = record loop { pending = [] }; phase = waiting; owed = 0 }

asleep-IsAwake : IsAwake asleep
asleep-IsAwake = record { flag = refl; heard = inl refl }

Reach-heard_example : (◌≡◌ {A = List ℕ} (4 ∷ []) []) ⊎ ((0 < 0) ⊎ (0 < 1))
unfolding push
Reach-heard_example = Reach-heard asleep-IsAwake (next here (other_push 4)) refl

grow-full : (16 < grow 16 16) × (16 ≤ grow 16 16)
grow-full = grow-lt 16 16 (omega arith) (omega arith)
