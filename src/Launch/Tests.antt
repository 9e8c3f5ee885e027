-- ===== src/Launch/Tests.antt =====
-- CountDownLauch and EPollerThread at concrete orders.
use network_ydxlib.Base.{true, false, ◌≤◌, ◌⊎◌, ◌≡◌, refl, some, [], ◌∷◌}
use network_ydxlib.Base.Int.{pos}
use network_ydxlib.Launch.{
  CountDownLauch, launch, notify_all, count_down, wait, go_on, EPollerThread, testing, asleep,
  returned, start_epoll, turn, publish, leave,
}
use network_ydxlib.Launch.{polling, over}
use network_ydxlib.Launch.Close.{
  Closing, Step, Reach, here, next, begins, quits, leaves, joins, before, joining, closed,
  begin_close, tested, quit, quit_by, end_join,
}
use network_ydxlib.Launch.Ending.{Reach-ends}
use network_ydxlib.Launch.Open.{created, counts, waits, goes, IsOpen, Reach-IsOpen}
use network_ydxlib.Launch.Handshake.{Shakes, begun, turns, publishes, Reach-Shakes}

-- Threads 4 and 5 wait for one count.
abbrev two_wait : CountDownLauch
two_wait = wait 5 (wait 4 (launch (pos 1)))

all-through : (go_on 4 (go_on 5 (count_down two_wait))).through ≡ 4 ∷ 5 ∷ []
unfolding go_on count_down notify_all wait
all-through = refl

Reach-IsOpen_example : IsOpen (go_on 5 (count_down two_wait))
Reach-IsOpen_example = Reach-IsOpen (go_on 5 (count_down two_wait)) (
    goes 5 (count_down two_wait) (
      counts two_wait
        (waits 5 (wait 4 (launch (pos 1))) (waits 4 (launch (pos 1)) (created (pos 1))))))

-- The starter sleeps, is woken, and returns.
abbrev slept : EPollerThread
slept = turn testing start_epoll

shaken :
    (turn network_ydxlib.Launch.ready (turn testing (publish 9 slept))).starter ≡ returned (some 9)
unfolding turn publish
shaken = refl

abbrev told : EPollerThread
told = publish 9 slept

abbrev awake : EPollerThread
awake = turn testing told

Reach-Shakes_example : Shakes 9 (turn network_ydxlib.Launch.ready awake)
unfolding turn publish
Reach-Shakes_example =
    Reach-Shakes 9 (turn network_ydxlib.Launch.ready awake)
      (turns awake (turns told (publishes slept (turns start_epoll begun) refl)))

-- The loop runs at address 9, and the destructor has not begun.
abbrev served : Closing
served = record {
  thread = record { epoller = some 9; starter = returned (some 9); worker = polling };
  exiting = false;
  quitting = false;
  closer = before;
}

abbrev asked : Closing
asked = record served { exiting = true; quitting = true; closer = joining }

abbrev left_alone : Closing
left_alone = record asked { thread = leave asked.thread }

served-Reach : Reach false served 4 (end_join left_alone)
unfolding begin_close tested quit quit_by leave
served-Reach =
    next (next (next (next here (begins refl)) (quits {d = asked} refl refl)) (leaves refl refl))
      (joins refl refl)

Reach-ends_example :
    (4 ≤ 4)
    × (((e : Closing) × Step false (end_join left_alone) e) ⊎ ((closed ≡ closed) × (over ≡ over)))
unfolding end_join leave
Reach-ends_example = Reach-ends {epoller = 9} refl refl refl refl served-Reach
