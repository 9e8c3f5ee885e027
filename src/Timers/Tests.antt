-- ===== src/Timers/Tests.antt =====
-- TimerSet at concrete timers.
use network_ydxlib.Base.{
  true, ◌==◌, if◌then◌else◌, ℕ, ◌≡◌, ◌++◌, refl, some, none, List, [], ◌∷◌, false, arith,
}
use network_ydxlib.Timers.{
  Timer, TimerSet, add_timer_in_loop, put, reset_timerfd, before, insert, insert_at, insert_entry,
  is_earliest, cancel_in_loop, handle_read, how_much,
}
use network_ydxlib.Timers.Expiry.{IsSorted, AreDue, AreLater}
use network_ydxlib.Timers.Live.{Lacks}
use network_ydxlib.Timers.Life.{Reach, created, adds, Reach-goes_on}
use network_ydxlib.Timers.Alone.{leave_alone, addresses}
use network_ydxlib.Timers.Descriptor.{Watched, and_then, construct, destroy, Clean, destroy-Clean}
use network_ydxlib.Poller.{init}

abbrev late : Timer
late = record { expiration = 500; interval = 0; repeats = false }

-- Timers at 100, 200 and 300, of which two expire at the same time.
abbrev three : TimerSet
three = record {
  container = (20, 300) ∷ (50, 100) ∷ (50, 200) ∷ [];
  timers = λ p. none;
  alarm = none;
  ran = [];
}

how_much-late : how_much 2500100 1000000 ≡ (1, 500100000)
unfolding how_much
how_much-late = refl

three-IsSorted : IsSorted three.container
unfolding before
three-IsSorted = ((refl, (refl, tt)), ((refl, tt), (tt, tt)))

abbrev four : TimerSet
four = record three { container = (20, 300) ∷ (50, 100) ∷ (50, 200) ∷ (500, 400) ∷ [] }

insert-three : insert 400 late three ≡ some (false, four)
unfolding insert insert_entry insert_at before is_earliest
insert-three = refl

abbrev alone : TimerSet
alone = record three { container = (500, 400) ∷ []; timers = λ p. some late }

abbrev again : Timer
again = record { expiration = 20; interval = 7; repeats = true }

abbrev none_yet : TimerSet
none_yet = record { container = []; timers = λ p. none; alarm = none; ran = [] }

-- Timer 300, which repeats, has been added.
abbrev one : TimerSet
one = record {
  container = (20, 300) ∷ [];
  timers = λ p. if 300 == p then some again else none;
  alarm = some (0, 100000);
  ran = [];
}

one-added : add_timer_in_loop 300 10 (put 300 (some again) none_yet) ≡ some one
unfolding add_timer_in_loop insert insert_entry is_earliest reset_timerfd how_much
one-added = refl

Reach-goes_on_example :
    ((s' : TimerSet) × (cancel_in_loop 300 one ≡ some s') × Lacks 300 s'.container × Reach s')
    × ((due rest : List (ℕ × ℕ)) × (s' : TimerSet) × (handle_read leave_alone 30 31 one ≡ some s')
        × (due ++ rest ≡ (20, 300) ∷ [])
        × AreDue 30 due
        × AreLater 30 rest
        × (s'.ran ≡ [] ++ addresses due)
        × Reach s')
Reach-goes_on_example =
    Reach-goes_on one 300 30 31 again
      (adds 300 10 again none_yet one (created (λ p. none)) (omega arith) tt one-added) refl

destroy-Clean_example :
    (w : Watched) × (and_then
        (construct (some 9) init 4096 (λ p. none))
        (λ v. destroy (record v { set = one }))
      ≡ some w)
    × Clean 9 init one w
destroy-Clean_example =
    destroy-Clean 9 4096 init (λ p. none) one
      (adds 300 10 again none_yet one (created (λ p. none)) (omega arith) tt one-added)
