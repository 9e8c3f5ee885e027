-- ===== src/AsyncLog/Tests.antt =====
-- AsyncLogging with a few short lines.
use network_ydxlib.Base.{ℕ, ◌≡◌, refl, ap, false, List, [], ◌∷◌, arith}
use network_ydxlib.Log.{append, avail}
use network_ydxlib.AsyncLog.{AsyncLogging, started, append_line}
use network_ydxlib.AsyncLog.Sound.{IsSound, stream}
use network_ydxlib.AsyncLog.Lines.{here, appends, Run-stream}
use network_ydxlib.AsyncLog.Shutdown.{stop_lost}

abbrev notice : ℕ → List ℕ
notice n = 68 ∷ n ∷ []

started-IsSound : IsSound started
started-IsSound = record {
  current_large = (refl, omega arith);
  next_empty = (refl, refl);
  new1_empty = (refl, refl);
  new2_empty = (refl, refl);
  buffers_large = tt;
  to_write_large = tt;
  next_used = omega arith;
  supplied = (refl, refl, refl);
}

abbrev one : AsyncLogging
one = append_line (65 ∷ 66 ∷ []) started

-- A line, and the critical section that takes it over.
abbrev holding : AsyncLogging
holding = record started { current = record { size = 4000000; text = 65 ∷ 66 ∷ [] } }

one-holding : one ≡ holding
unfolding append_line append avail
one-holding = refl

Run-stream_example : stream one ≡ 65 ∷ 66 ∷ []
Run-stream_example =
    Run-stream notice started-IsSound (appends (65 ∷ 66 ∷ []) here)
      (ap (λ (a : AsyncLogging). a.dropped) one-holding)

abbrev stopped : AsyncLogging
stopped = record holding { running = false }

-- Two more lines after the stop.
stop_lost_example : (append_line (67 ∷ []) stopped).output ≡ []
stop_lost_example = stop_lost notice refl refl (appends {b = stopped} (67 ∷ []) here)
