-- ===== src/Poller/Tests.antt =====
-- EPollPoller at concrete channels, and `handleEvent` at concrete events.
use network_ydxlib.Base.{◌+◌, ◌≡◌, refl, [], ◌∷◌, true}
use network_ydxlib.Channel.{Channel, channel, none_event, handle_event, reads}
use network_ydxlib.Poller.{enable_reading, enable_writing, disable_all, remove}
use network_ydxlib.Poller.System.{IsAgreed, run, start, start-IsAgreed, run-IsAgreed}

-- A hang-up with data left to read, every callback set.
abbrev hung_up : Channel
hung_up = record (channel 7) {
  revents = record none_event { epollhup = true; epollin = true };
  callbacks = record { on_read = true; on_write = true; on_close = true; on_error = true };
}

-- It is read, and not closed.
half_read : handle_event hung_up ≡ reads ∷ []
unfolding handle_event
half_read = refl

run-IsAgreed_example :
    IsAgreed
      (λ k. k + 100)
      (run
        (λ k. k + 100)
        ((7, enable_reading) ∷ (9, enable_writing) ∷ (7, disable_all) ∷ (7, remove) ∷ [])
        start)
run-IsAgreed_example =
    run-IsAgreed (λ k. k + 100)
      ((7, enable_reading) ∷ (9, enable_writing) ∷ (7, disable_all) ∷ (7, remove) ∷ []) start
      (start-IsAgreed (λ k. k + 100))
