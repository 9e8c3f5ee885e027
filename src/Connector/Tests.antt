-- ===== src/Connector/Tests.antt =====
-- Connector at concrete attempts.
use network_ydxlib.Base.{◌≡◌, ◌≢◌, refl, true, false, some, none, [], ◌∷◌, arith}
use network_ydxlib.Channel.{channel}
use network_ydxlib.Poller
use network_ydxlib.Poller.{lookup}
use network_ydxlib.Connector.{
  disconnected, connecting, Connector, Attempt, retries, proceeds, verdict, done, connect,
  econnrefused, einprogress, writes, run, is_connecting,
}
use network_ydxlib.Connector.Owner.{IsOwned, IsSafe, run-IsSafe}
use network_ydxlib.Connector.Tries.{connect-Ended}

abbrev idle : Connector
idle = record {
  state = disconnected;
  wanted = true;
  chan = none;
  poller = Poller.init;
  opened = [];
  closed = [];
  handed = [];
}

abbrev refused : Attempt
refused = record { fd = 7; address = 100; errno = econnrefused }

abbrev under_way : Attempt
under_way = record { fd = 8; address = 200; errno = einprogress }

abbrev busy : Connector
busy = record idle {
  state = connecting;
  chan = some (50, channel 3);
  poller = record Poller.init { channels = (3, 50) ∷ [] };
  opened = 3 ∷ [];
}

busy-IsOwned : IsOwned busy
unfolding is_connecting
busy-IsOwned = record { sockets = λ k. omega arith; busy = refl }

-- The connection fails, the first new attempt is refused, and the second one is under way.
run-IsSafe_example : IsSafe (run (writes 111 false) (refused ∷ under_way ∷ []) busy)
run-IsSafe_example = run-IsSafe (writes 111 false) (refused ∷ under_way ∷ []) busy busy-IsOwned refl

refused-retries : verdict econnrefused ≡ retries
unfolding verdict
refused-retries = refl

under_way-proceeds : verdict einprogress ≡ proceeds
unfolding verdict
under_way-proceeds = refl

under_way-ends : verdict einprogress ≢ retries
unfolding verdict
under_way-ends = λ e. cc

connect-Ended_example :
    (d : Connector) × (connect (refused ∷ under_way ∷ []) idle ≡ done d)
    × (d.opened ≡ 8 ∷ 7 ∷ [])
    × (d.closed ≡ 7 ∷ [])
    × (d.handed ≡ [])
unfolding verdict
connect-Ended_example =
    connect-Ended (refused ∷ []) under_way [] idle refl (refused-retries, tt) under_way-ends
