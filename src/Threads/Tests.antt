-- ===== src/Threads/Tests.antt =====
-- Threads at concrete states.
use network_ydxlib.Base.{ℕ, ◌≡◌, refl, some, List, [], ◌∷◌, ◌++◌}
use network_ydxlib.Threads.{Thread, create, start, destroy}
use network_ydxlib.Threads.Release.{created, starts, destroy-released}

abbrev digit : ℕ → List ℕ
digit n = n ∷ []

abbrev fresh : Thread
fresh = (create digit 3 []).0

-- Running with the handle 7.
abbrev running : Thread
running = record fresh { started = network_ydxlib.Base.true; pthread_id = 7; runs = 7 ∷ [] }

running-start : start (some 7) fresh ≡ some running
unfolding create start
running-start = refl

-- A thread that was started and is not joined is detached.
destroy-released_example :
    (destroy running).joins ++ (destroy running).detaches ≡ (destroy running).runs
unfolding create
destroy-released_example =
    destroy-released (starts 7 (created digit 3 []) running-start) (λ e. refl)
