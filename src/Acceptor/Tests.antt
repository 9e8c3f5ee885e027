-- ===== src/Acceptor/Tests.antt =====
-- Acceptor at concrete calls.
use network_ydxlib.Base.{ℕ, ◌≡◌, refl, some, List, [], ◌∷◌, arith}
use network_ydxlib.Acceptor.{
  Accepted, connfd, failed, eagain, emfile, is_expected, Acceptor, new_acceptor,
  set_new_connection_callback,
}
use network_ydxlib.Acceptor.Descriptors.{IsAccounted, reads, reads-IsAccounted}

abbrev acceptor : Acceptor
acceptor = set_new_connection_callback (new_acceptor (record { channels = []; calls = [] }) 100 3 4)

abbrev work : List (Accepted × ℕ × ℕ)
work = (connfd 7, 0, 0) ∷ (failed eagain, 0, 0) ∷ (failed emfile, 4, 4) ∷ []

acceptor-IsAccounted : IsAccounted acceptor
unfolding set_new_connection_callback
acceptor-IsAccounted = record { accounted = λ n. omega arith }

reads-IsAccounted_example : (b : Acceptor) × (reads work (some acceptor) ≡ some b) × IsAccounted b
unfolding is_expected
reads-IsAccounted_example =
    reads-IsAccounted work acceptor (tt, (refl, (refl, tt))) acceptor-IsAccounted
