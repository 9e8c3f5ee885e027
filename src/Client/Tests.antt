-- ===== src/Client/Tests.antt =====
-- TcpClient at a concrete life.
use network_ydxlib.Base.{◌≡◌, refl, true, false, none, [], ◌∷◌}
use network_ydxlib.Client.{
  Client, starts, restarts, establishes, destroys, shuts, new_client, enable_retry, is_connected,
  connect, new_connection, remove_connection, close, close_by, disconnect, shut,
}
use network_ydxlib.Client.Pairs.{created, retries, connects, comes, goes, IsPaired, Reach-IsPaired}

abbrev dialled : Client
dialled = connect (enable_retry new_client)

again :
    (remove_connection 1 (new_connection dialled)).calls
    ≡ restarts ∷ destroys 1 ∷ establishes 1 ∷ starts ∷ []
unfolding remove_connection new_connection connect enable_retry
again = refl

-- Before any connection the client calls itself connected.
too_early : (is_connected dialled ≡ true) × (dialled.connection ≡ none)
unfolding is_connected connect enable_retry
too_early = (refl, refl)

hung_up : (disconnect (new_connection dialled)).calls ≡ shuts 1 ∷ establishes 1 ∷ starts ∷ []
unfolding disconnect shut new_connection connect enable_retry
hung_up = refl

shared_end : (close false (new_connection dialled)).calls ≡ establishes 1 ∷ starts ∷ []
unfolding close close_by new_connection connect enable_retry
shared_end = refl

nothing : dialled.connection ≡ none
unfolding connect enable_retry
nothing = refl

Reach-IsPaired_example : IsPaired (remove_connection 1 (new_connection dialled))
unfolding new_connection connect enable_retry
Reach-IsPaired_example = Reach-IsPaired (remove_connection 1 (new_connection dialled)) (
    goes 1 (new_connection dialled)
      (comes dialled (connects (enable_retry new_client) (retries new_client created)) nothing)
      refl)
