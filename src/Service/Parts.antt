-- ===== src/Service/Parts.antt =====
-- Service: what each step does to the counts of the server, and to what the connection's user is told.
use network_ydxlib.Base.{
  ℕ, ◌+◌, ◌≤◌, ◌≡◌, refl, sym, ap, ◌∙◌, some-inj, Bool, Option, none, some, List, [], ◌∷◌, arith,
}
use network_ydxlib.LoopPool.{LoopPool, get_next_loop}
use network_ydxlib.Channel.{Index, new, added, deleted, mask_or, is_none_event, meets}
use network_ydxlib.Poller.{perform, update_channel, update_by, new_events, remove_channel}
use network_ydxlib.Connection.{
  Connection, State, connecting, connected, disconnecting, disconnected, Effect, connection_changed,
  message_came, closed, shut_write, ask, shutdown, shutdown_in_loop, connect_established,
  connect_destroyed, is_connected,
}
use network_ydxlib.Connection.Told.{
  Told, nothing, up, down, over, told, next_after, next_told, IsAt, fresh, running, leaving, left,
  downed, closing, gone,
}
use network_ydxlib.Connection.Calls.{destroyed-off}
use network_ydxlib.Server.{
  Conn, Server, connect_to, new_connection, without, erase, remove_connection_in_loop,
}
use network_ydxlib.Server.Keys
use network_ydxlib.Server.Keys.{one, made}
use network_ydxlib.Service.{closes_in}

-- A connection accepted is established, and none is destroyed.
connect_to-counts :
    (print : ℕ → List ℕ) (k : List ℕ) (sockfd : ℕ) (x : Option ℕ × LoopPool) (s t : Server)
    → connect_to print sockfd x s ≡ some t
    → (Keys.gone k t.posted ≡ Keys.gone k s.posted) × (made k s.posted ≤ made k t.posted)
unfolding connect_to
connect_to-counts print k sockfd (none, q) s t e = absurd (cc e)
connect_to-counts print k sockfd (some l, q) s t e =
    let h = ap (λ x. x.posted) (sym (some-inj e)) in
    (omega (arith, ap (Keys.gone k) h), omega (arith, ap (made k) h))

pub new_connection-counts :
    (print : ℕ → List ℕ) (k : List ℕ) (sockfd : ℕ) (s t : Server)
    → new_connection print sockfd s ≡ some t
    → (Keys.gone k t.posted ≡ Keys.gone k s.posted) × (made k s.posted ≤ made k t.posted)
unfolding new_connection
new_connection-counts print k sockfd s t e =
    connect_to-counts print k sockfd (get_next_loop s.pool) s t e

without-counts :
    (k : List ℕ) (c : Conn) (s t : Server) (o : Option (List (List ℕ × Conn)))
    → without c s o ≡ some t
    → (Keys.gone k t.posted ≡ one k c.name + Keys.gone k s.posted)
      × (made k t.posted ≡ made k s.posted)
unfolding without
without-counts k c s t none e = absurd (cc e)
without-counts k c s t (some m) e =
    let h = ap (λ x. x.posted) (sym (some-inj e)) in
    (omega (arith, ap (Keys.gone k) h), omega (arith, ap (made k) h))

pub remove-counts :
    (k : List ℕ) (c : Conn) (s t : Server)
    → remove_connection_in_loop c s ≡ some t
    → (Keys.gone k t.posted ≡ one k c.name + Keys.gone k s.posted)
      × (made k t.posted ≡ made k s.posted)
unfolding remove_connection_in_loop
remove-counts k c s t e = without-counts k c s t (erase c.name s.connections) e

-- The close callback was called once just if the user has been told of the close.
abbrev pub closes_by : Told → ℕ
closes_by nothing = 0
closes_by up = 0
closes_by down = 0
closes_by over = 1

closes_next :
    (e : Effect) (es : List Effect) (t u : Told)
    → closes_in es ≡ closes_by t
    → next_told e t ≡ some u
    → closes_in (e ∷ es) ≡ closes_by u
unfolding next_told
closes_next (connection_changed connected) es nothing u h n = h ∙ ap closes_by (some-inj n)
closes_next (connection_changed connected) es up u h n = absurd (cc n)
closes_next (connection_changed connected) es down u h n = absurd (cc n)
closes_next (connection_changed connected) es over u h n = absurd (cc n)
closes_next (connection_changed disconnected) es nothing u h n = absurd (cc n)
closes_next (connection_changed disconnected) es up u h n = h ∙ ap closes_by (some-inj n)
closes_next (connection_changed disconnected) es down u h n = absurd (cc n)
closes_next (connection_changed disconnected) es over u h n = absurd (cc n)
closes_next (connection_changed connecting) es nothing u h n = absurd (cc n)
closes_next (connection_changed connecting) es up u h n = absurd (cc n)
closes_next (connection_changed connecting) es down u h n = absurd (cc n)
closes_next (connection_changed connecting) es over u h n = absurd (cc n)
closes_next (connection_changed disconnecting) es nothing u h n = absurd (cc n)
closes_next (connection_changed disconnecting) es up u h n = absurd (cc n)
closes_next (connection_changed disconnecting) es down u h n = absurd (cc n)
closes_next (connection_changed disconnecting) es over u h n = absurd (cc n)
closes_next message_came es nothing u h n = absurd (cc n)
closes_next message_came es up u h n = h ∙ ap closes_by (some-inj n)
closes_next message_came es down u h n = absurd (cc n)
closes_next message_came es over u h n = absurd (cc n)
closes_next closed es nothing u h n = absurd (cc n)
closes_next closed es up u h n = absurd (cc n)
closes_next closed es down u h n = ap (λ k. k + 1) h ∙ ap closes_by (some-inj n)
closes_next closed es over u h n = absurd (cc n)
closes_next shut_write es nothing u h n = h ∙ ap closes_by (some-inj n)
closes_next shut_write es up u h n = h ∙ ap closes_by (some-inj n)
closes_next shut_write es down u h n = h ∙ ap closes_by (some-inj n)
closes_next shut_write es over u h n = h ∙ ap closes_by (some-inj n)

closes_after :
    (e : Effect) (es : List Effect) (o : Option Told) (u : Told)
    → ((t : Told) → o ≡ some t → closes_in es ≡ closes_by t)
    → next_after e o ≡ some u
    → closes_in (e ∷ es) ≡ closes_by u
unfolding next_after
closes_after e es none u h n = absurd (cc n)
closes_after e es (some t) u h n = closes_next e es t u (h t refl) n

pub closes_in-told : (es : List Effect) (t : Told) → told es ≡ some t → closes_in es ≡ closes_by t
unfolding told
closes_in-told [] t e = ap closes_by (some-inj e)
closes_in-told (e ∷ es) t h = closes_after e es (told es) t (closes_in-told es) h

-- At a place of a connection's life.
pub at_deleted :
    {t : Option Told} {s : State} {i : Index} {b : Bool}
    → IsAt t s i b
    → i ≡ deleted
    → (t ≡ some over) × (s ≡ disconnected)
at_deleted fresh e = absurd (cc e)
at_deleted running e = absurd (cc e)
at_deleted leaving e = absurd (cc e)
at_deleted left e = absurd (cc e)
at_deleted downed e = absurd (cc e)
at_deleted closing e = (refl, refl)
at_deleted gone e = absurd (cc e)

pub at_nothing :
    {t : Option Told} {s : State} {i : Index} {b : Bool}
    → IsAt t s i b
    → t ≡ some nothing
    → s ≡ connecting
at_nothing fresh e = refl
at_nothing running e = absurd (cc e)
at_nothing leaving e = absurd (cc e)
at_nothing left e = absurd (cc e)
at_nothing downed e = absurd (cc e)
at_nothing closing e = absurd (cc e)
at_nothing gone e = absurd (cc e)

pub at_over :
    {t : Option Told} {s : State} {i : Index} {b : Bool}
    → IsAt t s i b
    → t ≡ some over
    → s ≡ disconnected
at_over fresh e = absurd (cc e)
at_over running e = absurd (cc e)
at_over leaving e = absurd (cc e)
at_over left e = absurd (cc e)
at_over downed e = absurd (cc e)
at_over closing e = refl
at_over gone e = refl

pub established-added :
    (c : Connection)
    → told c.effects ≡ some nothing
    → c.chan.index ≡ new
    → ((connect_established c).chan.index ≡ added)
      × (told (connect_established c).effects ≡ some up)
unfolding connect_established ask perform update_channel update_by new_events mask_or is_none_event
    meets told next_after next_told
established-added c t i = (rw i refl, rw t refl)

pub destroyed-new :
    (c : Connection)
    → told c.effects ≡ some over
    → c.state ≡ disconnected
    → ((connect_destroyed c).chan.index ≡ new) × (told (connect_destroyed c).effects ≡ some over)
unfolding ask perform remove_channel is_connected
destroyed-new c t s =
    let e = destroyed-off c s refl in (ap (λ x. x.chan.index) e, ap (λ x. told x.effects) e ∙ t)

pub shutdown-kept :
    (own : Bool) (c : Connection)
    → ((shutdown own c).chan.index ≡ c.chan.index)
      × (closes_in (shutdown own c).effects ≡ closes_in c.effects)
unfolding shutdown shutdown_in_loop
shutdown-kept own c = (ground arith, ground arith)

pub shutdown_in_loop-kept :
    (c : Connection)
    → ((shutdown_in_loop c).chan.index ≡ c.chan.index)
      × (closes_in (shutdown_in_loop c).effects ≡ closes_in c.effects)
unfolding shutdown_in_loop
shutdown_in_loop-kept c = (ground arith, ground arith)
