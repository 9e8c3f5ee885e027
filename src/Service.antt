-- ===== src/Service.antt =====
-- TcpServer of tcp_server.cpp together with one of its connections of tcp_connection.cpp: the tasks that
-- the server posts to the connection's loop, and the connection's close that comes back to the server.
pub mod Parts
pub mod Stages
pub mod Life
mod Tests
use network_ydxlib.Base.{ℕ, ◌+◌, ◌-◌, ◌<◌, ◌≡◌, Bool, true, false, some, List, [], ◌∷◌}
use network_ydxlib.Buffer.{Buffer, Readv}
use network_ydxlib.Channel.{Mask, added}
use network_ydxlib.Connection.{
  Connection, Effect, connection_changed, message_came, closed, shut_write, Write,
  connect_established, connect_destroyed, send, shutdown, shutdown_in_loop,
}
use network_ydxlib.Connection.Dispatch.{IsReported}
use network_ydxlib.Connection.Events.{handle_event}
use network_ydxlib.Server.{Conn, Server, eq_name, start, new_connection, remove_connection_in_loop}
use network_ydxlib.Server.Keys.{held, gone}

-- `asked` counts the calls of `removeConnectionInLoop` with this connection that wait in the server's loop; the
-- two flags say whether `connectEstablished` and `connectDestroyed` have run.
pub record Service : Type 0 where
  pub server : Server
  pub conn : Connection
  pub up_run : Bool
  pub asked : ℕ
  pub down_run : Bool

-- The calls of the close callback among the effects.
abbrev pub closes_in : List Effect → ℕ
closes_in [] = 0
closes_in (closed ∷ es) = closes_in es + 1
closes_in (message_came ∷ es) = closes_in es
closes_in (shut_write ∷ es) = closes_in es
closes_in (connection_changed s ∷ es) = closes_in es

-- The connection has become `d`; each call of its close callback asks the server for its removal.
unfoldable pub become : Connection → Service → Service
become d r = record r {
  conn = d;
  asked = r.asked + (closes_in d.effects - closes_in r.conn.effects);
}

unfoldable pub established_run : Service → Service
established_run r = record r { conn = connect_established r.conn; up_run = true }

unfoldable pub destroyed_run : Service → Service
destroyed_run r = record r { conn = connect_destroyed r.conn; down_run = true }

unfoldable pub removed_by : Server → Service → Service
removed_by t r = record r { server = t; asked = r.asked - 1 }

module _ (print : ℕ → List ℕ) (hostport name : List ℕ) (limit : ℕ) (on_message : Buffer → Buffer)
    (me : Conn) where
  -- The server's loop, the connection's loop and the user, in any order. `connectDestroyed` runs once it
  -- is posted, and after `connectEstablished`, which was posted to the same loop before.
  pub data Step : Service → Service → Type 0 where
    starts : {r : Service} (made : List ℕ) → Step r (record r { server = start made r.server })
    accepts :
        {r : Service} (sockfd : ℕ) (t : Server)
        → r.server.next_conn_id < limit
        → new_connection print sockfd r.server ≡ some t
        → Step r (record r { server = t })
    others_close :
        {r : Service} (c : Conn) (t : Server)
        → eq_name me.name c.name ≡ false
        → 0 < held c.name r.server.connections
        → remove_connection_in_loop c r.server ≡ some t
        → Step r (record r { server = t })
    removes :
        {r : Service} (t : Server)
        → 0 < r.asked
        → remove_connection_in_loop me r.server ≡ some t
        → Step r (removed_by t r)
    establishes : {r : Service} → r.up_run ≡ false → Step r (established_run r)
    destroys :
        {r : Service}
        → r.up_run ≡ true
        → r.down_run ≡ false
        → 0 < gone me.name r.server.posted
        → Step r (destroyed_run r)
    events :
        {r : Service} {d : Connection} (m : Mask) (v : Readv) (w : Write)
        → r.conn.chan.index ≡ added
        → IsReported m
        → handle_event on_message v w m r.conn ≡ some d
        → Step r (become d r)
    sends :
        {r : Service} {d : Connection} (xs : List ℕ) (w : Write)
        → r.conn.chan.index ≡ added
        → send r.conn xs w ≡ some d
        → Step r (become d r)
    shuts : {r : Service} (own : Bool) → Step r (become (shutdown own r.conn) r)
    shuts_posted : {r : Service} → Step r (become (shutdown_in_loop r.conn) r)

  pub data Reach (p : Service) : Service → Type 0 where
    here : Reach p p
    next : {q r : Service} → Reach p q → Step q r → Reach p r
