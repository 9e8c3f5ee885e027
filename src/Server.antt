-- ===== src/Server.antt =====
-- class TcpServer of tcp_server.h and tcp_server.cpp: the connections of a server by their names, and
-- what it asks their loops to do. What "%d" prints of a number is the parameter `print`.
pub mod Keys
pub mod Owner
pub mod Again
pub mod Names
mod Tests
use network_ydxlib.Base.{
  ℕ, suc, ◌+◌, Bool, true, false, ◌&&◌, Option, none, some, List, [], ◌∷◌, ◌++◌, map, ◌==◌,
  if◌then◌else◌, take,
}
use network_ydxlib.LoopPool
use network_ydxlib.LoopPool.{LoopPool, get_next_loop}

-- A connection, with the loop that it is made for and its descriptor. Strings are lists of bytes.
pub record Conn : Type 0 where
  pub name : List ℕ
  pub get_loop : ℕ
  pub sockfd : ℕ

-- What a loop is asked to run: `connectEstablished` or `connectDestroyed` of a connection.
pub data Task : Type 0 where
  established destroyed : Conn → Task

-- `posted` are the calls of `runInLoop` and `queueInLoop` so far, each with its loop, the last one
-- first; `listens` counts the calls of the acceptor's `listen`.
pub record Server : Type 0 where
  pub hostport : List ℕ
  pub name : List ℕ
  pub pool : LoopPool
  pub started : ℕ
  pub listens : ℕ
  pub next_conn_id : ℕ
  pub connections : List (List ℕ × Conn)
  pub posted : List (ℕ × Task)

abbrev pub eq_name : List ℕ → List ℕ → Bool
eq_name [] [] = true
eq_name [] (y ∷ ys) = false
eq_name (x ∷ xs) [] = false
eq_name (x ∷ xs) (y ∷ ys) = (x == y) && eq_name xs ys

-- `connections_[k] = c`.
abbrev pub assign : List ℕ → Conn → List (List ℕ × Conn) → List (List ℕ × Conn)
assign k c [] = (k, c) ∷ []
assign k c ((j, d) ∷ m) = if eq_name k j then (j, c) ∷ m else (j, d) ∷ assign k c m

abbrev pub kept : List ℕ × Conn → Option (List (List ℕ × Conn)) → Option (List (List ℕ × Conn))
kept x none = none
kept x (some m) = some (x ∷ m)

-- `find` and `erase`; `none` where the name is missing, when `end()` is dereferenced.
abbrev pub erase : List ℕ → List (List ℕ × Conn) → Option (List (List ℕ × Conn))
erase k [] = none
erase k ((j, d) ∷ m) = if eq_name k j then some m else kept (j, d) (erase k m)

abbrev pub colon : ℕ
colon = 58

abbrev pub hash : ℕ
hash = 35

-- `made` are the loops that the pool's new threads give.
unfoldable pub start : List ℕ → Server → Server
start made s =
    if s.started == 0
    then record s { started = 1; pool = LoopPool.start made s.pool; listens = s.listens + 1 }
    else record s { started = 1 }

module _ (print : ℕ → List ℕ) where
  -- What `snprintf` puts into 32 bytes.
  abbrev pub suffix : List ℕ → ℕ → List ℕ
  suffix hostport id = take 31 (colon ∷ (hostport ++ (hash ∷ print id)))

  unfoldable pub connect_to : (sockfd : ℕ) → Option ℕ × LoopPool → Server → Option Server
  connect_to sockfd (none, p) s = none
  connect_to sockfd (some io_loop, p) s =
      let name = s.name ++ suffix s.hostport s.next_conn_id in
      let c : Conn = record { name = name; get_loop = io_loop; sockfd = sockfd } in
      some (record s {
        pool = p;
        next_conn_id = s.next_conn_id + 1;
        connections = assign name c s.connections;
        posted = (io_loop, established c) ∷ s.posted;
      })

  unfoldable pub new_connection : (sockfd : ℕ) → Server → Option Server
  unfolding connect_to
  new_connection sockfd s = connect_to sockfd (get_next_loop s.pool) s

unfoldable pub without : Conn → Server → Option (List (List ℕ × Conn)) → Option Server
without c s none = none
without c s (some m) =
    some (record s { connections = m; posted = (c.get_loop, destroyed c) ∷ s.posted })

unfoldable pub remove_connection_in_loop : Conn → Server → Option Server
unfolding without
remove_connection_in_loop c s = without c s (erase c.name s.connections)

abbrev pub destroy_all : List (List ℕ × Conn) → List (ℕ × Task) → List (ℕ × Task)
destroy_all [] ts = ts
destroy_all ((k, c) ∷ m) ts = destroy_all m ((c.get_loop, destroyed c) ∷ ts)

-- The destructor.
unfoldable pub close : Server → Server
close s = record s { connections = []; posted = destroy_all s.connections s.posted }
