-- ===== src/Client.antt =====
-- class TcpClient of tcp_client.h and tcp_client.cpp: what it asks of its connector and of its
-- connections, each known by the number that `nextConnId_` gave it.
pub mod Pairs
mod Tests
use network_ydxlib.Base.{
  ℕ, ◌+◌, Bool, true, false, Option, none, some, List, [], ◌∷◌, if◌then◌else◌,
}

-- Calls of the connector, and of a connection's `connectEstablished`, `connectDestroyed` and
-- `shutdown`.
pub data Call : Type 0 where
  starts stops restarts : Call
  establishes destroys shuts : ℕ → Call

-- `calls` has the last one first.
pub record Client : Type 0 where
  pub retry : Bool
  pub wanted : Bool
  pub next_conn_id : ℕ
  pub connection : Option ℕ
  pub calls : List Call

abbrev pub new_client : Client
new_client = record {
  retry = false;
  wanted = true;
  next_conn_id = 1;
  connection = none;
  calls = [];
}

unfoldable pub enable_retry : Client → Client
enable_retry c = record c { retry = true }

unfoldable pub is_connected : Client → Bool
is_connected c = c.wanted

unfoldable pub connect : Client → Client
connect c = record c { calls = starts ∷ c.calls }

unfoldable pub stop : Client → Client
stop c = record c { wanted = false; calls = stops ∷ c.calls }

unfoldable pub shut : Option ℕ → Client → Client
shut none c = c
shut (some n) c = record c { calls = shuts n ∷ c.calls }

unfoldable pub disconnect : Client → Client
unfolding shut
disconnect c = shut c.connection (record c { wanted = false })

-- The new connection's number is the one that its name ends with.
unfoldable pub new_connection : Client → Client
new_connection c = record c {
  wanted = true;
  next_conn_id = c.next_conn_id + 1;
  connection = some c.next_conn_id;
  calls = establishes c.next_conn_id ∷ c.calls;
}

unfoldable pub remove_connection : ℕ → Client → Client
remove_connection n c =
    let d : Client = record c { wanted = false; connection = none; calls = destroys n ∷ c.calls } in
    if c.retry then record d { calls = restarts ∷ d.calls } else d

-- The destructor; `unique` is whether nothing else holds the connection.
unfoldable pub close_by : (unique : Bool) → Option ℕ → Client → Client
close_by unique none c = record c { calls = stops ∷ c.calls }
close_by true (some n) c = record c { calls = shuts n ∷ c.calls }
close_by false (some n) c = c

unfoldable pub close : (unique : Bool) → Client → Client
unfolding close_by
close unique c = close_by unique c.connection c
