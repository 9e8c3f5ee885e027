-- ===== src/Service/Tests.antt =====
-- A server with one connection, at concrete steps.
use network_ydxlib.Base.{
  ℕ, ◌+◌, ◌≡◌, ◌⊎◌, refl, true, false, Option, none, some, List, [], ◌∷◌, arith,
}
use network_ydxlib.Buffer.{failed}
use network_ydxlib.Channel
use network_ydxlib.Channel.{Mask, none_event, added}
use network_ydxlib.Poller.{Poller, perform, update_channel}
use network_ydxlib.Connection.{Connection, wrote, handle_close, connect_established}
use network_ydxlib.Connection.Told.{told}
use network_ydxlib.Connection.Events.{
  create, default_message_callback, handle_event, run_callbacks, run_callback,
}
use network_ydxlib.LoopPool.{LoopPool, get_next_loop, next_of}
use network_ydxlib.Server.{
  Conn, Server, established, new_connection, connect_to, remove_connection_in_loop,
}
use network_ydxlib.Server.Keys.{held, gone}
use network_ydxlib.Server.Names.{IsPrint}
use network_ydxlib.Server.Owner
use network_ydxlib.Service.{
  Service, become, established_run, Reach, here, next, establishes, events,
}
use network_ydxlib.Service.Stages.{Stage}
use network_ydxlib.Service.Life.{Reach-Stage}

-- A digit.
abbrev print : ℕ → List ℕ
print i = (48 + i) ∷ []

abbrev pool : LoopPool
pool = record { epoll_base = 1; started = true; num_threads = 2; next = 0; epolls = 5 ∷ 6 ∷ [] }

abbrev quiet : Server
quiet = record {
  hostport = 104 ∷ [];
  name = 110 ∷ [];
  pool = pool;
  started = 0;
  listens = 0;
  next_conn_id = 1;
  connections = [];
  posted = [];
}

print-IsPrint : IsPrint print (104 ∷ []) 10
print-IsPrint = record { differs = λ i j hi hj e. differ i j e; fits = λ i h. omega arith }
  where
    differ : (i j : ℕ) → print i ≡ print j → i ≡ j
    differ i j e = let h : 48 + i ≡ 48 + j = cc in omega (arith, h)

abbrev first : Conn
first = record { name = 110 ∷ 58 ∷ 104 ∷ 35 ∷ 49 ∷ []; get_loop = 5; sockfd = 8 }

abbrev one_up : Server
one_up = record quiet {
  pool = record pool { next = 1 };
  next_conn_id = 2;
  connections = (first.name, first) ∷ [];
  posted = (5, established first) ∷ [];
}

first-connects : new_connection print 8 quiet ≡ some one_up
unfolding new_connection connect_to get_next_loop next_of
first-connects = refl

abbrev ready : Owner.Reach print (104 ∷ []) (110 ∷ []) 10 one_up
ready = Owner.accepts 8 quiet one_up (Owner.created pool) (omega arith) first-connects

abbrev none_registered : Poller
none_registered = record { channels = []; calls = [] }

abbrev begun : Service
begun = record {
  server = one_up;
  conn = create none_registered 100 8;
  up_run = false;
  asked = 0;
  down_run = false;
}

abbrev opened : Service
opened = established_run begun

abbrev hung_up : Mask
hung_up = record none_event { epollhup = true }

abbrev hung : Option Connection
hung = handle_event default_message_callback (failed 11) (wrote 0) hung_up opened.conn

abbrev of_some : Option Connection → Connection
of_some none = begun.conn
of_some (some c) = c

hung_lem : hung ≡ some (of_some hung)
unfolding handle_event run_callbacks run_callback Channel.handle_event handle_close
    connect_established create perform update_channel established_run
hung_lem = refl

opened-added : opened.conn.chan.index ≡ added
unfolding connect_established create perform update_channel established_run
opened-added = refl

-- Its peer has hung up, and its removal is asked for.
abbrev left : Service
left = become (of_some hung) opened

left-Reach : Reach print (104 ∷ []) (110 ∷ []) 10 default_message_callback first begun left
left-Reach =
    next (next here (establishes refl))
      (events hung_up (failed 11) (wrote 0) opened-added refl hung_lem)

Reach-Stage_example :
    Stage left.up_run left.asked left.down_run
      (gone first.name left.server.posted)
      (told left.conn.effects)
      left.conn.chan.index
    × (held first.name left.server.connections + gone first.name left.server.posted ≡ 1)
    × ((left.asked ≡ 0) ⊎ ((t : Server) × (remove_connection_in_loop first left.server ≡ some t)))
Reach-Stage_example =
    Reach-Stage print (104 ∷ []) (110 ∷ []) 10 default_message_callback first print-IsPrint
      none_registered 100 8 ready refl refl refl refl refl refl left-Reach
