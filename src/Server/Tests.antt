-- ===== src/Server/Tests.antt =====
-- TcpServer at a concrete server.
use network_ydxlib.Base.{ℕ, ◌+◌, ◌≡◌, refl, true, some, List, [], ◌∷◌, arith}
use network_ydxlib.LoopPool.{LoopPool, get_next_loop, next_of}
use network_ydxlib.Server.{
  Conn, established, destroyed, Server, new_connection, connect_to, without,
  remove_connection_in_loop, close,
}
use network_ydxlib.Server.Names.{IsPrint}
use network_ydxlib.Server.Owner.{Reach, created, accepts, closes, IsOwned, Reach-IsOwned}

-- A digit.
abbrev print : ℕ → List ℕ
print i = (48 + i) ∷ []

abbrev pool : LoopPool
pool = record { epoll_base = 1; started = true; num_threads = 2; next = 0; epolls = 5 ∷ 6 ∷ [] }

abbrev fresh : Server
fresh = record {
  hostport = 104 ∷ [];
  name = 110 ∷ [];
  pool = pool;
  started = 0;
  listens = 0;
  next_conn_id = 1;
  connections = [];
  posted = [];
}

print-IsPrint : IsPrint print (104 ∷ []) 10
print-IsPrint = record { differs = λ i j hi hj e. differ i j e; fits = λ i h. omega arith }
  where
    differ : (i j : ℕ) → print i ≡ print j → i ≡ j
    differ i j e = let h : 48 + i ≡ 48 + j = cc in omega (arith, h)

abbrev first : Conn
first = record { name = 110 ∷ 58 ∷ 104 ∷ 35 ∷ 49 ∷ []; get_loop = 5; sockfd = 8 }

abbrev one_up : Server
one_up = record fresh {
  pool = record pool { next = 1 };
  next_conn_id = 2;
  connections = (first.name, first) ∷ [];
  posted = (5, established first) ∷ [];
}

first-connects : new_connection print 8 fresh ≡ some one_up
unfolding new_connection connect_to get_next_loop next_of
first-connects = refl

abbrev none_up : Server
none_up = record one_up {
  connections = [];
  posted = (5, destroyed first) ∷ (5, established first) ∷ [];
}

first-leaves : remove_connection_in_loop first one_up ≡ some none_up
unfolding remove_connection_in_loop without
first-leaves = refl

closed-at_end : close one_up ≡ none_up
unfolding close
closed-at_end = refl

abbrev up : Reach print (104 ∷ []) (110 ∷ []) 10 one_up
up = accepts 8 fresh one_up (created pool) (omega arith) first-connects

Reach-IsOwned_example : IsOwned print (104 ∷ []) (110 ∷ []) 10 none_up
Reach-IsOwned_example =
    Reach-IsOwned print (104 ∷ []) (110 ∷ []) 10 print-IsPrint none_up
      (closes first one_up none_up up (omega arith) first-leaves)
