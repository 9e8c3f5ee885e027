-- ===== src/Server/Owner.antt =====
-- TcpServer: each connection is established once, and destroyed once when it leaves the map.
use network_ydxlib.Base.{
  ℕ, ◌+◌, ◌≤◌, ◌<◌, ◌≡◌, refl, sym, ap, ap₂, ◌∙◌, Bool, true, false, Option, none, some, List, [],
  ◌∷◌, ◌++◌, ◌==◌, if◌then◌else◌, arith, inl, inr, Bool-cases, some-inj, subst,
}
use network_ydxlib.LoopPool.{LoopPool, get_next_loop}
use network_ydxlib.Server.{
  Conn, established, destroyed, Server, suffix, eq_name, assign, start, connect_to, new_connection,
  without, remove_connection_in_loop,
}
use network_ydxlib.Server.Keys.{
  eq_name_refl, eq_name-eq, one, held, made, gone, held-assign, held-erase,
}
use network_ydxlib.Server.Names.{conn_name, IsPrint, conn_name-differs}

module _ (print : ℕ → List ℕ) (hostport name : List ℕ) (limit : ℕ) where
  -- A new server and what its loop makes of it: threads start, connections come, up to number
  -- `limit`, and connections that it has are closed.
  pub data Reach : Server → Type 0 where
    created :
        (p : LoopPool)
        → Reach (record {
          hostport = hostport;
          name = name;
          pool = p;
          started = 0;
          listens = 0;
          next_conn_id = 1;
          connections = [];
          posted = [];
        })
    starts : (made : List ℕ) (s : Server) → Reach s → Reach (start made s)
    accepts :
        (sockfd : ℕ) (s t : Server)
        → Reach s
        → s.next_conn_id < limit
        → new_connection print sockfd s ≡ some t
        → Reach t
    closes :
        (c : Conn) (s t : Server)
        → Reach s
        → 0 < held c.name s.connections
        → remove_connection_in_loop c s ≡ some t
        → Reach t

  -- For each name: whether it is in the map, against what the loops were asked. No number from the
  -- next one on has been used.
  pub record IsOwned (s : Server) : Type 0 where
    pub host : s.hostport ≡ hostport
    pub names : s.name ≡ name
    pub balanced : (k : List ℕ) → made k s.posted ≡ gone k s.posted + held k s.connections
    pub once : (k : List ℕ) → made k s.posted ≤ 1
    pub unused :
        (i : ℕ)
        → s.next_conn_id ≤ i
        → i < limit
        → made (conn_name print hostport name i) s.posted ≡ 0

  start-IsOwned : (ls : List ℕ) (s : Server) → IsOwned s → IsOwned (start ls s)
  unfolding start
  start-IsOwned ls s h = elim (Bool-cases (s.started == 0)) [
    | inl e ↦ rw e (record {
      host = h.host;
      names = h.names;
      balanced = h.balanced;
      once = h.once;
      unused = h.unused;
    })
    | inr e ↦ rw e (record {
      host = h.host;
      names = h.names;
      balanced = h.balanced;
      once = h.once;
      unused = h.unused;
    })
  ]

  module _ (p : IsPrint print hostport limit) where
    others :
        (i j : ℕ)
        → i < limit
        → j < i
        → one (conn_name print hostport name i) (conn_name print hostport name j) ≡ 0
    others i j hi hj =
        elim (Bool-cases
          (eq_name (conn_name print hostport name i) (conn_name print hostport name j))) [
            | inl e ↦
                let same =
                  conn_name-differs print hostport name limit i j p hi (omega (arith, hi, hj)) (
                    eq_name-eq (conn_name print hostport name i) (conn_name print hostport name j)
                      e) in
                absurd (omega (arith, same, hj))
            | inr e ↦ ap {B = ℕ} (λ b. if b then 1 else 0) e
          ]

    -- A connection whose name has not been made before.
    added-IsOwned :
        (c : Conn) (q : LoopPool) (s : Server)
        → IsOwned s
        → s.next_conn_id < limit
        → conn_name print hostport name s.next_conn_id ≡ c.name
        → IsOwned (record s {
          pool = q;
          next_conn_id = s.next_conn_id + 1;
          connections = assign c.name c s.connections;
          posted = (c.get_loop, established c) ∷ s.posted;
        })
    added-IsOwned c q s h less e =
        let new : made c.name s.posted ≡ 0 =
          ap (λ k. made k s.posted) (sym e) ∙ h.unused s.next_conn_id (omega arith) less in
        let free : held c.name s.connections ≡ 0 = omega (arith, h.balanced c.name, new) in
        record {
          host = h.host;
          names = h.names;
          balanced = λ k. omega (arith, h.balanced k, held-assign k c.name c s.connections free);
          once = λ k. first_time k (eq_name k c.name) refl new;
          unused = λ i more hi. omega (
            arith,
            h.unused i (omega (arith, more)) hi,
            others i s.next_conn_id hi (omega (arith, more)),
            ap (λ k. one (conn_name print hostport name i) k) e,
          );
        }
      where
        first_time :
            (k : List ℕ) (b : Bool)
            → eq_name k c.name ≡ b
            → made c.name s.posted ≡ 0
            → one k c.name + made k s.posted ≤ 1
        first_time k true same new = omega (
          arith,
          ap {B = ℕ} (λ b. if b then 1 else 0) same,
          ap (λ j. made j s.posted) (eq_name-eq k c.name same),
          new,
        )
        first_time k false same new =
            omega (arith, ap {B = ℕ} (λ b. if b then 1 else 0) same, h.once k)

    connect_to-IsOwned :
        (sockfd : ℕ) (x : Option ℕ × LoopPool) (s t : Server)
        → IsOwned s
        → s.next_conn_id < limit
        → connect_to print sockfd x s ≡ some t
        → IsOwned t
    unfolding connect_to
    connect_to-IsOwned sockfd (none, q) s t h less e = absurd (cc e)
    connect_to-IsOwned sockfd (some l, q) s t h less e =
        let named = s.name ++ suffix print s.hostport s.next_conn_id in
        let c : Conn = record { name = named; get_loop = l; sockfd = sockfd } in
        subst IsOwned (some-inj e) (
          added-IsOwned c q s h less
            (ap₂ (λ a b. a ++ suffix print b s.next_conn_id) (sym h.names) (sym h.host)))

    -- A connection that is in the map leaves it; the map is never searched in vain.
    removed :
        (c : Conn) (s : Server)
        → IsOwned s
        → 0 < held c.name s.connections
        → (t : Server) × (remove_connection_in_loop c s ≡ some t)
          × IsOwned t
          × (held c.name t.connections ≡ 0)
          × (gone c.name t.posted ≡ 1)
    unfolding remove_connection_in_loop without
    removed c s h here =
        let (m, found, less) = held-erase c.name s.connections here in
        let self : one c.name c.name ≡ 1 =
          ap {B = ℕ} (λ b. if b then 1 else 0) (eq_name_refl c.name) in
        (
          record s { connections = m; posted = (c.get_loop, destroyed c) ∷ s.posted },
          ap (without c s) found,
          record {
            host = h.host;
            names = h.names;
            balanced = λ k. omega (arith, h.balanced k, less k);
            once = λ k. omega (arith, h.once k);
            unused = λ i more hi. omega (arith, h.unused i more hi);
          },
          omega (arith, less c.name, self, h.balanced c.name, h.once c.name),
          omega (arith, less c.name, self, h.balanced c.name, h.once c.name),
        )

    -- While the names of connections differ and fit their 32 bytes, a server that has threads
    -- started, connections accepted, and connections of its map closed, keeps this: a name has been
    -- established at most once, and has been destroyed just if it was and is no longer in the map.
    pub Reach-IsOwned : (s : Server) → Reach s → IsOwned s
    unfolding new_connection
    Reach-IsOwned _ (created q) = record {
      host = refl;
      names = refl;
      balanced = λ k. omega arith;
      once = λ k. omega arith;
      unused = λ i h l. refl;
    }
    Reach-IsOwned _ (starts ls s r) = start-IsOwned ls s (Reach-IsOwned s r)
    Reach-IsOwned t (accepts sockfd s _ r less e) =
        connect_to-IsOwned sockfd (get_next_loop s.pool) s t (Reach-IsOwned s r) less e
    Reach-IsOwned t (closes c s _ r here e) =
        let (t', done, owned, left, once) = removed c s (Reach-IsOwned s r) here in
        subst IsOwned (some-inj (sym done ∙ e)) owned

    -- On a server that has come from its creation by starts, accepted connections and closed
    -- connections of its map, while names differ and fit their 32 bytes: closing a connection of
    -- the map finds it there, and its name is then no longer in the map, and has been destroyed
    -- once.
    pub Reach-removed :
        (s : Server) (c : Conn)
        → Reach s
        → 0 < held c.name s.connections
        → (t : Server) × (remove_connection_in_loop c s ≡ some t)
          × (held c.name t.connections ≡ 0)
          × (gone c.name t.posted ≡ 1)
    Reach-removed s c r here =
        let (t, done, owned, left, once) = removed c s (Reach-IsOwned s r) here in
        (t, done, left, once)
