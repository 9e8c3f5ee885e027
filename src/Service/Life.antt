-- ===== src/Service/Life.antt =====
-- Service: a server and its connection, through every order of their steps.
use network_ydxlib.Base.{
  ℕ, ◌+◌, ◌≤◌, ◌<◌, ◌≡◌, ◌⊎◌, refl, sym, ap, ◌∙◌, subst, inl, inr, Bool, false, Bool-cases, some,
  List, ◌==◌, arith, if◌then◌else◌,
}
use network_ydxlib.Buffer.{Buffer}
use network_ydxlib.Channel.{is_writing}
use network_ydxlib.Poller.{Poller}
use network_ydxlib.Connection.{Connection, shutdown, shutdown_in_loop, effect, shut_write}
use network_ydxlib.Connection.Events.{create}
use network_ydxlib.Connection.Told.{told, At}
use network_ydxlib.Connection.Calls.{establish-At, shut_after, shut_by, shutdown_by, destroyed_by}
use network_ydxlib.Connection.Alike.{send-Alike, Alike-At}
use network_ydxlib.Connection.Dispatch.{handle_event-Goes}
use network_ydxlib.Connection.Story.{created-At}
use network_ydxlib.Server.{Conn, Server, start, remove_connection_in_loop}
use network_ydxlib.Server.Keys.{one, held, made, gone, eq_name_refl}
use network_ydxlib.Server.Names.{IsPrint}
use network_ydxlib.Server.Owner
use network_ydxlib.Server.Owner.{Reach-IsOwned, Reach-removed}
use network_ydxlib.Service.{
  Service, established_run, destroyed_run, removed_by, Step, Reach, here, next, starts, accepts,
  others_close, removes, establishes, destroys, events, sends, shuts, shuts_posted,
}
use network_ydxlib.Service.Parts.{
  new_connection-counts, remove-counts, at_nothing, at_over, established-added, destroyed-new,
  shutdown-kept, shutdown_in_loop-kept,
}
use network_ydxlib.Service.Stages.{
  Stage, awaited, live, removed, ended, IsServed, restage, Stage-asked, Stage-first, Stage-gone,
  become_live, become_same,
}

start-posted : (ls : List ℕ) (s : Server) → (start ls s).posted ≡ s.posted
unfolding start
start-posted ls s = ground arith

-- A shutdown of the write end is told at any time.
shutdown_in_loop-told : (c : Connection) → At c → told (shutdown_in_loop c).effects ≡ told c.effects
unfolding shutdown_in_loop told
shutdown_in_loop-told c a = elim (Bool-cases (is_writing c.chan)) [
  | inl w ↦ ap (λ (b : Bool). told (if b then c else effect shut_write c).effects) w
  | inr w ↦ ap (λ (b : Bool). told (if b then c else effect shut_write c).effects) w ∙ shut_after a
]

shutdown-told :
    (own : Bool) (c : Connection) → At c → told (shutdown own c).effects ≡ told c.effects
unfolding shutdown shutdown_in_loop told
shutdown-told own c a = ground (arith, shut_after a)

module _ (print : ℕ → List ℕ) (hostport name : List ℕ) (limit : ℕ) (on_message : Buffer → Buffer)
    (me : Conn) (p : IsPrint print hostport limit) where
  abbrev Served : Service → Type 0
  Served r = IsServed print hostport name limit on_message me r

  -- The server goes on with other connections.
  other-IsServed :
      (r : Service) (t : Server)
      → Served r
      → Owner.Reach print hostport name limit t
      → gone me.name t.posted ≡ gone me.name r.server.posted
      → made me.name r.server.posted ≤ made me.name t.posted
      → Served (record r { server = t })
  other-IsServed r t k o g m = record {
    owned = o;
    once = omega (arith, m, k.once, (Reach-IsOwned print hostport name limit p t o).once me.name);
    place = k.place;
    stage = restage print hostport name limit on_message me refl refl refl g refl refl k.stage;
  }

  self : one me.name me.name ≡ 1
  self = ap {B = ℕ} (λ b. if b then 1 else 0) (eq_name_refl me.name)

  -- The connection is in the map until its removal.
  held-gone :
      (r : Service)
      → Served r
      → held me.name r.server.connections + gone me.name r.server.posted ≡ 1
  held-gone r k =
      omega (
        arith,
        k.once,
        (Reach-IsOwned print hostport name limit p r.server k.owned).balanced me.name,
      )

  removes-IsServed :
      (r : Service) (t : Server)
      → Served r
      → 0 < r.asked
      → remove_connection_in_loop me r.server ≡ some t
      → Served (removed_by t r)
  unfolding removed_by
  removes-IsServed r t k h e =
      let (u, a, v, g, x, i) = Stage-asked print hostport name limit on_message me k.stage h in
      let (gone_now, made_now) = remove-counts me.name me r.server t e in
      record {
        owned = Owner.closes me r.server t k.owned (omega (arith, held-gone r k, g)) e;
        once = made_now ∙ k.once;
        place = k.place;
        stage =
            restage print hostport name limit on_message me u (omega (arith, a)) v
              (omega (arith, gone_now, self, g)) x i removed;
      }

  establishes-IsServed : (r : Service) → Served r → r.up_run ≡ false → Served (established_run r)
  unfolding established_run
  establishes-IsServed r k h =
      let (a, v, g, t, i) = Stage-first print hostport name limit on_message me k.stage h in
      let (j, u) = established-added r.conn t i in
      record {
        owned = k.owned;
        once = k.once;
        place = establish-At r.conn k.place (at_nothing k.place t);
        stage = restage print hostport name limit on_message me refl a v g u j live;
      }

  destroys-IsServed :
      (r : Service)
      → Served r
      → r.down_run ≡ false
      → 0 < gone me.name r.server.posted
      → Served (destroyed_run r)
  unfolding destroyed_run
  destroys-IsServed r k h h2 =
      let (u, a, g, t) = Stage-gone print hostport name limit on_message me k.stage h2 h in
      let s = at_over k.place t in
      let (j, x) = destroyed-new r.conn t s in
      record {
        owned = k.owned;
        once = k.once;
        place = destroyed_by r.conn refl refl (λ e. absurd (cc (e, s))) k.place;
        stage = restage print hostport name limit on_message me u a refl g x j ended;
      }

  Step-IsServed :
      {q r : Service} → Served q → Step print hostport name limit on_message me q r → Served r
  Step-IsServed {q} k (starts ls) =
      other-IsServed q (start ls q.server) k (Owner.starts ls q.server k.owned)
        (ap (gone me.name) (start-posted ls q.server))
        (omega (arith, ap (made me.name) (start-posted ls q.server)))
  Step-IsServed {q} k (accepts sockfd t less e) =
      let (g, m) = new_connection-counts print me.name sockfd q.server t e in
      other-IsServed q t k (Owner.accepts sockfd q.server t k.owned less e) g m
  Step-IsServed {q} k (others_close c t other there e) =
      let (g, m) = remove-counts me.name c q.server t e in
      let differs : one me.name c.name ≡ 0 = ap {B = ℕ} (λ b. if b then 1 else 0) other in
      other-IsServed q t k (Owner.closes c q.server t k.owned there e) (omega (arith, g, differs))
        (omega (arith, m))
  Step-IsServed {q} k (removes t h e) = removes-IsServed q t k h e
  Step-IsServed {q} k (establishes h) = establishes-IsServed q k h
  Step-IsServed {q} k (destroys u h g) = destroys-IsServed q k h g
  Step-IsServed {q} k (events {d = d} m v w i ok e) =
      become_live print hostport name limit on_message me d q k i
        (handle_event-Goes on_message v w m q.conn d k.place i ok e)
  Step-IsServed {q} k (sends {d = d} xs w i e) =
      let same = send-Alike q.conn d xs w i e in
      become_live print hostport name limit on_message me d q k i
        (Alike-At same k.place, inl (same.index ∙ i))
  Step-IsServed {q} k (shuts own) =
      let (i, c) = shutdown-kept own q.conn in
      become_same print hostport name limit on_message me (shutdown own q.conn) q k
        (shutdown_by own q.conn refl refl refl refl k.place) (shutdown-told own q.conn k.place) i c
  Step-IsServed {q} k shuts_posted =
      let (i, c) = shutdown_in_loop-kept q.conn in
      become_same print hostport name limit on_message me (shutdown_in_loop q.conn) q k
        (shut_by q.conn refl refl refl refl k.place) (shutdown_in_loop-told q.conn k.place) i c

  Reach-IsServed :
      {q r : Service} → Served q → Reach print hostport name limit on_message me q r → Served r
  Reach-IsServed k here = k
  Reach-IsServed k (next r s) = Step-IsServed (Reach-IsServed k r) s

  -- Let a server come from its creation by starts, accepted connections, up to number `limit`, and
  -- closed connections of its map, its names differ and fit their 32 bytes, and let one of its connections be
  -- established once and not destroyed yet by what it posted, and just constructed. From then on let the
  -- server accept, close others, and remove this one when its close callback has asked for it; let the
  -- connection's loop run its tasks in their order, and let it hear of events, send, and be shut down,
  -- all in any order. Then the connection is always in one of the stages of `Stage`: its removal is
  -- asked for at most once, `connectDestroyed` is posted at most once, and runs after the close was told, when the
  -- channel is removed; it is in the map exactly until it is posted; and a removal that
  -- waits finds it in the map.
  pub Reach-Stage :
      {q r : Service} (poller : Poller) (address sockfd : ℕ)
      → Owner.Reach print hostport name limit q.server
      → made me.name q.server.posted ≡ 1
      → gone me.name q.server.posted ≡ 0
      → q.conn ≡ create poller address sockfd
      → q.up_run ≡ false
      → q.asked ≡ 0
      → q.down_run ≡ false
      → Reach print hostport name limit on_message me q r
      → Stage r.up_run r.asked r.down_run
          (gone me.name r.server.posted)
          (told r.conn.effects)
          r.conn.chan.index
        × (held me.name r.server.connections + gone me.name r.server.posted ≡ 1)
        × ((r.asked ≡ 0) ⊎ ((t : Server) × (remove_connection_in_loop me r.server ≡ some t)))
  unfolding create told
  Reach-Stage {q} {r} poller address sockfd o m g c u a v run =
      let first : Served q = record {
        owned = o;
        once = m;
        place = subst At (sym c) (created-At poller address sockfd);
        stage =
            restage print hostport name limit on_message me u a v g (ap (λ x. told x.effects) c)
              (ap (λ x. x.chan.index) c) awaited;
      } in
      let k = Reach-IsServed first run in
      let there = held-gone r k in
      (
        k.stage,
        there,
        elim (Bool-cases (r.asked == 0)) [
          | inl z ↦ inl (ground (arith, z))
          | inr z ↦
              let some_asked : 0 < r.asked = ground (arith, z) in
              let (_, _, _, none_gone, _, _) =
                Stage-asked print hostport name limit on_message me k.stage some_asked in
              let (t, done, _, _) =
                Reach-removed print hostport name limit p r.server me k.owned
                  (omega (arith, there, none_gone)) in
              inr (t, done)
        ],
      )
