-- ===== src/Service/Stages.antt =====
-- Service: the stages of a connection that a server has.
use network_ydxlib.Base.{
  ℕ, ◌+◌, ◌≤◌, ◌<◌, ◌≡◌, refl, sym, subst, inl, inr, Bool, true, false, Option, some, List, arith,
}
use network_ydxlib.Buffer.{Buffer}
use network_ydxlib.Channel.{Index, new, added, deleted}
use network_ydxlib.Connection.{Connection}
use network_ydxlib.Connection.Told.{Told, nothing, up, over, told, At, at-added}
use network_ydxlib.Connection.Dispatch.{Goes}
use network_ydxlib.Server.{Conn}
use network_ydxlib.Server.Keys.{made, gone}
use network_ydxlib.Server.Owner
use network_ydxlib.Server.Owner.{Reach-IsOwned, Reach-removed}
use network_ydxlib.Service.{Service, closes_in, become}
use network_ydxlib.Service.Parts.{closes_in-told, at_deleted}

-- The stages of a connection: made; established; closed, with its removal asked for; out of the map,
-- with `connectDestroyed` posted; and destroyed. The indices are: whether `connectEstablished` has
-- run, the removals that wait, whether `connectDestroyed` has run, how often that was posted, what
-- the user has been told, and the channel's registration.
pub data Stage : Bool → ℕ → Bool → ℕ → Option Told → Index → Type 0 where
  awaited : Stage false 0 false 0 (some nothing) new
  live : Stage true 0 false 0 (some up) added
  closing : Stage true 1 false 0 (some over) deleted
  removed : Stage true 0 false 1 (some over) deleted
  ended : Stage true 0 true 1 (some over) new

module _ (print : ℕ → List ℕ) (hostport name : List ℕ) (limit : ℕ) (on_message : Buffer → Buffer)
    (me : Conn) where
  pub record IsServed (r : Service) : Type 0 where
    pub owned : Owner.Reach print hostport name limit r.server
    pub once : made me.name r.server.posted ≡ 1
    pub place : At r.conn
    pub stage :
        Stage r.up_run r.asked r.down_run
          (gone me.name r.server.posted)
          (told r.conn.effects)
          r.conn.chan.index

  pub restage :
      {u u' v v' : Bool} {a a' g g' : ℕ} {t t' : Option Told} {i i' : Index}
      → u' ≡ u
      → a' ≡ a
      → v' ≡ v
      → g' ≡ g
      → t' ≡ t
      → i' ≡ i
      → Stage u a v g t i
      → Stage u' a' v' g' t' i'
  restage {u} {u'} {v} {v'} {a} {a'} {g} {g'} {t} {t'} {i} {i'} p q r s x y h =
      subst (λ z. Stage z a' v' g' t' i') (sym p)
        (subst (λ z. Stage u z v' g' t' i') (sym q)
          (subst (λ z. Stage u a z g' t' i') (sym r)
            (subst (λ z. Stage u a v z t' i') (sym s)
              (subst (λ z. Stage u a v g z i') (sym x)
                (subst (λ z. Stage u a v g t z) (sym y) h)))))

  pub Stage-added :
      {u v : Bool} {a g : ℕ} {t : Option Told} {i : Index}
      → Stage u a v g t i
      → i ≡ added
      → (u ≡ true) × (a ≡ 0) × (v ≡ false) × (g ≡ 0) × (t ≡ some up)
  Stage-added awaited e = absurd (cc e)
  Stage-added live e = (refl, refl, refl, refl, refl)
  Stage-added closing e = absurd (cc e)
  Stage-added removed e = absurd (cc e)
  Stage-added ended e = absurd (cc e)

  pub Stage-asked :
      {u v : Bool} {a g : ℕ} {t : Option Told} {i : Index}
      → Stage u a v g t i
      → 0 < a
      → (u ≡ true) × (a ≡ 1) × (v ≡ false) × (g ≡ 0) × (t ≡ some over) × (i ≡ deleted)
  Stage-asked awaited h = absurd (omega (arith, h))
  Stage-asked live h = absurd (omega (arith, h))
  Stage-asked closing h = (refl, refl, refl, refl, refl, refl)
  Stage-asked removed h = absurd (omega (arith, h))
  Stage-asked ended h = absurd (omega (arith, h))

  pub Stage-first :
      {u v : Bool} {a g : ℕ} {t : Option Told} {i : Index}
      → Stage u a v g t i
      → u ≡ false
      → (a ≡ 0) × (v ≡ false) × (g ≡ 0) × (t ≡ some nothing) × (i ≡ new)
  Stage-first awaited e = (refl, refl, refl, refl, refl)
  Stage-first live e = absurd (cc e)
  Stage-first closing e = absurd (cc e)
  Stage-first removed e = absurd (cc e)
  Stage-first ended e = absurd (cc e)

  pub Stage-gone :
      {u v : Bool} {a g : ℕ} {t : Option Told} {i : Index}
      → Stage u a v g t i
      → 0 < g
      → v ≡ false
      → (u ≡ true) × (a ≡ 0) × (g ≡ 1) × (t ≡ some over)
  Stage-gone awaited h e = absurd (omega (arith, h))
  Stage-gone live h e = absurd (omega (arith, h))
  Stage-gone closing h e = absurd (omega (arith, h))
  Stage-gone removed h e = (refl, refl, refl, refl)
  Stage-gone ended h e = absurd (cc e)

  -- The removal finds the connection in the map.
  pub Stage-le :
      {u v : Bool} {a g : ℕ} {t : Option Told} {i : Index}
      → Stage u a v g t i
      → (g ≤ 1) × (a + g ≤ 1)
  Stage-le awaited = (omega arith, omega arith)
  Stage-le live = (omega arith, omega arith)
  Stage-le closing = (omega arith, omega arith)
  Stage-le removed = (omega arith, omega arith)
  Stage-le ended = (omega arith, omega arith)

  -- A registered connection that goes on, or is closed.
  pub become_live :
      (d : Connection) (r : Service)
      → IsServed r
      → r.conn.chan.index ≡ added
      → Goes d
      → IsServed (become d r)
  unfolding become
  become_live d r k i (a, way) =
      let (p, q, v, g, t) = Stage-added k.stage i in
      let before : closes_in r.conn.effects ≡ 0 = closes_in-told r.conn.effects up t in
      record {
        owned = k.owned;
        once = k.once;
        place = a;
        stage = elim way [
          | inl j ↦
              let (u, _, _) = at-added a j in
              restage p (omega (arith, q, before, closes_in-told d.effects up u)) v g u j live
          | inr (_, j) ↦
              let (u, _) = at_deleted a j in
              restage p (omega (arith, q, before, closes_in-told d.effects over u)) v g u j closing
        ];
      }

  -- A connection of which nothing of this changes.
  pub become_same :
      (d : Connection) (r : Service)
      → IsServed r
      → At d
      → told d.effects ≡ told r.conn.effects
      → d.chan.index ≡ r.conn.chan.index
      → closes_in d.effects ≡ closes_in r.conn.effects
      → IsServed (become d r)
  unfolding become
  become_same d r k a t i c = record {
    owned = k.owned;
    once = k.once;
    place = a;
    stage = restage refl (omega (arith, c)) refl refl t i k.stage;
  }
