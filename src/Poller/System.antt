-- ===== src/Poller/System.antt =====
-- All channels of one poller, each with a descriptor of its own, under any requests of their owners.
use network_ydxlib.Base.{
  ℕ, ◌≡◌, ◌≢◌, refl, ◌∙◌, subst, List, [], ◌∷◌, ◌==◌, ==_iff, not-eq, if◌then◌else◌, arith,
  Bool-cases, inl, inr,
}
use network_ydxlib.Channel.{Channel, channel}
use network_ydxlib.Poller.{
  Poller, lookup, update_by, update_channel, remove_channel, ChannelOp, perform, enable_reading,
  disable_reading, enable_writing, disable_writing, disable_all, remove, init,
}
use network_ydxlib.Poller.Kernel.{interest, IsAccepted}
use network_ydxlib.Poller.Sync.{IsSynced, perform-IsSynced, lookup-erase, lookup-insert}

-- `chans` gives the channel of each descriptor, which stands at its `address`.
pub record System : Type 0 where
  pub poller : Poller
  pub chans : ℕ → Channel

module _ (address : ℕ → ℕ) where
  pub request : ℕ → ChannelOp → System → System
  request k o s =
      let (r, c) = perform o s.poller (address k) (s.chans k) in
      record { poller = r; chans = λ j. if k == j then c else s.chans j }

  pub run : List (ℕ × ChannelOp) → System → System
  run [] s = s
  run ((k, o) ∷ os) s = run os (request k o s)

  pub record IsAgreed (s : System) : Type 0 where
    pub own : (k : ℕ) → (s.chans k).fd ≡ k
    pub synced : (k : ℕ) → IsSynced s.poller (address k) (s.chans k)

abbrev Spares : ℕ → Poller → Poller → Type 0
Spares j r r' =
    (interest j r'.calls ≡ interest j r.calls) × (lookup j r'.channels ≡ lookup j r.channels)

update-Spares :
    (j p : ℕ) (r : Poller) (c : Channel) → c.fd ≢ j → Spares j r (update_channel r p c).0
unfolding update_channel update_by interest
update-Spares j p r c ne = ground (arith, not-eq c.fd j ne, lookup-insert c.fd p j r.channels)

perform-Spares :
    (o : ChannelOp) (j p : ℕ) (r : Poller) (c : Channel) → c.fd ≢ j → Spares j r (perform o r p c).0
unfolding perform remove_channel interest
perform-Spares remove j p r c ne = ground (arith, not-eq c.fd j ne, lookup-erase c.fd j r.channels)
perform-Spares enable_reading j p r c ne = update-Spares j p r _ ne
perform-Spares disable_reading j p r c ne = update-Spares j p r _ ne
perform-Spares enable_writing j p r c ne = update-Spares j p r _ ne
perform-Spares disable_writing j p r c ne = update-Spares j p r _ ne
perform-Spares disable_all j p r c ne = update-Spares j p r _ ne

perform-fd : (o : ChannelOp) (p : ℕ) (r : Poller) (c : Channel) → (perform o r p c).1.fd ≡ c.fd
unfolding perform update_channel update_by remove_channel
perform-fd o p r c = ground arith

request-IsAgreed :
    (address : ℕ → ℕ) (k : ℕ) (o : ChannelOp) (s : System)
    → IsAgreed address s
    → IsAgreed address (request address k o s)
unfolding request
request-IsAgreed address k o s a =
    let mine = perform-IsSynced o s.poller (address k) (s.chans k) (a.synced k) in
    record {
      own = λ j. elim (Bool-cases (k == j)) [
        | inl e ↦ rw e (perform-fd o (address k) s.poller (s.chans k) ∙ a.own k ∙ (==_iff k j).0 e)
        | inr ne ↦ rw ne (a.own j)
      ];
      synced = λ j. elim (Bool-cases (k == j)) [
        | inl e ↦ rw e (
            subst
              (λ i.
                IsSynced (request address k o s).poller (address i)
                  (perform o s.poller (address k) (s.chans k)).1)
              ((==_iff k j).0 e) mine)
        | inr ne ↦ rw ne (
            other (a.synced j) mine.accepted (
              perform-Spares o (s.chans j).fd (address k) s.poller (s.chans k)
                (ground (arith, a.own k, a.own j))))
      ];
    }
  where
    other :
        {r r' : Poller} {p : ℕ} {c : Channel}
        → IsSynced r p c
        → IsAccepted r'.calls
        → Spares c.fd r r'
        → IsSynced r' p c
    other s acc sp = record { watched = sp.0 ∙ s.watched; mapped = sp.1 ∙ s.mapped; accepted = acc }

-- Once all channels of a poller agree with it, under any sequence of requests to any of them no
-- call of `epoll_ctl` fails, and every channel stays in agreement with the kernel's interest list
-- and with the poller's map.
pub run-IsAgreed :
    (address : ℕ → ℕ) (os : List (ℕ × ChannelOp)) (s : System)
    → IsAgreed address s
    → IsAgreed address (run address os s)
unfolding run
run-IsAgreed address [] s a = a
run-IsAgreed address ((k, o) ∷ os) s a =
    run-IsAgreed address os (request address k o s) (request-IsAgreed address k o s a)

-- A poller with no channel registered yet.
abbrev pub start : System
start = record { poller = init; chans = channel }

pub start-IsAgreed : (address : ℕ → ℕ) → IsAgreed address start
unfolding interest lookup
start-IsAgreed address = record {
  own = λ k. refl;
  synced = λ k. record { watched = refl; mapped = refl; accepted = tt };
}
