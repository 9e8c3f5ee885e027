-- ===== src/Connection/Life.antt =====
-- TcpConnection: how a connection ends, and that its channel stays in step with the poller.
use network_ydxlib.Base.{◌≡◌, ◌⊎◌, inl, inr, refl, none, some, ◌∷◌, arith, ap, ◌∙◌}
use network_ydxlib.Channel.{new}
use network_ydxlib.Poller.{ChannelOp, perform, remove, disable_all, remove_channel, lookup}
use network_ydxlib.Poller.Kernel.{interest}
use network_ydxlib.Poller.Sync.{IsSynced, perform-IsSynced}
use network_ydxlib.Connection.{
  Connection, connected, disconnecting, disconnected, connection_changed, closed, ask, is_connected,
  is_disconnecting, handle_close, connect_destroyed, effect,
}

abbrev InStep : Connection → Type 0
InStep c = IsSynced c.poller c.address c.chan

ask-InStep : (o : ChannelOp) (c : Connection) → InStep c → InStep (ask o c)
unfolding ask
ask-InStep o c s = perform-IsSynced o c.poller c.address c.chan s

remove-index : (c : Connection) → (ask remove c).chan.index ≡ new
unfolding ask perform remove_channel
remove-index c = refl

-- A channel that is marked as new is not watched and not in the map.
unwatched :
    (c : Connection)
    → InStep c
    → c.chan.index ≡ new
    → (interest c.chan.fd c.poller.calls ≡ none) × (lookup c.chan.fd c.poller.channels ≡ none)
unwatched c s e = ground (arith, s.watched, s.mapped)

removed_lem :
    (c : Connection)
    → InStep c
    → let e = ask remove c in
      (interest e.chan.fd e.poller.calls ≡ none) × (lookup e.chan.fd e.poller.channels ≡ none)
removed_lem c s = unwatched (ask remove c) (ask-InStep remove c s) (remove-index c)

-- `handleClose` on a connection that is up or shutting down.
pub handle_close-of :
    (c : Connection)
    → (c.state ≡ connected) ⊎ (c.state ≡ disconnecting)
    → handle_close c
      ≡ some (
          effect closed (
            effect
              (connection_changed disconnected)
              (ask disable_all (record c { state = disconnected }))))
unfolding handle_close is_connected is_disconnecting
handle_close-of c (inl e) = rw e
handle_close-of c (inr e) = rw e

pub connect_destroyed-down :
    (c : Connection) → c.state ≡ disconnected → connect_destroyed c ≡ ask remove c
unfolding connect_destroyed is_connected
connect_destroyed-down c e = ground arith

ask-kept :
    (o : ChannelOp) (c : Connection) → ((ask o c).state ≡ c.state) × ((ask o c).effects ≡ c.effects)
unfolding ask
ask-kept o c = (refl, refl)

-- A connection that is closed by its peer and then destroyed reports that it is down exactly once,
-- and its close once; afterwards its descriptor is neither watched by the kernel nor in the poller's
-- map.
pub handle_close-connect_destroyed :
    (c : Connection)
    → IsSynced c.poller c.address c.chan
    → (c.state ≡ connected) ⊎ (c.state ≡ disconnecting)
    → (d : Connection) × (handle_close c ≡ some d)
      × (let e = connect_destroyed d in
          (e.state ≡ disconnected)
          × (e.effects ≡ closed ∷ connection_changed disconnected ∷ c.effects)
          × (interest e.chan.fd e.poller.calls ≡ none)
          × (lookup e.chan.fd e.poller.channels ≡ none))
handle_close-connect_destroyed c s up =
    let a : Connection = ask disable_all (record c { state = disconnected }) in
    let d : Connection = effect closed (effect (connection_changed disconnected) a) in
    let sa : InStep d = ask-InStep disable_all (record c { state = disconnected }) s in
    let down : connect_destroyed d ≡ ask remove d =
      connect_destroyed-down d (ask-kept disable_all (record c { state = disconnected })).0 in
    let (gone, off) = removed_lem d sa in
    (
      d,
      handle_close-of c up,
      rw down (
        (ask-kept remove d).0 ∙ (ask-kept disable_all (record c { state = disconnected })).0,
        (ask-kept remove d).1
            ∙ ap (λ t. closed ∷ connection_changed disconnected ∷ t)
                (ask-kept disable_all (record c { state = disconnected })).1,
        gone,
        off,
      ),
    )
