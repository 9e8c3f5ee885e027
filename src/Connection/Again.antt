-- ===== src/Connection/Again.antt =====
-- TcpConnection: `send` on a connection that has been closed.
use network_ydxlib.Base.{
  ℕ, ◌≡◌, ◌⊎◌, ◌<◌, refl, sym, ap, ◌∙◌, subst, some-inj, Bool, true, false, ◌&&◌, ◌||◌, not, Option,
  none, some, List, ◌++◌, arith, if◌then◌else◌, take, drop, length, ltb, lt→ltb, not-eq,
}
use network_ydxlib.Buffer.{Buffer, Readv, readable_bytes, append}
use network_ydxlib.Channel
use network_ydxlib.Channel.{
  Mask, added, deleted, Callback, closes, errors, reads, writes, set_revents, is_writing, meets,
  mask_or, is_none_event, fire,
}
use network_ydxlib.Poller.{disable_all, perform, update_channel, update_by, new_events}
use network_ydxlib.Connection.{
  Connection, connected, disconnecting, disconnected, connection_changed, closed, ask, effect,
  Write, send, handle_close, keep_rest, want_writing, send_direct, is_connected, is_disconnecting,
}
use network_ydxlib.Connection.Life.{handle_close-of}
use network_ydxlib.Connection.Events.{run_callback, run_callbacks, handle_event}

-- Closed, with its channel set to write again.
record Back (d : Connection) : Type 0 where
  down : d.state ≡ disconnected
  registered : d.chan.index ≡ added
  writing : is_writing d.chan ≡ true
  heard : d.chan.callbacks.on_close ≡ true

want-Back :
    (c : Connection)
    → c.state ≡ disconnected
    → c.chan.index ≡ deleted
    → is_writing c.chan ≡ false
    → c.chan.callbacks.on_close ≡ true
    → Back (want_writing c)
unfolding want_writing ask perform update_channel update_by new_events mask_or is_writing meets
want-Back c s i w h =
    rw (w, i) (record { down = s; registered = refl; writing = ground arith; heard = h })

kept_by :
    (c d : Connection) (o : Option Buffer)
    → c.state ≡ disconnected
    → c.chan.index ≡ deleted
    → is_writing c.chan ≡ false
    → c.chan.callbacks.on_close ≡ true
    → elim o [ none ↦ none | some b ↦ some (want_writing (record c { output = b })) ] ≡ some d
    → Back d
kept_by c d none s i w h e = absurd (cc e)
kept_by c d (some b) s i w h e =
    subst Back (some-inj e) (want-Back (record c { output = b }) s i w h)

-- With bytes kept, nothing is written at once.
send-rest :
    (c : Connection) (xs : List ℕ) (w : Write)
    → 0 < readable_bytes c.output
    → 0 < length xs
    → send c xs w ≡ keep_rest c xs 0 (length xs)
unfolding send
send-rest c xs w kept more =
    ap
      (λ (b : Bool).
        if b
        then send_direct c xs w
        else if ltb 0 (length xs)
        then keep_rest c xs 0 (length xs)
        else some c)
      (not-eq (readable_bytes c.output) 0 (λ z. omega (arith, z, kept)))
    ∙ ap (λ (b : Bool). if b then keep_rest c xs 0 (length xs) else some c)
        (lt→ltb 0 (length xs) more)

send-Back :
    (c d : Connection) (xs : List ℕ) (w : Write)
    → c.state ≡ disconnected
    → c.chan.index ≡ deleted
    → is_writing c.chan ≡ false
    → c.chan.callbacks.on_close ≡ true
    → 0 < readable_bytes c.output
    → 0 < length xs
    → send c xs w ≡ some d
    → Back d
unfolding keep_rest
send-Back c d xs w s i off h kept more e =
    kept_by c d (append c.output (take (length xs) (drop 0 xs))) s i off h
      (sym (send-rest c xs w kept more) ∙ e)

abbrev shut : Connection → Connection
shut c =
    effect closed (
      effect (connection_changed disconnected)
        (ask disable_all (record c { state = disconnected })))

shut-index :
    (c : Connection)
    → c.chan.index ≡ added
    → ((shut c).chan.index ≡ deleted) × (is_writing (shut c).chan ≡ false)
unfolding ask perform update_channel update_by new_events is_none_event is_writing meets
shut-index c i = rw i (refl, refl)

shut-down : (c : Connection) → (shut c).state ≡ disconnected
unfolding ask
shut-down c = refl

shut-kept :
    (c : Connection)
    → c.chan.index ≡ added
    → ((shut c).chan.callbacks ≡ c.chan.callbacks) × ((shut c).output ≡ c.output)
unfolding ask perform update_channel update_by new_events is_none_event meets
shut-kept c i = rw i (refl, refl)

handle_close-fails : (c : Connection) → c.state ≡ disconnected → handle_close c ≡ none
unfolding handle_close is_connected is_disconnecting
handle_close-fails c s = ground (arith, s)

module _ (on_message : Buffer → Buffer) (r : Readv) (w : Write) where
  closes_none :
      (b is_set : Bool) (rest : List Callback) (c : Connection)
      → b ≡ true
      → is_set ≡ true
      → c.state ≡ disconnected
      → run_callbacks on_message r w (fire b is_set closes ++ rest) (some c) ≡ none
  unfolding run_callbacks run_callback
  closes_none true true rest c e f s =
      ap (run_callbacks on_message r w rest) (handle_close-fails c s)
  closes_none true false rest c e f s = absurd (cc f)
  closes_none false is_set rest c e f s = absurd (cc e)

  handle_event-fails :
      (m : Mask) (c : Connection)
      → (m.epollhup && not m.epollin) ≡ true
      → c.state ≡ disconnected
      → c.chan.callbacks.on_close ≡ true
      → handle_event on_message r w m c ≡ none
  unfolding handle_event Channel.handle_event
  handle_event-fails m c h s f =
      closes_none (m.epollhup && not m.epollin) c.chan.callbacks.on_close
        (fire m.epollerr c.chan.callbacks.on_error errors
          ++ (fire (m.epollin || m.epollpri || m.epollrdhup) c.chan.callbacks.on_read reads
              ++ fire m.epollout c.chan.callbacks.on_write writes))
        (record c { chan = set_revents c.chan m }) h f s

-- Let a connection that is up or shutting down, with its channel registered and bytes kept that are
-- still to be written, be closed by `handleClose`, and then be given a message that is not empty to
-- send, for which there is room. Then its channel is registered with the poller again and waits for
-- room to write, although the state stays disconnected; and a HUP without IN, whatever else comes
-- with it, fails the assertion of `handleClose`.
pub send-fails :
    (on_message : Buffer → Buffer) (c d e : Connection) (xs : List ℕ) (w : Write) (m : Mask)
    (r : Readv) (v : Write)
    → (c.state ≡ connected) ⊎ (c.state ≡ disconnecting)
    → c.chan.index ≡ added
    → c.chan.callbacks.on_close ≡ true
    → 0 < readable_bytes c.output
    → handle_close c ≡ some d
    → 0 < length xs
    → send d xs w ≡ some e
    → (m.epollhup && not m.epollin) ≡ true
    → (e.chan.index ≡ added)
      × (is_writing e.chan ≡ true)
      × (e.state ≡ disconnected)
      × (handle_event on_message r v m e ≡ none)
send-fails on_message c d e xs w m r v up i h kept done more sent hup =
    let same : shut c ≡ d = some-inj (sym (handle_close-of c up) ∙ done) in
    let (index, off) = shut-index c i in
    let (cbs, out) = shut-kept c i in
    let sent' : send (shut c) xs w ≡ some e = ap (λ x. send x xs w) same ∙ sent in
    let b =
      send-Back (shut c) e xs w (shut-down c) index off (ap (λ x. x.on_close) cbs ∙ h)
        (subst (λ x. 0 < readable_bytes x) (sym out) kept) more sent' in
    (b.registered, b.writing, b.down, handle_event-fails on_message r v m e hup b.down b.heard)
