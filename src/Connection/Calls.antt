-- ===== src/Connection/Calls.antt =====
-- TcpConnection: where each call of a connection's life leaves what its user is told.
use network_ydxlib.Base.{
  ◌+◌, ◌≡◌, refl, sym, ap, ◌∙◌, subst, inl, inr, some-inj, Bool, true, false, Option, some, arith,
  if◌then◌else◌, Bool-cases, ◌≢◌,
}
use network_ydxlib.Channel.{Index, new, added, deleted, is_writing, meets, mask_or, is_none_event}
use network_ydxlib.Poller.{
  disable_all, remove, perform, update_channel, update_by, new_events, remove_channel,
}
use network_ydxlib.Connection.{
  Connection, State, connecting, connected, disconnecting, disconnected, connection_changed,
  message_came, closed, shut_write, ask, effect, shutdown, shutdown_in_loop, connect_established,
  connect_destroyed, handle_close, is_connected,
}
use network_ydxlib.Connection.Life.{handle_close-of}
use network_ydxlib.Connection.Told.{
  Told, next_told, next_after, told, IsAt, At, at-added, built, up, fresh, running, leaving, left,
  downed, closing, gone,
}

pub establish_by :
    {t : Option Told} {s : State} {i : Index} {b : Bool} (c : Connection)
    → told c.effects ≡ t
    → c.state ≡ s
    → c.chan.index ≡ i
    → s ≡ connecting
    → IsAt t s i b
    → At (connect_established c)
unfolding connect_established ask perform update_channel update_by new_events mask_or is_none_event
    meets told next_after next_told
establish_by c te se ie e fresh = built (rw te refl) refl (rw ie refl) (ground (arith, ie)) running
establish_by c te se ie e running = absurd (cc e)
establish_by c te se ie e leaving = absurd (cc e)
establish_by c te se ie e left = absurd (cc e)
establish_by c te se ie e downed = absurd (cc e)
establish_by c te se ie e closing = absurd (cc e)
establish_by c te se ie e gone = absurd (cc e)

pub establish-At : (c : Connection) → At c → c.state ≡ connecting → At (connect_established c)
unfolding connect_established ask perform update_channel update_by new_events mask_or is_none_event
    meets
establish-At c a e = establish_by c refl refl refl e a

-- Nothing is written any more, and the channel is not registered.
abbrev pub Off : Connection → Type 0
Off c = (is_writing c.chan ≡ false) × (c.chan.index ≡ deleted)

-- Closed: what `handleClose` leaves.
pub closed-At :
    (c : Connection)
    → told c.effects ≡ some up
    → c.chan.index ≡ added
    → let d : Connection = effect closed (
        effect
          (connection_changed disconnected)
          (ask disable_all (record c { state = disconnected }))) in
      At d × Off d
unfolding ask perform update_channel update_by new_events is_none_event is_writing meets told
    next_after next_told
closed-At c t i = (built (rw t refl) refl (rw i refl) refl closing, (rw i refl, rw i refl))

pub handle_close-At :
    (c d : Connection) → At c → c.chan.index ≡ added → handle_close c ≡ some d → At d × Off d
handle_close-At c d a i e =
    let (t, s, _) = at-added a i in
    subst (λ x. At x × Off x) (some-inj (sym (handle_close-of c s) ∙ e)) (closed-At c t i)

pub shut_after :
    {t : Option Told} {s : State} {i : Index} {b : Bool}
    → IsAt t s i b
    → next_after shut_write t ≡ t
unfolding next_after next_told
shut_after fresh = refl
shut_after running = refl
shut_after leaving = refl
shut_after left = refl
shut_after downed = refl
shut_after closing = refl
shut_after gone = refl

-- A round of `shutdown`, and what it puts off.
pub shut_by :
    {t : Option Told} {s : State} {i : Index} {b : Bool} (c : Connection)
    → told c.effects ≡ t
    → c.state ≡ s
    → c.chan.index ≡ i
    → c.chan.events.epollin ≡ b
    → IsAt t s i b
    → At (shutdown_in_loop c)
unfolding shutdown_in_loop told next_after next_told
shut_by c te se ie re a = elim (Bool-cases (is_writing c.chan)) [
  | inl w ↦ rw w (built te se ie re a)
  | inr w ↦ rw w (built (rw te (shut_after a)) se ie re a)
]

-- Nothing happens in a state other than `connected`.
pub shutdown-off :
    (own : Bool) (c : Connection) {s : State}
    → c.state ≡ s
    → is_connected s ≡ false
    → shutdown own c ≡ c
unfolding shutdown
shutdown-off own c e f =
    ap
      (λ (b : Bool).
        if b
        then (let c' : Connection = record c { state = disconnecting } in
            if own then shutdown_in_loop c' else record c' { posted = c'.posted + 1 })
        else c)
      (ap is_connected e ∙ f)

pub shutdown-on :
    (own : Bool) (c : Connection)
    → c.state ≡ connected
    → shutdown own c ≡ (
        let c' : Connection = record c { state = disconnecting } in
        if own then shutdown_in_loop c' else record c' { posted = c'.posted + 1 })
unfolding shutdown is_connected
shutdown-on own c e =
    ap
      (λ (b : State).
        if is_connected b
        then (let c' : Connection = record c { state = disconnecting } in
            if own then shutdown_in_loop c' else record c' { posted = c'.posted + 1 })
        else c)
      e

pub shutdown_by :
    {t : Option Told} {s : State} {i : Index} {b : Bool} (own : Bool) (c : Connection)
    → told c.effects ≡ t
    → c.state ≡ s
    → c.chan.index ≡ i
    → c.chan.events.epollin ≡ b
    → IsAt t s i b
    → At (shutdown own c)
unfolding is_connected
shutdown_by own c te se ie re fresh =
    subst At (sym (shutdown-off own c se refl)) (built te se ie re fresh)
shutdown_by true c te se ie re running =
    subst At (sym (shutdown-on true c se))
      (shut_by (record c { state = disconnecting }) te refl ie re leaving)
shutdown_by false c te se ie re running =
    subst At (sym (shutdown-on false c se)) (built te refl ie re leaving)
shutdown_by own c te se ie re leaving =
    subst At (sym (shutdown-off own c se refl)) (built te se ie re leaving)
shutdown_by own c te se ie re left =
    subst At (sym (shutdown-off own c se refl)) (built te se ie re left)
shutdown_by own c te se ie re downed =
    subst At (sym (shutdown-off own c se refl)) (built te se ie re downed)
shutdown_by own c te se ie re closing =
    subst At (sym (shutdown-off own c se refl)) (built te se ie re closing)
shutdown_by own c te se ie re gone =
    subst At (sym (shutdown-off own c se refl)) (built te se ie re gone)

abbrev pub taken_down : Connection → Connection
taken_down c =
    effect (connection_changed disconnected) (ask disable_all (record c { state = disconnected }))

pub destroyed-off :
    (c : Connection) {s : State}
    → c.state ≡ s
    → is_connected s ≡ false
    → connect_destroyed c ≡ ask remove c
unfolding connect_destroyed
destroyed-off c e f =
    ap (λ (b : Bool). ask remove (if b then taken_down c else c)) (ap is_connected e ∙ f)

pub destroyed-on :
    (c : Connection) → c.state ≡ connected → connect_destroyed c ≡ ask remove (taken_down c)
unfolding connect_destroyed is_connected
destroyed-on c e = ap (λ (b : State). ask remove (if is_connected b then taken_down c else c)) e

-- Once its channel is removed.
pub removed-At :
    {t : Option Told} {s : State} (c : Connection)
    → told c.effects ≡ t
    → c.state ≡ s
    → ((b : Bool) → IsAt t s new b)
    → At (ask remove c)
unfolding ask perform remove_channel
removed-At c te se a = built te se refl refl (a c.chan.events.epollin)

pub destroyed_by :
    {t : Option Told} {s : State} {i : Index} {b : Bool} (c : Connection)
    → told c.effects ≡ t
    → c.state ≡ s
    → s ≢ connecting
    → IsAt t s i b
    → At (connect_destroyed c)
unfolding is_connected told next_after next_told ask
destroyed_by c te se h fresh = absurd (h refl)
destroyed_by c te se h running = subst At (sym (destroyed-on c se)) (
    removed-At (taken_down c) (ap (next_after (connection_changed disconnected)) te) refl
      (λ b. downed))
destroyed_by c te se h leaving =
    subst At (sym (destroyed-off c se refl)) (removed-At c te se (λ b. left))
destroyed_by c te se h left =
    subst At (sym (destroyed-off c se refl)) (removed-At c te se (λ b. left))
destroyed_by c te se h downed =
    subst At (sym (destroyed-off c se refl)) (removed-At c te se (λ b. downed))
destroyed_by c te se h closing =
    subst At (sym (destroyed-off c se refl)) (removed-At c te se (λ b. gone))
destroyed_by c te se h gone =
    subst At (sym (destroyed-off c se refl)) (removed-At c te se (λ b. gone))

pub message-At : (c : Connection) → At c → c.chan.index ≡ added → At (effect message_came c)
unfolding told next_after next_told
message-At c a i =
    let (t, s, r) = at-added a i in
    elim s [ inl e ↦ built (rw t refl) e i r running | inr e ↦ built (rw t refl) e i r leaving ]
