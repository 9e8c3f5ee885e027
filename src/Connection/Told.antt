-- ===== src/Connection/Told.antt =====
-- TcpConnection: what the user of a connection is told.
use network_ydxlib.Base.{
  ◌≡◌, ◌⊎◌, refl, sym, subst, inl, inr, Bool, true, Option, none, some, List, [], ◌∷◌,
}
use network_ydxlib.Channel.{Index, new, added, deleted}
use network_ydxlib.Connection.{
  Connection, State, connecting, connected, disconnecting, disconnected, Effect, connection_changed,
  message_came, closed, shut_write,
}

-- What the user has been told so far.
pub data Told : Type 0 where
  nothing up down over : Told

-- What may be told next: that the connection is up, then messages, then that it is down, and then
-- its close. The socket's write end may be shut at any time.
unfoldable pub next_told : Effect → Told → Option Told
next_told (connection_changed connected) nothing = some up
next_told message_came up = some up
next_told (connection_changed disconnected) up = some down
next_told closed down = some over
next_told shut_write t = some t
next_told e t = none

unfoldable pub next_after : Effect → Option Told → Option Told
unfolding next_told
next_after e none = none
next_after e (some t) = next_told e t

-- The effects, the last one first.
unfoldable pub told : List Effect → Option Told
unfolding next_after
told [] = some nothing
told (e ∷ es) = next_after e (told es)

-- What has been told, the state, and whether the channel is registered and wants to read.
pub data IsAt : Option Told → State → Index → Bool → Type 0 where
  fresh : {b : Bool} → IsAt (some nothing) connecting new b
  running : IsAt (some up) connected added true
  leaving : IsAt (some up) disconnecting added true
  left : {b : Bool} → IsAt (some up) disconnecting new b
  downed : {b : Bool} → IsAt (some down) disconnected new b
  closing : {b : Bool} → IsAt (some over) disconnected deleted b
  gone : {b : Bool} → IsAt (some over) disconnected new b

abbrev pub At : Connection → Type 0
At c = IsAt (told c.effects) c.state c.chan.index c.chan.events.epollin

pub at-added :
    {t : Option Told} {s : State} {i : Index} {b : Bool}
    → IsAt t s i b
    → i ≡ added
    → (t ≡ some up) × ((s ≡ connected) ⊎ (s ≡ disconnecting)) × (b ≡ true)
at-added fresh e = absurd (cc e)
at-added running e = (refl, inl refl, refl)
at-added leaving e = (refl, inr refl, refl)
at-added left e = absurd (cc e)
at-added downed e = absurd (cc e)
at-added closing e = absurd (cc e)
at-added gone e = absurd (cc e)

pub built :
    {t u : Option Told} {s s' : State} {i j : Index} {b b' : Bool}
    → u ≡ t
    → s' ≡ s
    → j ≡ i
    → b' ≡ b
    → IsAt t s i b
    → IsAt u s' j b'
built {t} {u} {s} {s'} {i} {j} {b} {b'} p q r v a =
    subst (λ x. IsAt u s' j x) (sym v)
      (subst (λ x. IsAt u s' x b) (sym r)
        (subst (λ x. IsAt u x i b) (sym q) (subst (λ x. IsAt x s i b) (sym p) a)))
