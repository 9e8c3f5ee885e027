-- ===== src/Connection/Story.antt =====
-- TcpConnection: what the user of a connection hears of it, through its whole life.
use network_ydxlib.Base.{ℕ, ◌≡◌, refl, Bool, Option, some, List, ◌≢◌}
use network_ydxlib.Buffer.{Buffer, Readv}
use network_ydxlib.Channel.{Mask, Index, added}
use network_ydxlib.Poller.{Poller}
use network_ydxlib.Connection.{
  Connection, State, connecting, connected, disconnecting, disconnected, Write, send, shutdown,
  shutdown_in_loop, connect_established, connect_destroyed,
}
use network_ydxlib.Connection.Events.{create, handle_event}
use network_ydxlib.Connection.Told.{
  Told, told, IsAt, At, nothing, up, down, over, fresh, running, leaving, left, downed, closing,
  gone,
}
use network_ydxlib.Connection.Calls.{establish-At, shut_by, shutdown_by, destroyed_by}
use network_ydxlib.Connection.Alike.{Alike-At, send-Alike}
use network_ydxlib.Connection.Dispatch.{IsReported, handle_event-Goes}

-- What the loop and the user do with a connection. Events come, and `send` is called, while the
-- channel is registered.
pub data Step (on_message : Buffer → Buffer) : Connection → Connection → Type 0 where
  establishes : {c : Connection} → c.state ≡ connecting → Step on_message c (connect_established c)
  events :
      {c d : Connection} (m : Mask) (r : Readv) (w : Write)
      → c.chan.index ≡ added
      → IsReported m
      → handle_event on_message r w m c ≡ some d
      → Step on_message c d
  sends :
      {c d : Connection} (xs : List ℕ) (w : Write)
      → c.chan.index ≡ added
      → send c xs w ≡ some d
      → Step on_message c d
  shuts : {c : Connection} (own : Bool) → Step on_message c (shutdown own c)
  shuts_posted : {c : Connection} → Step on_message c (shutdown_in_loop c)
  destroys : {c : Connection} → c.state ≢ connecting → Step on_message c (connect_destroyed c)

pub data Reach (on_message : Buffer → Buffer) (c : Connection) : Connection → Type 0 where
  here : Reach on_message c c
  next : {d e : Connection} → Reach on_message c d → Step on_message d e → Reach on_message c e

Step-At : (on_message : Buffer → Buffer) {c d : Connection} → At c → Step on_message c d → At d
Step-At on_message {c} a (establishes e) = establish-At c a e
Step-At on_message {c} {d} a (events m r w i ok e) =
    (handle_event-Goes on_message r w m c d a i ok e).0
Step-At on_message {c} {d} a (sends xs w i e) = Alike-At (send-Alike c d xs w i e) a
Step-At on_message {c} a (shuts own) = shutdown_by own c refl refl refl refl a
Step-At on_message {c} a shuts_posted = shut_by c refl refl refl refl a
Step-At on_message {c} a (destroys h) = destroyed_by c refl refl h a

Reach-At : (on_message : Buffer → Buffer) {c d : Connection} → At c → Reach on_message c d → At d
Reach-At on_message a here = a
Reach-At on_message a (next r s) = Step-At on_message (Reach-At on_message a r) s

-- Which states a user who has been told so may find.
pub data Stands : Told → State → Type 0 where
  before : Stands nothing connecting
  while_up : Stands up connected
  while_leaving : Stands up disconnecting
  after : Stands down disconnected
  at_end : Stands over disconnected

stands_of :
    {t : Option Told} {s : State} {i : Index} {b : Bool}
    → IsAt t s i b
    → (u : Told) × (t ≡ some u) × Stands u s
stands_of fresh = (nothing, refl, before)
stands_of running = (up, refl, while_up)
stands_of leaving = (up, refl, while_leaving)
stands_of left = (up, refl, while_leaving)
stands_of downed = (down, refl, after)
stands_of closing = (over, refl, at_end)
stands_of gone = (over, refl, at_end)

pub created-At : (p : Poller) (address sockfd : ℕ) → At (create p address sockfd)
unfolding create told
created-At p address sockfd = fresh

-- From the constructor on, let a connection be established while it is connecting, hear of events,
-- with what `readv` and `write` then give, and send while its channel is registered, be shut down, and be
-- destroyed at any time after it was established, all in any order and as often as may be; and let the
-- kernel report no HUP without IN together with PRI or RDHUP. As long as no call fails, the user is told
-- first that the connection is up, then of messages, then at most once that it is down, and then at
-- most once of its close, with a shutdown of the socket's write end at any time; and the state is
-- connecting before, connected or disconnecting in between, and disconnected after.
pub Reach-Stands :
    (on_message : Buffer → Buffer) (p : Poller) (address sockfd : ℕ) {d : Connection}
    → Reach on_message (create p address sockfd) d
    → (t : Told) × (told d.effects ≡ some t) × Stands t d.state
Reach-Stands on_message p address sockfd r =
    stands_of (Reach-At on_message (created-At p address sockfd) r)
