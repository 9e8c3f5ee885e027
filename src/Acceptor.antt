-- ===== src/Acceptor.antt =====
-- class Acceptor of acceptor.h and acceptor.cpp, with `sockets::accept` of socket_ops.cpp. What the
-- system gives for `accept4`, `accept` and `open` are arguments. A descriptor is the bit pattern of
-- an int, so that -1 is 2^32 - 1.
pub mod Descriptors
mod Tests
use network_ydxlib.Base.{ℕ, Bool, true, false, Option, none, some, List, [], ◌∷◌, if◌then◌else◌}
use network_ydxlib.Channel.{Channel, channel}
use network_ydxlib.Poller.{Poller, ChannelOp, perform, enable_reading, disable_all, remove}

pub data Errno : Type 0 where
  eagain econnaborted eintr eproto eperm emfile : Errno
  ebadf efault einval enfile enobufs enomem enotsock eopnotsupp : Errno
  other : ℕ → Errno

-- What `accept4` gives.
pub data Accepted : Type 0 where
  connfd : ℕ → Accepted
  failed : Errno → Accepted

unfoldable pub is_expected : Errno → Bool
is_expected eagain = true
is_expected econnaborted = true
is_expected eintr = true
is_expected eproto = true
is_expected eperm = true
is_expected emfile = true
is_expected ebadf = false
is_expected efault = false
is_expected einval = false
is_expected enfile = false
is_expected enobufs = false
is_expected enomem = false
is_expected enotsock = false
is_expected eopnotsupp = false
is_expected (other n) = false

-- `none` is `abort()`.
unfoldable pub accept : Accepted → Option Accepted
unfolding is_expected
accept (connfd fd) = some (connfd fd)
accept (failed e) = if is_expected e then some (failed e) else none

-- `opened` are the descriptors that the system has given, `closed` the arguments of `close`, and
-- `handed` what went to the callback for new connections, each with the last one first.
pub record Acceptor : Type 0 where
  pub poller : Poller
  pub address : ℕ
  pub accept_channel : Channel
  pub new_connection_callback : Bool
  pub listenning : Bool
  pub idle_fd : ℕ
  pub opened : List ℕ
  pub closed : List ℕ
  pub handed : List ℕ

-- `socket` and `idle` are what the socket's creation and `open` give.
abbrev pub new_acceptor : Poller → (address socket idle : ℕ) → Acceptor
new_acceptor r address socket idle = record {
  poller = r;
  address = address;
  accept_channel = channel socket;
  new_connection_callback = false;
  listenning = false;
  idle_fd = idle;
  opened = idle ∷ [];
  closed = [];
  handed = [];
}

unfoldable pub ask : ChannelOp → Acceptor → Acceptor
ask o a =
    let (r, ch) = perform o a.poller a.address a.accept_channel in
    record a { poller = r; accept_channel = ch }

unfoldable pub set_new_connection_callback : Acceptor → Acceptor
set_new_connection_callback a = record a { new_connection_callback = true }

unfoldable pub listen : Acceptor → Acceptor
unfolding ask
listen a = ask enable_reading (record a { listenning = true })

-- The idle descriptor makes room to take a connection and drop it.
unfoldable pub drop_one : (taken reopened : ℕ) → Acceptor → Acceptor
drop_one taken reopened a = record a {
  idle_fd = reopened;
  opened = reopened ∷ taken ∷ a.opened;
  closed = taken ∷ a.idle_fd ∷ a.closed;
}

unfoldable pub no_connection : Errno → (taken reopened : ℕ) → Acceptor → Acceptor
unfolding drop_one
no_connection emfile taken reopened a = drop_one taken reopened a
no_connection e taken reopened a = a

unfoldable pub connection : (fd : ℕ) → Acceptor → Acceptor
connection fd a =
    if a.new_connection_callback
    then record a { opened = fd ∷ a.opened; handed = fd ∷ a.handed }
    else record a { opened = fd ∷ a.opened; closed = fd ∷ a.closed }

unfoldable pub after_accept : (taken reopened : ℕ) → Option Accepted → Acceptor → Option Acceptor
unfolding connection no_connection
after_accept taken reopened none a = none
after_accept taken reopened (some (connfd fd)) a = some (connection fd a)
after_accept taken reopened (some (failed e)) a = some (no_connection e taken reopened a)

-- `taken` and `reopened` are what `accept` and `open` give, if they are called.
unfoldable pub handle_read : Accepted → (taken reopened : ℕ) → Acceptor → Option Acceptor
unfolding after_accept
handle_read x taken reopened a = after_accept taken reopened (accept x) a

-- The destructor.
unfoldable pub close : Acceptor → Acceptor
unfolding ask
close a = let b = ask remove (ask disable_all a) in record b { closed = b.idle_fd ∷ b.closed }
