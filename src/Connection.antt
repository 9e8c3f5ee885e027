-- ===== src/Connection.antt =====
-- class TcpConnection of tcp_connection.h and tcp_connection.cpp, seen from its loop's thread. What
-- `write` and `readv` give and what the message callback does to the input buffer are arguments. The
-- poller that the connection belongs to is kept beside its channel.
pub mod Stream
pub mod Drain
pub mod Life
pub mod Events
pub mod Told
pub mod Calls
pub mod Alike
pub mod Dispatch
pub mod Story
pub mod Again
pub mod HalfClose
mod Tests
use network_ydxlib.Base.{
  ℕ, ◌+◌, ◌-◌, Bool, true, false, ◌&&◌, ◌||◌, not, Option, none, some, List, [], ◌∷◌, ◌++◌, ltb,
  ◌==◌, if◌then◌else◌, length, take, drop,
}
use network_ydxlib.Base.Int.{ℤ, pos, negsuc}
use network_ydxlib.Base.Words.{sub_size}
use network_ydxlib.Buffer
use network_ydxlib.Buffer.{Buffer, Readv, readable_bytes, peek, retrieve, append, read_fd}
use network_ydxlib.Channel.{Channel, is_writing}
use network_ydxlib.Poller.{
  Poller, ChannelOp, perform, enable_reading, enable_writing, disable_writing, disable_all, remove,
}

pub data State : Type 0 where
  disconnected connecting connected disconnecting : State

-- What others notice of a connection: calls of its callbacks, and of `shutdown(fd, SHUT_WR)`.
pub data Effect : Type 0 where
  connection_changed : State → Effect
  message_came closed shut_write : Effect

-- `accepted` are the bytes that `write` has taken so far, `effects` the effects so far with the last
-- one first, and `posted` counts the calls of `shutdownInLoop` queued for the loop.
pub record Connection : Type 0 where
  pub state : State
  pub poller : Poller
  pub address : ℕ
  pub chan : Channel
  pub input : Buffer
  pub output : Buffer
  pub accepted : List ℕ
  pub effects : List Effect
  pub posted : ℕ

-- The errors that `send` tells apart.
pub data Errno : Type 0 where
  ewouldblock epipe econnreset : Errno
  other : ℕ → Errno

pub data Write : Type 0 where
  wrote : ℕ → Write
  refused : Errno → Write

-- A request to the channel, which goes on to the poller.
unfoldable pub ask : ChannelOp → Connection → Connection
ask o c = let (r, ch) = perform o c.poller c.address c.chan in record c { poller = r; chan = ch }

abbrev pub effect : Effect → Connection → Connection
effect e c = record c { effects = e ∷ c.effects }

unfoldable pub is_fault : Errno → Bool
is_fault ewouldblock = false
is_fault epipe = true
is_fault econnreset = true
is_fault (other n) = false

unfoldable pub want_writing : Connection → Connection
unfolding ask
want_writing c = if is_writing c.chan then c else ask enable_writing c

-- What was not written is kept for later, from offset `nwrote` on.
unfoldable pub keep_rest : Connection → List ℕ → (nwrote remaining : ℕ) → Option Connection
unfolding want_writing
keep_rest c xs nwrote remaining = elim (append c.output (take remaining (drop nwrote xs))) [
  | none ↦ none
  | some b ↦ some (want_writing (record c { output = b }))
]

unfoldable pub send_direct : Connection → List ℕ → Write → Option Connection
unfolding keep_rest is_fault
send_direct c xs (wrote n) =
    let c' : Connection = record c { accepted = c.accepted ++ take n xs } in
    let remaining = sub_size (length xs) n in
    if ltb 0 remaining then keep_rest c' xs n remaining else some c'
send_direct c xs (refused e) =
    if not (is_fault e) && ltb 0 (length xs) then keep_rest c xs 0 (length xs) else some c

-- `w` is what `write` gives, if it is called.
unfoldable pub send : Connection → List ℕ → Write → Option Connection
unfolding send_direct keep_rest
send c xs w =
    if readable_bytes c.output == 0
    then send_direct c xs w
    else if ltb 0 (length xs)
    then keep_rest c xs 0 (length xs)
    else some c

unfoldable pub wrote_out : Connection → ℕ → Connection
unfolding ask
wrote_out c n =
    let b = retrieve c.output n in
    let c' : Connection = record c {
      accepted = c.accepted ++ take n (peek c.output (readable_bytes c.output));
      output = b;
    } in
    if readable_bytes b == 0 then ask disable_writing c' else c'

unfoldable pub handle_write : Connection → Write → Connection
unfolding wrote_out
handle_write c (refused e) = c
handle_write c (wrote n) = if is_writing c.chan && ltb 0 n then wrote_out c n else c

unfoldable pub shutdown_in_loop : Connection → Connection
shutdown_in_loop c = if is_writing c.chan then c else effect shut_write c

unfoldable pub is_connected : State → Bool
is_connected connected = true
is_connected disconnected = false
is_connected connecting = false
is_connected disconnecting = false

unfoldable pub is_disconnecting : State → Bool
is_disconnecting disconnecting = true
is_disconnecting disconnected = false
is_disconnecting connecting = false
is_disconnecting connected = false

-- `own` says whether the caller is the loop's own thread.
unfoldable pub shutdown : Bool → Connection → Connection
unfolding is_connected shutdown_in_loop
shutdown own c =
    let c' : Connection = record c { state = disconnecting } in
    if is_connected c.state
    then (if own then shutdown_in_loop c' else record c' { posted = c'.posted + 1 })
    else c

unfoldable pub connect_established : Connection → Connection
unfolding ask
connect_established c =
    effect (connection_changed connected) (ask enable_reading (record c { state = connected }))

unfoldable pub connect_destroyed : Connection → Connection
unfolding ask is_connected
connect_destroyed c =
    let down =
      effect (connection_changed disconnected)
        (ask disable_all (record c { state = disconnected })) in
    ask remove (if is_connected c.state then down else c)

-- `none` is the failed assertion on the state.
unfoldable pub handle_close : Connection → Option Connection
unfolding ask is_connected is_disconnecting
handle_close c =
    if is_connected c.state || is_disconnecting c.state
    then some (
        effect closed (
          effect (connection_changed disconnected)
            (ask disable_all (record c { state = disconnected }))))
    else none

module _ (on_message : Buffer → Buffer) where
  unfoldable pub read_done : Connection → ℤ → Buffer → Option Connection
  unfolding handle_close
  read_done c (pos n) b =
      if n == 0
      then handle_close (record c { input = b })
      else some (effect message_came (record c { input = on_message b }))
  read_done c (negsuc n) b = some (record c { input = b })

  unfoldable pub handle_read : Connection → Readv → Option Connection
  unfolding read_done
  handle_read c r = elim (read_fd c.input r 0) [
    | none ↦ none
    | some (n, saved, b) ↦ read_done c n b
  ]
