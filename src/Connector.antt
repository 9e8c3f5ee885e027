-- ===== src/Connector.antt =====
-- class Connector of connector.h and connector.cpp: one non-blocking `connect` after another until
-- one gets through. What the system gives for each call is an argument: a list of attempts, each
-- with the descriptor of the new socket and the error number of `connect`.
pub mod Owner
pub mod Tries
mod Tests
use network_ydxlib.Base.{
  ℕ, Bool, true, false, ◌||◌, not, Option, none, some, List, [], ◌∷◌, ◌==◌, if◌then◌else◌,
}
use network_ydxlib.Channel.{Channel, channel, no_callbacks}
use network_ydxlib.Poller.{Poller, ChannelOp, perform, enable_writing, disable_all, remove}

pub data State : Type 0 where
  disconnected connecting connected : State

-- `chan` is the channel with its address. `opened` lists the sockets made so far, `closed` those
-- closed and `handed` those given to the callback for new connections, the last one first.
pub record Connector : Type 0 where
  pub state : State
  pub wanted : Bool
  pub chan : Option (ℕ × Channel)
  pub poller : Poller
  pub opened : List ℕ
  pub closed : List ℕ
  pub handed : List ℕ

pub data Errno : Type 0 where
  ok einprogress eintr eisconn : Errno
  eagain eaddrinuse eaddrnotavail econnrefused enetunreach : Errno
  eacces eperm eafnosupport ealready ebadf efault enotsock : Errno
  other : ℕ → Errno

-- `fd` is what `create_nonblock_socket` gives, `address` where the channel for it would be made.
pub record Attempt : Type 0 where
  pub fd : ℕ
  pub address : ℕ
  pub errno : Errno

pub data Verdict : Type 0 where
  proceeds retries fails : Verdict

unfoldable pub verdict : Errno → Verdict
verdict ok = proceeds
verdict einprogress = proceeds
verdict eintr = proceeds
verdict eisconn = proceeds
verdict eagain = retries
verdict eaddrinuse = retries
verdict eaddrnotavail = retries
verdict econnrefused = retries
verdict enetunreach = retries
verdict eacces = fails
verdict eperm = fails
verdict eafnosupport = fails
verdict ealready = fails
verdict ebadf = fails
verdict efault = fails
verdict enotsock = fails
verdict (other n) = fails

-- A call returns; or it is still trying when the attempts are used up; or it follows the null
-- pointer in `channel_`.
pub data Outcome : Type 0 where
  done trying : Connector → Outcome
  crashed : Outcome

abbrev pub close : ℕ → Connector → Connector
close fd c = record c { closed = fd ∷ c.closed }

-- The channel with its write and error callbacks set.
abbrev pub new_channel : ℕ → Channel
new_channel fd = record (channel fd) {
  callbacks = record no_callbacks { on_write = true; on_error = true };
}

unfoldable pub establish : Attempt → Connector → Connector
establish a c =
    let (r, ch) = perform enable_writing c.poller a.address (new_channel a.fd) in
    record c { state = connecting; chan = some (a.address, ch); poller = r }

-- `retry`, given what `start` then does.
unfoldable pub retry_by : (Connector → Outcome) → ℕ → Connector → Outcome
retry_by begin fd c =
    let c' : Connector = record (close fd c) { state = disconnected } in
    if c.wanted then begin (record c' { wanted = true }) else done c'

unfoldable pub settle : (Connector → Outcome) → Verdict → Attempt → Connector → Outcome
unfolding establish retry_by
settle begin proceeds a c = done (establish a c)
settle begin retries a c = retry_by begin a.fd c
settle begin fails a c = done (close a.fd c)

unfoldable pub connect : List Attempt → Connector → Outcome
unfolding settle verdict
connect [] c = trying c
connect (t ∷ ts) c =
    settle (λ d. connect ts d) (verdict t.errno) t (record c { opened = t.fd ∷ c.opened })

unfoldable pub start : List Attempt → Connector → Outcome
start ts c = connect ts (record c { wanted = true })

unfoldable pub restart : List Attempt → Connector → Outcome
restart ts c = connect ts (record c { state = disconnected; wanted = true })

unfoldable pub retry : List Attempt → ℕ → Connector → Outcome
unfolding retry_by start
retry ts fd c = retry_by (start ts) fd c

-- `removeAndResetChannel`, with the rest of the caller.
unfoldable pub without_channel : (ℕ → Connector → Outcome) → Connector → Outcome
without_channel rest c = elim c.chan [
  | none ↦ crashed
  | some (p, ch) ↦
      let (r1, ch1) = perform disable_all c.poller p ch in
      let (r2, ch2) = perform remove r1 p ch1 in rest ch2.fd (record c { chan = none; poller = r2 })
]

unfoldable pub is_connecting : State → Bool
is_connecting connecting = true
is_connecting disconnected = false
is_connecting connected = false

unfoldable pub stop : List Attempt → Connector → Outcome
unfolding is_connecting without_channel retry
stop ts c =
    let c' : Connector = record c { wanted = false } in
    if is_connecting c.state
    then without_channel (retry ts) (record c' { state = disconnected })
    else done c'

unfoldable pub hand_over : ℕ → Connector → Outcome
hand_over fd c =
    let c' : Connector = record c { state = connected } in
    if c.wanted then done (record c' { handed = fd ∷ c.handed }) else done (close fd c')

-- `err` is what `get_socket_error` gives and `self` what `isSelfConnect` gives.
unfoldable pub written : List Attempt → (err : ℕ) (self : Bool) → ℕ → Connector → Outcome
unfolding retry hand_over
written ts err self fd c = if not (err == 0) || self then retry ts fd c else hand_over fd c

unfoldable pub handle_write : List Attempt → (err : ℕ) (self : Bool) → Connector → Outcome
unfolding is_connecting without_channel written
handle_write ts err self c =
    if is_connecting c.state then without_channel (written ts err self) c else done c

unfoldable pub handle_error : List Attempt → Connector → Outcome
unfolding is_connecting without_channel retry
handle_error ts c = if is_connecting c.state then without_channel (retry ts) c else done c

-- `loopConnect` tries again on every error.
unfoldable pub is_ok : Errno → Bool
is_ok ok = true
is_ok e = false

unfoldable pub loop_connect : List Attempt → Connector → Outcome
unfolding is_ok establish
loop_connect [] c = trying c
loop_connect (t ∷ ts) c =
    let c' : Connector = record c { opened = t.fd ∷ c.opened } in
    if is_ok t.errno then done (establish t c') else loop_connect ts (close t.fd c')

-- What the loop and the client call, in any order.
pub data Call : Type 0 where
  starts restarts stops errs : Call
  writes : (err : ℕ) (self : Bool) → Call

unfoldable pub run : Call → List Attempt → Connector → Outcome
unfolding start restart stop handle_write handle_error
run starts ts c = start ts c
run restarts ts c = restart ts c
run stops ts c = stop ts c
run errs ts c = handle_error ts c
run (writes err self) ts c = handle_write ts err self c
