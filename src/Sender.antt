-- ===== src/Sender.antt =====
-- class Sender of ydx_sender.h and ydx_sender.cpp: messages that threads put on a StreamBuffer, sent
-- by its own thread over the connection of a TcpClient. What `write` gives is an argument.
pub mod Round
pub mod Pipe
pub mod Counted
pub mod Putting
pub mod Look
pub mod Taking
pub mod Wait
mod Tests
use network_ydxlib.Base.{
  ℕ, ◌+◌, ◌-◌, ◌%◌, ◌^◌, Bool, true, false, ◌&&◌, Option, none, some, List, length, ltb, ◌==◌,
  if◌then◌else◌,
}
use network_ydxlib.Base.Int.{ℤ, pos}
use network_ydxlib.Base.Words.{int_bytes, int_of_bytes, add_size, size_of_int}
use network_ydxlib.Stream.{
  Stream, write_buffer, read_buffer, copy_in_must, int_size, used, peek_out_must, has_read,
  copy_out_must,
}
use network_ydxlib.Connection.{Connection, Write, send}

-- `msg_count` is the bit pattern of an `AtomicInt32`; `notified` counts the calls of `cond_.notify()`.
pub record Sender : Type 0 where
  pub ring : Stream
  pub msg_count : ℕ
  pub notified : ℕ

abbrev pub increment : ℕ → ℕ
increment n = (n + 1) % 2 ^ 32

abbrev pub decrement : ℕ → ℕ
decrement n = (n + 2 ^ 32 - 1) % 2 ^ 32

-- A message has been put on the ring.
unfoldable pub counted : Sender → Sender
counted s =
    if s.msg_count == 0
    then record s { msg_count = increment (increment s.msg_count); notified = s.notified + 1 }
    else record s { msg_count = increment s.msg_count }

unfoldable pub send_message : Option (List ℕ) → ℤ → Sender → Bool × Sender
unfolding counted
send_message buf len s =
    let (ok, ring) = write_buffer s.ring buf len in
    let s' : Sender = record s { ring = ring } in (true, if ok then counted s' else s')

unfoldable pub counted_off : Sender → Option Connection → Option (Sender × Connection)
counted_off s none = none
counted_off s (some c) = some (record s { msg_count = decrement s.msg_count }, c)

unfoldable pub send_body :
    List ℕ → Write → Sender → Option Connection → Option (Sender × Connection)
unfolding counted_off
send_body xs w s none = none
send_body xs w s (some c) = counted_off s (send c xs w)

-- The length, and then the message. `none` is a null connection, or a failure of its `send`.
unfoldable pub send_both :
    List ℕ → ℤ → (w1 w2 : Write) → Sender → Option Connection → Option (Sender × Connection)
unfolding send_body
send_both xs len w1 w2 s none = none
send_both xs len w1 w2 s (some c) = send_body xs w2 s (send c (int_bytes len) w1)

unfoldable pub connected : Option (Sender × Connection) → Option (Sender × Option Connection)
connected none = none
connected (some (s, c)) = some (s, some c)

-- What follows `read_buffer`, whose answer, bytes, length and ring are the last argument.
unfoldable pub after_read :
    (up : Bool) (connection : Option Connection) (w1 w2 : Write)
    → Sender
    → Bool × List ℕ × ℤ × Stream
    → Option (Sender × Option Connection)
unfolding connected
after_read true connection w1 w2 s (true, xs, len, ring) =
    connected (send_both xs len w1 w2 (record s { ring = ring }) connection)
after_read true connection w1 w2 s (false, xs, len, ring) =
    some (record s { ring = ring }, connection)
after_read false connection w1 w2 s (ok, xs, len, ring) =
    some (record s { ring = ring }, connection)

-- The loop's body, once the wait is over; `up` is what `client_->is_connected()` gives, and
-- `connection` what `client_->connection()` does. Where nothing is sent the connection stays.
unfoldable pub round :
    (up : Bool) (connection : Option Connection) (w1 w2 : Write)
    → Sender
    → Option (Sender × Option Connection)
unfolding after_read
round up connection w1 w2 s = after_read up connection w1 w2 s (read_buffer s.ring true)

-- Where `thread_start_epoll` is: before the test under the lock, in `cond_.wait()`, past it, and in
-- `read_buffer`, with a message of `len` bytes to read, and with its length off the ring, which has given
-- `outb`; then with a message read and not sent, and with one sent and not counted off.
pub data Phase : Type 0 where
  polling asleep reading lowering : Phase
  skipping : (len : ℤ) → Phase
  copying : (len : ℤ) (outb : ℕ) → Phase
  sending : List ℕ → (len : ℤ) → Phase

-- `if(msg_count_.get() == 0) cond_.wait()`.
unfoldable pub wait : ℕ → Phase
wait msg_count = if msg_count == 0 then asleep else reading

-- A `cond_.notify()`, and any other end of a wait.
unfoldable pub wake : Phase → Phase
wake asleep = reading
wake p = p

-- Where the call of `send` is, if there is one: past `write_buffer`'s test for room, past the first of
-- its `copy_in_must`, which has given `inb`, or past `write_buffer`, before the lock.
pub data Writer : Type 0 where
  ready counting : Writer
  heading : List ℕ → Writer
  bodying : List ℕ → (inb : ℕ) → Writer

-- The sender, where its loop and the call of `send` are, and how many messages have been put on the
-- ring.
pub record Running : Type 0 where
  pub sender : Sender
  pub phase : Phase
  pub writer : Writer
  pub written : ℕ

-- `write_buffer` puts the length on the ring, and then the message.
unfoldable pub put_head : List ℕ → Running → Running
put_head m r =
    let (inb, ring) = copy_in_must r.sender.ring (some (int_bytes (pos (length m)))) int_size in
    record r { sender = record r.sender { ring = ring }; writer = bodying m inb }

unfoldable pub put_body : List ℕ → (inb : ℕ) → Running → Running
put_body m inb r =
    let (n, ring) = copy_in_must r.sender.ring (some m) (size_of_int (pos (length m))) in
    let s : Sender = record r.sender { ring = ring } in
    if add_size inb n == add_size (size_of_int (pos (length m))) int_size
    then record r { sender = s; writer = counting; written = r.written + 1 }
    else record r { sender = s; writer = ready }

-- What a call of `send` does under the lock, which wakes the loop when it notifies.
unfoldable pub count : Running → Running
unfolding counted wake
count r = record r {
  sender = counted r.sender;
  writer = ready;
  phase = if r.sender.msg_count == 0 then wake r.phase else r.phase;
}

-- `read_buffer` in the loop: it looks at the length at the front, and whether its message is there,
unfoldable pub look : Stream → Phase
look ring =
    let (n, bytes) = peek_out_must ring true int_size in
    let len = int_of_bytes bytes in
    if n == 0
    then polling
    else if ltb (used ring) (add_size (size_of_int len) int_size)
    then polling
    else skipping len

unfoldable pub peek_one : Running → Running
unfolding look
peek_one r = record r { phase = look r.sender.ring }

-- takes the length off the ring,
unfoldable pub skip_head : ℤ → Running → Running
skip_head len r =
    let (skipped, ring) = has_read r.sender.ring int_size in
    record r {
      sender = record r.sender { ring = ring };
      phase = copying len (if skipped then int_size else 0);
    }

-- and then the message.
unfoldable pub copy_body : ℤ → (outb : ℕ) → Running → Running
copy_body len outb r =
    let (n, xs, ring) = copy_out_must r.sender.ring true (size_of_int len) in
    record r {
      sender = record r.sender { ring = ring };
      phase =
          if add_size outb n == add_size (size_of_int len) int_size
          then sending xs len
          else polling;
    }

-- `msg_count_.decrement()`, once the message is sent.
unfoldable pub lower : Running → Running
lower r = record r {
  sender = record r.sender { msg_count = decrement r.sender.msg_count };
  phase = polling;
}
