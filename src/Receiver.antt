-- ===== src/Receiver.antt =====
-- class Receiver of ydx_receiver.h and ydx_receiver.cpp: it cuts the bytes that come over a
-- connection into messages and puts them on a StreamBuffer, from which another thread takes them.
pub mod Front
pub mod Framing
pub mod Stuck
pub mod Wait
pub mod Crowd
mod Tests
use network_ydxlib.Base.{
  ℕ, zero, suc, ◌+◌, ◌-◌, ◌%◌, ◌^◌, Bool, true, Option, none, some, List, ◌==◌, if◌then◌else◌, take,
  drop,
}
use network_ydxlib.Base.Int.{ℤ, ltb_ℤ}
use network_ydxlib.Base.Words.{add_size, sub_size, size_of_int, int_of_size, int_of_bytes}
use network_ydxlib.Buffer.{Buffer, readable_bytes, peek, retrieve}
use network_ydxlib.Stream.{Stream, int_size, write_buffer, read_buffer}

-- `msg_count` is a `uint32_t`; `notified` counts the calls of `cond_.notify()`.
pub record Receiver : Type 0 where
  pub ring : Stream
  pub msg_count : ℕ
  pub notified : ℕ

-- The int at the front of the readable bytes. Where there are not four of them, it takes what follows
-- in the array.
unfoldable pub message_len : Buffer → ℤ
message_len b = int_of_bytes (peek b int_size)

-- One message goes to the ring and is counted.
unfoldable pub take_message : Receiver → Buffer → ℤ → Receiver
take_message r b len = record {
  ring =
      (write_buffer r.ring
        (some (take (size_of_int len) (drop (b.reader_index + int_size) b.bytes))) len).1;
  msg_count = (r.msg_count + 1) % 2 ^ 32;
  notified = if r.msg_count == 0 then r.notified + 1 else r.notified;
}

-- The loop of `onMessage`, on fuel.
unfoldable pub on_message_loop : ℕ → Receiver → Buffer → Option (Receiver × Buffer)
unfolding message_len take_message
on_message_loop zero r b = none
on_message_loop (suc k) r b =
    let len = message_len b in
    let rest =
      on_message_loop k (take_message r b len) (retrieve b (add_size int_size (size_of_int len))) in
    if readable_bytes b == 0
    then some (r, b)
    else if ltb_ℤ (int_of_size (sub_size (readable_bytes b) int_size)) len
    then some (r, b)
    else rest

-- A message takes at least its length's four bytes.
unfoldable pub on_message : Receiver → Buffer → Option (Receiver × Buffer)
on_message r b = on_message_loop (suc (readable_bytes b)) r b

-- `receive`, once the wait for a message is over.
unfoldable pub receive : Receiver → (buf : Bool) → Bool × List ℕ × ℤ × Receiver
receive r buf =
    let (ok, xs, len, s) = read_buffer r.ring buf in
    (
      ok,
      xs,
      len,
      record r {
        ring = s;
        msg_count = if ok then (r.msg_count + 2 ^ 32 - 1) % 2 ^ 32 else r.msg_count;
      },
    )

-- The receiver, the calls of `receive` that are in `cond_.wait()`, and those that are past it and
-- have not got the lock back yet.
pub record Waiting : Type 0 where
  pub receiver : Receiver
  pub asleep : ℕ
  pub woken : ℕ

-- `cond_.notify()`, and any other end of a wait.
unfoldable pub wake_one : Waiting → Waiting
wake_one w = record w {
  asleep = w.asleep - 1;
  woken = if w.asleep == 0 then w.woken else w.woken + 1;
}

-- A round of `onMessage`'s loop, with what its `notify` does.
unfoldable pub arrive : Waiting → Buffer → Waiting
unfolding wake_one message_len take_message
arrive w b =
    let t : Waiting = record w { receiver = take_message w.receiver b (message_len b) } in
    if w.receiver.msg_count == 0 then wake_one t else t

unfoldable pub take_one : Waiting → Waiting
unfolding receive
take_one w = record w { receiver = (receive w.receiver true).3 }

-- A call of `receive`, as far as its wait if it waits.
unfoldable pub enter : Waiting → Waiting
unfolding take_one
enter w = if w.receiver.msg_count == 0 then record w { asleep = w.asleep + 1 } else take_one w

-- What follows the wait.
unfoldable pub resume : Waiting → Waiting
unfolding take_one
resume w = record (take_one w) { woken = w.woken - 1 }
