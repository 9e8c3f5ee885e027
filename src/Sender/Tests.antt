-- ===== src/Sender/Tests.antt =====
-- Sender at concrete states.
use network_ydxlib.Base.{
  length, ◌++◌, subst, ◌≤◌, ℕ, ◌≡◌, refl, ap, ◌∙◌, some, [], ◌∷◌, List, arith, true,
}
use network_ydxlib.Base.Int.{pos}
use network_ydxlib.Base.Words.{int_bytes, int_of_bytes}
use network_ydxlib.Buffer.{Buffer, readable_bytes}
use network_ydxlib.Stream.{
  Stream, write_buffer, unused, used, copy_in_must, advance_in, copy_in, to_end, read_buffer,
  has_read, copy_out_must, copy_out, peek_out_must, advance_out,
}
use network_ydxlib.Stream.Inv.{contents}
use network_ydxlib.Channel.{channel, is_writing, added}
use network_ydxlib.Connection.{Connection, connected, wrote, send, send_direct}
use network_ydxlib.Connection.Stream.{IsSound}
use network_ydxlib.Receiver.{Receiver, on_message}
use network_ydxlib.Receiver.Framing.{Received}
use network_ydxlib.Sender
use network_ydxlib.Stream.Message.{frames, length-frame}
use network_ydxlib.Sender.Wait.{Reach, here, next, tests, begins, heads, bodies, asleep-uncounted}
use network_ydxlib.Sender.{
  Running, polling, asleep, reading, ready, counting, heading, bodying, put_head, put_body, wait,
  count, Sender, round, after_read, send_both, send_body, counted_off, send_message,
}
use network_ydxlib.Sender.Pipe.{send_message-Received}

abbrev block : List ℕ
block = 0 ∷ 0 ∷ 0 ∷ 0 ∷ 0 ∷ 0 ∷ 0 ∷ 0 ∷ 0 ∷ 0 ∷ []

abbrev empty : Stream
empty = record { in_off = 0; out_off = 0; size = 9; bytes = block }

abbrev sender : Sender
sender = record { ring = empty; msg_count = 0; notified = 0 }

-- The message 7, 8 is on the ring.
abbrev full : Sender
full = record {
  ring = record {
    in_off = 6;
    out_off = 0;
    size = 9;
    bytes = 2 ∷ 0 ∷ 0 ∷ 0 ∷ 7 ∷ 8 ∷ 0 ∷ 0 ∷ 0 ∷ 0 ∷ [];
  };
  msg_count = 2;
  notified = 1;
}

sender-full : (send_message (some (7 ∷ 8 ∷ [])) (pos 2) sender).1 ≡ full
unfolding send_message write_buffer unused used copy_in_must advance_in copy_in to_end int_bytes
sender-full = refl

abbrev none_kept : Buffer
none_kept = record { bytes = 0 ∷ 0 ∷ 0 ∷ 0 ∷ []; reader_index = 0; writer_index = 0 }

abbrev up : Connection
up = record {
  state = connected;
  poller = record { channels = (7, 100) ∷ []; calls = [] };
  address = 100;
  chan = record (channel 7) { index = added };
  input = none_kept;
  output = none_kept;
  accepted = 1 ∷ [];
  effects = [];
  posted = 0;
}

-- Once the length is written, and once the message is.
abbrev halfway : Connection
halfway = record up { accepted = 1 ∷ 2 ∷ 0 ∷ 0 ∷ 0 ∷ [] }

abbrev done : Connection
done = record up { accepted = 1 ∷ 2 ∷ 0 ∷ 0 ∷ 0 ∷ 7 ∷ 8 ∷ [] }

up-IsSound : IsSound up
unfolding is_writing readable_bytes
up-IsSound = ground arith

first : send up (int_bytes (pos 2)) (wrote 4) ≡ some halfway
unfolding send send_direct int_bytes readable_bytes is_writing
first = refl

abbrev receiver : Receiver
receiver = record { ring = empty; msg_count = 0; notified = 0 }

abbrev arrived : Buffer
arrived = record { bytes = 0 ∷ 2 ∷ 0 ∷ 0 ∷ 0 ∷ 7 ∷ 8 ∷ 0 ∷ []; reader_index = 1; writer_index = 7 }

-- The ring once the message has been read.
abbrev over : Sender
over = record full { ring = record full.ring { out_off = 6 }; msg_count = 1 }

second : round true (some up) (wrote 4) (wrote 2) full ≡ some (over, some done)
unfolding round after_read send_both send_body counted_off Sender.connected send send_direct
    int_bytes readable_bytes is_writing read_buffer has_read copy_out_must copy_out peek_out_must
    used to_end advance_out int_of_bytes
second = refl

whole :
    round true (some up) (wrote 4) (wrote 2) (send_message (some (7 ∷ 8 ∷ [])) (pos 2) sender).1
    ≡ some (over, some done)
whole = ap (round true (some up) (wrote 4) (wrote 2)) sender-full ∙ second

in_front : used (write_buffer sender.ring (some (7 ∷ 8 ∷ [])) (pos 2)).1 ≡ 6
unfolding write_buffer unused used copy_in_must advance_in copy_in to_end int_bytes
in_front = refl

send_message-Received_example :
    (contents over.ring ≡ [])
    × (over.msg_count ≡ 1)
    × ((r : Receiver) × (b : Buffer) × (on_message receiver arrived ≡ some (r, b))
        × Received receiver ((7 ∷ 8 ∷ []) ∷ []) [] r b)
unfolding int_bytes
send_message-Received_example =
    send_message-Received sender over up halfway done (7 ∷ 8 ∷ []) 4 2 receiver arrived
      (omega arith) refl (omega arith) (omega (arith, in_front)) (omega arith) (omega arith)
      up-IsSound (omega arith) (omega arith) (omega arith) first (omega arith) whole (omega arith)
      refl (omega arith) (omega arith) (omega arith)

abbrev waiting : Running
waiting = record { sender = sender; phase = polling; writer = ready; written = 0 }

abbrev begun : Running
begun = record waiting { phase = asleep; writer = heading (7 ∷ 8 ∷ []) }

-- The length is on the ring.
abbrev half : Running
half = record {
  sender = record sender {
    ring = record empty { in_off = 4; bytes = 2 ∷ 0 ∷ 0 ∷ 0 ∷ 0 ∷ 0 ∷ 0 ∷ 0 ∷ 0 ∷ 0 ∷ [] };
  };
  phase = asleep;
  writer = bodying (7 ∷ 8 ∷ []) 4;
  written = 0;
}

-- The loop is in its wait, and a call of `send` has put the message 7, 8 on the ring.
abbrev written : Running
written = record {
  sender = record sender { ring = full.ring };
  phase = asleep;
  writer = counting;
  written = 1;
}

begun-half : put_head (7 ∷ 8 ∷ []) begun ≡ half
unfolding put_head unused used copy_in_must advance_in copy_in to_end int_bytes
begun-half = refl

half-written : put_body (7 ∷ 8 ∷ []) 4 half ≡ written
unfolding put_body unused used copy_in_must advance_in copy_in to_end
half-written = refl

waiting-Reach : Reach waiting written
unfolding wait
waiting-Reach = subst (Reach waiting) half-written (
    next
      (subst (Reach waiting) begun-half (
        next
          (next (next here (tests refl)) (
            begins (7 ∷ 8 ∷ []) refl (omega arith) (omega arith)
              (omega (arith, length-frame (7 ∷ 8 ∷ [])))))
          (heads (7 ∷ 8 ∷ []) refl)))
      (bodies (7 ∷ 8 ∷ []) 4 refl))

asleep-uncounted_example :
    (messages : List (List ℕ)) × (contents written.sender.ring ≡ frames messages ++ [])
    × (length messages ≤ 1)
    × ((count written).phase ≡ reading)
asleep-uncounted_example =
    asleep-uncounted
      (record {
        valid = omega arith;
        small = omega arith;
        nothing = refl;
        zero_count = refl;
        first = refl;
        no_call = refl;
        none_written = refl;
      })
      waiting-Reach refl (omega arith)
