-- ===== src/Receiver/Tests.antt =====
-- Receiver at concrete buffers.
use network_ydxlib.Base.{◌⊎◌, ℕ, List, length, ◌≤◌, ◌≡◌, refl, some, [], ◌∷◌, arith}
use network_ydxlib.Base.Int.{negsuc}
use network_ydxlib.Base.Words.{int_bytes, int_of_bytes}
use network_ydxlib.Buffer
use network_ydxlib.Buffer.{Buffer, readable_bytes, peek}
use network_ydxlib.Buffer.Inv
use network_ydxlib.Stream.{
  Stream, write_buffer, unused, used, copy_in_must, advance_in, copy_in, to_end,
}
use network_ydxlib.Stream.Inv.{contents}
use network_ydxlib.Receiver.Wait.{IsCounted, here, next, enters, asleep-contents}
use network_ydxlib.Receiver.Crowd.{two-lost}
use network_ydxlib.Receiver.{
  take_message, wake_one, Waiting, enter, arrive, resume, Receiver, message_len, on_message,
}
use network_ydxlib.Stream.Message.{frames}
use network_ydxlib.Receiver.Framing.{IsPartial, cut, Received, on_message-Received}

abbrev ring : Stream
ring = record {
  in_off = 3;
  out_off = 3;
  size = 12;
  bytes = 0 ∷ 0 ∷ 0 ∷ 0 ∷ 0 ∷ 0 ∷ 0 ∷ 0 ∷ 0 ∷ 0 ∷ 0 ∷ 0 ∷ 0 ∷ [];
}

abbrev receiver : Receiver
receiver = record { ring = ring; msg_count = 1; notified = 1 }

-- The message 7, 8, and the first byte of a message of three.
abbrev input : Buffer
input = record {
  bytes = 0 ∷ 2 ∷ 0 ∷ 0 ∷ 0 ∷ 7 ∷ 8 ∷ 3 ∷ 0 ∷ 0 ∷ 0 ∷ 9 ∷ 0 ∷ [];
  reader_index = 1;
  writer_index = 12;
}

input-contents : Buffer.Inv.contents input ≡ 2 ∷ 0 ∷ 0 ∷ 0 ∷ 7 ∷ 8 ∷ 3 ∷ 0 ∷ 0 ∷ 0 ∷ 9 ∷ []
input-contents = refl

two : frames ((7 ∷ 8 ∷ []) ∷ []) ≡ 2 ∷ 0 ∷ 0 ∷ 0 ∷ 7 ∷ 8 ∷ []
unfolding int_bytes
two = refl

three-IsPartial : IsPartial (3 ∷ 0 ∷ 0 ∷ 0 ∷ 9 ∷ [])
unfolding int_bytes
three-IsPartial = cut 3 (9 ∷ []) (omega arith) (omega arith)

on_message-Received_example :
    (r : Receiver) × (b : Buffer) × (on_message receiver input ≡ some (r, b))
    × Received receiver ((7 ∷ 8 ∷ []) ∷ []) (3 ∷ 0 ∷ 0 ∷ 0 ∷ 9 ∷ []) r b
unfolding int_bytes
on_message-Received_example =
    on_message-Received ((7 ∷ 8 ∷ []) ∷ []) receiver input (3 ∷ 0 ∷ 0 ∷ 0 ∷ 9 ∷ []) (omega arith)
      (omega arith) three-IsPartial (omega arith) refl (omega arith) (omega arith)

abbrev bad : Buffer
bad = record { bytes = 252 ∷ 255 ∷ 255 ∷ 255 ∷ 1 ∷ []; reader_index = 0; writer_index = 5 }

bad-message_len : message_len bad ≡ negsuc 3
unfolding message_len int_of_bytes peek
bad-message_len = refl

bad-readable : readable_bytes bad ≡ 5
unfolding readable_bytes
bad-readable = refl

-- Nothing on the ring, and a thread that calls `receive`.
abbrev idle : Waiting
idle = record {
  receiver = record { ring = ring; msg_count = 0; notified = 0 };
  asleep = 0;
  woken = 0;
}

idle-IsCounted : IsCounted idle.receiver
idle-IsCounted = record {
  messages = [];
  valid = omega arith;
  small = omega arith;
  on_ring = refl;
  count = refl;
}

asleep-contents_example :
    (messages : List (List ℕ)) × (contents (enter idle).receiver.ring ≡ frames messages)
    × ((enter idle).receiver.msg_count ≡ length messages)
    × (((enter idle).asleep ≡ 0)
        ⊎ (((enter idle).asleep ≡ 1) × (contents (enter idle).receiver.ring ≡ [])))
asleep-contents_example =
    asleep-contents idle-IsCounted (record { one = omega arith; waits = λ h. refl })
      (next here (enters (omega arith)))

abbrev couple : Waiting
couple = record idle { asleep = 2 }

-- The message 7, 8, and the message 3.
abbrev one_in : Buffer
one_in = record { bytes = 2 ∷ 0 ∷ 0 ∷ 0 ∷ 7 ∷ 8 ∷ []; reader_index = 0; writer_index = 6 }

abbrev two_in : Buffer
two_in = record { bytes = 1 ∷ 0 ∷ 0 ∷ 0 ∷ 3 ∷ []; reader_index = 0; writer_index = 5 }

half :
    let r = (arrive couple one_in).receiver in (length (contents r.ring) ≡ 6) × (r.ring.size ≡ 12)
unfolding arrive wake_one take_message message_len int_of_bytes peek write_buffer unused used
    copy_in_must advance_in copy_in to_end int_bytes
half = (refl, refl)

two-lost_example :
    let t = resume (arrive (arrive couple one_in) two_in) in
    (t.asleep ≡ 1)
    × (t.woken ≡ 0)
    × ((messages : List (List ℕ)) × (contents t.receiver.ring ≡ frames messages)
        × (1 ≤ length messages))
unfolding int_bytes
two-lost_example =
    two-lost couple one_in two_in (7 ∷ 8 ∷ []) (3 ∷ []) [] [] refl refl idle-IsCounted refl
      (omega arith) refl (omega arith) refl (omega arith) (omega (arith, half))
