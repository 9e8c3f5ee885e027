-- ===== src/Sender/Round.antt =====
-- Sender: what a round of its loop does with the message at the front of the ring.
use network_ydxlib.Base.{
  ℕ, ◌+◌, ◌^◌, ◌≤◌, ◌<◌, ◌≡◌, sym, ap, ◌∙◌, true, false, Option, some, List, ◌++◌, append_assoc,
  arith, length, subst, refl, some-inj,
}
use network_ydxlib.Base.Int.{pos}
use network_ydxlib.Base.Words.{int_bytes, length-int_bytes}
use network_ydxlib.Stream.{used}
use network_ydxlib.Stream.Inv.{IsValid, contents}
use network_ydxlib.Stream.Message.{frame, contents-read_buffer}
use network_ydxlib.Connection.{Connection, Write, wrote, send}
use network_ydxlib.Connection.Stream.{taken, IsSound, stream, send_lem}
use network_ydxlib.Sender.{
  Sender, decrement, counted_off, send_body, send_both, connected, after_read, round,
}

-- A message that both calls of `send` take whole.
send_both-of :
    (m : List ℕ) (w1 w2 : Write) (s : Sender) (c c1 c2 : Connection)
    → send c (int_bytes (pos (length m))) w1 ≡ some c1
    → send c1 m w2 ≡ some c2
    → connected (send_both m (pos (length m)) w1 w2 s (some c))
      ≡ some (record s { msg_count = decrement s.msg_count }, some c2)
unfolding send_both send_body counted_off connected
send_both-of m w1 w2 s c c1 c2 e1 e2 =
    ap (λ x. connected (send_body m w2 s x)) e1 ∙ ap (λ x. connected (counted_off s x)) e2

-- The message has gone from the ring to the connection.
pub record Moved (s t : Sender) (c d : Connection) (m rest : List ℕ) : Type 0 where
  pub sent : stream d ≡ stream c ++ frame m
  pub sound : IsSound d
  pub left : contents t.ring ≡ rest
  pub valid : IsValid t.ring
  pub count : t.msg_count ≡ decrement s.msg_count

-- With a connection up whose channel waits for room to write exactly while bytes are kept, and a
-- message of at most 8192 bytes whole at the front of the ring, a round whose writes fail at
-- nothing takes the message off the ring, counts it off, and makes the connection's bytes longer
-- by the length and the message, exactly what the ring held of it. The buffers of the connection
-- must stay within an index of 63 bits.
pub round_lem :
    (s : Sender) (c c1 : Connection) (m rest : List ℕ) (n1 n2 : ℕ)
    → IsValid s.ring
    → length m ≤ 8192
    → contents s.ring ≡ frame m ++ rest
    → length (frame m) ≤ used s.ring
    → IsSound c
    → n1 ≤ 4
    → n2 ≤ length m
    → c.output.writer_index + 4 < 2 ^ 63
    → send c (int_bytes (pos (length m))) (wrote n1) ≡ some c1
    → c1.output.writer_index + length m < 2 ^ 63
    → (t : Sender) × (d : Connection) × (round true (some c) (wrote n1) (wrote n2) s
        ≡ some (t, some d))
      × Moved s t c d m rest
unfolding round after_read taken
round_lem s c c1 m rest n1 n2 v small e room sound h1 h2 r1 e1 r2 =
    let (ring, got, left, valid) = contents-read_buffer s.ring m rest v (omega arith) e room in
    let s' : Sender = record s { ring = ring } in
    let (c', done, bytes, sound1) =
      send_lem c (int_bytes (pos (length m))) (wrote n1) sound
        (omega (arith, length-int_bytes (pos (length m))))
        (omega (arith, h1, length-int_bytes (pos (length m)))) in
    let same : c' ≡ c1 = some-inj (sym done ∙ e1) in
    let (d, done2, bytes2, sound2) = send_lem c1 m (wrote n2) (subst IsSound same sound1) r2 h2 in
    (
      record s' { msg_count = decrement s.msg_count },
      d,
      ap (after_read true (some c) (wrote n1) (wrote n2) s) got
          ∙ send_both-of m (wrote n1) (wrote n2) s' c c1 d e1 done2,
      record {
        sent =
            bytes2
            ∙ ap (λ x. x ++ m) (ap stream (sym same) ∙ bytes)
            ∙ append_assoc (stream c) (int_bytes (pos (length m))) m;
        sound = sound2;
        left = left;
        valid = valid;
        count = refl;
      },
    )

-- Without a connection up, a message of at most 8192 bytes at the front of a valid ring, where
-- `used` counts it in full, is read and lost: it is neither sent nor counted off.
pub round-lost :
    (s : Sender) (c : Option Connection) (m rest : List ℕ) (w1 w2 : Write)
    → IsValid s.ring
    → length m ≤ 8192
    → contents s.ring ≡ frame m ++ rest
    → length (frame m) ≤ used s.ring
    → (t : Sender) × (round false c w1 w2 s ≡ some (t, c))
      × (contents t.ring ≡ rest)
      × (t.msg_count ≡ s.msg_count)
unfolding round after_read
round-lost s c m rest w1 w2 v small e room =
    let (ring, got, left, valid) = contents-read_buffer s.ring m rest v (omega arith) e room in
    (record s { ring = ring }, ap (after_read false c w1 w2 s) got, left, refl)
