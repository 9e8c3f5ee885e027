-- ===== src/Sender/Pipe.antt =====
-- Sender and Receiver: a message that a thread puts on the sender's ring is a message on the ring of
-- the receiver at the other end.
use network_ydxlib.Base.{
  ℕ, ◌+◌, ◌^◌, ◌≤◌, ◌<◌, ◌≡◌, sym, ap, ◌∙◌, true, some, List, [], ◌∷◌, ◌++◌, append-nil, arith,
  length, drop, refl, some-inj, if◌then◌else◌, ◌==◌, subst,
}
use network_ydxlib.Base.Int.{pos}
use network_ydxlib.Base.Slices.{drop-append_self}
use network_ydxlib.Base.Words.{int_bytes}
use network_ydxlib.Buffer
use network_ydxlib.Buffer.{Buffer}
use network_ydxlib.Buffer.Inv
use network_ydxlib.Stream.{write_buffer, used}
use network_ydxlib.Stream.Inv.{IsValid, contents}
use network_ydxlib.Stream.Message.{frame, length-frame, contents-write_buffer}
use network_ydxlib.Connection.{Connection, wrote, send}
use network_ydxlib.Connection.Stream.{IsSound, stream}
use network_ydxlib.Receiver.{Receiver, on_message}
use network_ydxlib.Receiver.Framing.{Received, nothing, on_message-Received}
use network_ydxlib.Sender.{Sender, send_message, counted, round, decrement}
use network_ydxlib.Sender.Round.{round_lem}

counted_lem :
    (s : Sender)
    → s.msg_count < 2 ^ 32
    → ((counted s).ring ≡ s.ring)
      × (decrement (counted s).msg_count ≡ (if s.msg_count == 0 then 1 else s.msg_count))
unfolding counted
counted_lem s h = ground arith

accepted-message :
    (s : Sender) (m : List ℕ)
    → (write_buffer s.ring (some m) (pos (length m))).0 ≡ true
    → (send_message (some m) (pos (length m)) s).1
      ≡ counted (record s { ring = (write_buffer s.ring (some m) (pos (length m))).1 })
unfolding send_message
accepted-message s m e = rw e refl

-- Let the sender's ring be empty and have room for the message with its length, of at most 8192
-- bytes, without going round the ring's end; let a connection be up whose channel waits for room
-- to write exactly while bytes are kept, and its output buffer stay within an index of 63 bits.
-- Then `send` of the message and a round whose writes fail at nothing leave the ring empty again,
-- with the count at 1 if it was 0, and as it was if not. A receiver that finds in its buffer just
-- the bytes that the connection has taken over since then, and has room on its ring, ends with
-- exactly the message there.
pub send_message-Received :
    (s t : Sender) (c c1 d : Connection) (m : List ℕ) (n1 n2 : ℕ) (r : Receiver) (b : Buffer)
    → IsValid s.ring
    → contents s.ring ≡ []
    → length (frame m) ≤ s.ring.size
    → length (frame m) ≤ used (write_buffer s.ring (some m) (pos (length m))).1
    → length m ≤ 8192
    → s.msg_count < 2 ^ 32
    → IsSound c
    → n1 ≤ 4
    → n2 ≤ length m
    → c.output.writer_index + 4 < 2 ^ 63
    → send c (int_bytes (pos (length m))) (wrote n1) ≡ some c1
    → c1.output.writer_index + length m < 2 ^ 63
    → round true (some c) (wrote n1) (wrote n2) (send_message (some m) (pos (length m)) s).1
      ≡ some (t, some d)
    → Buffer.Inv.IsValid b
    → Buffer.Inv.contents b ≡ drop (length (stream c)) (stream d)
    → IsValid r.ring
    → length (contents r.ring) + length (frame m) ≤ r.ring.size
    → r.msg_count < 2 ^ 32
    → (contents t.ring ≡ [])
      × (t.msg_count ≡ (if s.msg_count == 0 then 1 else s.msg_count))
      × ((r' : Receiver) × (b' : Buffer) × (on_message r b ≡ some (r', b'))
          × Received r (m ∷ []) [] r' b')
send_message-Received s t c c1 d m n1 n2 r b v e room front small cnt sound h1 h2 r1 e1 r2 run bv
      fed rv rr rc =
    let fl = length-frame m in
    let el = ap length e in
    let (done, held, valid) = contents-write_buffer s.ring m v (omega arith) (omega arith) in
    let put : Sender = record s { ring = (write_buffer s.ring (some m) (pos (length m))).1 } in
    let accepted = accepted-message s m done in
    let (kept, count) = counted_lem put cnt in
    let same = ap (λ x. x.ring) accepted ∙ kept in
    let (t', d', run', moved) =
      round_lem (send_message (some m) (pos (length m)) s).1 c c1 m [] n1 n2
        (subst IsValid (sym same) valid) small
        (ap contents same ∙ held ∙ ap (λ x. x ++ frame m) e ∙ sym (append-nil (frame m)))
        (subst (λ x. length (frame m) ≤ used x) (sym same) front) sound h1 h2 r1 e1 r2 in
    let both : (t', some d') ≡ (t, some d) = some-inj (sym run' ∙ run) in
    let gl = ap length (append-nil (frame m)) in
    let th : t' ≡ t = ap (λ x. x.0) both in
    let dh : d' ≡ d = some-inj (ap (λ x. x.1) both) in
    let grown : Buffer.Inv.contents b ≡ frame m ++ [] =
      fed
      ∙ ap (λ x. drop (length (stream c)) x) (ap stream (sym dh) ∙ moved.sent)
      ∙ drop-append_self (stream c) (frame m) (length (stream c)) refl
      ∙ sym (append-nil (frame m)) in
    (
      ap (λ x. contents x.ring) (sym th) ∙ moved.left,
      ap (λ x. x.msg_count) (sym th)
          ∙ moved.count
          ∙ ap (λ x. decrement x.msg_count) accepted
          ∙ count,
      on_message-Received (m ∷ []) r b [] bv rv nothing (omega (arith, ap length grown, gl))
          (grown ∙ sym (append-nil (frame m ++ [])))
          (omega (arith, ap length (append-nil (frame m)))) rc,
    )
