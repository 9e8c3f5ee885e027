-- ===== src/Receiver/Wait.antt =====
-- Receiver: the thread of `onMessage`, and the threads that wait in `receive`.
use network_ydxlib.Base.{
  ℕ, ◌+◌, ◌*◌, ◌%◌, ◌^◌, ◌≤◌, ◌<◌, ◌≡◌, refl, sym, ap, ◌∙◌, true, some, Bool-cases, ◌⊎◌, inl, inr,
  List, [], ◌∷◌, ◌++◌, arith, length, subst, ◌==◌, if◌then◌else◌, length-append, append_assoc,
}
use network_ydxlib.Base.Int.{pos}
use network_ydxlib.Base.Words.{int_bytes}
use network_ydxlib.Buffer
use network_ydxlib.Buffer.{Buffer}
use network_ydxlib.Buffer.Inv
use network_ydxlib.Stream.{write_buffer}
use network_ydxlib.Stream.Inv.{IsValid, contents}
use network_ydxlib.Stream.Message.{
  frame, frames, length-frame, frames-append_one, contents-write_buffer,
}
use network_ydxlib.Stream.Front.{got, left, read_buffer-Front, read_buffer-size, length-contents}
use network_ydxlib.Receiver.{
  Receiver, Waiting, message_len, take_message, receive, wake_one, arrive, take_one, enter, resume,
}
use network_ydxlib.Receiver.Front.{write_buffer-size, message_len-frame, body-frame}

-- One step of the threads, of which `n` call `receive`. `arrives` is a whole message in the buffer that has
-- room on the ring; `wakes` is an end of a wait that no `notify` caused.
pub data Step (n : ℕ) : Waiting → Waiting → Type 0 where
  arrives :
      {w : Waiting} (b : Buffer) (m more : List ℕ)
      → Buffer.Inv.IsValid b
      → Buffer.Inv.contents b ≡ frame m ++ more
      → length (contents w.receiver.ring) + length (frame m) ≤ w.receiver.ring.size
      → Step n w (arrive w b)
  enters : {w : Waiting} → w.asleep + w.woken < n → Step n w (enter w)
  wakes : {w : Waiting} → 0 < w.asleep → Step n w (wake_one w)
  resumes : {w : Waiting} → 0 < w.woken → Step n w (resume w)

pub data Reach (n : ℕ) (p : Waiting) : Waiting → Type 0 where
  here : Reach n p p
  next : {q r : Waiting} → Reach n p q → Step n q r → Reach n p r

-- The count is the number of the ring's messages.
pub record IsCounted (r : Receiver) : Type 0 where
  pub messages : List (List ℕ)
  pub valid : IsValid r.ring
  pub small : r.ring.size < 2 ^ 31
  pub on_ring : contents r.ring ≡ frames messages
  pub count : r.msg_count ≡ length messages

-- The receiver once it has taken `m`.
abbrev taken : Receiver → List ℕ → Receiver
taken r m = record {
  ring = (write_buffer r.ring (some m) (pos (length m))).1;
  msg_count = (r.msg_count + 1) % 2 ^ 32;
  notified = if r.msg_count == 0 then r.notified + 1 else r.notified;
}

take_message-taken :
    (r : Receiver) (b : Buffer) (m more : List ℕ)
    → Buffer.Inv.IsValid b
    → length m < 2 ^ 31
    → Buffer.Inv.contents b ≡ frame m ++ more
    → take_message r b (message_len b) ≡ taken r m
unfolding take_message
take_message-taken r b m more v small e =
    let len =
      message_len-frame b (length m) (m ++ more) v small
        (e ∙ append_assoc (int_bytes (pos (length m))) m more) in
    let fits : length m % 2 ^ 64 ≡ length m = omega arith in
    rw (len, fits, body-frame b m more v e) refl

frames-longer : (ms : List (List ℕ)) → 4 * length ms ≤ length (frames ms)
frames-longer [] = omega arith
frames-longer (m ∷ ms) =
    omega (arith, frames-longer ms, length-append (frame m) (frames ms), length-frame m)

taken-IsCounted :
    (r : Receiver) (m : List ℕ)
    → IsCounted r
    → length (contents r.ring) + length (frame m) ≤ r.ring.size
    → IsCounted (taken r m)
taken-IsCounted r m c room =
    let (_, held, valid) =
      contents-write_buffer r.ring m c.valid (omega (arith, c.small, length-frame m)) room in
    record {
      messages = c.messages ++ (m ∷ []);
      valid = valid;
      small = omega (arith, c.small, write_buffer-size r.ring (some m) (pos (length m)));
      on_ring = held ∙ ap (λ x. x ++ frame m) c.on_ring ∙ sym (frames-append_one c.messages m);
      count = omega (
        arith,
        c.count,
        length-append c.messages (m ∷ []),
        frames-longer c.messages,
        ap length c.on_ring,
        room,
        c.small,
      );
    }

take_one-IsCounted : (r : Receiver) → IsCounted r → IsCounted (receive r true).3
unfolding receive
take_one-IsCounted r c = elim (read_buffer-Front r.ring c.messages c.valid c.small c.on_ring) [
  | got m rest ring shape read rests valid ↦ rw read (record {
    messages = rest;
    valid = valid;
    small = omega (arith, ap (λ x. x.3.size) (sym read), read_buffer-size r.ring, c.small);
    on_ring = rests;
    count = omega (
      arith,
      c.count,
      ap length shape,
      frames-longer c.messages,
      ap length c.on_ring,
      length-contents r.ring c.valid,
      c.small,
    );
  })
  | left read ↦ rw read c
]

pub receiver-arrive :
    (w : Waiting) (b : Buffer) → (arrive w b).receiver ≡ take_message w.receiver b (message_len b)
unfolding arrive wake_one
receiver-arrive w b = ground arith

Step-IsCounted : {n : ℕ} {p q : Waiting} → IsCounted p.receiver → Step n p q → IsCounted q.receiver
unfolding take_one wake_one enter resume
Step-IsCounted {n} {p} c (arrives b m more v e room) =
    subst IsCounted
      (sym (
        receiver-arrive p b
        ∙ take_message-taken p.receiver b m more v (omega (arith, c.small, length-frame m)) e))
      (taken-IsCounted p.receiver m c room)
Step-IsCounted {n} {p} c (enters h) = elim (Bool-cases (p.receiver.msg_count == 0)) [
  | inl z ↦ rw z c
  | inr z ↦ rw z (take_one-IsCounted p.receiver c)
]
Step-IsCounted c (wakes h) = c
Step-IsCounted {n} {p} c (resumes h) = take_one-IsCounted p.receiver c

-- What one thread that waits says of the count.
pub record IsHeard (w : Waiting) : Type 0 where
  pub one : w.asleep + w.woken ≤ 1
  pub waits : w.asleep ≡ 1 → w.receiver.msg_count ≡ 0

Step-IsHeard : {p q : Waiting} → IsHeard p → Step 1 p q → IsHeard q
unfolding take_one wake_one enter resume arrive
Step-IsHeard {p} c (arrives b m more v e room) = ground (arith, c.one, c.waits)
Step-IsHeard {p} c (enters h) = ground (arith, h)
Step-IsHeard {p} c (wakes h) = ground (arith, c.one, c.waits)
Step-IsHeard {p} c (resumes h) = ground (arith, c.one, c.waits)

pub Reach-IsCounted :
    {n : ℕ} {p q : Waiting} → IsCounted p.receiver → Reach n p q → IsCounted q.receiver
Reach-IsCounted c here = c
Reach-IsCounted c (next r s) = Step-IsCounted (Reach-IsCounted c r) s

Reach-IsHeard : {p q : Waiting} → IsHeard p → Reach 1 p q → IsHeard q
Reach-IsHeard c here = c
Reach-IsHeard c (next r s) = Step-IsHeard (Reach-IsHeard c r) s

none_left : (ms : List (List ℕ)) → length ms ≡ 0 → ms ≡ []
none_left [] e = refl
none_left (m ∷ ms) e = absurd (omega (arith, e))

-- Let the ring, of less than 2^31 bytes, hold whole messages, as many as the count says, and let one
-- thread call `receive`, which waits only where the count is 0. Then however whole messages that
-- have room on the ring come in, and whatever ends a wait, the count stays the number of messages
-- on the ring; and whenever the thread is in its wait, the ring holds nothing.
pub asleep-contents :
    {p q : Waiting}
    → IsCounted p.receiver
    → IsHeard p
    → Reach 1 p q
    → (messages : List (List ℕ)) × (contents q.receiver.ring ≡ frames messages)
      × (q.receiver.msg_count ≡ length messages)
      × ((q.asleep ≡ 0) ⊎ ((q.asleep ≡ 1) × (contents q.receiver.ring ≡ [])))
asleep-contents {q = q} c h r =
    let d = Reach-IsCounted c r in
    let e = Reach-IsHeard h r in
    let rest : (q.asleep ≡ 0) ⊎ ((q.asleep ≡ 1) × (contents q.receiver.ring ≡ [])) =
      elim (Bool-cases (q.asleep == 0)) [
        | inl z ↦ inl (ground (arith, z))
        | inr z ↦
            let a : q.asleep ≡ 1 = ground (arith, z, e.one) in
            inr
              (a, d.on_ring ∙ ap frames (none_left d.messages (omega (arith, d.count, e.waits a))))
      ] in
    (d.messages, d.on_ring, d.count, rest)
