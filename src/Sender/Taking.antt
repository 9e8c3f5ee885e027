-- ===== src/Sender/Taking.antt =====
-- Sender: the steps of the loop keep the ring and the count in step.
use network_ydxlib.Base.{
  ℕ, ◌+◌, ◌≤◌, ◌≡◌, refl, sym, ap, ◌∙◌, subst, List, [], ◌++◌, arith, length, ◌==◌, append_assoc,
  length-append, drop, true,
}
use network_ydxlib.Base.Int.{ℤ, pos}
use network_ydxlib.Base.Words.{int_bytes, length-int_bytes, add_size, size_of_int}
use network_ydxlib.Stream.{Stream, int_size, copy_out_must, advance_out}
use network_ydxlib.Stream.Inv.{contents}
use network_ydxlib.Stream.Message.{frame, frames}
use network_ydxlib.Sender.{
  Running, polling, reading, lowering, skipping, copying, Writer, ready, heading, bodying, counting,
  peek_one, skip_head, copy_body, lower,
}
use network_ydxlib.Base.Slices.{drop-append_self}
use network_ydxlib.Stream.Out.{
  contents-advance_out, contents-copy_out_must, has_read-advance, used-advance_out, used-le,
}
use network_ydxlib.Stream.Front.{length-contents, has_read-size, copy_out_must-size}
use network_ydxlib.Sender.Counted.{IsRunning, Room, Reading, part, taken, at_phase}
use network_ydxlib.Sender.Look.{absent, there, look-Found}

-- The loop looks at the ring.
pub peek_one-IsRunning : (r : Running) → IsRunning r → r.phase ≡ reading → IsRunning (peek_one r)
unfolding peek_one
peek_one-IsRunning r c e =
    let nothing : c.front ≡ [] =
      subst (λ p. Reading p c.messages c.front r.sender.ring) e c.reads in
    elim (look-Found r.sender.ring c.messages r.writer c.valid c.small c.room
      (c.on_ring ∙ ap (λ x. x ++ (frames c.messages ++ part r.writer)) nothing)) [
        | absent seen ↦ rw seen (at_phase polling c (omega arith) nothing (λ h. absurd (cc h)))
        | there m rest shape seen whole ↦ rw seen (
            at_phase (skipping (pos (length m))) c (omega arith)
              (m, rest, shape, refl, whole, nothing) (λ h. absurd (cc h)))
      ]

Room-shrinks :
    (w : Writer) (s t : Stream)
    → t.size ≡ s.size
    → length (contents t) ≤ length (contents s)
    → Room w s
    → Room w t
Room-shrinks ready s t e h r = tt
Room-shrinks (heading m) s t e h (some_there, room) = (some_there, omega (arith, room))
Room-shrinks (bodying m inb) s t e h (four, some_there, room) =
    (four, some_there, omega (arith, room))
Room-shrinks counting s t e h r = tt

-- It takes the length off the ring.
pub skip_head-IsRunning :
    (r : Running) (len : ℤ) → IsRunning r → r.phase ≡ skipping len → IsRunning (skip_head len r)
unfolding skip_head
skip_head-IsRunning r len c e =
    let (m, rest, shape, same, whole, nothing) =
      subst (λ p. Reading p c.messages c.front r.sender.ring) e c.reads in
    let s : Stream = r.sender.ring in
    let t : Stream = advance_out s int_size in
    let bytes : List ℕ = int_bytes (pos (length m)) in
    let tail : List ℕ = frames rest ++ part r.writer in
    let all : contents s ≡ bytes ++ (m ++ tail) =
      c.on_ring
      ∙ ap (λ x. x ++ (frames c.messages ++ part r.writer)) nothing
      ∙ ap (λ ms. frames ms ++ part r.writer) shape
      ∙ append_assoc (frame m) (frames rest) (part r.writer)
      ∙ append_assoc bytes m tail in
    let hl = length-int_bytes (pos (length m)) in
    let (left, valid) =
      contents-advance_out s int_size c.valid (used-le int_size c.valid (omega arith)) in
    let held : contents t ≡ m ++ tail =
      left ∙ ap (drop int_size) all ∙ drop-append_self bytes (m ++ tail) int_size (sym hl) in
    let size : t.size ≡ s.size =
      ap (λ x. x.1.size) (sym (has_read-advance s int_size (omega arith)))
      ∙ has_read-size s int_size in
    rw (has_read-advance s int_size (omega arith)) (record {
      messages = rest;
      front = m;
      added = c.added;
      gone = c.gone;
      valid = valid;
      small = omega (arith, size, c.small);
      on_ring = held;
      reads = (refl, same, omega (arith, whole, used-advance_out s int_size c.valid (omega arith)));
      room =
          Room-shrinks r.writer s t size
            (omega (arith, ap length all, ap length held, length-append bytes (m ++ tail))) c.room;
      pattern = c.pattern;
      word = c.word;
      kept = omega (arith, c.kept, ap length shape);
      enough = c.enough;
      bounded = c.bounded;
      waiting = λ h. absurd (cc h);
    })

-- It takes the message off the ring.
pub copy_body-IsRunning :
    (r : Running) (len : ℤ) (outb : ℕ)
    → IsRunning r
    → r.phase ≡ copying len outb
    → IsRunning (copy_body len outb r)
unfolding copy_body
copy_body-IsRunning r len outb c e =
    let (four, same, whole) = subst (λ p. Reading p c.messages c.front r.sender.ring) e c.reads in
    let s : Stream = r.sender.ring in
    let size_len : size_of_int len ≡ length c.front =
      ap size_of_int same
      ∙ omega (
        arith,
        whole,
        used-le (length c.front) c.valid whole,
        length-contents s c.valid,
        c.small,
      ) in
    let (n, xs, left, valid) = contents-copy_out_must s (length c.front) c.valid whole in
    let t : Stream = (copy_out_must s true (length c.front)).2 in
    let tail : List ℕ = frames c.messages ++ part r.writer in
    let held : contents t ≡ tail =
      left
      ∙ ap (drop (length c.front)) c.on_ring
      ∙ drop-append_self c.front tail (length c.front) refl in
    let size = copy_out_must-size s true (length c.front) in
    let matched : (add_size int_size (length c.front) == add_size (length c.front) int_size)
        ≡ true =
      ground arith in
    rw (size_len, n, four, matched)
      (record {
        messages = c.messages;
        front = [];
        added = c.added;
        gone = c.gone;
        valid = valid;
        small = omega (arith, size, c.small);
        on_ring = held;
        reads = refl;
        room =
            Room-shrinks r.writer s t size
              (omega (arith, ap length c.on_ring, ap length held, length-append c.front tail))
              c.room;
        pattern = c.pattern;
        word = c.word;
        kept = omega (arith, c.kept, ap taken e);
        enough = c.enough;
        bounded = c.bounded;
        waiting = λ h. absurd (cc h);
      })

-- A message that was sent is counted off.
pub lower-IsRunning : (r : Running) → IsRunning r → r.phase ≡ lowering → IsRunning (lower r)
unfolding lower
lower-IsRunning r c e = record {
  messages = c.messages;
  front = c.front;
  added = c.added;
  gone = c.gone + 1;
  valid = c.valid;
  small = c.small;
  on_ring = c.on_ring;
  reads = subst (λ p. Reading p c.messages c.front r.sender.ring) e c.reads;
  room = c.room;
  pattern = omega (arith, c.pattern, c.word);
  word = omega (arith, c.word);
  kept = omega (arith, c.kept, ap taken e);
  enough = c.enough;
  bounded = c.bounded;
  waiting = λ h. absurd (cc h);
}
