-- ===== src/Sender/Putting.antt =====
-- Sender: the steps of a call of `send` keep the ring and the count in step.
use network_ydxlib.Base.{
  ℕ, ◌+◌, ◌%◌, ◌^◌, ◌≤◌, ◌<◌, ◌≡◌, sym, ap, ◌∙◌, subst, Bool-cases, inl, inr, List, [], ◌∷◌, ◌++◌,
  arith, length, ◌==◌, append_assoc, append-nil, length-append, some, true,
}
use network_ydxlib.Base.Int.{pos}
use network_ydxlib.Base.Words.{int_bytes, length-int_bytes, add_size, size_of_int}
use network_ydxlib.Stream.{Stream, used, int_size, copy_in_must}
use network_ydxlib.Stream.Inv.{IsValid, contents, used-contents}
use network_ydxlib.Stream.Message.{frame, frames, frames-append_one, length-frame}
use network_ydxlib.Sender.{
  Running, ready, heading, bodying, counting, count, counted, put_head, put_body,
}
use network_ydxlib.Stream.Ring.{contents-copy_in_must}
use network_ydxlib.Receiver.Front.{copy_in_must-size}
use network_ydxlib.Sender.Counted.{
  IsRunning, Room, Reading, part, pending, wake-asleep, wake-taken, Reading-wake, Reading-grows,
}

-- A call of `send` begins, and finds room.
pub begins-IsRunning :
    (r : Running) (m : List ℕ)
    → IsRunning r
    → r.writer ≡ ready
    → 0 < length m
    → length (contents r.sender.ring) + length (frame m) ≤ r.sender.ring.size
    → IsRunning (record r { writer = heading m })
begins-IsRunning r m c e some_there room = record {
  messages = c.messages;
  front = c.front;
  added = c.added;
  gone = c.gone;
  valid = c.valid;
  small = c.small;
  on_ring = c.on_ring ∙ ap (λ w. c.front ++ (frames c.messages ++ part w)) e;
  reads = c.reads;
  room = (some_there, room);
  pattern = c.pattern;
  word = c.word;
  kept = c.kept;
  enough = omega (arith, c.enough, ap pending e);
  bounded = omega (arith, c.bounded, ap pending e);
  waiting = c.waiting;
}

-- `copy_in_must` of bytes that have room.
abbrev Taken : Stream → List ℕ → ℕ → Type 0
Taken s xs n =
    let (k, t) = copy_in_must s (some xs) n in
    (k ≡ n) × (contents t ≡ contents s ++ xs) × IsValid t × (t.size ≡ s.size) × (used s ≤ used t)

used-grows :
    (s t : Stream) (xs : List ℕ)
    → IsValid s
    → IsValid t
    → 0 < length xs
    → contents t ≡ contents s ++ xs
    → used s ≤ used t
used-grows s t xs v tv h e =
    ground
      (arith, used-contents s v, used-contents t tv, ap length e, length-append (contents s) xs)

copy_in_must-Taken :
    (s : Stream) (xs : List ℕ) (n : ℕ)
    → length xs ≡ n
    → 0 < n
    → IsValid s
    → length (contents s) + n ≤ s.size
    → Taken s xs n
copy_in_must-Taken s xs n e pos_n v h =
    let (k, held, valid) = contents-copy_in_must s xs v (omega (arith, e, h)) in
    let t : Stream = (copy_in_must s (some xs) (length xs)).1 in
    subst (Taken s xs) e (
      k,
      held,
      valid,
      copy_in_must-size s (some xs) (length xs),
      used-grows s t xs v valid (omega (arith, e, pos_n)) held,
    )

-- Its message's length is on the ring.
pub put_head-IsRunning :
    (r : Running) (m : List ℕ) → IsRunning r → r.writer ≡ heading m → IsRunning (put_head m r)
unfolding put_head
put_head-IsRunning r m c e =
    let (some_there, room) = subst (λ w. Room w r.sender.ring) e c.room in
    let bytes : List ℕ = int_bytes (pos (length m)) in
    let four = length-int_bytes (pos (length m)) in
    let (inb, held, valid, size, grown) =
      copy_in_must-Taken r.sender.ring bytes int_size four (omega arith) c.valid
        (omega (arith, room, length-frame m)) in
    let before = c.on_ring ∙ ap (λ w. c.front ++ (frames c.messages ++ part w)) e in
    record {
      messages = c.messages;
      front = c.front;
      added = c.added;
      gone = c.gone;
      valid = valid;
      small = omega (arith, c.small, size);
      on_ring =
          held
          ∙ ap (λ x. x ++ bytes) before
          ∙ ap (λ x. (c.front ++ x) ++ bytes) (append-nil (frames c.messages))
          ∙ append_assoc c.front (frames c.messages) bytes;
      reads =
          subst (λ ms. Reading r.phase ms c.front (put_head m r).sender.ring)
            (append-nil c.messages)
            (Reading-grows r.phase c.messages [] c.front r.sender.ring (put_head m r).sender.ring
              grown c.reads);
      room = (
        inb,
        some_there,
        omega (
          arith,
          room,
          length-frame m,
          ap length held,
          length-append (contents r.sender.ring) bytes,
          four,
          size,
        ),
      );
      pattern = c.pattern;
      word = c.word;
      kept = c.kept;
      enough = omega (arith, c.enough, ap pending e);
      bounded = omega (arith, c.bounded, ap pending e);
      waiting = c.waiting;
    }

-- Its message is on the ring.
pub put_body-IsRunning :
    (r : Running) (m : List ℕ) (inb : ℕ)
    → IsRunning r
    → r.writer ≡ bodying m inb
    → IsRunning (put_body m inb r)
unfolding put_body
put_body-IsRunning r m inb c e =
    let (four, some_there, room) = subst (λ w. Room w r.sender.ring) e c.room in
    let n : length m ≡ length m % 2 ^ 64 = omega (arith, room, c.small) in
    let (k, held, valid, size, grown) =
      copy_in_must-Taken r.sender.ring m (length m % 2 ^ 64) n (omega (arith, n, some_there))
        c.valid (omega (arith, room, n)) in
    let before = c.on_ring ∙ ap (λ w. c.front ++ (frames c.messages ++ part w)) e in
    let whole : (add_size int_size (size_of_int (pos (length m)))
          == add_size (size_of_int (pos (length m))) int_size)
        ≡ true =
      ground (arith, room, c.small) in
    rw (k, four, whole)
      (record {
        messages = c.messages ++ (m ∷ []);
        front = c.front;
        added = c.added;
        gone = c.gone;
        valid = valid;
        small = omega (arith, c.small, size);
        on_ring =
            held
            ∙ ap (λ x. x ++ m) before
            ∙ append_assoc c.front (frames c.messages ++ int_bytes (pos (length m))) m
            ∙ ap (λ x. c.front ++ x)
                (append_assoc (frames c.messages) (int_bytes (pos (length m))) m
                  ∙ sym (frames-append_one c.messages m)
                  ∙ sym (append-nil (frames (c.messages ++ (m ∷ [])))));
        reads =
            Reading-grows r.phase c.messages (m ∷ []) c.front r.sender.ring
              (copy_in_must r.sender.ring (some m) (length m % 2 ^ 64)).1 grown c.reads;
        room = tt;
        pattern = c.pattern;
        word = c.word;
        kept = omega (arith, c.kept, length-append c.messages (m ∷ []));
        enough = omega (arith, c.enough, ap pending e);
        bounded = omega (arith, c.bounded, ap pending e);
        waiting = c.waiting;
      })

-- A message is counted.
pub count-IsRunning : (r : Running) → IsRunning r → r.writer ≡ counting → IsRunning (count r)
unfolding count counted
count-IsRunning r c e =
    let whole = c.on_ring ∙ ap (λ w. c.front ++ (frames c.messages ++ part w)) e in
    let one = ap pending e in
    elim (Bool-cases (r.sender.msg_count == 0)) [
      | inl z ↦
          let n0 : r.sender.msg_count ≡ 0 = ground (arith, z) in
          rw z (record {
            messages = c.messages;
            front = c.front;
            added = c.added + 2;
            gone = c.gone;
            valid = c.valid;
            small = c.small;
            on_ring = whole;
            reads = Reading-wake r.phase c.messages c.front r.sender.ring c.reads;
            room = tt;
            pattern = omega (arith, c.pattern, n0);
            word = omega arith;
            kept = omega (arith, c.kept, wake-taken r.phase);
            enough = omega (arith, c.enough, one);
            bounded = omega (arith, c.bounded, one);
            waiting = λ h. absurd (wake-asleep r.phase h);
          })
      | inr z ↦ rw z (record {
        messages = c.messages;
        front = c.front;
        added = c.added + 1;
        gone = c.gone;
        valid = c.valid;
        small = c.small;
        on_ring = whole;
        reads = c.reads;
        room = tt;
        pattern = omega (arith, c.pattern);
        word = omega arith;
        kept = c.kept;
        enough = omega (arith, c.enough, one);
        bounded = omega (arith, c.bounded, one);
        waiting = λ h. absurd (ground (arith, z, c.waiting h));
      })
    ]
