-- ===== src/Sender/Wait.antt =====
-- Sender: calls of `send`, and the loop of `thread_start_epoll` that waits for them.
use network_ydxlib.Base.{
  ℕ, ◌+◌, ◌^◌, ◌≤◌, ◌<◌, ◌≡◌, refl, sym, ap, ◌∙◌, some, List, [], ◌++◌, arith, length, subst,
}
use network_ydxlib.Base.Int.{ℤ}
use network_ydxlib.Base.Words.{int_bytes}
use network_ydxlib.Stream.Inv.{IsValid, contents}
use network_ydxlib.Stream.Message.{frame, frames}
use network_ydxlib.Connection.{Connection, Write, send}
use network_ydxlib.Sender.{
  Running, polling, asleep, reading, sending, lowering, ready, heading, bodying, counting, wait,
  wake, count, put_head, put_body, skipping, copying, peek_one, skip_head, copy_body, lower,
}
use network_ydxlib.Sender.Counted.{
  IsRunning, Room, Reading, part, pending, taken, at_phase, wait-asleep, wait-taken, Reading-wait,
}
use network_ydxlib.Sender.Putting.{
  begins-IsRunning, put_head-IsRunning, put_body-IsRunning, count-IsRunning,
}
use network_ydxlib.Sender.Taking.{
  peek_one-IsRunning, skip_head-IsRunning, copy_body-IsRunning, lower-IsRunning,
}

-- One step of the threads. A call of `send` begins when the one before has ended, with a message of at
-- least one byte that the loop's array of 8192 bytes takes and that has room on the ring; `heads` and
-- `bodies` are the two halves of its `write_buffer`, `counts` what it does under the lock. `wakes` is an
-- end of the wait that no `notify` caused; `peeks`, `skips` and `copies` are the parts of the loop's
-- `read_buffer`. The client is not connected in `drops`.
pub data Step : Running → Running → Type 0 where
  begins :
      {r : Running} (m : List ℕ)
      → r.writer ≡ ready
      → 0 < length m
      → length m ≤ 8192
      → length (contents r.sender.ring) + length (frame m) ≤ r.sender.ring.size
      → Step r (record r { writer = heading m })
  heads : {r : Running} (m : List ℕ) → r.writer ≡ heading m → Step r (put_head m r)
  bodies :
      {r : Running} (m : List ℕ) (inb : ℕ) → r.writer ≡ bodying m inb → Step r (put_body m inb r)
  counts : {r : Running} → r.writer ≡ counting → Step r (count r)
  tests : {r : Running} → r.phase ≡ polling → Step r (record r { phase = wait r.sender.msg_count })
  wakes : {r : Running} → r.phase ≡ asleep → Step r (record r { phase = reading })
  peeks : {r : Running} → r.phase ≡ reading → Step r (peek_one r)
  skips : {r : Running} (len : ℤ) → r.phase ≡ skipping len → Step r (skip_head len r)
  copies :
      {r : Running} (len : ℤ) (outb : ℕ)
      → r.phase ≡ copying len outb
      → Step r (copy_body len outb r)
  drops :
      {r : Running} (xs : List ℕ) (len : ℤ)
      → r.phase ≡ sending xs len
      → Step r (record r { phase = polling })
  sends :
      {r : Running} (xs : List ℕ) (len : ℤ) (c c1 c2 : Connection) (w1 w2 : Write)
      → r.phase ≡ sending xs len
      → send c (int_bytes len) w1 ≡ some c1
      → send c1 xs w2 ≡ some c2
      → Step r (record r { phase = lowering })
  lowers : {r : Running} → r.phase ≡ lowering → Step r (lower r)

pub data Reach (p : Running) : Running → Type 0 where
  here : Reach p p
  next : {q r : Running} → Reach p q → Step q r → Reach p r

Step-IsRunning : {q r : Running} → IsRunning q → Step q r → IsRunning r
Step-IsRunning {q} c (begins m e some_there fits room) = begins-IsRunning q m c e some_there room
Step-IsRunning {q} c (heads m e) = put_head-IsRunning q m c e
Step-IsRunning {q} c (bodies m inb e) = put_body-IsRunning q m inb c e
Step-IsRunning {q} c (counts e) = count-IsRunning q c e
Step-IsRunning {q} c (tests e) =
    let n = q.sender.msg_count in
    let nothing = subst (λ p. Reading p c.messages c.front q.sender.ring) e c.reads in
    at_phase (wait n) c (omega (arith, wait-taken n))
      (Reading-wait n c.messages c.front q.sender.ring nothing) (wait-asleep n)
Step-IsRunning {q} c (wakes e) =
    at_phase reading c (omega arith)
      (subst (λ p. Reading p c.messages c.front q.sender.ring) e c.reads) (λ h. absurd (cc h))
Step-IsRunning {q} c (peeks e) = peek_one-IsRunning q c e
Step-IsRunning {q} c (skips len e) = skip_head-IsRunning q len c e
Step-IsRunning {q} c (copies len outb e) = copy_body-IsRunning q len outb c e
Step-IsRunning {q} c (drops xs len e) =
    at_phase polling c (omega arith)
      (subst (λ p. Reading p c.messages c.front q.sender.ring) e c.reads) (λ h. absurd (cc h))
Step-IsRunning {q} c (sends xs len _ _ _ w1 w2 e _ _) =
    at_phase lowering c (omega (arith, ap taken e))
      (subst (λ p. Reading p c.messages c.front q.sender.ring) e c.reads) (λ h. absurd (cc h))
Step-IsRunning {q} c (lowers e) = lower-IsRunning q c e

Reach-IsRunning : {p q : Running} → IsRunning p → Reach p q → IsRunning q
Reach-IsRunning c here = c
Reach-IsRunning c (next r s) = Step-IsRunning (Reach-IsRunning c r) s

-- A sender with nothing on a ring of less than 2^31 bytes, a count of 0, and no call of `send` begun.
pub record IsStarted (p : Running) : Type 0 where
  pub valid : IsValid p.sender.ring
  pub small : p.sender.ring.size < 2 ^ 31
  pub nothing : contents p.sender.ring ≡ []
  pub zero_count : p.sender.msg_count ≡ 0
  pub first : p.phase ≡ polling
  pub no_call : p.writer ≡ ready
  pub none_written : p.written ≡ 0

started-IsRunning : {p : Running} → IsStarted p → IsRunning p
started-IsRunning {p} i = record {
  messages = [];
  front = [];
  added = 0;
  gone = 0;
  valid = i.valid;
  small = i.small;
  on_ring = i.nothing ∙ ap part (sym i.no_call);
  reads = subst (λ p'. Reading p' [] [] p.sender.ring) (sym i.first) refl;
  room = subst (λ w. Room w p.sender.ring) (sym i.no_call) tt;
  pattern = omega (arith, i.zero_count);
  word = omega (arith, i.zero_count);
  kept = omega (arith, i.none_written, ap taken i.first);
  enough = omega (arith, i.none_written);
  bounded = omega (arith, i.none_written, ap pending i.no_call);
  waiting = λ h. absurd (cc (h, i.first));
}

wake-count : (r : Running) → r.phase ≡ asleep → r.sender.msg_count ≡ 0 → (count r).phase ≡ reading
unfolding count wake
wake-count r a z = rw (a, z) refl

-- Let a sender start with nothing on a ring of less than 2^31 bytes and a count of 0. Calls of `send`
-- come one after the other, no two at once, with messages of 1 to 8192 bytes that have room on the ring.
-- Their steps and those of the loop of `thread_start_epoll` are taken in any order, those within
-- `write_buffer` and `read_buffer` and waits that end without a `notify` included, until fewer than 2^30
-- messages have been put on the ring. Whenever the loop is then in its wait, the ring holds nothing, or
-- the message of the call of `send` that is past `write_buffer` and has not counted it yet, or the length
-- of the message that a call is putting there; and the call that counts next ends the wait.
pub asleep-uncounted :
    {p q : Running}
    → IsStarted p
    → Reach p q
    → q.phase ≡ asleep
    → q.written < 2 ^ 30
    → (messages : List (List ℕ)) × (contents q.sender.ring ≡ frames messages ++ part q.writer)
      × (length messages ≤ pending q.writer)
      × ((count q).phase ≡ reading)
asleep-uncounted {p} {q} i r a few =
    let c = Reach-IsRunning (started-IsRunning i) r in
    let z = c.waiting a in
    (
      c.messages,
      c.on_ring
          ∙ ap (λ x. x ++ (frames c.messages ++ part q.writer))
              (subst (λ p. Reading p c.messages c.front q.sender.ring) a c.reads),
      omega (arith, z, c.pattern, c.kept, c.enough, c.bounded),
      wake-count q a z,
    )
