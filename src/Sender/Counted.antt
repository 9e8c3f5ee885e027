-- ===== src/Sender/Counted.antt =====
-- Sender: the messages of the ring against `msg_count_`, wherever the call of `send` and the loop are.
use network_ydxlib.Base.{
  ℕ, ◌+◌, ◌*◌, ◌%◌, ◌^◌, ◌≤◌, ◌<◌, ◌≡◌, refl, ap, Bool-cases, inl, inr, List, [], ◌∷◌, ◌++◌, arith,
  length, ◌==◌,
}
use network_ydxlib.Base.Int.{pos}
use network_ydxlib.Base.Words.{int_bytes}
use network_ydxlib.Stream.{Stream, used, int_size}
use network_ydxlib.Stream.Inv.{IsValid, contents}
use network_ydxlib.Stream.Message.{frame, frames}
use network_ydxlib.Sender.{
  Running, Phase, polling, asleep, reading, lowering, skipping, copying, sending, Writer, ready,
  heading, bodying, counting, wait, wake,
}

-- What a call of `send` has put on the ring of a message that is not whole there.
abbrev pub part : Writer → List ℕ
part ready = []
part (heading m) = []
part (bodying m inb) = int_bytes (pos (length m))
part counting = []

-- The messages that a call of `send` has put on the ring and not counted.
abbrev pub pending : Writer → ℕ
pending ready = 0
pending (heading m) = 0
pending (bodying m inb) = 0
pending counting = 1

-- The messages that the loop has begun to take off the ring and not counted off.
abbrev pub taken : Phase → ℕ
taken polling = 0
taken asleep = 0
taken reading = 0
taken lowering = 1
taken (skipping len) = 0
taken (copying len outb) = 1
taken (sending xs len) = 1

-- The ring has room for what the call of `send` has not put there yet.
abbrev pub Room : Writer → Stream → Type 0
Room ready s = Unit {0}
Room (heading m) s = (0 < length m) × (length (contents s) + length (frame m) ≤ s.size)
Room (bodying m inb) s =
    (inb ≡ int_size) × (0 < length m) × (length (contents s) + length m ≤ s.size)
Room counting s = Unit {0}

-- What the loop knows of the ring: nothing, a message that `used` counts in full, or the bytes `front` of
-- one whose length is off the ring.
abbrev pub Reading : Phase → List (List ℕ) → List ℕ → Stream → Type 0
Reading polling ms front s = front ≡ []
Reading asleep ms front s = front ≡ []
Reading reading ms front s = front ≡ []
Reading lowering ms front s = front ≡ []
Reading (skipping len) ms front s =
    (m : List ℕ) × (rest : List (List ℕ)) × (ms ≡ m ∷ rest)
    × (len ≡ pos (length m))
    × (length m + 4 ≤ used s)
    × (front ≡ [])
Reading (copying len outb) ms front s =
    (outb ≡ int_size) × (len ≡ pos (length front)) × (length front ≤ used s)
Reading (sending xs len) ms front s = front ≡ []

-- The messages of the ring against the count. `added` and `gone` are what the count has been
-- raised and lowered by.
pub record IsCounted (ring : Stream) (msg_count : ℕ) (writer : Writer) (written : ℕ) (phase : Phase)
    : Type 0 where
  pub messages : List (List ℕ)
  pub front : List ℕ
  pub added : ℕ
  pub gone : ℕ
  pub valid : IsValid ring
  pub small : ring.size < 2 ^ 31
  pub on_ring : contents ring ≡ front ++ (frames messages ++ part writer)
  pub reads : Reading phase messages front ring
  pub room : Room writer ring
  pub pattern : (msg_count + gone) % 2 ^ 32 ≡ added % 2 ^ 32
  pub word : msg_count < 2 ^ 32
  pub kept : length messages + taken phase + gone ≤ written
  pub enough : written ≤ added + pending writer
  pub bounded : added + 2 * pending writer ≤ 2 * written
  pub waiting : phase ≡ asleep → msg_count ≡ 0

abbrev pub IsRunning : Running → Type 0
IsRunning r = IsCounted r.sender.ring r.sender.msg_count r.writer r.written r.phase

pub wake-asleep : (p : Phase) → wake p ≡ asleep → ⊥
unfolding wake
wake-asleep polling e = absurd (cc e)
wake-asleep asleep e = absurd (cc e)
wake-asleep reading e = absurd (cc e)
wake-asleep lowering e = absurd (cc e)
wake-asleep (skipping len) e = absurd (cc e)
wake-asleep (copying len outb) e = absurd (cc e)
wake-asleep (sending xs len) e = absurd (cc e)

pub wake-taken : (p : Phase) → taken (wake p) ≡ taken p
unfolding wake
wake-taken polling = refl
wake-taken asleep = refl
wake-taken reading = refl
wake-taken lowering = refl
wake-taken (skipping len) = refl
wake-taken (copying len outb) = refl
wake-taken (sending xs len) = refl

pub Reading-wake :
    (p : Phase) (ms : List (List ℕ)) (front : List ℕ) (s : Stream)
    → Reading p ms front s
    → Reading (wake p) ms front s
unfolding wake
Reading-wake polling ms front s h = h
Reading-wake asleep ms front s h = h
Reading-wake reading ms front s h = h
Reading-wake lowering ms front s h = h
Reading-wake (skipping len) ms front s h = h
Reading-wake (copying len outb) ms front s h = h
Reading-wake (sending xs len) ms front s h = h

-- More on the ring takes nothing from what the loop knows.
pub Reading-grows :
    (p : Phase) (ms more : List (List ℕ)) (front : List ℕ) (s t : Stream)
    → used s ≤ used t
    → Reading p ms front s
    → Reading p (ms ++ more) front t
Reading-grows polling ms more front s t u h = h
Reading-grows asleep ms more front s t u h = h
Reading-grows reading ms more front s t u h = h
Reading-grows lowering ms more front s t u h = h
Reading-grows (skipping len) ms more front s t u (m, rest, e, l, there, none_yet) =
    (m, rest ++ more, ap (λ x. x ++ more) e, l, omega (arith, u, there), none_yet)
Reading-grows (copying len outb) ms more front s t u (four, l, there) =
    (four, l, omega (arith, u, there))
Reading-grows (sending xs len) ms more front s t u h = h

pub Reading-wait :
    (n : ℕ) (ms : List (List ℕ)) (front : List ℕ) (s : Stream)
    → front ≡ []
    → Reading (wait n) ms front s
unfolding wait
Reading-wait n ms front s h = elim (Bool-cases (n == 0)) [ inl e ↦ rw e h | inr e ↦ rw e h ]

pub wait-asleep : (n : ℕ) → wait n ≡ asleep → n ≡ 0
unfolding wait
wait-asleep n e = ground (arith, e)

pub wait-taken : (n : ℕ) → taken (wait n) ≡ 0
unfolding wait
wait-taken n = elim (Bool-cases (n == 0)) [ inl e ↦ rw e refl | inr e ↦ rw e refl ]

pub at_phase :
    {ring : Stream} {n written : ℕ} {writer : Writer} {phase : Phase} (phase' : Phase)
    → (c : IsCounted ring n writer written phase) → taken phase' ≤ taken phase
    → Reading phase' c.messages c.front ring
    → (phase' ≡ asleep → n ≡ 0)
    → IsCounted ring n writer written phase'
at_phase phase' c s reads h = record {
  messages = c.messages;
  front = c.front;
  added = c.added;
  gone = c.gone;
  valid = c.valid;
  small = c.small;
  on_ring = c.on_ring;
  reads = reads;
  room = c.room;
  pattern = c.pattern;
  word = c.word;
  kept = omega (arith, c.kept);
  enough = c.enough;
  bounded = c.bounded;
  waiting = h;
}
