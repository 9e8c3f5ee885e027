-- ===== src/Connector/Owner.antt =====
-- Connector: who owns each socket.
use network_ydxlib.Base.{
  ℕ, suc, ◌+◌, ◌≡◌, inl, inr, refl, sym, ap, ◌∙◌, Bool, true, false, not, ◌||◌, Option, none, some,
  List, [], ◌∷◌, ◌==◌, if◌then◌else◌, arith, Bool-cases, Option-cases, subst,
}
use network_ydxlib.Channel.{Channel, Index, new, added, deleted}
use network_ydxlib.Poller.{
  Poller, ChannelOp, update_channel, update_by, remove_channel, disable_reading, enable_reading,
  disable_writing, perform, enable_writing, disable_all, remove,
}
use network_ydxlib.Connector.{
  State, disconnected, connected, Connector, Attempt, Verdict, proceeds, retries, fails, verdict,
  Outcome, done, trying, crashed, close, establish, new_channel, retry_by, settle, connect, start,
  restart, retry, without_channel, is_connecting, stop, hand_over, written, handle_write,
  handle_error, Call, starts, restarts, stops, errs, writes, run,
}

abbrev pub count : ℕ → List ℕ → ℕ
count k [] = 0
count k (x ∷ xs) = if x == k then suc (count k xs) else count k xs

abbrev pub held : Option (ℕ × Channel) → List ℕ
held none = []
held (some (p, ch)) = ch.fd ∷ []

abbrev pub holds : Option (ℕ × Channel) → Bool
holds none = false
holds (some x) = true

-- Each socket that was opened is closed, given to the callback, or in the channel; and there is a
-- channel exactly while a connection is under way.
pub record IsOwned (c : Connector) : Type 0 where
  pub sockets :
      (k : ℕ) → count k c.opened ≡ count k c.closed + count k c.handed + count k (held c.chan)
  pub busy : is_connecting c.state ≡ holds c.chan

-- The call does not follow a null pointer, and leaves every socket with an owner.
abbrev pub IsSafe : Outcome → Type 0
IsSafe (done c) = IsOwned c
IsSafe (trying c) = IsOwned c
IsSafe crashed = ⊥

update_by-fd : (i : Index) (r : Poller) (p : ℕ) (ch : Channel) → (update_by i r p ch).1.fd ≡ ch.fd
unfolding update_by
update_by-fd new r p ch = refl
update_by-fd deleted r p ch = refl
update_by-fd added r p ch = ground arith

perform-fd : (o : ChannelOp) (r : Poller) (p : ℕ) (ch : Channel) → (perform o r p ch).1.fd ≡ ch.fd
unfolding perform update_channel remove_channel
perform-fd remove r p ch = refl
perform-fd enable_reading r p ch = update_by-fd ch.index r p _
perform-fd disable_reading r p ch = update_by-fd ch.index r p _
perform-fd enable_writing r p ch = update_by-fd ch.index r p _
perform-fd disable_writing r p ch = update_by-fd ch.index r p _
perform-fd disable_all r p ch = update_by-fd ch.index r p _

-- Between two steps: there is no channel, and the socket `fd` is still to be placed.
record IsPending (fd : ℕ) (c : Connector) : Type 0 where
  free : c.chan ≡ none
  sockets : (k : ℕ) → count k c.opened ≡ count k (fd ∷ c.closed) + count k c.handed

record IsIdle (c : Connector) : Type 0 where
  free : c.chan ≡ none
  sockets : (k : ℕ) → count k c.opened ≡ count k c.closed + count k c.handed
  idle : is_connecting c.state ≡ false

IsIdle-IsOwned : (c : Connector) → IsIdle c → IsOwned c
IsIdle-IsOwned c i = record {
  sockets = λ k. omega (arith, i.sockets k, ap (λ h. count k (held h)) i.free);
  busy = i.idle ∙ sym (ap holds i.free);
}

establish-IsOwned : (t : Attempt) (c : Connector) → IsPending t.fd c → IsOwned (establish t c)
unfolding establish is_connecting
establish-IsOwned t c s = record {
  sockets = λ k.
      rw (perform-fd enable_writing c.poller t.address (new_channel t.fd))
        (ground (arith, s.sockets k));
  busy = refl;
}

if-IsSafe : (b : Bool) (x y : Outcome) → IsSafe x → IsSafe y → IsSafe (if b then x else y)
if-IsSafe true x y p q = p
if-IsSafe false x y p q = q

retry_by-IsSafe :
    (begin : Connector → Outcome)
    → ((d : Connector) → IsIdle d → IsSafe (begin d))
    → (fd : ℕ) (c : Connector) → IsPending fd c
    → IsSafe (retry_by begin fd c)
unfolding retry_by is_connecting
retry_by-IsSafe begin safe fd c s =
    let c' : Connector = record (close fd c) { state = disconnected } in
    if-IsSafe c.wanted (begin (record c' { wanted = true })) (done c')
      (safe (record c' { wanted = true })
        (record { free = s.free; sockets = s.sockets; idle = refl }))
      (IsIdle-IsOwned c' (record { free = s.free; sockets = s.sockets; idle = refl }))

settle-IsSafe :
    (begin : Connector → Outcome)
    → ((d : Connector) → IsIdle d → IsSafe (begin d))
    → (v : Verdict) (t : Attempt) (c : Connector) → IsPending t.fd c
    → is_connecting c.state ≡ false
    → IsSafe (settle begin v t c)
unfolding settle
settle-IsSafe begin safe proceeds t c s i = establish-IsOwned t c s
settle-IsSafe begin safe retries t c s i = retry_by-IsSafe begin safe t.fd c s
settle-IsSafe begin safe fails t c s i =
    IsIdle-IsOwned (close t.fd c) (record { free = s.free; sockets = s.sockets; idle = i })

connect-IsSafe : (ts : List Attempt) (c : Connector) → IsIdle c → IsSafe (connect ts c)
unfolding connect
connect-IsSafe [] c i = IsIdle-IsOwned c i
connect-IsSafe (t ∷ ts) c i =
    settle-IsSafe (λ d. connect ts d) (λ d j. connect-IsSafe ts d j) (verdict t.errno) t
      (record c { opened = t.fd ∷ c.opened })
      (record { free = i.free; sockets = λ k. ground (arith, i.sockets k) }) i.idle

start-IsSafe : (ts : List Attempt) (c : Connector) → IsIdle c → IsSafe (start ts c)
unfolding start
start-IsSafe ts c i =
    connect-IsSafe ts (record c { wanted = true })
      (record { free = i.free; sockets = i.sockets; idle = i.idle })

retry-IsSafe :
    (ts : List Attempt) (fd : ℕ) (c : Connector) → IsPending fd c → IsSafe (retry ts fd c)
unfolding retry
retry-IsSafe ts fd c s = retry_by-IsSafe (start ts) (λ d i. start-IsSafe ts d i) fd c s

hand_over-IsSafe : (fd : ℕ) (c : Connector) → IsPending fd c → IsSafe (hand_over fd c)
unfolding hand_over is_connecting
hand_over-IsSafe fd c s =
    let c' : Connector = record c { state = connected } in
    if-IsSafe c.wanted (done (record c' { handed = fd ∷ c.handed })) (done (close fd c'))
      (IsIdle-IsOwned (record c' { handed = fd ∷ c.handed })
        (record { free = s.free; sockets = λ k. ground (arith, s.sockets k); idle = refl }))
      (IsIdle-IsOwned (close fd c') (record { free = s.free; sockets = s.sockets; idle = refl }))

written-IsSafe :
    (ts : List Attempt) (err : ℕ) (self : Bool) (fd : ℕ) (c : Connector)
    → IsPending fd c
    → IsSafe (written ts err self fd c)
unfolding written
written-IsSafe ts err self fd c s =
    if-IsSafe (not (err == 0) || self) (retry ts fd c) (hand_over fd c) (retry-IsSafe ts fd c s)
      (hand_over-IsSafe fd c s)

without_channel-IsSafe :
    (rest : ℕ → Connector → Outcome)
    → ((fd : ℕ) (d : Connector) → IsPending fd d → IsSafe (rest fd d))
    → (c : Connector) (p : ℕ) (ch : Channel) → c.chan ≡ some (p, ch)
    → ((k : ℕ) → count k c.opened ≡ count k c.closed + count k c.handed + count k (held c.chan))
    → IsSafe (without_channel rest c)
unfolding without_channel
without_channel-IsSafe rest safe c p ch e s =
    let a = perform disable_all c.poller p ch in
    let b = perform remove a.0 p a.1 in
    let same : b.1.fd ≡ ch.fd =
      perform-fd remove a.0 p a.1 ∙ perform-fd disable_all c.poller p ch in
    rw e (
      safe b.1.fd (record c { chan = none; poller = b.0 })
        (record {
          free = refl;
          sockets = λ k. rw same (ground (arith, s k, ap (λ h. count k (held h)) e));
        }))

IsIdle-of : (c : Connector) → IsOwned c → is_connecting c.state ≡ false → IsIdle c
IsIdle-of c o e = elim (Option-cases c.chan) [
  | inl n ↦ record {
    free = n;
    sockets = λ k. omega (arith, o.sockets k, ap (λ h. count k (held h)) n);
    idle = e;
  }
  | inr (x, y) ↦ ground (arith, o.busy, ap holds y)
]

busy-channel :
    (c : Connector)
    → IsOwned c
    → is_connecting c.state ≡ true
    → (p : ℕ) × (ch : Channel) × (c.chan ≡ some (p, ch))
busy-channel c o e = elim (Option-cases c.chan) [
  | inl n ↦ ground (arith, o.busy, ap holds n)
  | inr (x, y) ↦ (x.0, x.1, y)
]

-- A call on a connector that is connecting is made through its channel, else it does nothing.
connecting-IsSafe :
    (rest : ℕ → Connector → Outcome)
    → ((fd : ℕ) (d : Connector) → IsPending fd d → IsSafe (rest fd d))
    → (c : Connector) (s : State) (w : Bool) → IsOwned c
    → is_connecting c.state ≡ true
    → IsSafe (without_channel rest (record c { state = s; wanted = w }))
connecting-IsSafe rest safe c s w o e =
    let (p, ch, h) = busy-channel c o e in
    without_channel-IsSafe rest safe (record c { state = s; wanted = w }) p ch h o.sockets

if-connecting :
    (c : Connector) (x y : Outcome)
    → (is_connecting c.state ≡ true → IsSafe x)
    → IsSafe y
    → IsSafe (if is_connecting c.state then x else y)
if-connecting c x y p q = elim (Bool-cases (is_connecting c.state)) [
  | inl e ↦ subst (λ b. IsSafe (if b then x else y)) (sym e) (p e)
  | inr e ↦ subst (λ b. IsSafe (if b then x else y)) (sym e) q
]

-- `start` and `restart` are for a connector that is not connecting.
abbrev pub fits : Call → Connector → Bool
fits starts c = not (is_connecting c.state)
fits restarts c = not (is_connecting c.state)
fits stops c = true
fits errs c = true
fits (writes err self) c = true

not-connecting :
    (c : Connector) → not (is_connecting c.state) ≡ true → is_connecting c.state ≡ false
not-connecting c e = ground arith

-- If each socket has an owner before, then whatever is called, and whatever the system answers to
-- the attempts to connect that it makes: no null pointer is followed, each socket opened so far is
-- then closed, given to the callback for new connections, or in the channel, exactly once, and
-- there is a channel exactly while the state is connecting. `start` and `restart` must not come
-- while it is.
pub run-IsSafe :
    (o : Call) (ts : List Attempt) (c : Connector)
    → IsOwned c
    → fits o c ≡ true
    → IsSafe (run o ts c)
unfolding run restart stop handle_write handle_error
run-IsSafe starts ts c o f = start-IsSafe ts c (IsIdle-of c o (not-connecting c f))
run-IsSafe restarts ts c o f =
    let i = IsIdle-of c o (not-connecting c f) in
    connect-IsSafe ts (record c { state = disconnected; wanted = true })
      (record { free = i.free; sockets = i.sockets; idle = refl })
run-IsSafe stops ts c o f =
    let c' : Connector = record c { wanted = false } in
    if-connecting c (without_channel (retry ts) (record c' { state = disconnected })) (done c')
      (λ e. connecting-IsSafe (retry ts) (retry-IsSafe ts) c disconnected false o e)
      (record { sockets = o.sockets; busy = o.busy })
run-IsSafe errs ts c o f =
    if-connecting c (without_channel (retry ts) c) (done c)
      (λ e. connecting-IsSafe (retry ts) (retry-IsSafe ts) c c.state c.wanted o e) o
run-IsSafe (writes err self) ts c o f =
    if-connecting c (without_channel (written ts err self) c) (done c)
      (λ e.
        connecting-IsSafe (written ts err self) (written-IsSafe ts err self) c c.state c.wanted o e)
      o
