-- ===== src/Launch/Handshake.antt =====
-- EPollerThread: the loop's address gets from the new thread to the one that started it.
use network_ydxlib.Base.{ℕ, ◌≡◌, refl, sym, subst, Option, none, some}
use network_ydxlib.Launch.{
  EPollerThread, Starter, testing, asleep, ready, returned, Worker, starting, polling, over,
  start_epoll, tested, notified, turn, publish, leave,
}

module _ (epoller : ℕ) where
  -- The two threads in any order, and a wait that ends for no reason. The loop is left only once `startEpoll` has returned, since nobody
  -- else can call `quit` before.
  pub data Reach : EPollerThread → Type 0 where
    begun : Reach start_epoll
    turns : (t : EPollerThread) → Reach t → Reach (turn t.starter t)
    stirs :
        (t : EPollerThread) → Reach t → t.starter ≡ asleep → Reach (record t { starter = testing })
    publishes : (t : EPollerThread) → Reach t → t.worker ≡ starting → Reach (publish epoller t)
    leaves :
        (t : EPollerThread) (o : Option ℕ)
        → Reach t
        → t.worker ≡ polling
        → t.starter ≡ returned o
        → Reach (leave t)

  -- What the starter may have seen, by where the new thread is, and the pointer.
  abbrev pub Agrees : Worker → Option ℕ → Starter → Type 0
  Agrees starting o testing = o ≡ none
  Agrees starting o asleep = o ≡ none
  Agrees starting o ready = ⊥
  Agrees starting o (returned p) = ⊥
  Agrees polling o testing = o ≡ some epoller
  Agrees polling o asleep = ⊥
  Agrees polling o ready = o ≡ some epoller
  Agrees polling o (returned p) = (o ≡ some epoller) × (p ≡ some epoller)
  Agrees over o testing = ⊥
  Agrees over o asleep = ⊥
  Agrees over o ready = ⊥
  Agrees over o (returned p) = p ≡ some epoller

  abbrev pub Shakes : EPollerThread → Type 0
  Shakes t = Agrees t.worker t.epoller t.starter

  tested-Agrees : (w : Worker) (o : Option ℕ) → Agrees w o testing → Agrees w o (tested o)
  tested-Agrees starting none h = h
  tested-Agrees starting (some e) h = absurd (cc h)
  tested-Agrees polling none h = absurd (cc h)
  tested-Agrees polling (some e) h = h
  tested-Agrees over o h = absurd h

  ready-Agrees : (w : Worker) (o : Option ℕ) → Agrees w o ready → Agrees w o (returned o)
  ready-Agrees starting o h = absurd h
  ready-Agrees polling o h = (h, h)
  ready-Agrees over o h = absurd h

  notified-Agrees :
      (s : Starter) → Agrees starting none s → Agrees polling (some epoller) (notified s)
  notified-Agrees testing h = refl
  notified-Agrees asleep h = refl
  notified-Agrees ready h = absurd h
  notified-Agrees (returned p) h = absurd h

  turn-Shakes :
      (s : Starter) (t : EPollerThread)
      → t.starter ≡ s
      → Agrees t.worker t.epoller s
      → Shakes (turn s t)
  unfolding turn
  turn-Shakes testing t e h = tested-Agrees t.worker t.epoller h
  turn-Shakes asleep t e h = subst (Agrees t.worker t.epoller) (sym e) h
  turn-Shakes ready t e h = ready-Agrees t.worker t.epoller h
  turn-Shakes (returned o) t e h = subst (Agrees t.worker t.epoller) (sym e) h

  awake-Agrees : (w : Worker) (o : Option ℕ) → Agrees w o asleep → Agrees w o testing
  awake-Agrees starting o h = h
  awake-Agrees polling o h = absurd h
  awake-Agrees over o h = absurd h

  not_set : (o : Option ℕ) (s : Starter) → Agrees starting o s → o ≡ none
  not_set o testing h = h
  not_set o asleep h = h
  not_set o ready h = absurd h
  not_set o (returned p) h = absurd h

  -- Whatever the order of the two threads, while the loop is left only after `startEpoll` has
  -- returned: the starter sleeps only as long as the new thread has not set the pointer, it goes on
  -- once that is set, and what it returns is the new loop's address, never null.
  pub Reach-Shakes : (t : EPollerThread) → Reach t → Shakes t
  unfolding publish leave
  Reach-Shakes _ begun = refl
  Reach-Shakes _ (turns t r) = turn-Shakes t.starter t refl (Reach-Shakes t r)
  Reach-Shakes _ (stirs t r e) =
      awake-Agrees t.worker t.epoller (subst (Agrees t.worker t.epoller) e (Reach-Shakes t r))
  Reach-Shakes _ (publishes t r e) =
      let h = subst (λ w. Agrees w t.epoller t.starter) e (Reach-Shakes t r) in
      notified-Agrees t.starter
        (subst (λ o. Agrees starting o t.starter) (not_set t.epoller t.starter h) h)
  Reach-Shakes _ (leaves t o r e f) =
      let h = subst (λ w. Agrees w t.epoller t.starter) e (Reach-Shakes t r) in
      let (same, got) = subst (Agrees polling t.epoller) f h in subst (Agrees over none) (sym f) got
