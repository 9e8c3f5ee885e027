-- ===== src/Loop/Wakeup.antt =====
-- No functor waits in a sleeping loop: queueing by other threads, interleaved with the loop at every
-- point where it does not hold the mutex.
use network_ydxlib.Base.{ℕ, suc, ◌≡◌, ◌<◌, ◌≢◌, ◌⊎◌, refl, Bool, true, false, List, [], ◌∷◌, arith}
use network_ydxlib.Loop.{Loop, wakeup, push, queue_in_loop, handle_read}

-- Where the loop's thread stands: in `epoll_wait`, calling back channels, or in
-- `doPendingFunctors` with functors left to call.
pub data Phase (F : Type 0) : Type 0 where
  waiting handling : Phase F
  draining : List F → Phase F

-- `owed` counts the threads that have pushed a functor and not yet called `wakeup`.
pub record Shared (F : Type 0) : Type 0 where
  pub loop : Loop F
  pub phase : Phase F
  pub owed : ℕ

module _ {F : Type 0} where
  pub data Step (s : Shared F) : Shared F → Type 0 where
    other_push : (f : F) → Step s (record s { loop = push f s.loop; owed = suc s.owed })
    other_wakeup : (n : ℕ) → s.owed ≡ suc n → Step s (record s { loop = wakeup s.loop; owed = n })
    own_queue :
        (f : F) → s.phase ≢ waiting → Step s (record s { loop = queue_in_loop true f s.loop })
    return : s.phase ≡ waiting → Step s (record s { phase = handling })
    read_wakeup : s.phase ≡ handling → Step s (record s { loop = handle_read s.loop })
    begin_drain :
        s.phase ≡ handling
        → Step s (record s {
          phase = draining s.loop.pending;
          loop = record s.loop { calling = true; pending = [] };
        })
    call_one :
        (f : F) (fs : List F)
        → s.phase ≡ draining (f ∷ fs)
        → Step s (record s { phase = draining fs })
    end_drain :
        s.phase ≡ draining []
        → Step s (record s { phase = waiting; loop = record s.loop { calling = false } })

  pub data Reach (s : Shared F) : Shared F → Type 0 where
    here : Reach s s
    next : {t u : Shared F} → Reach s t → Step t u → Reach s u

  abbrev is_draining : Phase F → Bool
  is_draining waiting = false
  is_draining handling = false
  is_draining (draining fs) = true

  pub record IsAwake (s : Shared F) : Type 0 where
    pub flag : s.loop.calling ≡ is_draining s.phase
    pub heard :
        (s.loop.pending ≡ []) ⊎ ((s.phase ≡ handling) ⊎ ((0 < s.loop.wakeups) ⊎ (0 < s.owed)))

  own-IsAwake :
      (ph : Phase F) (f : F) (s : Shared F)
      → s.phase ≡ ph
      → ph ≢ waiting
      → IsAwake s
      → IsAwake (record s { loop = queue_in_loop true f s.loop })
  unfolding queue_in_loop
  own-IsAwake waiting f s e ne a = absurd (ne refl)
  own-IsAwake handling f s e ne a = ground arith
  own-IsAwake (draining fs) f s e ne a = ground arith

  Step-IsAwake : {s t : Shared F} → Step s t → IsAwake s → IsAwake t
  unfolding push wakeup queue_in_loop handle_read
  Step-IsAwake (other_push f) a = ground arith
  Step-IsAwake (other_wakeup n e) a = ground arith
  Step-IsAwake {s} (own_queue f p) a = own-IsAwake s.phase f s refl p a
  Step-IsAwake (return e) a = ground arith
  Step-IsAwake (read_wakeup e) a = ground arith
  Step-IsAwake (begin_drain e) a = ground arith
  Step-IsAwake (call_one f fs e) a = ground arith
  Step-IsAwake (end_drain e) a = ground arith

  Reach-IsAwake : {s t : Shared F} → IsAwake s → Reach s t → IsAwake t
  Reach-IsAwake a here = a
  Reach-IsAwake a (next r st) = Step-IsAwake st (Reach-IsAwake a r)

  -- From a state where no functor goes unheard, however queueing by other threads and the loop's
  -- own work are interleaved, a functor that is pending while the loop is in `epoll_wait` has a
  -- wakeup written for it, or one about to be written by the thread that queued it.
  pub Reach-heard :
      {s t : Shared F}
      → IsAwake s
      → Reach s t
      → t.phase ≡ waiting
      → (t.loop.pending ≡ []) ⊎ ((0 < t.loop.wakeups) ⊎ (0 < t.owed))
  Reach-heard a r w = let b = Reach-IsAwake a r in ground (arith, b.heard)
