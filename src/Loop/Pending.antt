-- ===== src/Loop/Pending.antt =====
-- One pass over the pending functors.
use network_ydxlib.Base.{
  ◌+◌, ◌≡◌, refl, sym, ap, ◌∙◌, true, false, List, [], ◌∷◌, ◌++◌, arith, length, append_assoc,
  append-nil, length-append,
}
use network_ydxlib.Loop.{Loop, queue_in_loop, queue_all, call, call_all, do_pending_functors}

module _ {F : Type 0} (adds : F → List F) where
  -- What the functors of a list queue.
  abbrev pub queued : List F → List F
  queued [] = []
  queued (f ∷ fs) = adds f ++ queued fs

  record Passed (l : Loop F) (called more : List F) (l' : Loop F) : Type 0 where
    rest : l'.pending ≡ l.pending ++ more
    history : l'.done ≡ l.done ++ called
    woken : l'.wakeups ≡ l.wakeups + length more
    busy : l'.calling ≡ true

  Passed-refl : (l : Loop F) → l.calling ≡ true → Passed l [] [] l
  Passed-refl l b = record {
    rest = sym (append-nil l.pending);
    history = sym (append-nil l.done);
    woken = omega arith;
    busy = b;
  }

  Passed-trans :
      {k l m : Loop F} (c d p q : List F)
      → Passed k c p l
      → Passed l d q m
      → Passed k (c ++ d) (p ++ q) m
  Passed-trans {k} c d p q s t = record {
    rest = t.rest ∙ ap (λ x. x ++ q) s.rest ∙ append_assoc k.pending p q;
    history = t.history ∙ ap (λ x. x ++ d) s.history ∙ append_assoc k.done c d;
    woken = omega (arith, s.woken, t.woken, length-append p q);
    busy = t.busy;
  }

  queue-Passed :
      (f : F) (l : Loop F) → l.calling ≡ true → Passed l [] (f ∷ []) (queue_in_loop true f l)
  unfolding queue_in_loop
  queue-Passed f l b = ground (arith, append-nil l.done)

  queue_all-Passed :
      (fs : List F) (l : Loop F) → l.calling ≡ true → Passed l [] fs (queue_all adds fs l)
  unfolding queue_all
  queue_all-Passed [] l b = Passed-refl l b
  queue_all-Passed (f ∷ fs) l b =
      let one = queue-Passed f l b in
      Passed-trans [] [] (f ∷ []) fs one (queue_all-Passed fs (queue_in_loop true f l) one.busy)

  call-Passed : (f : F) (l : Loop F) → l.calling ≡ true → Passed l (f ∷ []) (adds f) (call adds f l)
  unfolding call
  call-Passed f l b =
      let l' : Loop F = record l { done = l.done ++ (f ∷ []) } in
      let more = queue_all-Passed (adds f) l' b in
      record {
        rest = more.rest;
        history = more.history ∙ append-nil (l.done ++ (f ∷ []));
        woken = more.woken;
        busy = more.busy;
      }

  call_all-Passed :
      (fs : List F) (l : Loop F) → l.calling ≡ true → Passed l fs (queued fs) (call_all adds fs l)
  unfolding call_all
  call_all-Passed [] l b = Passed-refl l b
  call_all-Passed (f ∷ fs) l b =
      let one = call-Passed f l b in
      Passed-trans (f ∷ []) fs (adds f) (queued fs) one
        (call_all-Passed fs (call adds f l) one.busy)

  -- `doPendingFunctors` calls each functor that was pending, once and in order. What they queue in
  -- turn is not called but stays pending, in order, with a wakeup written for each.
  pub do_pending_functors_lem :
      (l : Loop F)
      → let l' = do_pending_functors adds l in
        (l'.done ≡ l.done ++ l.pending)
        × (l'.pending ≡ queued l.pending)
        × (l'.wakeups ≡ l.wakeups + length l'.pending)
        × (l'.calling ≡ false)
  unfolding do_pending_functors
  do_pending_functors_lem l =
      let s : Loop F = record l { calling = true; pending = [] } in
      let p = call_all-Passed l.pending s refl in
      (p.history, p.rest, omega (arith, p.woken, ap length p.rest), refl)
