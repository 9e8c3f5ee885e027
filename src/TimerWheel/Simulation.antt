-- ===== src/TimerWheel/Simulation.antt =====
-- TimerWheel: the wheel does with each node what the node's countdown says.
use network_ydxlib.Base.{
  ℕ, zero, suc, ◌+◌, ◌<◌, ◌≡◌, refl, sym, ap, ap₂, ◌∙◌, Bool, true, false, List, [], ◌∷◌, ◌++◌,
  ◌==◌, if◌then◌else◌, arith, drop, length, length-append, length-drop, ==_iff, subst,
}
use network_ydxlib.Base.Int.{ℤ, pos, negsuc}
use network_ydxlib.Timestamp.{Timestamp, time_difference_micro}
use network_ydxlib.TimerWheel.{
  Circular, IsCircular, TimerWheel, is_held, release, on_last, oldest, push_empty, push_empties,
  put_back, add_after, add_node, refresh_node,
}
use network_ydxlib.TimerWheel.Count.{
  count, count-append, age, is_some, is_held-age, length-on_last, age-on_last-other, age-on_last,
}
use network_ydxlib.TimerWheel.Deadline.{
  Countdown, passes, tick, ticks, age-passes, put, dropped, add_diff, add, refresh, Call, adds,
  refreshes, after_call, after_calls,
}

module _ {C : Circular} where
  abbrev pub buckets : TimerWheel C → List (List ℕ)
  buckets w = C.elements w.node_circle_buf

  abbrev pub view : ℕ → TimerWheel C → Countdown
  view n w = record { time = w.time; age = age n (buckets w); fired = count n w.fired }

  abbrev pub call : Call → TimerWheel C → TimerWheel C
  call (adds time k) w = (add_node time k w).1
  call (refreshes k) w = refresh_node k w

  abbrev pub calls : List Call → TimerWheel C → TimerWheel C
  calls [] w = w
  calls (c ∷ cs) w = calls cs (call c w)

  -- A wheel of `len` buckets holds and has fired the node as the countdown says.
  pub record Shows (len n : ℕ) (w : TimerWheel C) (s : Countdown) : Type 0 where
    pub size : length (buckets w) ≡ len
    pub times : w.time ≡ s.time
    pub aged : age n (buckets w) ≡ s.age
    pub count_fired : count n w.fired ≡ s.fired

  module _ (law : IsCircular C) (len n : ℕ) (some_len : 0 < len) where
    Shows-push_empty :
        (w : TimerWheel C) (s : Countdown)
        → Shows len n w s
        → Shows len n (push_empty w) (tick len s)
    unfolding push_empty
    Shows-push_empty w s h =
        let xs : List (List ℕ) = buckets w in
        let pushed = law.elements-push_empty w.node_circle_buf in
        let (aged, went) = age-passes n xs in
        record {
          size =
              ap length pushed
              ∙ omega (arith, h.size, length-append (drop 1 xs) ([] ∷ []), length-drop 1 xs);
          times = h.times;
          aged = ap (age n) pushed ∙ aged ∙ ap₂ (λ l o. (passes l o).0) h.size h.aged;
          count_fired =
              count-append n w.fired (release (oldest xs) (drop 1 xs))
              ∙ ap₂ (λ a b. a + b) h.count_fired (went ∙ ap₂ (λ l o. (passes l o).1) h.size h.aged);
        }

    Shows-push_empties :
        (k : ℕ) (w : TimerWheel C) (s : Countdown)
        → Shows len n w s
        → Shows len n (push_empties k w) (ticks len k s)
    unfolding push_empties
    Shows-push_empties zero w s h = h
    Shows-push_empties (suc k) w s h =
        Shows-push_empties k (push_empty w) (tick len s) (Shows-push_empty w s h)

    put_by :
        (k : ℕ) (w : TimerWheel C) (s : Countdown) (same : Bool)
        → (n == k) ≡ same
        → Shows len n w s
        → Shows len n (put_back k w) (put same s)
    unfolding put_back
    put_by k w s true e h =
        let all = law.elements-put_back k w.node_circle_buf in
        let here : n ≡ k = (==_iff n k).0 e in
        record {
          size = ap length all ∙ length-on_last k (buckets w) ∙ h.size;
          times = h.times;
          aged =
              ap (age n) all
              ∙ ap (λ j. age n (on_last j (buckets w))) (sym here)
              ∙ age-on_last n (buckets w) (omega (arith, h.size));
          count_fired = h.count_fired;
        }
    put_by k w s false e h =
        let all = law.elements-put_back k w.node_circle_buf in
        record {
          size = ap length all ∙ length-on_last k (buckets w) ∙ h.size;
          times = h.times;
          aged = ap (age n) all ∙ age-on_last-other n k (buckets w) e ∙ h.aged;
          count_fired = h.count_fired;
        }

    Shows-put_back :
        (k : ℕ) (w : TimerWheel C) (s : Countdown)
        → Shows len n w s
        → Shows len n (put_back k w) (put (n == k) s)
    Shows-put_back k w s h = put_by k w s (n == k) refl h

    drop_by :
        (k : ℕ) (w : TimerWheel C) (s : Countdown) (same : Bool)
        → (n == k) ≡ same
        → Shows len n w s
        → Shows len n (record w { fired = w.fired ++ (k ∷ []) }) (dropped same s)
    drop_by k w s true e h = record {
      size = h.size;
      times = h.times;
      aged = h.aged;
      count_fired =
          count-append n w.fired (k ∷ [])
          ∙ ap₂ (λ a (b : Bool). a + ((if b then 1 else 0) + 0)) h.count_fired e
          ∙ omega arith;
    }
    drop_by k w s false e h = record {
      size = h.size;
      times = h.times;
      aged = h.aged;
      count_fired =
          count-append n w.fired (k ∷ [])
          ∙ ap₂ (λ a (b : Bool). a + ((if b then 1 else 0) + 0)) h.count_fired e
          ∙ omega arith;
    }

    Shows-add_after :
        (d : ℤ) (time : Timestamp) (k : ℕ) (w : TimerWheel C) (s : Countdown)
        → Shows len n w s
        → Shows len n (add_after d time k w).1 (add_diff len (n == k) d time s)
    unfolding add_after
    Shows-add_after (negsuc d) time k w s h = drop_by k w s (n == k) refl h
    Shows-add_after (pos zero) time k w s h = Shows-put_back k w s h
    Shows-add_after (pos (suc d)) time k w s h =
        let h' : Shows len n (record w { time = time }) (record s { time = time }) = record {
          size = h.size;
          times = refl;
          aged = h.aged;
          count_fired = h.count_fired;
        } in
        Shows-put_back k (push_empties (suc d) (record w { time = time }))
          (ticks len (suc d) (record s { time = time }))
          (Shows-push_empties (suc d) (record w { time = time }) (record s { time = time }) h')

    Shows-add_node :
        (time : Timestamp) (k : ℕ) (w : TimerWheel C) (s : Countdown)
        → Shows len n w s
        → Shows len n (add_node time k w).1 (add len (n == k) time s)
    unfolding add_node
    Shows-add_node time k w s h =
        subst
          (λ t.
            Shows len n (add_node time k w).1
              (add_diff len (n == k) (time_difference_micro time t) time s))
          h.times (Shows-add_after (time_difference_micro time w.time) time k w s h)

    refresh_by :
        (k : ℕ) (w : TimerWheel C) (s : Countdown) (same : Bool)
        → (n == k) ≡ same
        → Shows len n w s
        → Shows len n (refresh_node k w) (refresh same s)
    unfolding refresh_node
    refresh_by k w s true e h = picks (is_held k (buckets w)) (is_some s.age) (
        ap (λ j. is_held j (buckets w)) (sym ((==_iff n k).0 e))
        ∙ is_held-age n (buckets w)
        ∙ ap is_some h.aged)
      where
        picks :
            (b c : Bool)
            → b ≡ c
            → Shows len n (if b then put_back k w else w) (if c then put true s else s)
        picks true true same = put_by k w s true e h
        picks false false same = h
        picks true false same = absurd (cc same)
        picks false true same = absurd (cc same)
    refresh_by k w s false e h = stays (is_held k (buckets w)) (is_some s.age)
      where
        stays : (b c : Bool) → Shows len n (if b then put_back k w else w) (if c then s else s)
        stays true true = put_by k w s false e h
        stays true false = put_by k w s false e h
        stays false true = h
        stays false false = h

    Shows-call :
        (c : Call) (w : TimerWheel C) (s : Countdown)
        → Shows len n w s
        → Shows len n (call c w) (after_call len n c s)
    Shows-call (adds time k) w s h = Shows-add_node time k w s h
    Shows-call (refreshes k) w s h = refresh_by k w s (n == k) refl h

    -- On a ring of at least one bucket that keeps boost's laws, calls of `addNode` and
    -- `refreshNode` do to each node what they do to its countdown, which counts for the node alone
    -- how many buckets ago it was last put on the wheel: it fires, and is gone, when that is the
    -- number of buckets, a call that puts it on starts again from 0, and a refused node fires at once.
    pub Shows-calls :
        (cs : List Call) (w : TimerWheel C) (s : Countdown)
        → Shows len n w s
        → Shows len n (calls cs w) (after_calls len n cs s)
    Shows-calls [] w s h = h
    Shows-calls (c ∷ cs) w s h =
        Shows-calls cs (call c w) (after_call len n c s) (Shows-call c w s h)
