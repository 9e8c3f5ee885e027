-- ===== src/Timers/Life.antt =====
-- TimerSet: timers that are added, cancelled and expire, in any order.
use network_ydxlib.Base.{
  ℕ, ◌<◌, ◌≡◌, refl, sym, ap, ◌∙◌, some-inj, subst, Bool, Option, none, some, List, [], ◌++◌,
  if◌then◌else◌, eq_refl,
}
use network_ydxlib.Timers.{
  Timer, TimerSet, uintptr_max, insert_entry, insert, put, is_earliest, add_timer_in_loop,
  cancel_in_loop, erase_entry, reset_timerfd, handle_read,
}
use network_ydxlib.Timers.Expiry.{
  AreDue, AreLater, IsSorted, AreAddresses, SortedIf, insert_entry-SortedIf,
}
use network_ydxlib.Timers.Erase.{erase-Erased}
use network_ydxlib.Timers.Live.{Lacks, Distinct, Live, IsLive, insert-Inserted, Live-put}
use network_ydxlib.Timers.Alone.{addresses, Same, leave_alone, if-Same, handle_read-IsLive}

cancel-IsLive :
    (p : ℕ) (t : Timer) (s : TimerSet)
    → s.timers p ≡ some t
    → IsLive s
    → (s' : TimerSet) × (cancel_in_loop p s ≡ some s') × IsLive s' × Lacks p s'.container
unfolding cancel_in_loop
cancel-IsLive p t s e h =
    let r = erase-Erased s.timers p t s.container e h.sorted h.bounded h.distinct h.live in
    (
      put p none (record s { container = erase_entry (t.expiration, p) s.container }),
      rw (cancel_in_loop, e) refl,
      record {
        sorted = r.sorted;
        bounded = r.bounded;
        distinct = r.distinct;
        live = Live-put p none s.timers (erase_entry (t.expiration, p) s.container) r.gone r.live;
      },
      r.gone,
    )

insert-full :
    (p : ℕ) (t : Timer) (s : TimerSet) (zs : List (ℕ × ℕ))
    → insert_entry (t.expiration, p) s.container ≡ some zs
    → insert p t s ≡ some (is_earliest t.expiration s.container, record s { container = zs })
unfolding insert
insert-full p t s zs e = rw (insert, e) refl

add-of :
    (p now : ℕ) (t : Timer) (s s' : TimerSet) (b : Bool)
    → s.timers p ≡ some t
    → insert p t s ≡ some (b, s')
    → add_timer_in_loop p now s ≡ some (if b then reset_timerfd t.expiration now s' else s')
unfolding add_timer_in_loop
add-of p now t s s' b e f = rw (add_timer_in_loop, e, f) refl

Same-IsLive : (s s' : TimerSet) → Same s s' → IsLive s → IsLive s'
Same-IsLive s s' same h = record {
  sorted = subst IsSorted (sym same.container) h.sorted;
  bounded = subst AreAddresses (sym same.container) h.bounded;
  distinct = subst Distinct (sym same.container) h.distinct;
  live =
      subst (Live s'.timers) (sym same.container)
        (subst (λ f. Live f s.container) (sym same.timers) h.live);
}

-- A new timer, at an address that no timer in the set has.
add-IsLive :
    (p now : ℕ) (t : Timer) (s : TimerSet)
    → p < uintptr_max
    → Lacks p s.container
    → IsLive s
    → (s' : TimerSet) × (add_timer_in_loop p now (put p (some t) s) ≡ some s') × IsLive s'
add-IsLive p now t s bound l h =
    let s1 : TimerSet = put p (some t) s in
    let (zs, e, i) = insert-Inserted s1.timers (t.expiration, p) s.container l in
    let here : s1.timers p ≡ some t =
      ap (λ (b : Bool). if b then some t else s.timers p) (eq_refl p) in
    let s2 : TimerSet = record s1 { container = zs } in
    let first : Bool = is_earliest t.expiration s.container in
    (
      if first then reset_timerfd t.expiration now s2 else s2,
      add-of p now t s1 s2 first here (insert-full p t s1 zs e),
      Same-IsLive s2 (if first then reset_timerfd t.expiration now s2 else s2)
          (if-Same first t.expiration now s2)
          (record {
            sorted =
                subst SortedIf e (insert_entry-SortedIf (t.expiration, p) s.container h.sorted);
            bounded = i.bounded bound h.bounded;
            distinct = i.distinct h.distinct;
            live = i.live ((t, here, refl), Live-put p (some t) s.timers s.container l h.live);
          }),
    )

-- A set of timers whose functions leave it alone: timers are made and added, timers that are there
-- are cancelled, and the alarm goes off.
pub data Reach : TimerSet → Type 0 where
  created :
      (f : ℕ → Option Timer) → Reach (record { container = []; timers = f; alarm = none; ran = [] })
  adds :
      (p now : ℕ) (t : Timer) (s s' : TimerSet)
      → Reach s
      → p < uintptr_max
      → Lacks p s.container
      → add_timer_in_loop p now (put p (some t) s) ≡ some s'
      → Reach s'
  cancels :
      (p : ℕ) (t : Timer) (s s' : TimerSet)
      → Reach s
      → s.timers p ≡ some t
      → cancel_in_loop p s ≡ some s'
      → Reach s'
  expires :
      (now later : ℕ) (s s' : TimerSet)
      → Reach s
      → handle_read leave_alone now later s ≡ some s'
      → Reach s'

pub Reach-IsLive : (s : TimerSet) → Reach s → IsLive s
Reach-IsLive _ (created f) = record { sorted = tt; bounded = tt; distinct = tt; live = tt }
Reach-IsLive s' (adds p now t s _ r bound l e) =
    let (s1, done, h) = add-IsLive p now t s bound l (Reach-IsLive s r) in
    subst IsLive (some-inj (sym done ∙ e)) h
Reach-IsLive s' (cancels p t s _ r here e) =
    let (s1, done, h, gone) = cancel-IsLive p t s here (Reach-IsLive s r) in
    subst IsLive (some-inj (sym done ∙ e)) h
Reach-IsLive s' (expires now later s _ r e) =
    let (due, rest, s1, done, whole, early, after, ran, h) =
      handle_read-IsLive now later s (Reach-IsLive s r) in
    subst IsLive (some-inj (sym done ∙ e)) h

-- However timers have been added, each at an address that no timer in the set has, cancelled while
-- they are there, and expired, with functions that do nothing to the set: cancelling one that is
-- there succeeds, and it is no longer in the set; and
-- `handleRead` ends without using a deleted timer, having run just the timers that are due, each
-- once and in the order of their times.
pub Reach-goes_on :
    (s : TimerSet) (p now later : ℕ) (t : Timer)
    → Reach s
    → s.timers p ≡ some t
    → ((s' : TimerSet) × (cancel_in_loop p s ≡ some s') × Lacks p s'.container × Reach s')
      × ((due rest : List (ℕ × ℕ)) × (s' : TimerSet) × (handle_read leave_alone now later s
            ≡ some s')
          × (due ++ rest ≡ s.container)
          × AreDue now due
          × AreLater now rest
          × (s'.ran ≡ s.ran ++ addresses due)
          × Reach s')
Reach-goes_on s p now later t r here =
    let h = Reach-IsLive s r in
    let (s1, done, live, gone) = cancel-IsLive p t s here h in
    let (due, rest, s2, ends, whole, early, after, ran, live2) = handle_read-IsLive now later s h in
    (
      (s1, done, gone, cancels p t s s1 r here done),
      (due, rest, s2, ends, whole, early, after, ran, expires now later s s2 r ends),
    )
