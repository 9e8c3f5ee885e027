-- ===== src/Timers/Cancel.antt =====
-- TimerSet: a timer whose function cancels it.
use network_ydxlib.Base.{
  ℕ, ◌≤◌, ◌<◌, ◌≡◌, refl, ap, ◌∙◌, true, none, some, List, [], ◌∷◌, ◌++◌, if◌then◌else◌, arith,
  eq_refl,
}
use network_ydxlib.Timers.{
  Timer, TimerSet, uintptr_max, before, split, is_later, get_expired, cancel_in_loop, erase_entry,
  put, run_all, put_all, reset, handle_read, run_expired, finish,
}

due-before :
    (p now : ℕ) (t : Timer)
    → p < uintptr_max
    → t.expiration ≤ now
    → before (t.expiration, p) (now, uintptr_max) ≡ true
unfolding before
due-before p now t a h = ground arith

get_expired-one :
    (p now : ℕ) (t : Timer) (s : TimerSet)
    → s.container ≡ (t.expiration, p) ∷ []
    → before (t.expiration, p) (now, uintptr_max) ≡ true
    → get_expired now s ≡ some ((t.expiration, p) ∷ [], record s { container = [] })
unfolding get_expired split is_later
get_expired-one p now t s c d = ground (arith, c, d)

run_all-cancelled :
    (p : ℕ) (t : Timer) (s : TimerSet)
    → s.container ≡ []
    → s.timers p ≡ some t
    → run_all cancel_in_loop ((t.expiration, p) ∷ []) s
      ≡ some (put p none (record s { ran = s.ran ++ (p ∷ []) }))
unfolding run_all cancel_in_loop erase_entry
run_all-cancelled p t s c l = ground (arith, c, l)

reset-deleted :
    (p now later when : ℕ) (s : TimerSet)
    → s.timers p ≡ none
    → reset ((when, p) ∷ []) now later s ≡ none
unfolding reset put_all
reset-deleted p now later when s l = ground (arith, l)

-- A timer whose function cancels the timer itself is deleted while it is among the expired ones, and
-- `reset` then uses it: `handleRead` of a set with such a timer alone, once it has expired, comes to a
-- use of a deleted timer.
pub handle_read-cancelled :
    (p now later : ℕ) (t : Timer) (s : TimerSet)
    → s.container ≡ (t.expiration, p) ∷ []
    → s.timers p ≡ some t
    → p < uintptr_max
    → t.expiration ≤ now
    → handle_read cancel_in_loop now later s ≡ none
unfolding handle_read run_expired finish
handle_read-cancelled p now later t s c l a h =
    let s1 : TimerSet = record s { container = [] } in
    let one : List (ℕ × ℕ) = (t.expiration, p) ∷ [] in
    let s2 : TimerSet = put p none (record s1 { ran = s.ran ++ (p ∷ []) }) in
    ap (run_expired cancel_in_loop now later) (get_expired-one p now t s c (due-before p now t a h))
    ∙ ap (finish one now later) (run_all-cancelled p t s1 refl l)
    ∙ reset-deleted p now later t.expiration s2
        (ap (λ b. if b then none else s.timers p) (eq_refl p))
