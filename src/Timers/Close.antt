-- ===== src/Timers/Close.antt =====
-- TimerSet: its destructor.
use network_ydxlib.Base.{
  ℕ, ◌≡◌, refl, ap, ◌∙◌, Bool, Option, none, some, List, [], ◌∷◌, if◌then◌else◌, not-eq, eq_refl,
  sym,
}
use network_ydxlib.Timers.{Timer, TimerSet, put, delete_all, close}
use network_ydxlib.Timers.Live.{Lacks, Distinct, Live, Live-put}
use network_ydxlib.Timers.Life.{Reach, Reach-IsLive}

-- No entry's timer is there.
abbrev pub Deleted : (ℕ → Option Timer) → List (ℕ × ℕ) → Type 0
Deleted f [] = Unit {0}
Deleted f (x ∷ xs) = (f x.1 ≡ none) × Deleted f xs

delete_all-of :
    (x : ℕ × ℕ) (xs : List (ℕ × ℕ)) (s : TimerSet) (t : Timer)
    → s.timers x.1 ≡ some t
    → delete_all (x ∷ xs) s ≡ delete_all xs (put x.1 none s)
unfolding delete_all
delete_all-of x xs s t e = rw (delete_all, e) refl

-- What is deleted stays so, and the timers of no entry stay as they are.
pub record Emptied (xs : List (ℕ × ℕ)) (s s' : TimerSet) : Type 0 where
  pub deleted : Deleted s'.timers xs
  pub others : (p : ℕ) → Lacks p xs → s'.timers p ≡ s.timers p

delete_all-Emptied :
    (xs : List (ℕ × ℕ)) (s : TimerSet)
    → Distinct xs
    → Live s.timers xs
    → (s' : TimerSet) × (delete_all xs s ≡ some s') × Emptied xs s s'
unfolding delete_all
delete_all-Emptied [] s d v = (s, refl, record { deleted = tt; others = λ p l. refl })
delete_all-Emptied (x ∷ xs) s (l, d) ((t, e, g), v) =
    let (s', done, h) =
      delete_all-Emptied xs (put x.1 none s) d (Live-put x.1 none s.timers xs l v) in
    (
      s',
      delete_all-of x xs s t e ∙ done,
      record {
        deleted = (
          h.others x.1 l ∙ ap (λ (b : Bool). if b then none else s.timers x.1) (eq_refl x.1),
          h.deleted,
        );
        others = λ p m.
            h.others p m.1
            ∙ ap (λ (b : Bool). if b then none else s.timers p)
                (not-eq x.1 p (λ same. m.0 (sym same)));
      },
    )

-- The destructor of a set, however it has been used before by timers' functions that leave it alone,
-- deletes the timer of each entry once, and no other timer.
pub Reach-closes :
    (s : TimerSet) → Reach s → (s' : TimerSet) × (close s ≡ some s') × Emptied s.container s s'
unfolding close
Reach-closes s r = let h = Reach-IsLive s r in delete_all-Emptied s.container s h.distinct h.live
