-- ===== src/Launch/Ending.antt =====
-- EPollerThread: its destructor comes to its end, and what another `quit` can do to it.
use network_ydxlib.Base.{
  ◌+◌, ℕ, ◌≡◌, ◌<◌, ◌≤◌, ◌⊎◌, inl, inr, arith, some-inj, refl, sym, ap, ◌∙◌, subst, Bool, true,
  false, Option, none, some,
}
use network_ydxlib.Launch.{Worker, starting, polling, over, leave}
use network_ydxlib.Launch.Close.{
  Closer, before, sure, joining, closed, Closing, tested, begin_close, quit_by, quit, end_join,
  Step, begins, quits, quits_too, leaves, joins, Reach, here, next,
}

-- Where the loop is while nobody else calls `quit`, by where the destructor is.
pub data IsAt (epoller : ℕ) : Closer → Bool → Option ℕ → Worker → Type 0 where
  runs : IsAt epoller before false (some epoller) polling
  is_sure : IsAt epoller sure false (some epoller) polling
  is_told : IsAt epoller joining true (some epoller) polling
  is_over : IsAt epoller joining true none over
  is_done : IsAt epoller closed true none over

abbrev pub At : ℕ → Closing → Type 0
At epoller c = IsAt epoller c.closer c.quitting c.thread.epoller c.thread.worker

built :
    {epoller : ℕ} {c d : Closer} {q r : Bool} {o p : Option ℕ} {w v : Worker}
    → d ≡ c
    → r ≡ q
    → p ≡ o
    → v ≡ w
    → IsAt epoller c q o w
    → IsAt epoller d r p v
built {epoller} {c} {d} {q} {r} {o} {p} {w} {v} e f g h a =
    subst (λ x. IsAt epoller x r p v) (sym e)
      (subst (λ x. IsAt epoller c x p v) (sym f)
        (subst (λ x. IsAt epoller c q x v) (sym g) (subst (λ x. IsAt epoller c q o x) (sym h) a)))

abbrev pub rank : Closer → Worker → ℕ
rank before w = 4
rank sure w = 3
rank joining polling = 2
rank joining starting = 2
rank joining over = 1
rank closed w = 0

ranked :
    {c d k l : Closer} {w v x y : Worker}
    → d ≡ k
    → v ≡ x
    → c ≡ l
    → w ≡ y
    → rank k x < rank l y
    → rank d v < rank c w
ranked e f g h less = rw (e, f, g, h) less

-- A step of the destructor or of the loop, and how much nearer the end it is.
abbrev Nearer : ℕ → Closing → Closing → Type 0
Nearer epoller c d = At epoller d × (rank d.closer d.thread.worker < rank c.closer c.thread.worker)

Step-Nearer_by :
    {epoller : ℕ} {k : Closer} {q : Bool} {o : Option ℕ} {w : Worker} {c d : Closing}
    → c.closer ≡ k
    → c.quitting ≡ q
    → c.thread.epoller ≡ o
    → c.thread.worker ≡ w
    → IsAt epoller k q o w
    → Step false c d
    → Nearer epoller c d
unfolding begin_close tested quit quit_by end_join leave
Step-Nearer_by ke qe oe we runs (begins e) =
    (built (ap tested oe) qe oe we is_sure, ranked (ap tested oe) we ke we (omega arith))
Step-Nearer_by ke qe oe we runs (quits e f) = absurd (cc (e, ke))
Step-Nearer_by ke qe oe we runs (leaves e f) = absurd (cc (f, qe))
Step-Nearer_by ke qe oe we runs (joins e f) = absurd (cc (e, ke))
Step-Nearer_by ke qe oe we is_sure (begins e) = absurd (cc (e, ke))
Step-Nearer_by {epoller} {c = c} ke qe oe we is_sure (quits e f) =
    let told = some-inj (sym (ap (λ x. quit_by x c) oe) ∙ f) in
    let near : rank joining c.thread.worker < rank c.closer c.thread.worker =
      ranked {d = joining} {l = sure} {x = polling} {y = polling} refl we ke we (omega arith) in
    subst (Nearer epoller c) told (built refl refl oe we is_told, near)
Step-Nearer_by ke qe oe we is_sure (leaves e f) = absurd (cc (f, qe))
Step-Nearer_by ke qe oe we is_sure (joins e f) = absurd (cc (e, ke))
Step-Nearer_by ke qe oe we is_told (begins e) = absurd (cc (e, ke))
Step-Nearer_by ke qe oe we is_told (quits e f) = absurd (cc (e, ke))
Step-Nearer_by ke qe oe we is_told (leaves e f) =
    (built ke qe refl refl is_over, ranked ke refl ke we (omega arith))
Step-Nearer_by ke qe oe we is_told (joins e f) = absurd (cc (f, we))
Step-Nearer_by ke qe oe we is_over (begins e) = absurd (cc (e, ke))
Step-Nearer_by ke qe oe we is_over (quits e f) = absurd (cc (e, ke))
Step-Nearer_by ke qe oe we is_over (leaves e f) = absurd (cc (e, we))
Step-Nearer_by ke qe oe we is_over (joins e f) = (
  built refl qe oe we is_done,
  ranked {d = closed} {k = closed} {l = joining} {x = over} {y = over} refl we ke we (omega arith),
)
Step-Nearer_by ke qe oe we is_done (begins e) = absurd (cc (e, ke))
Step-Nearer_by ke qe oe we is_done (quits e f) = absurd (cc (e, ke))
Step-Nearer_by ke qe oe we is_done (leaves e f) = absurd (cc (e, we))
Step-Nearer_by ke qe oe we is_done (joins e f) = absurd (cc (e, ke))
Step-Nearer_by ke qe oe we _ (quits_too e) = absurd (cc e)

Step-Nearer : {epoller : ℕ} {c d : Closing} → At epoller c → Step false c d → Nearer epoller c d
Step-Nearer a s = Step-Nearer_by refl refl refl refl a s

le_refl : (n : ℕ) → 0 + n ≤ n
le_refl n = omega arith

Reach-At :
    {epoller : ℕ} {c : Closing} {n : ℕ} {d : Closing}
    → At epoller c
    → Reach false c n d
    → At epoller d × (n + rank d.closer d.thread.worker ≤ rank c.closer c.thread.worker)
Reach-At {c = c} a here = (a, le_refl (rank c.closer c.thread.worker))
Reach-At a (next r s) =
    let (b, h) = Reach-At a r in let (d, less) = Step-Nearer b s in (d, omega (arith, h, less))

-- There is a step, or the end.
goes_on :
    {epoller : ℕ} {k : Closer} {q : Bool} {o : Option ℕ} {w : Worker} {c : Closing}
    → c.closer ≡ k
    → c.quitting ≡ q
    → c.thread.epoller ≡ o
    → c.thread.worker ≡ w
    → IsAt epoller k q o w
    → ((d : Closing) × Step false c d) ⊎ ((c.closer ≡ closed) × (c.thread.worker ≡ over))
unfolding quit quit_by
goes_on {c = c} ke qe oe we runs = inl (begin_close c, begins ke)
goes_on {c = c} ke qe oe we is_sure =
    inl (record c { quitting = true; closer = joining }, quits ke (ap (λ x. quit_by x c) oe))
goes_on {c = c} ke qe oe we is_told = inl (record c { thread = leave c.thread }, leaves we qe)
goes_on {c = c} ke qe oe we is_over = inl (end_join c, joins ke we)
goes_on {c = c} ke qe oe we is_done = inr (ke, we)

-- Let `startEpoll` have returned, the loop run, and nobody else call `quit`. Then however the steps of
-- the destructor and of the loop follow each other, there are four of them at most, and as long as
-- the destructor has not ended, with the loop ended before it, there is one more to be made.
pub Reach-ends :
    {epoller n : ℕ} {c d : Closing}
    → c.closer ≡ before
    → c.quitting ≡ false
    → c.thread.epoller ≡ some epoller
    → c.thread.worker ≡ polling
    → Reach false c n d
    → (n ≤ 4)
      × (((e : Closing) × Step false d e) ⊎ ((d.closer ≡ closed) × (d.thread.worker ≡ over)))
Reach-ends {epoller} {n} {c} {d} ke qe oe we r =
    let (a, h) : At epoller d
        × (n + rank d.closer d.thread.worker ≤ rank c.closer c.thread.worker) =
      Reach-At (built ke qe oe we runs) r in
    let four : rank c.closer c.thread.worker ≡ 4 = ap (λ k. rank k c.thread.worker) ke in
    (omega (arith, h, four), goes_on refl refl refl refl a)

-- Where somebody else may call `quit` on the running loop, the loop may end between the destructor's test of
-- the pointer and its own `quit`, which then goes through a null pointer.
pub quit-none :
    (epoller : ℕ) (c : Closing)
    → c.closer ≡ before
    → c.thread.epoller ≡ some epoller
    → c.thread.worker ≡ polling
    → (d : Closing) × Reach true c 3 d × (d.closer ≡ sure) × (quit d ≡ none)
unfolding begin_close tested quit quit_by leave
quit-none epoller c ke oe we =
    let d : Closing = record (begin_close c) { quitting = true } in
    (
      record d { thread = leave d.thread },
      next (next (next here (begins ke)) (quits_too refl)) (leaves we refl),
      ap tested oe,
      refl,
    )
