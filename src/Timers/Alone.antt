-- ===== src/Timers/Alone.antt =====
-- TimerSet: an expiry, where the functions of the timers leave the set alone.
use network_ydxlib.Base.{
  ℕ, ◌≡◌, refl, sym, ap, some-inj, subst, ◌∙◌, inl, inr, ltb, Bool, true, false, Bool-cases, Option,
  none, some, List, [], ◌∷◌, ◌++◌, if◌then◌else◌, append_assoc, append-nil,
}
use network_ydxlib.Timers.{
  Timer, TimerSet, put, put_all, set_alarm, reset_timerfd, reset, run_all, run_expired, finish,
  handle_read, get_expired, split, is_later,
}
use network_ydxlib.Timers.Expiry.{IsSorted, AreAddresses, AreDue, AreLater, get_expired_lem}
use network_ydxlib.Timers.Live.{Lacks, Distinct, Live, Apart, IsLive, put_all-IsLive}

Lacks-append : (p : ℕ) (xs ys : List (ℕ × ℕ)) → Lacks p (xs ++ ys) → Lacks p xs × Lacks p ys
Lacks-append p [] ys l = (tt, l)
Lacks-append p (x ∷ xs) ys (d, l) = let (a, b) = Lacks-append p xs ys l in ((d, a), b)

Distinct-append :
    (xs ys : List (ℕ × ℕ)) → Distinct (xs ++ ys) → Distinct xs × Distinct ys × Apart xs ys
Distinct-append [] ys d = (tt, d, tt)
Distinct-append (x ∷ xs) ys (l, d) =
    let (a, b, c) = Distinct-append xs ys d in
    let (m, n) = Lacks-append x.1 xs ys l in ((m, a), b, (n, c))

Live-append :
    (f : ℕ → Option Timer) (xs ys : List (ℕ × ℕ)) → Live f (xs ++ ys) → Live f xs × Live f ys
Live-append f [] ys v = (tt, v)
Live-append f (x ∷ xs) ys (t, v) = let (a, b) = Live-append f xs ys v in ((t, a), b)

AreAddresses-append :
    (xs ys : List (ℕ × ℕ)) → AreAddresses (xs ++ ys) → AreAddresses xs × AreAddresses ys
AreAddresses-append [] ys b = (tt, b)
AreAddresses-append (x ∷ xs) ys (b, c) = let (l, r) = AreAddresses-append xs ys c in ((b, l), r)

IsSorted-append : (xs ys : List (ℕ × ℕ)) → IsSorted (xs ++ ys) → IsSorted ys
IsSorted-append [] ys s = s
IsSorted-append (x ∷ xs) ys (a, s) = IsSorted-append xs ys s

-- A timer's function that does nothing to the set.
abbrev pub leave_alone : ℕ → TimerSet → Option TimerSet
leave_alone p s = some s

abbrev pub addresses : List (ℕ × ℕ) → List ℕ
addresses [] = []
addresses (x ∷ xs) = x.1 ∷ addresses xs

run_all-of :
    (x : ℕ × ℕ) (xs : List (ℕ × ℕ)) (s : TimerSet) (t : Timer)
    → s.timers x.1 ≡ some t
    → run_all leave_alone (x ∷ xs) s
      ≡ run_all leave_alone xs (record s { ran = s.ran ++ (x.1 ∷ []) })
unfolding run_all
run_all-of x xs s t e = rw (run_all, e) refl

run_all-alone :
    (xs : List (ℕ × ℕ)) (s : TimerSet)
    → Live s.timers xs
    → run_all leave_alone xs s ≡ some (record s { ran = s.ran ++ addresses xs })
unfolding run_all
run_all-alone [] s v = ap (λ (r : List ℕ). some (record s { ran = r })) (sym (append-nil s.ran))
run_all-alone (x ∷ xs) s ((t, e, g), v) =
    run_all-of x xs s t e
    ∙ run_all-alone xs (record s { ran = s.ran ++ (x.1 ∷ []) }) v
    ∙ ap (λ (r : List ℕ). some (record s { ran = r }))
        (append_assoc s.ran (x.1 ∷ []) (addresses xs))

set_alarm-of :
    (later : ℕ) (x : ℕ × ℕ) (xs : List (ℕ × ℕ)) (s : TimerSet) (t : Timer)
    → s.timers x.1 ≡ some t
    → set_alarm later (x ∷ xs) s
      ≡ some (if ltb 0 t.expiration then reset_timerfd t.expiration later s else s)
unfolding set_alarm
set_alarm-of later x xs s t e = rw (set_alarm, e) refl

-- Setting the alarm leaves the timers as they are.
pub record Same (s s' : TimerSet) : Type 0 where
  pub container : s'.container ≡ s.container
  pub timers : s'.timers ≡ s.timers
  pub ran : s'.ran ≡ s.ran

pub if-Same :
    (b : Bool) (when later : ℕ) (s : TimerSet)
    → Same s (if b then reset_timerfd when later s else s)
unfolding reset_timerfd
if-Same true when later s = record { container = refl; timers = refl; ran = refl }
if-Same false when later s = record { container = refl; timers = refl; ran = refl }

set_alarm-Same :
    (later : ℕ) (xs : List (ℕ × ℕ)) (s : TimerSet)
    → Live s.timers xs
    → (s' : TimerSet) × (set_alarm later xs s ≡ some s') × Same s s'
unfolding set_alarm
set_alarm-Same later [] s v = (s, refl, record { container = refl; timers = refl; ran = refl })
set_alarm-Same later (x ∷ xs) s ((t, e, g), v) = (
  if ltb 0 t.expiration then reset_timerfd t.expiration later s else s,
  set_alarm-of later x xs s t e,
  if-Same (ltb 0 t.expiration) t.expiration later s,
)

none-some : {A : Type 0} → {a : A} → none ≡ some a → ⊥
none-some e = cc

get_expired-kept :
    (now : ℕ) (s s' : TimerSet) (front : List (ℕ × ℕ))
    → get_expired now s ≡ some (front, s')
    → (s'.timers ≡ s.timers) × (s'.ran ≡ s.ran)
unfolding get_expired
get_expired-kept now s s' front e = elim (Bool-cases (is_later now back)) [
  | inl h ↦
      let same : some (front, s')
          ≡ some ((split now s.container).0, record s { container = back }) =
        sym e ∙ ap chosen h in
      let both = some-inj same in (ap (λ x. x.1.timers) both, ap (λ x. x.1.ran) both)
  | inr h ↦ absurd (none-some (sym (ap chosen h) ∙ e))
]
  where
    back : List (ℕ × ℕ)
    back = (split now s.container).1

    chosen : Bool → Option (List (ℕ × ℕ) × TimerSet)
    chosen b = if b then some ((split now s.container).0, record s { container = back }) else none

reset-of :
    (xs : List (ℕ × ℕ)) (now later : ℕ) (s s' : TimerSet)
    → put_all now xs s ≡ some s'
    → reset xs now later s ≡ set_alarm later s'.container s'
unfolding reset
reset-of xs now later s s' e = rw (reset, e) refl

-- Let the entries of the set be in order, of addresses below the largest, each of another timer that
-- is there, with its time, and let the functions of the timers do nothing to the set. Then
-- `handleRead` ends without using a deleted timer; it runs just the timers that are due, each once
-- and in their order, and leaves the set so that each of its entries is of a timer that is there.
pub handle_read-IsLive :
    (now later : ℕ) (s : TimerSet)
    → IsLive s
    → (due rest : List (ℕ × ℕ)) × (s' : TimerSet) × (handle_read leave_alone now later s ≡ some s')
      × (due ++ rest ≡ s.container)
      × AreDue now due
      × AreLater now rest
      × (s'.ran ≡ s.ran ++ addresses due)
      × IsLive s'
unfolding handle_read run_expired finish reset
handle_read-IsLive now later s h =
    let (front, s1, got, whole, due, after) = get_expired_lem now s h.sorted h.bounded in
    let (kept, ran1) = get_expired-kept now s s1 front got in
    let (df, db, apart) =
      Distinct-append front s1.container (subst Distinct (sym whole) h.distinct) in
    let (lf, lb) = Live-append s1.timers front s1.container (
      subst (λ f. Live f (front ++ s1.container)) (sym kept)
        (subst (Live s.timers) (sym whole) h.live)) in
    let (bf, bb) =
      AreAddresses-append front s1.container (subst AreAddresses (sym whole) h.bounded) in
    let sb = IsSorted-append front s1.container (subst IsSorted (sym whole) h.sorted) in
    let s2 : TimerSet = record s1 { ran = s1.ran ++ addresses front } in
    let (s3, put, sound, ran3) =
      put_all-IsLive now front s2 (record { sorted = sb; bounded = bb; distinct = db; live = lb })
        bf df lf apart in
    let (s4, set, same) = set_alarm-Same later s3.container s3 sound.live in
    (
      front,
      s1.container,
      s4,
      ap (run_expired leave_alone now later) got
          ∙ ap (finish front now later) (run_all-alone front s1 lf)
          ∙ reset-of front now later s2 s3 put
          ∙ set,
      whole,
      due,
      after,
      same.ran ∙ ran3 ∙ ap (λ r. r ++ addresses front) ran1,
      record {
        sorted = subst IsSorted (sym same.container) sound.sorted;
        bounded = subst AreAddresses (sym same.container) sound.bounded;
        distinct = subst Distinct (sym same.container) sound.distinct;
        live =
            subst (Live s4.timers) (sym same.container)
              (subst (λ f. Live f s3.container) (sym same.timers) sound.live);
      },
    )
