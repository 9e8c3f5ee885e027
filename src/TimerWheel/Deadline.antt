-- ===== src/TimerWheel/Deadline.antt =====
-- TimerWheel: each node by itself, as a countdown that knows nothing of buckets.
use network_ydxlib.Base.{
  ℕ, zero, suc, ◌+◌, ◌<◌, ◌≡◌, refl, ap, ◌∙◌, Bool, true, false, Option, none, some, List, [], ◌∷◌,
  ◌++◌, ◌==◌, ltb, if◌then◌else◌, arith, drop, length,
}
use network_ydxlib.Base.Int.{ℤ, pos, negsuc}
use network_ydxlib.Timestamp.{Timestamp, time_difference_micro}
use network_ydxlib.TimerWheel.{holds, release, oldest}
use network_ydxlib.TimerWheel.Count.{
  newer, count, count-release, age, is_some, older, is_held-age, age-push, age-bound,
}

-- How long ago a node was last put on the wheel, unless it is gone, and how often it has fired.
pub record Countdown : Type 0 where
  pub time : Timestamp
  pub age : Option ℕ
  pub fired : ℕ

abbrev pub passes : ℕ → Option ℕ → Option ℕ × ℕ
passes len none = (none, 0)
passes len (some a) = if ltb (suc a) len then (some (suc a), 0) else (none, 1)

-- A bucket's time passes, on a wheel of `len` buckets.
abbrev pub tick : ℕ → Countdown → Countdown
tick len s = let (o, f) = passes len s.age in record s { age = o; fired = s.fired + f }

abbrev pub ticks : ℕ → ℕ → Countdown → Countdown
ticks len zero s = s
ticks len (suc k) s = ticks len k (tick len s)

passes-newer :
    (b : Bool) (k : ℕ) (o : Option ℕ)
    → ((a : ℕ) → o ≡ some a → a < k)
    → (older o ≡ (passes (suc k) (newer b k o)).0)
      × ((if is_some o then 0 else if b then 1 else 0) ≡ (passes (suc k) (newer b k o)).1)
passes-newer true k none h = ground arith
passes-newer false k none h = (refl, refl)
passes-newer true k (some a) h = let less = h a refl in ground (arith, less)
passes-newer false k (some a) h = let less = h a refl in ground (arith, less)

-- One bucket of a list goes, and an empty one comes.
pub age-passes :
    (n : ℕ) (xs : List (List ℕ))
    → (age n (drop 1 xs ++ ([] ∷ [])) ≡ (passes (length xs) (age n xs)).0)
      × (count n (release (oldest xs) (drop 1 xs)) ≡ (passes (length xs) (age n xs)).1)
age-passes n [] = (refl, refl)
age-passes n (x ∷ xs) =
    let (aged, went) = passes-newer (holds n x) (length xs) (age n xs) (age-bound n xs) in
    (
      age-push n xs ∙ aged,
      count-release n x xs
          ∙ ap (λ (b : Bool). if b then 0 else if holds n x then 1 else 0) (is_held-age n xs)
          ∙ went,
    )

-- What the other nodes' calls and this node's make of its countdown.
abbrev pub put : (same : Bool) → Countdown → Countdown
put true s = record s { age = some 0 }
put false s = s

abbrev pub dropped : (same : Bool) → Countdown → Countdown
dropped true s = record s { fired = s.fired + 1 }
dropped false s = s

abbrev pub add_diff : ℕ → (same : Bool) → ℤ → Timestamp → Countdown → Countdown
add_diff len same (negsuc k) time s = dropped same s
add_diff len same (pos zero) time s = put same s
add_diff len same (pos (suc k)) time s = put same (ticks len (suc k) (record s { time = time }))

abbrev pub add : ℕ → (same : Bool) → Timestamp → Countdown → Countdown
add len same time s = add_diff len same (time_difference_micro time s.time) time s

abbrev pub refresh : (same : Bool) → Countdown → Countdown
refresh same s = if is_some s.age then put same s else s

-- A call: with the time, and the node's number.
pub data Call : Type 0 where
  adds : Timestamp → ℕ → Call
  refreshes : ℕ → Call

abbrev pub after_call : ℕ → (n : ℕ) → Call → Countdown → Countdown
after_call len n (adds time k) s = add len (n == k) time s
after_call len n (refreshes k) s = refresh (n == k) s

abbrev pub after_calls : ℕ → (n : ℕ) → List Call → Countdown → Countdown
after_calls len n [] s = s
after_calls len n (c ∷ cs) s = after_calls len n cs (after_call len n c s)
