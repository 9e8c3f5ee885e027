-- ===== src/Timers.antt =====
-- class TimerSet of ydx_timer_set.h and ydx_timer_set.cpp, with Timer of ydx_timer.h and
-- ydx_timer.cpp: timers in the order of their expiry, on the loop's thread. A timer is known by its
-- address; times are microseconds since the epoch. `none` is a use of a deleted timer or a failed
-- assertion.
pub mod Expiry
pub mod Cancel
pub mod Live
pub mod Alone
pub mod Erase
pub mod Life
pub mod Close
pub mod Posted
pub mod Descriptor
mod Tests
use network_ydxlib.Base.{
  ℕ, ◌+◌, ◌-◌, ◌*◌, ◌/◌, ◌%◌, ◌^◌, Bool, true, false, ◌&&◌, ◌||◌, Option, none, some, List, [], ◌∷◌,
  ◌++◌, ltb, ◌==◌, if◌then◌else◌,
}

-- `interval` is `interval_ * micro_seconds_per_sec`, cut to an integer.
pub record Timer : Type 0 where
  pub expiration : ℕ
  pub interval : ℕ
  pub repeats : Bool

-- `timers` gives the timer at an address, `none` once it is deleted. `alarm` is the last setting of
-- the timerfd, in seconds and nanoseconds from then on, and `ran` lists the timers run.
pub record TimerSet : Type 0 where
  pub container : List (ℕ × ℕ)
  pub timers : ℕ → Option Timer
  pub alarm : Option (ℕ × ℕ)
  pub ran : List ℕ

-- The largest address, which the sentry has.
abbrev pub uintptr_max : ℕ
uintptr_max = 2 ^ 64 - 1

-- The order of `std::pair`.
unfoldable pub before : ℕ × ℕ → ℕ × ℕ → Bool
before (t, p) (u, q) = ltb t u || ((t == u) && ltb p q)

-- The entry `x` goes before `y`, behind it where `rest` has it, or is there already.
unfoldable pub insert_at :
    ℕ × ℕ → ℕ × ℕ → List (ℕ × ℕ) → (rest : Option (List (ℕ × ℕ))) → Option (List (ℕ × ℕ))
unfolding before
insert_at x y ys none = if before x y then some (x ∷ y ∷ ys) else none
insert_at x y ys (some zs) =
    if before x y then some (x ∷ y ∷ ys) else if before y x then some (y ∷ zs) else none

-- `std::set::insert`; `none` where the entry is there already, which the source asserts against.
unfoldable pub insert_entry : ℕ × ℕ → List (ℕ × ℕ) → Option (List (ℕ × ℕ))
unfolding insert_at
insert_entry x [] = some (x ∷ [])
insert_entry x (y ∷ ys) = insert_at x y ys (insert_entry x ys)

unfoldable pub erase_entry : ℕ × ℕ → List (ℕ × ℕ) → List (ℕ × ℕ)
erase_entry x [] = []
erase_entry x (y ∷ ys) = if (x.0 == y.0) && (x.1 == y.1) then ys else y ∷ erase_entry x ys

-- `howMuchTimeFromNow`; a difference below 100, negative ones included, becomes 100.
unfoldable pub how_much : (when now : ℕ) → ℕ × ℕ
how_much when now =
    let microseconds = if ltb (when - now) 100 then 100 else when - now in
    (microseconds / 1000000, microseconds % 1000000 * 1000)

unfoldable pub reset_timerfd : (when now : ℕ) → TimerSet → TimerSet
unfolding how_much
reset_timerfd when now s = record s { alarm = some (how_much when now) }

abbrev pub put : ℕ → Option Timer → TimerSet → TimerSet
put p t s = record s { timers = λ q. if p == q then t else s.timers q }

unfoldable pub is_earliest : ℕ → List (ℕ × ℕ) → Bool
is_earliest when [] = true
is_earliest when (x ∷ xs) = ltb when x.0

-- `insert`, of the timer `t` at `p`.
unfoldable pub insert : ℕ → Timer → TimerSet → Option (Bool × TimerSet)
unfolding is_earliest insert_entry
insert p t s = elim (insert_entry (t.expiration, p) s.container) [
  | none ↦ none
  | some xs ↦ some (is_earliest t.expiration s.container, record s { container = xs })
]

unfoldable pub add_timer_in_loop : ℕ → (now : ℕ) → TimerSet → Option TimerSet
unfolding insert reset_timerfd
add_timer_in_loop p now s = elim (s.timers p) [
  | none ↦ none
  | some t ↦ elim (insert p t s) [
    | none ↦ none
    | some (earliest, s') ↦ some (if earliest then reset_timerfd t.expiration now s' else s')
  ]
]

unfoldable pub cancel_in_loop : ℕ → TimerSet → Option TimerSet
unfolding erase_entry
cancel_in_loop p s = elim (s.timers p) [
  | none ↦ none
  | some t ↦ some (put p none (record s { container = erase_entry (t.expiration, p) s.container }))
]

-- The entries before `lower_bound(sentry)`, and the others.
unfoldable pub split : (now : ℕ) → List (ℕ × ℕ) → List (ℕ × ℕ) × List (ℕ × ℕ)
unfolding before
split now [] = ([], [])
split now (x ∷ xs) =
    let (front, back) = split now xs in
    if before x (now, uintptr_max) then (x ∷ front, back) else ([], x ∷ xs)

unfoldable pub is_later : (now : ℕ) → List (ℕ × ℕ) → Bool
is_later now [] = true
is_later now (x ∷ xs) = ltb now x.0

unfoldable pub get_expired : (now : ℕ) → TimerSet → Option (List (ℕ × ℕ) × TimerSet)
unfolding split is_later
get_expired now s =
    let (front, back) = split now s.container in
    if is_later now back then some (front, record s { container = back }) else none

unfoldable pub restart : (now : ℕ) → Timer → Timer
restart now t = record t { expiration = if t.repeats then now + t.interval else 0 }

-- One timer that has run: put back if it repeats, deleted if not.
unfoldable pub put_back : (now : ℕ) → ℕ → Timer → TimerSet → Option TimerSet
unfolding restart insert
put_back now p t s =
    if t.repeats
    then elim (insert p (restart now t) (put p (some (restart now t)) s)) [
      | none ↦ none
      | some (earliest, s') ↦ some s'
    ]
    else some (put p none s)

unfoldable pub put_all : (now : ℕ) → List (ℕ × ℕ) → TimerSet → Option TimerSet
unfolding put_back
put_all now [] s = some s
put_all now (x ∷ xs) s = elim (s.timers x.1) [
  | none ↦ none
  | some t ↦ elim (put_back now x.1 t s) [ none ↦ none | some s' ↦ put_all now xs s' ]
]

-- The timer of the first entry sets the alarm; `later` is the time when it is set.
unfoldable pub set_alarm : (later : ℕ) → List (ℕ × ℕ) → TimerSet → Option TimerSet
unfolding reset_timerfd
set_alarm later [] s = some s
set_alarm later (x ∷ xs) s = elim (s.timers x.1) [
  | none ↦ none
  | some t ↦ some (if ltb 0 t.expiration then reset_timerfd t.expiration later s else s)
]

unfoldable pub reset : List (ℕ × ℕ) → (now later : ℕ) → TimerSet → Option TimerSet
unfolding put_all set_alarm
reset expired now later s = elim (put_all now expired s) [
  | none ↦ none
  | some s' ↦ set_alarm later s'.container s'
]

-- `reset`, once the expired timers have run.
unfoldable pub finish : List (ℕ × ℕ) → (now later : ℕ) → Option TimerSet → Option TimerSet
unfolding reset
finish expired now later none = none
finish expired now later (some s) = reset expired now later s

-- The constructor, but for the channel of the timerfd; `timers` are the program's other timers.
abbrev pub new_timer_set : (timers : ℕ → Option Timer) → TimerSet
new_timer_set timers = record { container = []; timers = timers; alarm = none; ran = [] }

-- The destructor deletes the timers of all entries; `none` is a timer deleted before.
unfoldable pub delete_all : List (ℕ × ℕ) → TimerSet → Option TimerSet
delete_all [] s = some s
delete_all (x ∷ xs) s = elim (s.timers x.1) [
  | none ↦ none
  | some t ↦ delete_all xs (put x.1 none s)
]

unfoldable pub close : TimerSet → Option TimerSet
unfolding delete_all
close s = delete_all s.container s

module _ (callback : ℕ → TimerSet → Option TimerSet) where
  -- `it->second->run()` of each expired timer; what a timer's function does is an argument.
  unfoldable pub run_all : List (ℕ × ℕ) → TimerSet → Option TimerSet
  run_all [] s = some s
  run_all (x ∷ xs) s = elim (s.timers x.1) [
    | none ↦ none
    | some t ↦ elim (callback x.1 (record s { ran = s.ran ++ (x.1 ∷ []) })) [
      | none ↦ none
      | some s' ↦ run_all xs s'
    ]
  ]

  unfoldable pub run_expired : (now later : ℕ) → Option (List (ℕ × ℕ) × TimerSet) → Option TimerSet
  unfolding run_all
  run_expired now later none = none
  run_expired now later (some (expired, s)) = finish expired now later (run_all expired s)

  unfoldable pub handle_read : (now later : ℕ) → TimerSet → Option TimerSet
  unfolding get_expired run_expired
  handle_read now later s = run_expired now later (get_expired now s)
