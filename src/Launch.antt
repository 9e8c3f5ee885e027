-- ===== src/Launch.antt =====
-- class CountDownLauch of ydx_countdown_lauch.h and ydx_countdown_lauch.cpp, and the start of class
-- EPollerThread of epoller_thread.h and epoller_thread.cpp: threads that wait on a condition variable.
-- A thread is known by a number; what a thread does while it has the mutex is one step.
pub mod Open
pub mod Handshake
pub mod Close
pub mod Ending
mod Tests
use network_ydxlib.Base.{
  ℕ, suc, ◌+◌, ◌-◌, Bool, true, false, Option, none, some, List, [], ◌∷◌, ◌++◌, ◌==◌, if◌then◌else◌,
}
use network_ydxlib.Base.Int.{ℤ, pos, negsuc, ltb_ℤ, sub_ℤ}

-- The threads that wait, those that were woken and have not looked at the count again, and those that
-- are through.
pub record CountDownLauch : Type 0 where
  pub count : ℤ
  pub waiting : List ℕ
  pub woken : List ℕ
  pub through : List ℕ

abbrev pub launch : (count : ℤ) → CountDownLauch
launch count = record { count = count; waiting = []; woken = []; through = [] }

abbrev pub is_zero : ℤ → Bool
is_zero (pos n) = n == 0
is_zero (negsuc n) = false

unfoldable pub notify_all : CountDownLauch → CountDownLauch
notify_all l = record l { waiting = []; woken = l.waiting ++ l.woken }

unfoldable pub count_down : CountDownLauch → CountDownLauch
unfolding notify_all
count_down l =
    let l' : CountDownLauch = record l { count = sub_ℤ l.count (pos 1) } in
    if is_zero l'.count then notify_all l' else l'

-- The test of the loop of `wait`, when it is called and after each time that the thread wakes.
unfoldable pub wait : ℕ → CountDownLauch → CountDownLauch
wait t l =
    if ltb_ℤ (pos 0) l.count
    then record l { waiting = t ∷ l.waiting }
    else record l { through = t ∷ l.through }

abbrev pub without : ℕ → List ℕ → List ℕ
without t [] = []
without t (x ∷ xs) = if t == x then xs else x ∷ without t xs

-- A woken thread goes on, and a wait ends for no reason, as POSIX allows.
unfoldable pub go_on : ℕ → CountDownLauch → CountDownLauch
unfolding wait
go_on t l = wait t (record l { woken = without t l.woken })

unfoldable pub wake : ℕ → CountDownLauch → CountDownLauch
wake t l = record l { waiting = without t l.waiting; woken = t ∷ l.woken }

-- Where the thread that called `startEpoll` is: it has not tested the pointer since it was last
-- awake, it sleeps, it has left the loop with the mutex, or it has returned what it then read.
pub data Starter : Type 0 where
  testing asleep ready : Starter
  returned : Option ℕ → Starter

-- Where the new thread is: before it has set the pointer, in its loop, or behind it.
pub data Worker : Type 0 where
  starting polling over : Worker

pub record EPollerThread : Type 0 where
  pub epoller : Option ℕ
  pub starter : Starter
  pub worker : Worker

-- Once `thread_.start()` has returned.
abbrev pub start_epoll : EPollerThread
start_epoll = record { epoller = none; starter = testing; worker = starting }

abbrev pub tested : Option ℕ → Starter
tested none = asleep
tested (some e) = ready

abbrev pub notified : Starter → Starter
notified testing = testing
notified asleep = testing
notified ready = ready
notified (returned o) = returned o

-- A turn of the starter, which does nothing while it sleeps.
unfoldable pub turn : Starter → EPollerThread → EPollerThread
turn testing t = record t { starter = tested t.epoller }
turn asleep t = t
turn ready t = record t { starter = returned t.epoller }
turn (returned o) t = t

-- The new thread's loop is at address `epoller`.
unfoldable pub publish : (epoller : ℕ) → EPollerThread → EPollerThread
publish epoller t = record t {
  epoller = some epoller;
  starter = notified t.starter;
  worker = polling;
}

unfoldable pub leave : EPollerThread → EPollerThread
leave t = record t { epoller = none; worker = over }
