-- ===== src/Launch/Close.antt =====
-- EPollerThread: its destructor, in a thread of its own beside the new thread's loop.
use network_ydxlib.Base.{suc, ℕ, ◌≡◌, Bool, true, Option, none, some}
use network_ydxlib.Launch.{EPollerThread, polling, over, leave}

-- Where the destructor is: before it, past the test of the pointer that was not null, in the join,
-- and at its end.
pub data Closer : Type 0 where
  before sure joining closed : Closer

-- With `exiting_` and what `quit` sets in the loop.
pub record Closing : Type 0 where
  pub thread : EPollerThread
  pub exiting : Bool
  pub quitting : Bool
  pub closer : Closer

-- The test of the pointer.
unfoldable pub tested : Option ℕ → Closer
tested none = closed
tested (some e) = sure

unfoldable pub begin_close : Closing → Closing
unfolding tested
begin_close c = record c { exiting = true; closer = tested c.thread.epoller }

-- `epoller_->quit()`; `none` is a null pointer.
unfoldable pub quit_by : Option ℕ → Closing → Option Closing
quit_by none c = none
quit_by (some e) c = some (record c { quitting = true; closer = joining })

unfoldable pub quit : Closing → Option Closing
unfolding quit_by
quit c = quit_by c.thread.epoller c

unfoldable pub end_join : Closing → Closing
end_join c = record c { closer = closed }

-- The steps once `startEpoll` has returned. The loop ends after a `quit`, the destructor's or, where `others` says so, one
-- that somebody else calls.
pub data Step (others : Bool) : Closing → Closing → Type 0 where
  begins : {c : Closing} → c.closer ≡ before → Step others c (begin_close c)
  quits : {c d : Closing} → c.closer ≡ sure → quit c ≡ some d → Step others c d
  quits_too : {c : Closing} → others ≡ true → Step others c (record c { quitting = true })
  leaves :
      {c : Closing}
      → c.thread.worker ≡ polling
      → c.quitting ≡ true
      → Step others c (record c { thread = leave c.thread })
  joins : {c : Closing} → c.closer ≡ joining → c.thread.worker ≡ over → Step others c (end_join c)

-- A run of `n` steps.
pub data Reach (others : Bool) (c : Closing) : ℕ → Closing → Type 0 where
  here : Reach others c 0 c
  next : {n : ℕ} {d e : Closing} → Reach others c n d → Step others d e → Reach others c (suc n) e
