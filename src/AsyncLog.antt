-- ===== src/AsyncLog.antt =====
-- class AsyncLogging of async_logging.h and async_logging.cpp: any thread appends lines to a buffer in
-- memory, and one thread writes full buffers to a LogFile. The critical sections are steps that come
-- in any order. A pointer to a buffer is the buffer, or `none` if it is null.
pub mod Sound
pub mod Rounds
pub mod Lines
pub mod Shutdown
mod Tests
use network_ydxlib.Base.{
  ℕ, ◌+◌, ◌-◌, ◌≡◌, Bool, true, false, Option, none, some, List, [], ◌∷◌, ◌++◌, ltb, if◌then◌else◌,
  length, take,
}
use network_ydxlib.Log.{FixedBuffer, avail, append, reset}

-- `kLargeBuffer`.
abbrev pub large_buffer : ℕ
large_buffer = 4000000

abbrev pub new_buffer : FixedBuffer
new_buffer = record { size = large_buffer; text = [] }

-- Where the writing thread stands: at the test of its loop, past it and before its critical section or
-- in the wait there, between the critical section and its output, or out of the loop.
pub data Phase : Type 0 where
  testing waiting writing finished : Phase

-- `current` is never null between critical sections. `new_buffer1`, `new_buffer2` and
-- `buffer_to_write` are the writing thread's own. `output` is what it has given to the file, and
-- `dropped` counts the buffers that it has thrown away.
pub record AsyncLogging : Type 0 where
  pub running : Bool
  pub current : FixedBuffer
  pub next : Option FixedBuffer
  pub buffers : List FixedBuffer
  pub phase : Phase
  pub new1 : Option FixedBuffer
  pub new2 : Option FixedBuffer
  pub to_write : List FixedBuffer
  pub output : List ℕ
  pub dropped : ℕ
  pub flushes : ℕ

abbrev pub started : AsyncLogging
started = record {
  running = true;
  current = new_buffer;
  next = some new_buffer;
  buffers = [];
  phase = testing;
  new1 = some new_buffer;
  new2 = some new_buffer;
  to_write = [];
  output = [];
  dropped = 0;
  flushes = 0;
}

abbrev pub or_new : Option FixedBuffer → FixedBuffer
or_new none = new_buffer
or_new (some b) = b

-- `append`, from any thread.
unfoldable pub append_line : List ℕ → AsyncLogging → AsyncLogging
append_line line a =
    if ltb (length line) (avail a.current)
    then record a { current = append line a.current }
    else record a {
      current = append line (or_new a.next);
      next = none;
      buffers = a.buffers ++ (a.current ∷ []);
    }

unfoldable pub stop : AsyncLogging → AsyncLogging
stop a = record a { running = false }

-- `if (!next_buf_) next_buf_ = move(new_buffer2);`
abbrev pub or_else : Option FixedBuffer → Option FixedBuffer → Option FixedBuffer
or_else none o = o
or_else (some b) o = some b

abbrev pub left_after : Option FixedBuffer → Option FixedBuffer → Option FixedBuffer
left_after none o = none
left_after (some b) o = o

-- The critical section of `threadFunc`, once the wait is over. `none` where `current_buf_` becomes
-- null.
unfoldable pub collect_with : Option FixedBuffer → AsyncLogging → Option AsyncLogging
collect_with none a = none
collect_with (some b) a = some (record a {
  current = b;
  new1 = none;
  next = or_else a.next a.new2;
  new2 = left_after a.next a.new2;
  to_write = a.buffers ++ (a.current ∷ []);
  buffers = a.to_write;
  phase = writing;
})

unfoldable pub collect : AsyncLogging → Option AsyncLogging
unfolding collect_with
collect a = collect_with a.new1 a

-- The text of the buffers, in order.
abbrev pub texts : List FixedBuffer → List ℕ
texts [] = []
texts (b ∷ bs) = b.text ++ texts bs

-- The last buffer, and those before it.
unfoldable pub pop_back : List FixedBuffer → Option (FixedBuffer × List FixedBuffer)
pop_back [] = none
pop_back (b ∷ bs) = elim (pop_back bs) [ none ↦ some (b, []) | some (l, cs) ↦ some (l, b ∷ cs) ]

unfoldable pub reset_popped :
    Option (FixedBuffer × List FixedBuffer) → Option (FixedBuffer × List FixedBuffer)
unfolding reset
reset_popped none = none
reset_popped (some (b, bs)) = some (reset b, bs)

-- `if (!p) { p = buffer_to_write.pop_back(); p->reset(); }`; `none` where there is none to pop, which
-- the source asserts against for the second buffer.
unfoldable pub refill :
    Option FixedBuffer → List FixedBuffer → Option (FixedBuffer × List FixedBuffer)
unfolding reset_popped pop_back
refill (some b) bs = some (b, bs)
refill none bs = reset_popped (pop_back bs)

-- More than 25 buffers are cut to two.
abbrev pub keeps : List FixedBuffer → List FixedBuffer
keeps bs = if ltb 25 (length bs) then take 2 bs else bs

abbrev pub drops : List FixedBuffer → ℕ
drops bs = if ltb 25 (length bs) then length bs - 2 else 0

-- The end of a round: `to_write` is cleared, and the file is flushed.
unfoldable pub end_round :
    FixedBuffer → Option (FixedBuffer × List FixedBuffer) → AsyncLogging → Option AsyncLogging
end_round b1 none a = none
end_round b1 (some (b2, bs)) a = some (record a {
  new1 = some b1;
  new2 = some b2;
  to_write = [];
  flushes = a.flushes + 1;
  phase = testing;
})

unfoldable pub refill_all :
    Option (FixedBuffer × List FixedBuffer) → AsyncLogging → Option AsyncLogging
unfolding refill end_round
refill_all none a = none
refill_all (some (b1, bs)) a = end_round b1 (refill a.new2 bs) a

unfoldable pub leave : AsyncLogging → AsyncLogging
leave a = record a { phase = finished; flushes = a.flushes + 1 }

module _ (notice : ℕ → List ℕ) where
  -- What `threadFunc` does behind its critical section; `notice` is the text of the message about
  -- a number of larger buffers dropped.
  unfoldable pub write_out : AsyncLogging → Option AsyncLogging
  unfolding refill_all
  write_out a =
      let kept = keeps a.to_write in
      refill_all (refill a.new1 (take 2 kept)) (record a {
        output =
            a.output
            ++ ((if ltb 25 (length a.to_write) then notice (drops a.to_write) else [])
                ++ texts kept);
        dropped = a.dropped + drops a.to_write;
      })

  unfoldable pub turn_in : Phase → AsyncLogging → Option AsyncLogging
  unfolding collect write_out leave
  turn_in testing a = some (if a.running then record a { phase = waiting } else leave a)
  turn_in waiting a = collect a
  turn_in writing a = write_out a
  turn_in finished a = some a

  -- What the writing thread does next.
  unfoldable pub turn : AsyncLogging → Option AsyncLogging
  unfolding turn_in
  turn a = turn_in a.phase a
