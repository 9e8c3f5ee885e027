-- ===== src/AsyncLog/Lines.antt =====
-- AsyncLogging: no line is lost or moved, and no pointer is null where it is used.
use network_ydxlib.Base.{
  ℕ, ◌≤◌, ◌≡◌, sym, ap, ◌∙◌, subst, some, List, [], ◌++◌, append_assoc, append-nil, arith,
}
use network_ydxlib.AsyncLog.{AsyncLogging, append_line, stop, turn}
use network_ydxlib.AsyncLog.Rounds.{turn-Turned}
use network_ydxlib.AsyncLog.Sound.{IsSound, stream, logged, append_line-stream}

some-inj : {a b : AsyncLogging} → some a ≡ some b → a ≡ b
some-inj e = cc

module _ (notice : ℕ → List ℕ) where
  -- Calls of `append` and `stop` and turns of the writing thread, in any order; the list is what has
  -- been appended.
  pub data Run (a : AsyncLogging) : List ℕ → AsyncLogging → Type 0 where
    here : Run a [] a
    appends :
        {b : AsyncLogging} {lines : List ℕ} (line : List ℕ)
        → Run a lines b
        → Run a (lines ++ logged line) (append_line line b)
    stops : {b : AsyncLogging} {lines : List ℕ} → Run a lines b → Run a lines (stop b)
    turns :
        {b c : AsyncLogging} {lines : List ℕ}
        → Run a lines b
        → turn notice b ≡ some c
        → Run a lines c

  record Ran (a : AsyncLogging) (lines : List ℕ) (b : AsyncLogging) : Type 0 where
    sound : IsSound b
    dropped : a.dropped ≤ b.dropped
    kept : a.dropped ≡ b.dropped → stream b ≡ stream a ++ lines

  append_line-dropped :
      (line : List ℕ) (a : AsyncLogging) → (append_line line a).dropped ≡ a.dropped
  unfolding append_line
  append_line-dropped line a = ground arith

  stop-IsSound : (a : AsyncLogging) → IsSound a → IsSound (stop a)
  unfolding stop
  stop-IsSound a s = record {
    current_large = s.current_large;
    next_empty = s.next_empty;
    new1_empty = s.new1_empty;
    new2_empty = s.new2_empty;
    buffers_large = s.buffers_large;
    to_write_large = s.to_write_large;
    next_used = s.next_used;
    supplied = s.supplied;
  }

  Run-Ran : {a b : AsyncLogging} {lines : List ℕ} → IsSound a → Run a lines b → Ran a lines b
  unfolding stop
  Run-Ran {a} s here = record {
    sound = s;
    dropped = omega arith;
    kept = λ d. sym (append-nil (stream a));
  }
  Run-Ran {a} s (appends {b} {lines} line r) =
      let before = Run-Ran s r in
      let (sound, same) = append_line-stream line b before.sound in
      let d = append_line-dropped line b in
      record {
        sound = sound;
        dropped = omega (arith, d, before.dropped);
        kept = λ k.
            same
            ∙ ap (λ l. l ++ logged line) (before.kept (omega (arith, k, d)))
            ∙ append_assoc (stream a) lines (logged line);
      }
  Run-Ran {a} s (stops {b} r) =
      let before = Run-Ran s r in
      record { sound = stop-IsSound b before.sound; dropped = before.dropped; kept = before.kept }
  Run-Ran {a} {lines} s (turns {b} {c} r e) =
      let before = Run-Ran s r in
      let (c', e', t) = turn-Turned notice b before.sound in
      let same : c' ≡ c = some-inj (sym e' ∙ e) in
      subst (λ x. Ran a lines x) same
        (record {
          sound = t.sound;
          dropped = omega (arith, t.dropped, before.dropped);
          kept = λ k.
              t.kept (omega (arith, k, t.dropped, before.dropped))
              ∙ before.kept (omega (arith, k, t.dropped, before.dropped));
        })

  -- Whatever threads append and however they and the writing thread alternate, no line is lost or
  -- moved: unless buffers have been dropped, what the file has been given, followed by the buffers
  -- that wait and the current one, is all that was appended, in order. Lines that do not fit an empty
  -- buffer are not appended.
  pub Run-stream :
      {a b : AsyncLogging} {lines : List ℕ}
      → IsSound a
      → Run a lines b
      → b.dropped ≡ a.dropped
      → stream b ≡ stream a ++ lines
  Run-stream s r d = (Run-Ran s r).kept (sym d)

  -- The writing thread can always go on: `current_buf_` does not become null, there is a buffer
  -- wherever one is popped, and the assertion on that holds.
  pub Run-turn :
      {a b : AsyncLogging} {lines : List ℕ}
      → IsSound a
      → Run a lines b
      → (c : AsyncLogging) × (turn notice b ≡ some c)
  Run-turn {b} s r = let (c, e, t) = turn-Turned notice b (Run-Ran s r).sound in (c, e)
