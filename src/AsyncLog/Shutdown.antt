-- ===== src/AsyncLog/Shutdown.antt =====
-- AsyncLogging: `stop` while lines are still in memory.
use network_ydxlib.Base.{
  some-inj, ℕ, ◌≡◌, ◌⊎◌, inl, inr, refl, ap, ◌∙◌, sym, subst, Bool, false, some, List, arith,
  if◌then◌else◌,
}
use network_ydxlib.AsyncLog.{
  AsyncLogging, testing, waiting, finished, append_line, stop, turn, turn_in, leave,
}
use network_ydxlib.AsyncLog.Lines.{Run, here, appends, stops, turns}

-- The writing thread is past its last critical section.
record IsOver (a b : AsyncLogging) : Type 0 where
  stopped : b.running ≡ false
  at_test : (b.phase ≡ testing) ⊎ (b.phase ≡ finished)
  same : b.output ≡ a.output

append_line-IsOver :
    (line : List ℕ) (a b : AsyncLogging) → IsOver a b → IsOver a (append_line line b)
unfolding append_line
append_line-IsOver line a b o = ground (arith, o.stopped, o.at_test, o.same)

over-test :
    (notice : ℕ → List ℕ) (b : AsyncLogging)
    → b.running ≡ false
    → b.phase ≡ testing
    → turn notice b ≡ some (leave b)
unfolding turn turn_in
over-test notice b r t =
    ap (λ p. turn_in notice p b) t
    ∙ ap (λ (r : Bool). some (if r then record b { phase = waiting } else leave b)) r

over-finished :
    (notice : ℕ → List ℕ) (b : AsyncLogging) → b.phase ≡ finished → turn notice b ≡ some b
unfolding turn turn_in
over-finished notice b t = ap (λ p. turn_in notice p b) t

leave-IsOver : (a b : AsyncLogging) → IsOver a b → IsOver a (leave b)
unfolding leave
leave-IsOver a b o = record { stopped = o.stopped; at_test = inr refl; same = o.same }

turn-IsOver :
    (notice : ℕ → List ℕ) (a b c : AsyncLogging) → IsOver a b → turn notice b ≡ some c → IsOver a c
turn-IsOver notice a b c o e = elim o.at_test [
  | inl t ↦
      subst (IsOver a) (some-inj (sym (over-test notice b o.stopped t) ∙ e)) (leave-IsOver a b o)
  | inr t ↦ subst (IsOver a) (some-inj (sym (over-finished notice b t) ∙ e)) o
]

Run-IsOver :
    (notice : ℕ → List ℕ) {a b : AsyncLogging} {lines : List ℕ}
    → IsOver a a
    → Run notice a lines b
    → IsOver a b
unfolding stop
Run-IsOver notice o here = o
Run-IsOver notice {a} o (appends {b} line r) = append_line-IsOver line a b (Run-IsOver notice o r)
Run-IsOver notice o (stops r) =
    let before = Run-IsOver notice o r in
    record { stopped = refl; at_test = before.at_test; same = before.same }
Run-IsOver notice {a} o (turns {b} {c} r e) = turn-IsOver notice a b c (Run-IsOver notice o r) e

-- Once `stop` has come and the writing thread is back at the test of its loop, nothing more is given
-- to the file: what is still in memory, and all that is appended from then on, is lost.
pub stop_lost :
    (notice : ℕ → List ℕ) {a b : AsyncLogging} {lines : List ℕ}
    → a.running ≡ false
    → a.phase ≡ testing
    → Run notice a lines b
    → b.output ≡ a.output
stop_lost notice r t run =
    (Run-IsOver notice (record { stopped = r; at_test = inl t; same = refl }) run).same
