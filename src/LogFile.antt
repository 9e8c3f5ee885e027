-- ===== src/LogFile.antt =====
-- class LogFile of log_file.h and log_file.cpp, with AppendFile of file_util.h and file_util.cpp: log
-- files of a bounded size, one after the other. What `fwrite` and `time` give is an argument.
pub mod Append
pub mod Roll
mod Tests
use network_ydxlib.Base.{
  ℕ, ◌+◌, ◌-◌, ◌*◌, ◌/◌, Bool, true, false, Option, none, some, List, [], ◌∷◌, ◌++◌, ltb, leb, ◌==◌,
  if◌then◌else◌, length, take, drop,
}

-- `bytes` is what `fwrite` has taken.
pub record AppendFile : Type 0 where
  pub bytes : List ℕ
  pub written_bytes : ℕ

abbrev pub new_file : AppendFile
new_file = record { bytes = []; written_bytes = 0 }

abbrev wrote : ℕ → List ℕ → AppendFile → AppendFile
wrote n line f = record f { bytes = f.bytes ++ take n line }

-- The loop, for what is left of the line; `none` while a call of `fwrite` has not returned.
unfoldable pub append_rest : List ℕ → List ℕ → AppendFile → Option AppendFile
append_rest ns [] f = some f
append_rest [] (x ∷ line) f = none
append_rest (n ∷ ns) (x ∷ line) f =
    let rest = append_rest ns (drop n (x ∷ line)) (wrote n (x ∷ line) f) in
    if n == 0 then some f else rest

unfoldable pub count_line : ℕ → Option AppendFile → Option AppendFile
count_line len none = none
count_line len (some f) = some (record f { written_bytes = f.written_bytes + len })

-- `writes` is what the calls of `fwrite` give, one after the other.
unfoldable pub append_file : (writes line : List ℕ) → AppendFile → Option AppendFile
unfolding append_rest count_line
append_file [] line f = none
append_file (n ∷ ns) line f =
    count_line (length line) (append_rest ns (drop n line) (wrote n line f))

-- `files` are the files opened so far, the current one first; without any `file_` is null. `flushes`
-- counts the calls of `flush`.
pub record LogFile : Type 0 where
  pub roll_size : ℕ
  pub flush_interval : ℕ
  pub check_every_n : ℕ
  pub count : ℕ
  pub start_of_period : ℕ
  pub last_roll : ℕ
  pub last_flush : ℕ
  pub files : List AppendFile
  pub flushes : ℕ

abbrev pub roll_per_seconds : ℕ
roll_per_seconds = 86400

abbrev pub period : ℕ → ℕ
period now = now / roll_per_seconds * roll_per_seconds

unfoldable pub roll_file : (now : ℕ) → LogFile → Bool × LogFile
roll_file now l =
    if ltb l.last_roll now
    then (
      true,
      record l {
        last_roll = now;
        last_flush = now;
        start_of_period = period now;
        files = new_file ∷ l.files;
      },
    )
    else (false, l)

abbrev pub create : (roll_size flush_interval check_every_n : ℕ) → LogFile
create roll_size flush_interval check_every_n = record {
  roll_size = roll_size;
  flush_interval = flush_interval;
  check_every_n = check_every_n;
  count = 0;
  start_of_period = 0;
  last_roll = 0;
  last_flush = 0;
  files = [];
  flushes = 0;
}

-- The constructor.
unfoldable pub open_log : (roll_size flush_interval check_every_n now : ℕ) → LogFile
unfolding roll_file
open_log roll_size flush_interval check_every_n now =
    (roll_file now (create roll_size flush_interval check_every_n)).1

unfoldable pub flush : LogFile → LogFile
flush l = record l { flushes = l.flushes + 1 }

-- The check that every `checkEveryN_`-th line makes; `later` is the time in `rollFile`.
unfoldable pub check_time : (now later : ℕ) → LogFile → LogFile
unfolding roll_file flush
check_time now later l =
    if period now == l.start_of_period
    then (if ltb l.flush_interval (now - l.last_flush)
        then flush (record l { last_flush = now })
        else l)
    else (roll_file later l).1

-- What `append_unlocked` does once the line is written to the current file `f`.
unfoldable pub after_line : (now later : ℕ) → AppendFile → LogFile → LogFile
unfolding check_time roll_file
after_line now later f l =
    if ltb l.roll_size f.written_bytes
    then (roll_file later l).1
    else if leb l.check_every_n (l.count + 1)
    then check_time now later (record l { count = 0 })
    else record l { count = l.count + 1 }

unfoldable pub written_to :
    (now later : ℕ) → List AppendFile → Option AppendFile → LogFile → Option LogFile
unfolding after_line
written_to now later fs none l = none
written_to now later fs (some f) l = some (after_line now later f (record l { files = f ∷ fs }))

-- `none` while a write has not returned, and where `file_` is null.
unfoldable pub append_to :
    (writes line : List ℕ) (now later : ℕ) → List AppendFile → LogFile → Option LogFile
unfolding written_to
append_to writes line now later [] l = none
append_to writes line now later (f ∷ fs) l = written_to now later fs (append_file writes line f) l

unfoldable pub append_unlocked : (writes line : List ℕ) (now later : ℕ) → LogFile → Option LogFile
unfolding append_to
append_unlocked writes line now later l = append_to writes line now later l.files l
