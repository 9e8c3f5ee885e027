-- ===== src/Logger.antt =====
-- class Logger of logging.h and logging.cpp: a line of the log, from the constructor that begins it to
-- the destructor that ends it and gives it out. What `CTime::Format` gives is the argument `time`.
pub mod Line
mod Tests
use network_ydxlib.Base.{
  ℕ, ◌+◌, Bool, true, false, Option, none, some, List, [], ◌∷◌, ◌==◌, leb, if◌then◌else◌,
}
use network_ydxlib.Base.Int.{ℤ, pos}
use network_ydxlib.Log.{FixedBuffer, Item, text, char, integer, log}

pub data Level : Type 0 where
  trace debug info warn error fatal : Level

-- Where the level stands in the enumeration, and its name between brackets.
unfoldable pub rank : Level → ℕ
rank trace = 0
rank debug = 1
rank info = 2
rank warn = 3
rank error = 4
rank fatal = 5

unfoldable pub level_name : Level → List ℕ
level_name trace = 91 ∷ 84 ∷ 82 ∷ 65 ∷ 67 ∷ 69 ∷ 93 ∷ []
level_name debug = 91 ∷ 68 ∷ 69 ∷ 66 ∷ 85 ∷ 71 ∷ 93 ∷ []
level_name info = 91 ∷ 73 ∷ 78 ∷ 70 ∷ 79 ∷ 93 ∷ []
level_name warn = 91 ∷ 87 ∷ 65 ∷ 82 ∷ 78 ∷ 93 ∷ []
level_name error = 91 ∷ 69 ∷ 82 ∷ 82 ∷ 79 ∷ 82 ∷ 93 ∷ []
level_name fatal = 91 ∷ 70 ∷ 65 ∷ 84 ∷ 65 ∷ 76 ∷ 93 ∷ []

-- The test of LOG_INFO, the only macro that has one.
unfoldable pub logs_info : (log_level : Level) → Bool
unfolding rank
logs_info log_level = leb (rank log_level) (rank info)

abbrev pub slash : ℕ
slash = 47

abbrev pub later_slash : ℕ → List ℕ → Option (List ℕ) → Option (List ℕ)
later_slash x xs (some ys) = some ys
later_slash x xs none = if x == slash then some xs else none

-- What follows the last slash, if there is one.
abbrev pub after_slash : List ℕ → Option (List ℕ)
after_slash [] = none
after_slash (x ∷ xs) = later_slash x xs (after_slash xs)

abbrev pub or_all : List ℕ → Option (List ℕ) → List ℕ
or_all xs none = xs
or_all xs (some ys) = ys

-- What a SourceFile keeps of a path.
unfoldable pub source_file : List ℕ → List ℕ
source_file path = or_all path (after_slash path)

-- `errno` is `none` where the constructor leaves it as it is.
pub record Logger : Type 0 where
  pub stream : FixedBuffer
  pub basename : List ℕ
  pub level : Level
  pub errno : Option ℕ
  pub line : ℕ

-- Items logged one after the other; `none` is a number whose conversion does not end.
abbrev pub log_all : List Item → Option FixedBuffer → Option FixedBuffer
log_all [] b = b
log_all (x ∷ xs) none = none
log_all (x ∷ xs) (some b) = log_all xs (log x b)

abbrev pub small_buffer : FixedBuffer
small_buffer = record { size = 4000; text = [] }

abbrev pub begun :
    (file : List ℕ) (line : ℕ) → Level → Option ℕ → Option FixedBuffer → Option Logger
begun file line level errno none = none
begun file line level errno (some b) =
    some (record {
      stream = b;
      basename = source_file file;
      level = level;
      errno = errno;
      line = line;
    })

abbrev pub head : (time : List ℕ) → Level → List Item
head time level = text (some time) ∷ text (some (level_name level)) ∷ []

-- The constructors: of LOG_INFO; of LOG_WARN, LOG_ERROR and LOG_FATAL; with a function's name; and
-- of LOG_SYSERR and LOG_SYSFATAL.
unfoldable pub logger : (time file : List ℕ) (line : ℕ) → Option Logger
logger time file line = begun file line info (some 0) (log_all (head time info) (some small_buffer))

unfoldable pub logger_level : (time file : List ℕ) (line : ℕ) → Level → Option Logger
logger_level time file line level =
    begun file line level none (log_all (head time level) (some small_buffer))

unfoldable pub logger_func :
    (time file : List ℕ) (line : ℕ) → Level → (func : Option (List ℕ)) → Option Logger
logger_func time file line level func =
    begun file line level none (log_all (text func ∷ char 32 ∷ head time level) (some small_buffer))

unfoldable pub logger_abort : (time file : List ℕ) (line : ℕ) → (to_abort : Bool) → Option Logger
logger_abort time file line to_abort =
    let level = if to_abort then fatal else error in
    begun file line level none (log_all (head time level) (some small_buffer))

-- What the destructor does: `g_output` of the text, and whether it goes on to flush and abort.
pub record Ended : Type 0 where
  pub output : List ℕ
  pub aborts : Bool

unfoldable pub is_fatal : Level → Bool
unfolding rank
is_fatal level = rank level == 5

abbrev pub tail : Logger → List Item
tail l =
    text (some (32 ∷ 45 ∷ 32 ∷ []))
    ∷ text (some l.basename)
    ∷ char 58
    ∷ integer (pos l.line)
    ∷ char 10
    ∷ []

unfoldable pub finish_by : Level → Option FixedBuffer → Option Ended
unfolding is_fatal
finish_by level none = none
finish_by level (some b) = some (record { output = b.text; aborts = is_fatal level })

unfoldable pub finish : Logger → Option Ended
unfolding finish_by
finish l = finish_by l.level (log_all (tail l) (some l.stream))
