-- ===== src/Logger/Tests.antt =====
-- Logger at concrete lines.
use network_ydxlib.Base.{ℕ, ◌≡◌, refl, some, none, List, [], ◌∷◌, arith, true, false}
use network_ydxlib.Base.Int.{pos}
use network_ydxlib.Log.{append, avail, log}
use network_ydxlib.Log.Decimal.{read_integer}
use network_ydxlib.Logger.{
  Logger, info, warn, fatal, logger, level_name, rank, source_file, slash, finish, is_fatal,
  logs_info,
}
use network_ydxlib.Logger.Line.{IsPlain, ending, finish-Line}

-- "b.c" in the directory "a".
abbrev file : List ℕ
file = 98 ∷ 46 ∷ 99 ∷ []

abbrev line : Logger
line = record {
  stream = record { size = 4000; text = 72 ∷ 105 ∷ [] };
  basename = file;
  level = fatal;
  errno = none;
  line = 17;
}

abbrev long : Logger
long = record line { stream = record { size = 3; text = 72 ∷ 105 ∷ [] } }

quiet : logs_info warn ≡ false
unfolding logs_info rank
quiet = refl

first :
    logger (84 ∷ []) (97 ∷ slash ∷ file) 17
    ≡ some (record {
      stream = record { size = 4000; text = 84 ∷ 91 ∷ 73 ∷ 78 ∷ 70 ∷ 79 ∷ 93 ∷ [] };
      basename = file;
      level = info;
      errno = some 0;
      line = 17;
    })
unfolding logger source_file log append avail level_name
first = refl

file-IsPlain : IsPlain file
file-IsPlain = (omega arith, (omega arith, (omega arith, tt)))

finish-Line_example :
    (xs : List ℕ) × (read_integer xs ≡ some (pos 17))
    × (finish line ≡ some (record { output = 72 ∷ 105 ∷ ending line xs; aborts = true }))
unfolding is_fatal rank
finish-Line_example = finish-Line line (omega arith) (omega arith)
