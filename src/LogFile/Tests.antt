-- ===== src/LogFile/Tests.antt =====
-- LogFile at concrete lines.
use network_ydxlib.Base.{◌≡◌, ◌≤◌, ◌⊎◌, refl, some, [], ◌∷◌, arith}
use network_ydxlib.LogFile.{new_file, LogFile, open_log, create, roll_file, append_unlocked}
use network_ydxlib.LogFile.Roll.{contents, current_size, append_unlocked_lem}

-- Files of three bytes; a file is open since second 100.
abbrev small : LogFile
small = record (create 3 3 2) {
  last_roll = 100;
  last_flush = 100;
  files = record { bytes = 7 ∷ 8 ∷ []; written_bytes = 2 } ∷ [];
}

opened : open_log 3 3 2 100 ≡ record small { files = new_file ∷ [] }
unfolding open_log roll_file
opened = refl

append_unlocked_lem_example :
    (l : LogFile) × (append_unlocked (1 ∷ 1 ∷ 4 ∷ []) (5 ∷ 6 ∷ []) 101 101 small ≡ some l)
    × (contents l.files ≡ 7 ∷ 8 ∷ 5 ∷ 6 ∷ [])
    × ((current_size l.files ≤ 3) ⊎ (101 ≤ 100))
append_unlocked_lem_example =
    append_unlocked_lem (1 ∷ 1 ∷ 4 ∷ []) (5 ∷ 6 ∷ []) 101 101 small (omega arith) (omega arith)
      (omega arith)
