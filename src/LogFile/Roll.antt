-- ===== src/LogFile/Roll.antt =====
-- LogFile: no line is lost or moved when files change, and no file grows far beyond its size.
use network_ydxlib.Base.{
  ℕ, ◌+◌, ◌-◌, ◌≤◌, ◌<◌, ◌≡◌, ◌⊎◌, inl, inr, refl, sym, ap, ◌∙◌, Bool-cases, some, List, [], ◌∷◌,
  ◌++◌, append_assoc, append-nil, ltb, leb, ◌==◌, arith, length,
}
use network_ydxlib.LogFile.{
  AppendFile, LogFile, roll_file, flush, check_time, after_line, period, append_to, append_unlocked,
  written_to,
}
use network_ydxlib.LogFile.Append.{AllPositive, append_file-whole}

-- What all files hold, from the first one on.
abbrev pub contents : List AppendFile → List ℕ
contents [] = []
contents (f ∷ fs) = contents fs ++ f.bytes

abbrev pub current_size : List AppendFile → ℕ
current_size [] = 0
current_size (f ∷ fs) = f.written_bytes

-- What a change of files may do to the list of them.
record Kept (l l' : LogFile) : Type 0 where
  same : contents l'.files ≡ contents l.files
  size : current_size l'.files ≤ current_size l.files
  rolled : l.last_roll ≤ l'.last_roll
  limit : l'.roll_size ≡ l.roll_size

Kept-refl : (l : LogFile) → Kept l l
Kept-refl l = record { same = refl; size = omega arith; rolled = omega arith; limit = refl }

roll_file-Kept : (now : ℕ) (l : LogFile) → Kept l (roll_file now l).1
unfolding roll_file
roll_file-Kept now l = elim (Bool-cases (ltb l.last_roll now)) [
  | inl e ↦ rw e (record {
    same = append-nil (contents l.files);
    size = omega arith;
    rolled = ground arith;
    limit = refl;
  })
  | inr e ↦ rw e (Kept-refl l)
]

-- A roll leaves an empty file, or the clock has not gone on since the last one.
roll_file-empty :
    (now : ℕ) (l : LogFile) → (current_size (roll_file now l).1.files ≡ 0) ⊎ (now ≤ l.last_roll)
unfolding roll_file
roll_file-empty now l = elim (Bool-cases (ltb l.last_roll now)) [
  | inl e ↦ rw e (inl refl)
  | inr e ↦ inr (ground arith)
]

check_time-Kept : (now later : ℕ) (l : LogFile) → Kept l (check_time now later l)
unfolding check_time flush
check_time-Kept now later l = elim (Bool-cases (period now == l.start_of_period)) [
  | inl e ↦ elim (Bool-cases (ltb l.flush_interval (now - l.last_flush))) [
    | inl f ↦
        rw (e, f) (record { same = refl; size = omega arith; rolled = omega arith; limit = refl })
    | inr f ↦ rw (e, f) (Kept-refl l)
  ]
  | inr e ↦ rw e (roll_file-Kept later l)
]

-- The line has been written to `f`, which is now the current file.
after_line-Kept :
    (now later : ℕ) (f : AppendFile) (fs : List AppendFile) (l : LogFile)
    → let l' = after_line now later f (record l { files = f ∷ fs }) in
      (contents l'.files ≡ contents fs ++ f.bytes)
      × ((current_size l'.files ≤ l.roll_size) ⊎ (later ≤ l.last_roll))
unfolding after_line
after_line-Kept now later f fs l =
    let k : LogFile = record l { files = f ∷ fs } in
    elim (Bool-cases (ltb l.roll_size f.written_bytes)) [
      | inl e ↦
          let r = roll_file-Kept later k in
          rw e (
            r.same,
            elim (roll_file-empty later k) [ inl z ↦ inl (omega (arith, z)) | inr h ↦ inr h ],
          )
      | inr e ↦
          let small : f.written_bytes ≤ l.roll_size = ground arith in
          elim (Bool-cases (leb l.check_every_n (l.count + 1))) [
            | inl c ↦
                let r = check_time-Kept now later (record k { count = 0 }) in
                rw (e, c) (r.same, inl (omega (arith, r.size, small)))
            | inr c ↦ rw (e, c) (refl, inl small)
          ]
    ]

append_to-Result :
    (writes line : List ℕ) (now later : ℕ) (fs : List AppendFile) (l : LogFile)
    → l.files ≡ fs
    → 0 < length fs
    → AllPositive writes
    → length line < length writes
    → (l' : LogFile) × (append_to writes line now later fs l ≡ some l')
      × (contents l'.files ≡ contents fs ++ line)
      × ((current_size l'.files ≤ l.roll_size) ⊎ (later ≤ l.last_roll))
unfolding append_to written_to
append_to-Result writes line now later [] l e h p w = absurd (omega (arith, h))
append_to-Result writes line now later (f ∷ fs) l e h p w =
    let g : AppendFile = record {
      bytes = f.bytes ++ line;
      written_bytes = f.written_bytes + length line;
    } in
    let (same, size) = after_line-Kept now later g fs l in
    (
      after_line now later g (record l { files = g ∷ fs }),
      ap (λ o. written_to now later fs o l) (append_file-whole writes line f p w),
      same ∙ sym (append_assoc (contents fs) f.bytes line),
      size,
    )

-- If a file is open and every call of `fwrite` takes something, `append` ends, and the files together
-- hold what they held and then the line, whole, whether or not a new file is begun; the current file
-- is then no larger than `rollSize_`, unless the clock has not moved since the last file was begun.
pub append_unlocked_lem :
    (writes line : List ℕ) (now later : ℕ) (l : LogFile)
    → 0 < length l.files
    → AllPositive writes
    → length line < length writes
    → (l' : LogFile) × (append_unlocked writes line now later l ≡ some l')
      × (contents l'.files ≡ contents l.files ++ line)
      × ((current_size l'.files ≤ l.roll_size) ⊎ (later ≤ l.last_roll))
unfolding append_unlocked
append_unlocked_lem writes line now later l h p w =
    append_to-Result writes line now later l.files l refl h p w
