-- ===== src/LogFile/Append.antt =====
-- AppendFile::append: what reaches the file, and what is counted.
use network_ydxlib.Base.{
  ℕ, ◌+◌, ◌≤◌, ◌<◌, ◌≡◌, refl, sym, ap, ◌∙◌, false, some, List, [], ◌∷◌, ◌++◌, append_assoc,
  append-nil, take-append-drop, arith, length, take, drop, length-drop, not-eq, ◌==◌,
}
use network_ydxlib.LogFile.{AppendFile, append_rest, append_file, count_line, wrote}

abbrev pub AllPositive : List ℕ → Type 0
AllPositive [] = Unit
AllPositive (n ∷ ns) = (0 < n) × AllPositive ns

append_rest-whole :
    (ns line : List ℕ) (f : AppendFile)
    → AllPositive ns
    → length line ≤ length ns
    → append_rest ns line f ≡ some (record f { bytes = f.bytes ++ line })
unfolding append_rest
append_rest-whole ns [] f p h = ap (λ b. some (record f { bytes = b })) (sym (append-nil f.bytes))
append_rest-whole [] (x ∷ line) f p h = absurd (omega (arith, h))
append_rest-whole (n ∷ ns) (x ∷ line) f p h =
    let more : (n == 0) ≡ false = not-eq n 0 (λ z. omega (arith, z, p.0)) in
    rw more (
      append_rest-whole ns (drop n (x ∷ line)) (wrote n (x ∷ line) f) p.1
        (omega (arith, h, p.0, length-drop n (x ∷ line)))
      ∙ ap (λ b. some (record f { bytes = b }))
          (append_assoc f.bytes (take n (x ∷ line)) (drop n (x ∷ line))
            ∙ ap (λ l. f.bytes ++ l) (take-append-drop n (x ∷ line))))

-- If every call of `fwrite` takes something, `append` ends after at most one call more than there are
-- bytes, with the whole line in the file, and counts it.
pub append_file-whole :
    (ns line : List ℕ) (f : AppendFile)
    → AllPositive ns
    → length line < length ns
    → append_file ns line f
      ≡ some (record { bytes = f.bytes ++ line; written_bytes = f.written_bytes + length line })
unfolding append_file count_line
append_file-whole [] line f p h = absurd (omega (arith, h))
append_file-whole (n ∷ ns) line f p h = ap (count_line (length line)) (
    append_rest-whole ns (drop n line) (wrote n line f) p.1 (omega (arith, h, length-drop n line))
    ∙ ap (λ b. some (record f { bytes = b }))
        (append_assoc f.bytes (take n line) (drop n line)
          ∙ ap (λ l. f.bytes ++ l) (take-append-drop n line)))

append_rest-stops :
    (rest : List ℕ) (g : AppendFile) → 0 < length rest → append_rest (0 ∷ []) rest g ≡ some g
unfolding append_rest
append_rest-stops [] g k = refl
append_rest-stops (x ∷ rest) g k = refl

-- When `fwrite` first takes `n` bytes, fewer than there are, and then none, the rest of the line is
-- not in the file, but counted all the same.
pub append_file-short :
    (n : ℕ) (line : List ℕ) (f : AppendFile)
    → n < length line
    → append_file (n ∷ 0 ∷ []) line f
      ≡ some
          (record { bytes = f.bytes ++ take n line; written_bytes = f.written_bytes + length line })
unfolding append_file count_line
append_file-short n line f h =
    ap (count_line (length line))
      (append_rest-stops (drop n line) (wrote n line f) (omega (arith, h, length-drop n line)))
