-- ===== src/Logger/Line.antt =====
-- Logger: the file's name, and the end of a line.
use network_ydxlib.Base.{
  ℕ, ◌+◌, ◌-◌, ◌<◌, ◌≤◌, ◌^◌, ◌≡◌, ◌≢◌, refl, ap, ◌∙◌, Bool, true, false, Option, none, some, List,
  [], ◌∷◌, ◌++◌, if◌then◌else◌, leb, ltb, arith, length, length-append, append_assoc, not-eq,
}
use network_ydxlib.Base.Int.{ℤ, pos}
use network_ydxlib.Log.{
  FixedBuffer, avail, append, format_integer, convert, Item, text, char, integer, log,
}
use network_ydxlib.Log.Decimal.{read_integer, read_integer-convert}
use network_ydxlib.Logger.{
  slash, later_slash, after_slash, or_all, source_file, Logger, log_all, is_fatal, tail, finish_by,
  finish,
}

-- No slash.
abbrev pub IsPlain : List ℕ → Type 0
IsPlain [] = Unit {0}
IsPlain (x ∷ xs) = (x ≢ slash) × IsPlain xs

after_slash-plain : (xs : List ℕ) → IsPlain xs → after_slash xs ≡ none
after_slash-plain [] p = refl
after_slash-plain (x ∷ xs) (n, p) =
    ap (later_slash x xs) (after_slash-plain xs p)
    ∙ ap (λ (b : Bool). if b then some xs else none) (not-eq x slash n)

after_slash-dir :
    (dir file : List ℕ) → IsPlain file → after_slash (dir ++ (slash ∷ file)) ≡ some file
after_slash-dir [] file p = ap (later_slash slash file) (after_slash-plain file p)
after_slash-dir (x ∷ dir) file p =
    ap (later_slash x (dir ++ (slash ∷ file))) (after_slash-dir dir file p)

-- A SourceFile keeps of a path, with or without directories, the file's name.
pub source_file_lem :
    (dir file : List ℕ)
    → IsPlain file
    → (source_file (dir ++ (slash ∷ file)) ≡ file) × (source_file file ≡ file)
unfolding source_file
source_file_lem dir file p = (
  ap (or_all (dir ++ (slash ∷ file))) (after_slash-dir dir file p),
  ap (or_all file) (after_slash-plain file p),
)

append-fits :
    (xs : List ℕ) (b : FixedBuffer)
    → length b.text + length xs < b.size
    → append xs b ≡ record b { text = b.text ++ xs }
unfolding append avail
append-fits xs b h = ap (λ (t : Bool). if t then (record b { text = b.text ++ xs }) else b) (fits h)
  where
    fits : length b.text + length xs < b.size → ltb (length xs) (b.size - length b.text) ≡ true
    fits h = ground (arith, h)

abbrev numbered : FixedBuffer → Bool → Option (List ℕ) → Option FixedBuffer
numbered b free o =
    if free
    then elim o [ none ↦ none | some xs ↦ some (record b { text = b.text ++ xs }) ]
    else some b

number-fits :
    (n : ℕ) (xs : List ℕ) (b : FixedBuffer)
    → convert (pos n) ≡ some xs
    → length b.text + 32 ≤ b.size
    → format_integer (pos n) b ≡ some (record b { text = b.text ++ xs })
unfolding format_integer avail
number-fits n xs b e h =
    ap (numbered b (leb 32 (b.size - length b.text))) e ∙ ap (λ t. numbered b t (some xs)) free
  where
    free : leb 32 (b.size - length b.text) ≡ true
    free = ground (arith, h)

-- The characters that end a line, `xs` being its number's.
abbrev pub ending : Logger → List ℕ → List ℕ
ending l xs = 32 ∷ 45 ∷ 32 ∷ (l.basename ++ (58 ∷ (xs ++ (10 ∷ []))))

abbrev add : List ℕ → FixedBuffer → FixedBuffer
add xs b = record b { text = b.text ++ xs }

text-fits :
    (xs : List ℕ) (b : FixedBuffer)
    → length b.text + length xs < b.size
    → log (text (some xs)) b ≡ some (add xs b)
unfolding log
text-fits xs b h = ap some (append-fits xs b h)

char-fits :
    (c : ℕ) (b : FixedBuffer) → length b.text + 1 < b.size → log (char c) b ≡ some (add (c ∷ []) b)
unfolding log
char-fits c b h = ap some (append-fits (c ∷ []) b h)

integer-fits :
    (n : ℕ) (xs : List ℕ) (b : FixedBuffer)
    → convert (pos n) ≡ some xs
    → length b.text + 32 ≤ b.size
    → log (integer (pos n)) b ≡ some (add xs b)
unfolding log
integer-fits n xs b e h = number-fits n xs b e h

length-add : (xs : List ℕ) (b : FixedBuffer) → length (add xs b).text ≡ length b.text + length xs
length-add xs b = length-append b.text xs

tail-fits :
    (l : Logger) (xs : List ℕ)
    → convert (pos l.line) ≡ some xs
    → length xs ≤ 21
    → length l.stream.text + length l.basename + 40 < l.stream.size
    → log_all (tail l) (some l.stream) ≡ some (add (ending l xs) l.stream)
tail-fits l xs e short h =
    let dash : List ℕ = 32 ∷ 45 ∷ 32 ∷ [] in
    let b1 : FixedBuffer = add dash l.stream in
    let b2 : FixedBuffer = add l.basename b1 in
    let b3 : FixedBuffer = add (58 ∷ []) b2 in
    let b4 : FixedBuffer = add xs b3 in
    let n1 = length-add dash l.stream in
    let n2 = length-add l.basename b1 in
    let n3 = length-add (58 ∷ []) b2 in
    let n4 = length-add xs b3 in
    ap (log_all (text (some l.basename) ∷ char 58 ∷ integer (pos l.line) ∷ char 10 ∷ []))
      (text-fits dash l.stream (omega arith))
    ∙ ap (log_all (char 58 ∷ integer (pos l.line) ∷ char 10 ∷ []))
        (text-fits l.basename b1 (omega (arith, n1)))
    ∙ ap (log_all (integer (pos l.line) ∷ char 10 ∷ [])) (char-fits 58 b2 (omega (arith, n1, n2)))
    ∙ ap (log_all (char 10 ∷ [])) (integer-fits l.line xs b3 e (omega (arith, n1, n2, n3)))
    ∙ char-fits 10 b4 (omega (arith, n1, n2, n3, n4))
    ∙ ap (λ (t : List ℕ). some (record l.stream { text = t })) (joined dash)
  where
    joined :
        (dash : List ℕ)
        → ((((l.stream.text ++ dash) ++ l.basename) ++ (58 ∷ [])) ++ xs) ++ (10 ∷ [])
          ≡ l.stream.text ++ (dash ++ (l.basename ++ (58 ∷ (xs ++ (10 ∷ [])))))
    joined dash =
        append_assoc (((l.stream.text ++ dash) ++ l.basename) ++ (58 ∷ [])) xs (10 ∷ [])
        ∙ append_assoc ((l.stream.text ++ dash) ++ l.basename) (58 ∷ []) (xs ++ (10 ∷ []))
        ∙ append_assoc (l.stream.text ++ dash) l.basename (58 ∷ (xs ++ (10 ∷ [])))
        ∙ append_assoc l.stream.text dash (l.basename ++ (58 ∷ (xs ++ (10 ∷ []))))

-- A line whose text leaves room for the file's name and 40 characters more ends, when it is given
-- out, with " - ", the file's name, ":", the line's number, an int that is not negative, in
-- decimal, as `read_integer` says, and a line feed; the program then aborts just if the level is FATAL.
pub finish-Line :
    (l : Logger)
    → l.line < 2 ^ 31
    → length l.stream.text + length l.basename + 40 < l.stream.size
    → (xs : List ℕ) × (read_integer xs ≡ some (pos l.line))
      × (finish l
          ≡ some (record { output = l.stream.text ++ ending l xs; aborts = is_fatal l.level }))
unfolding finish finish_by
finish-Line l small room =
    let (xs, e, value, short) =
      read_integer-convert (pos l.line) (omega (arith, small)) (omega arith) in
    (xs, value, ap (finish_by l.level) (tail-fits l xs e short room))

append-full :
    (xs : List ℕ) (b : FixedBuffer) → 1 ≤ length xs → b.size ≡ length b.text + 1 → append xs b ≡ b
unfolding append avail
append-full xs b h full =
    ap (λ (t : Bool). if t then (record b { text = b.text ++ xs }) else b) over
  where
    over : ltb (length xs) (b.size - length b.text) ≡ false
    over = ground (arith, h, full)

integer-full : (v : ℤ) (b : FixedBuffer) → b.size ≡ length b.text + 1 → format_integer v b ≡ some b
unfolding format_integer avail
integer-full v b full = ap (λ t. numbered b t (convert v)) over
  where
    over : leb 32 (b.size - length b.text) ≡ false
    over = ground (arith, full)

-- A line that has filled its array up to the last character but one is given out as it is: with no
-- place in the source, and with no line feed to end it.
pub finish-full :
    (l : Logger)
    → 1 ≤ length l.basename
    → l.stream.size ≡ length l.stream.text + 1
    → finish l ≡ some (record { output = l.stream.text; aborts = is_fatal l.level })
unfolding finish finish_by log
finish-full l named full =
    ap (λ b. finish_by l.level (log_all rest1 (some b)))
      (append-full (32 ∷ 45 ∷ 32 ∷ []) l.stream (omega arith) full)
    ∙ ap (λ b. finish_by l.level (log_all rest2 (some b)))
        (append-full l.basename l.stream named full)
    ∙ ap (λ b. finish_by l.level (log_all rest3 (some b)))
        (append-full (58 ∷ []) l.stream (omega arith) full)
    ∙ ap (λ o. finish_by l.level (log_all rest4 o)) (integer-full (pos l.line) l.stream full)
    ∙ ap (λ b. finish_by l.level (some b)) (append-full (10 ∷ []) l.stream (omega arith) full)
  where
    rest4 : List Item
    rest4 = char 10 ∷ []

    rest3 : List Item
    rest3 = integer (pos l.line) ∷ rest4

    rest2 : List Item
    rest2 = char 58 ∷ rest3

    rest1 : List Item
    rest1 = text (some l.basename) ∷ rest2
