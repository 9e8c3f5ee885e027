-- ===== src/Log.antt =====
-- log_stream.h and log_stream.cpp: FixedBuffer, a character array that drops what does not fit, and
-- the conversion of integers to text. Characters are their codes.
pub mod Numeral
pub mod Decimal
pub mod Hex
pub mod Room
mod Tests
use network_ydxlib.Base.{
  ℕ, zero, suc, ◌+◌, ◌-◌, ◌/◌, ◌%◌, Bool, true, false, Option, none, some, List, [], ◌∷◌, ◌++◌, ltb,
  leb, ◌==◌, if◌then◌else◌, get_or, length,
}
use network_ydxlib.Base.Int.{ℤ, pos, negsuc}

abbrev pub reverse : List ℕ → List ℕ
reverse [] = []
reverse (x ∷ xs) = reverse xs ++ (x ∷ [])

-- `digits`, "9876543210123456789".
abbrev pub digits : List ℕ
digits =
    57 ∷ 56 ∷ 55 ∷ 54 ∷ 53 ∷ 52 ∷ 51 ∷ 50 ∷ 49 ∷ 48 ∷ 49 ∷ 50 ∷ 51 ∷ 52 ∷ 53 ∷ 54 ∷ 55 ∷ 56 ∷ 57
    ∷ []

-- `digitsHex`, "0123456789ABCDEF".
abbrev pub digits_hex : List ℕ
digits_hex = 48 ∷ 49 ∷ 50 ∷ 51 ∷ 52 ∷ 53 ∷ 54 ∷ 55 ∷ 56 ∷ 57 ∷ 65 ∷ 66 ∷ 67 ∷ 68 ∷ 69 ∷ 70 ∷ []

-- C's `i % 10`, as an index from `zero`, which points at `digits + 9`; and C's `i / 10`.
unfoldable pub digit_index : ℤ → ℕ
digit_index (pos n) = 9 + n % 10
digit_index (negsuc n) = 9 - suc n % 10

unfoldable pub div_ten : ℤ → ℤ
div_ten (pos n) = pos (n / 10)
div_ten (negsuc n) = if suc n / 10 == 0 then pos 0 else negsuc (suc n / 10 - 1)

unfoldable pub is_zero : ℤ → Bool
is_zero (pos n) = n == 0
is_zero (negsuc n) = false

unfoldable pub is_negative : ℤ → Bool
is_negative (pos n) = false
is_negative (negsuc n) = true

-- What the loop of `convert` writes, on fuel: the last digit first.
unfoldable pub convert_loop : ℕ → ℤ → Option (List ℕ)
unfolding digit_index div_ten is_zero
convert_loop zero i = none
convert_loop (suc k) i =
    let lsd = get_or digits (digit_index i) 0 in
    let rest = convert_loop k (div_ten i) in
    if is_zero (div_ten i)
    then some (lsd ∷ [])
    else elim rest [ none ↦ none | some ds ↦ some (lsd ∷ ds) ]

-- An integer of the source has at most 64 bits, so 20 digits.
unfoldable pub convert : ℤ → Option (List ℕ)
unfolding is_negative
convert v = elim (convert_loop 20 v) [
  | none ↦ none
  | some ds ↦ some (reverse (ds ++ (if is_negative v then 45 ∷ [] else [])))
]

unfoldable pub convert_hex_loop : ℕ → ℕ → Option (List ℕ)
convert_hex_loop zero i = none
convert_hex_loop (suc k) i =
    let lsd = get_or digits_hex (i % 16) 0 in
    let rest = convert_hex_loop k (i / 16) in
    if i / 16 == 0 then some (lsd ∷ []) else elim rest [ none ↦ none | some ds ↦ some (lsd ∷ ds) ]

-- A `uintptr_t` has 16 digits.
unfoldable pub convert_hex : ℕ → Option (List ℕ)
convert_hex v = elim (convert_hex_loop 16 v) [ none ↦ none | some ds ↦ some (reverse ds) ]

-- FixedBuffer: `size` is its parameter SIZE, and `text` the characters before `cur_`.
pub record FixedBuffer : Type 0 where
  pub size : ℕ
  pub text : List ℕ

unfoldable pub avail : FixedBuffer → ℕ
avail b = b.size - length b.text

unfoldable pub append : List ℕ → FixedBuffer → FixedBuffer
unfolding avail
append xs b = if ltb (length xs) (avail b) then record b { text = b.text ++ xs } else b

unfoldable pub reset : FixedBuffer → FixedBuffer
reset b = record b { text = [] }

abbrev pub max_numeric_size : ℕ
max_numeric_size = 32

-- `convert` writes behind `cur_`, and `add` moves it. `none` is a loop that does not end.
unfoldable pub format_integer : ℤ → FixedBuffer → Option FixedBuffer
unfolding avail convert
format_integer v b =
    if leb max_numeric_size (avail b)
    then elim (convert v) [ none ↦ none | some xs ↦ some (record b { text = b.text ++ xs }) ]
    else some b

unfoldable pub format_pointer : ℕ → FixedBuffer → Option FixedBuffer
unfolding avail convert_hex
format_pointer v b =
    if leb max_numeric_size (avail b)
    then elim (convert_hex v) [
      | none ↦ none
      | some xs ↦ some (record b { text = b.text ++ (48 ∷ 120 ∷ xs) })
    ]
    else some b

-- What a LogStream takes by `<<`: a flag, a character, a string or null, an integer, a pointer.
pub data Item : Type 0 where
  flag : Bool → Item
  char : ℕ → Item
  text : Option (List ℕ) → Item
  integer : ℤ → Item
  pointer : ℕ → Item

unfoldable pub log : Item → FixedBuffer → Option FixedBuffer
unfolding append format_integer format_pointer
log (flag v) b = some (append ((if v then 49 else 48) ∷ []) b)
log (char c) b = some (append (c ∷ []) b)
log (text none) b = some (append (40 ∷ 110 ∷ 117 ∷ 108 ∷ 108 ∷ 41 ∷ []) b)
log (text (some xs)) b = some (append xs b)
log (integer v) b = format_integer v b
log (pointer v) b = format_pointer v b
