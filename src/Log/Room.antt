-- ===== src/Log/Room.antt =====
-- FixedBuffer and LogStream: an item is logged whole or not at all, and within the array.
use network_ydxlib.Base.{
  ℕ, ◌-◌, ◌^◌, ◌≤◌, ◌<◌, ◌≡◌, ◌⊎◌, inl, inr, refl, sym, subst, true, false, Bool-cases, Option,
  none, some, List, [], ◌∷◌, ◌++◌, ltb, leb, if◌then◌else◌, length, length-append, arith,
}
use network_ydxlib.Base.Int.{pos_part, neg_part}
use network_ydxlib.Log.{
  FixedBuffer, avail, append, format_integer, format_pointer, Item, flag, char, text, integer,
  pointer, log, max_numeric_size,
}
use network_ydxlib.Log.Decimal.{read_integer, read_integer-convert}
use network_ydxlib.Log.Hex.{read_hex, read_hex-convert_hex}

-- Integers have at most 64 bits.
abbrev pub IsItem : Item → Type 0
IsItem (flag v) = Unit
IsItem (char c) = Unit
IsItem (text xs) = Unit
IsItem (integer v) = (pos_part v < 2 ^ 64) × (neg_part v ≤ 2 ^ 63)
IsItem (pointer v) = v < 2 ^ 64

-- Which texts stand for an item.
abbrev pub Shows : Item → List ℕ → Type 0
Shows (flag true) xs = xs ≡ 49 ∷ []
Shows (flag false) xs = xs ≡ 48 ∷ []
Shows (char c) xs = xs ≡ c ∷ []
Shows (text none) xs = xs ≡ 40 ∷ 110 ∷ 117 ∷ 108 ∷ 108 ∷ 41 ∷ []
Shows (text (some ys)) xs = xs ≡ ys
Shows (integer v) xs = read_integer xs ≡ some v
Shows (pointer v) xs = (ys : List ℕ) × (xs ≡ 48 ∷ 120 ∷ ys) × (read_hex ys ≡ some v)

-- Logging one of the texts in `P` ends, keeps within the array, and adds the text as a whole, with
-- room left for one more character, or nothing.
pub record Logged (P : List ℕ → Type 0) (b : FixedBuffer) (o : Option FixedBuffer) : Type 0 where
  pub result : FixedBuffer
  pub ends : o ≡ some result
  pub size : result.size ≡ b.size
  pub room : length result.text ≤ result.size
  pub whole :
      (result.text ≡ b.text)
      ⊎ ((xs : List ℕ) × P xs × (result.text ≡ b.text ++ xs) × (length result.text < result.size))

append-Logged :
    (P : List ℕ → Type 0) (xs : List ℕ) (b : FixedBuffer)
    → length b.text ≤ b.size
    → P xs
    → Logged P b (some (append xs b))
unfolding append avail
append-Logged P xs b h p = elim (Bool-cases (ltb (length xs) (b.size - length b.text))) [
  | inl e ↦
      let l : length (b.text ++ xs) < b.size = ground (arith, length-append b.text xs, e) in
      rw e (record {
        result = record b { text = b.text ++ xs };
        ends = refl;
        size = refl;
        room = omega (arith, l);
        whole = inr (xs, p, refl, l);
      })
  | inr e ↦ rw e (record { result = b; ends = refl; size = refl; room = h; whole = inl refl })
]

-- A number is written if 32 characters are free.
abbrev numeric : (List ℕ → List ℕ) → FixedBuffer → Option (List ℕ) → Option FixedBuffer
numeric f b o =
    if leb max_numeric_size (avail b)
    then elim o [ none ↦ none | some xs ↦ some (record b { text = b.text ++ f xs }) ]
    else some b

numeric-Logged :
    (P : List ℕ → Type 0) (f : List ℕ → List ℕ) (xs : List ℕ) (b : FixedBuffer)
    → length b.text ≤ b.size
    → P (f xs)
    → length (f xs) < 32
    → Logged P b (numeric f b (some xs))
unfolding avail
numeric-Logged P f xs b h p s = elim (Bool-cases (leb 32 (b.size - length b.text))) [
  | inl e ↦
      let l : length (b.text ++ f xs) < b.size = ground (arith, length-append b.text (f xs), e) in
      rw e (record {
        result = record b { text = b.text ++ f xs };
        ends = refl;
        size = refl;
        room = omega (arith, l);
        whole = inr (f xs, p, refl, l);
      })
  | inr e ↦ rw e (record { result = b; ends = refl; size = refl; room = h; whole = inl refl })
]

-- Whether a flag, a character, a string or null, an integer of at most 64 bits or a pointer of as many is
-- logged with `<<`, the call ends and the buffer keeps what it had, with either nothing behind it or the
-- whole text of the item: integers in decimal, as `read_integer` says, and pointers in hexadecimal
-- behind "0x", as `read_hex` says. The text stays within the array, and if something was added one more
-- character has room, such as the zero that `convert` writes.
pub log-Logged :
    (i : Item) (b : FixedBuffer) → length b.text ≤ b.size → IsItem i → Logged (Shows i) b (log i b)
unfolding log format_integer format_pointer
log-Logged (flag true) b h w = append-Logged (Shows (flag true)) (49 ∷ []) b h refl
log-Logged (flag false) b h w = append-Logged (Shows (flag false)) (48 ∷ []) b h refl
log-Logged (char c) b h w = append-Logged (Shows (char c)) (c ∷ []) b h refl
log-Logged (text none) b h w =
    append-Logged (Shows (text none)) (40 ∷ 110 ∷ 117 ∷ 108 ∷ 108 ∷ 41 ∷ []) b h refl
log-Logged (text (some xs)) b h w = append-Logged (Shows (text (some xs))) xs b h refl
log-Logged (integer v) b h w =
    let (xs, e, r, l) = read_integer-convert v w.0 w.1 in
    subst (λ o. Logged (Shows (integer v)) b (numeric (λ xs. xs) b o)) (sym e)
      (numeric-Logged (Shows (integer v)) (λ xs. xs) xs b h r (omega (arith, l)))
log-Logged (pointer v) b h w =
    let (xs, e, r, l) = read_hex-convert_hex v w in
    subst (λ o. Logged (Shows (pointer v)) b (numeric (λ xs. 48 ∷ 120 ∷ xs) b o)) (sym e)
      (numeric-Logged (Shows (pointer v)) (λ xs. 48 ∷ 120 ∷ xs) xs b h (xs, refl, r)
        (omega (arith, l)))
