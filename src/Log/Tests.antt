-- ===== src/Log/Tests.antt =====
-- Log formatting at concrete items.
use network_ydxlib.Base.{ℕ, ◌≡◌, ◌≤◌, refl, some, List, [], ◌∷◌, arith, length}
use network_ydxlib.Base.Int.{negsuc}
use network_ydxlib.Log.{
  FixedBuffer, log, integer, convert, convert_hex, convert_loop, convert_hex_loop, digit_index,
  div_ten, is_zero, is_negative,
}
use network_ydxlib.Log.Decimal.{read_integer, read_integer-convert}
use network_ydxlib.Log.Room.{Logged, Shows, log-Logged}

-- -120 and 0x1F.
convert-negative : convert (negsuc 119) ≡ some (45 ∷ 49 ∷ 50 ∷ 48 ∷ [])
unfolding convert convert_loop digit_index div_ten is_zero is_negative
convert-negative = refl

convert_hex-small : convert_hex 31 ≡ some (49 ∷ 70 ∷ [])
unfolding convert_hex convert_hex_loop
convert_hex-small = refl

read_integer-convert_example :
    (xs : List ℕ) × (convert (negsuc 119) ≡ some xs)
    × (read_integer xs ≡ some (negsuc 119))
    × (length xs ≤ 21)
read_integer-convert_example = read_integer-convert (negsuc 119) (omega arith) (omega arith)

abbrev line : FixedBuffer
line = record { size = 4000; text = 120 ∷ 61 ∷ [] }

log-Logged_example : Logged (Shows (integer (negsuc 119))) line (log (integer (negsuc 119)) line)
log-Logged_example = log-Logged (integer (negsuc 119)) line (omega arith) (omega arith, omega arith)
