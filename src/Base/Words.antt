-- ===== src/Base/Words.antt =====
-- C's integer types on x86-64: `size_t` and `uint64_t` arithmetic modulo 2^64, and the
-- conversions between `int`, its bit pattern and `size_t`.
use Prim.Native.Nat.{ℕ, suc, ◌+◌, ◌-◌, ◌*◌, ◌/◌, ◌%◌, ◌^◌, ◌<◌}
use mathlib.Core.Path.{◌≡◌, refl}
use mathlib.Core.List.{List, [], ◌∷◌}
use native.Mathlib.Omega.{arith}
use network_ydxlib.Base.Lists.{get_or, length}
use network_ydxlib.Base.Tests.{ltb, if◌then◌else◌}
use network_ydxlib.Base.Int.{ℤ, pos, negsuc}

abbrev pub u64_mod : ℕ
u64_mod = 2 ^ 64

abbrev pub add_size : ℕ → ℕ → ℕ
add_size a b = (a + b) % u64_mod

-- Unsigned subtraction wraps.
abbrev pub sub_size : ℕ → ℕ → ℕ
sub_size a b = (a + u64_mod - b) % u64_mod

-- The `int` with a given 32-bit pattern.
abbrev pub signed32 : ℕ → ℤ
signed32 w = if ltb w (2 ^ 31) then pos w else negsuc (2 ^ 32 - w - 1)

-- `static_cast<int>` of a `size_t`: the low 32 bits.
abbrev pub int_of_size : ℕ → ℤ
int_of_size n = signed32 (n % 2 ^ 32)

-- An `int` or `int64_t` where a `size_t` or `uint64_t` is wanted: sign extension.
abbrev pub size_of_int : ℤ → ℕ
size_of_int (pos n) = n % u64_mod
size_of_int (negsuc n) = (u64_mod - (suc n % u64_mod)) % u64_mod

-- The four bytes of an `int`, in the order of x86-64, and the `int` that four bytes make up.
unfoldable pub int_bytes : ℤ → List ℕ
int_bytes z =
    let p = size_of_int z % 2 ^ 32 in
    (p % 256) ∷ (p / 256 % 256) ∷ (p / 65536 % 256) ∷ (p / 16777216) ∷ []

unfoldable pub int_of_bytes : List ℕ → ℤ
int_of_bytes xs =
    signed32
      (get_or xs 0 0 + 256 * get_or xs 1 0 + 65536 * get_or xs 2 0 + 16777216 * get_or xs 3 0)

pub int_of_bytes-int_bytes : (n : ℕ) → n < 2 ^ 31 → int_of_bytes (int_bytes (pos n)) ≡ pos n
unfolding int_bytes int_of_bytes
int_of_bytes-int_bytes n h = ground arith

pub length-int_bytes : (z : ℤ) → length (int_bytes z) ≡ 4
unfolding int_bytes
length-int_bytes z = refl
