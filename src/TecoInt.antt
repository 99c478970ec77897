-- ===== src/TecoInt.antt =====
-- teco_int_t of src/sciteco.h with TECO_INTEGER == 64, the default of configure.ac: a value is its
-- 64-bit pattern in two's complement, a number below 2 ^ 64. Sums and products wrap around.
use sciteco.Prelude.{ℕ, ◌+◌, ◌-◌, ◌*◌, ◌/◌, ◌%◌, Bool, true, false, leb, ◌==◌, if◌then◌else◌}

abbrev pub modulus : ℕ
modulus = 0x10000000000000000

abbrev pub half : ℕ
half = 0x8000000000000000

-- -1
abbrev pub minus_one : ℕ
minus_one = 0xffffffffffffffff

abbrev pub is_negative : ℕ → Bool
is_negative w = leb half w

-- The absolute value as a number; of the least integer it is 2 ^ 63.
unfoldable pub magnitude : ℕ → ℕ
magnitude w = if is_negative w then modulus - w else w

unfoldable pub negate : ℕ → ℕ
negate w = (modulus - w) % modulus

-- The integer with this sign and magnitude.
unfoldable pub signed : Bool → ℕ → ℕ
unfolding negate
signed negative m = if negative then negate m else m % modulus

unfoldable pub add : ℕ → ℕ → ℕ
add a b = (a + b) % modulus

unfoldable pub subtract : ℕ → ℕ → ℕ
subtract a b = (a + modulus - b) % modulus

unfoldable pub multiply : ℕ → ℕ → ℕ
multiply a b = a * b % modulus

pub differ : Bool → Bool → Bool
differ true b = if b then false else true
differ false b = b

-- C's division truncates towards zero, and the remainder has the dividend's sign.
unfoldable pub quotient : ℕ → ℕ → ℕ
unfolding differ signed magnitude
quotient a b = signed (differ (is_negative a) (is_negative b)) (magnitude a / magnitude b)

unfoldable pub remainder : ℕ → ℕ → ℕ
unfolding signed magnitude
remainder a b = signed (is_negative a) (magnitude a % magnitude b)

-- The one division of a 64-bit integer that has no result, and traps on most machines.
abbrev pub overflows : ℕ → ℕ → Bool
overflows a b = if a == half then b == minus_one else false
