-- ===== src/Tests/Numbers.antt =====
-- src/expressions.c and src/core-commands.c: numbers written and read.
use sciteco.Prelude.{◌≡◌, refl, ◌≤◌, ◌+◌, ◌++◌, ℕ, List, [], ◌∷◌, some, arith, length}
use sciteco.TecoInt.{half, minus_one}
use sciteco.TecoInt
use sciteco.Numbers.{digit_char, format, read_number}
use sciteco.Numbers.RoundTrip.{format-some, read_number-format}

-- The least integer in base 16.
least :
    format half 16
    ≡ some (
        b'-' ∷ b'8' ∷ b'0' ∷ b'0' ∷ b'0' ∷ b'0' ∷ b'0' ∷ b'0' ∷ b'0' ∷ b'0' ∷ b'0' ∷ b'0' ∷ b'0'
        ∷ b'0' ∷ b'0' ∷ b'0' ∷ b'0' ∷ [])
unfolding format TecoInt.quotient TecoInt.remainder digit_char
least = refl

format-some_example : (s : List ℕ) × (format half 2 ≡ some s) × (length s + 1 ≤ 66)
format-some_example = format-some half 2 (omega arith) (omega arith) (omega arith)

-- The digits are followed by a letter that is none in base 10.
read_number-format_example : read_number 10 ((b'-' ∷ b'1' ∷ []) ++ (b'A' ∷ [])) ≡ minus_one
unfolding format TecoInt.quotient TecoInt.remainder digit_char
read_number-format_example =
    read_number-format minus_one 10 (b'-' ∷ b'1' ∷ []) (b'A' ∷ []) (omega arith) (omega arith)
      (omega arith) refl refl
