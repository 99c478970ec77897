-- ===== src/Numbers/RoundTrip.antt =====
-- src/expressions.c and src/core-commands.c: what `\` writes, and what it reads at the same place.
use mathlib.Core.Option.{some-injective}
use sciteco.Prelude.{
  ℕ, ◌+◌, ◌≤◌, ◌<◌, ◌≡◌, refl, subst, sym, ap, ◌∙◌, true, false, none, some, List, [], ◌∷◌, ◌++◌,
  arith, length, ◌==◌, if◌then◌else◌, Bool-cases, inl, inr,
}
use sciteco.TecoInt.{modulus, half, is_negative, magnitude, multiply, minus_one}
use sciteco.Numbers.{ascii_toupper, digit_value, format, next_byte, read_loop, read_number}
use sciteco.Numbers.Digits.{
  magnitude-le, digits-some, digits_first, format_loop-digits, read_loop-digits,
}

with_sign-length :
    (number : ℕ) (s : List ℕ)
    → length s ≤ 64
    → length (if is_negative number then b'-' ∷ s else s) + 1 ≤ 66
with_sign-length number s h = ground arith

-- In every radix from 2 on, formatting a number ends, and the text with its null byte fits the
-- buffer of 66 bytes.
pub format-some :
    (number radix : ℕ)
    → number < modulus
    → 2 ≤ radix
    → radix < half
    → (s : List ℕ) × (format number radix ≡ some s) × (length s + 1 ≤ 66)
unfolding format
format-some number radix h k l =
    let (s, es, le) =
      digits-some 63 (magnitude number) radix [] k (omega (arith, magnitude-le number h)) in
    rw (format_loop-digits 64 number radix [] h k l ∙ es) (_, refl, with_sign-length number s le)

read_loop_stops :
    (v radix : ℕ) (rest : List ℕ)
    → digit_value radix (ascii_toupper (next_byte rest)) ≡ none
    → read_loop radix v rest ≡ v
unfolding read_loop
read_loop_stops v radix [] e = refl
read_loop_stops v radix (c ∷ rest) e = rw (e, read_loop) refl

read_negative :
    (number : ℕ)
    → number < modulus
    → is_negative number ≡ true
    → multiply minus_one (magnitude number) ≡ number
unfolding multiply magnitude
read_negative number h n = ground arith

read_positive : (number : ℕ) → is_negative number ≡ false → multiply 1 (magnitude number) ≡ number
unfolding multiply magnitude
read_positive number n = ground arith

-- The sign in front of the digits is read as the sign.
read_number-sign :
    (number radix : ℕ) (t rest : List ℕ)
    → number < modulus
    → (c : ℕ) × (t' : List ℕ) × (t ≡ c ∷ t') × ((c == b'-') ≡ false)
    → read_loop radix 0 (t ++ rest) ≡ magnitude number
    → read_number radix ((if is_negative number then b'-' ∷ t else t) ++ rest) ≡ number
unfolding read_number
read_number-sign number radix t rest h (c, t', et, ec) er = elim (Bool-cases (is_negative number)) [
  | inl n ↦ rw (n, read_number) (rw er (read_negative number h n))
  | inr n ↦
      rw (n, et, ec)
        (ap (multiply 1) (ap (λ xs. read_loop radix 0 (xs ++ rest)) (sym et) ∙ er)
          ∙ read_positive number n)
]

-- What the formatting of a number writes is read back as that number, the least integer included,
-- for every radix from 2 to 36, if what follows it does not begin with a digit.
pub read_number-format :
    (number radix : ℕ) (s rest : List ℕ)
    → number < modulus
    → 2 ≤ radix
    → radix ≤ 36
    → digit_value radix (ascii_toupper (next_byte rest)) ≡ none
    → format number radix ≡ some s
    → read_number radix (s ++ rest) ≡ number
unfolding format
read_number-format number radix s rest h k l ends =
    let m = magnitude number in
    let (t, et, le) = digits-some 63 m radix [] k (omega (arith, magnitude-le number h)) in
    rw (format_loop-digits 64 number radix [] h k (omega arith) ∙ et) (λ es.
      subst (λ xs. read_number radix (xs ++ rest) ≡ number) (some-injective _ _ es)
        (read_number-sign number radix t rest h (digits_first 64 m radix [] t k l et) (
          read_loop-digits 64 m radix [] t rest k l (omega (arith, magnitude-le number h)) et
          ∙ read_loop_stops m radix rest ends)))
