-- ===== src/Numbers/Digits.antt =====
-- src/expressions.c and src/core-commands.c: the digits of a magnitude, written and read.
use mathlib.Core.Option.{some-injective}
use native.Mathlib.Nat.{div-add-mod, mod-lt, mul_comm, mul-le-mul_right}
use sciteco.Prelude.{
  ℕ, zero, suc, ◌+◌, ◌*◌, ◌/◌, ◌%◌, ◌^◌, ◌≤◌, ◌<◌, ◌≡◌, refl, sym, ap, ◌∙◌, Bool, true, false,
  Option, none, some, List, ◌∷◌, ◌++◌, arith, length, ◌==◌, Bool-cases, inl, inr,
}
use sciteco.TecoInt.{
  differ, modulus, half, is_negative, magnitude, negate, signed, multiply, quotient, remainder,
}
use sciteco.TecoInt
use sciteco.Numbers.{digit_char, format_loop, ascii_toupper, digit_value, read_loop}

-- The loop on a magnitude.
unfoldable pub digits : ℕ → ℕ → ℕ → List ℕ → Option (List ℕ)
digits zero m radix p = none
digits (suc fuel) m radix p = elim (m / radix == 0) [
  | true ↦ some (digit_char (m % radix) ∷ p)
  | false ↦ digits fuel (m / radix) radix (digit_char (m % radix) ∷ p)
]

magnitude-signed : (b : Bool) (m : ℕ) → m < half → magnitude (signed b m) ≡ m
unfolding magnitude signed
magnitude-signed b m h = ground arith

signed-lt : (b : Bool) (m : ℕ) → signed b m < modulus
unfolding signed
signed-lt b m = ground arith

signed_zero : (b : Bool) (m : ℕ) → m < half → (signed b m == 0) ≡ (m == 0)
unfolding signed
signed_zero b m h = ground arith

digit_value-digit_char :
    (radix d : ℕ)
    → radix ≤ 36
    → d < radix
    → digit_value radix (ascii_toupper (digit_char d)) ≡ some d
unfolding digit_char
digit_value-digit_char radix d h k = ground arith

pub magnitude-le : (v : ℕ) → v < modulus → magnitude v ≤ half
unfolding magnitude
magnitude-le v h = ground arith

-- A division by two or more at least halves.
pub twice-div : (m r : ℕ) → 2 ≤ r → m / r + m / r ≤ m
twice-div m r h =
    let p : r * (m / r) + m % r ≡ m = div-add-mod m r in
    let q : 2 * (m / r) ≤ r * (m / r) = mul-le-mul_right (m / r) h in omega (arith, p, q)

magnitude_plain : (r : ℕ) → r < half → magnitude r ≡ r
unfolding magnitude
magnitude_plain r h = ground arith

remainder-lt : (m r : ℕ) → 2 ≤ r → r < half → m % r < half
remainder-lt m r h k = omega (arith, mod-lt m {m = r} (omega arith))

remainder_plain : (v r : ℕ) → r < half → remainder v r ≡ signed (is_negative v) (magnitude v % r)
unfolding remainder
remainder_plain v r h = ap (λ m. signed (is_negative v) (magnitude v % m)) (magnitude_plain r h)

quotient_plain : (v r : ℕ) → r < half → (b : Bool) × (quotient v r ≡ signed b (magnitude v / r))
unfolding quotient
quotient_plain v r h =
    let b = differ (is_negative v) (is_negative r) in
    (b, ap (λ m. signed b (magnitude v / m)) (magnitude_plain r h))

remainder-magnitude : (v r : ℕ) → 2 ≤ r → r < half → magnitude (remainder v r) ≡ magnitude v % r
remainder-magnitude v r h k =
    rw (remainder_plain v r k) (magnitude-signed _ _ (remainder-lt (magnitude v) r h k))

quotient-lt : (v r : ℕ) → v < modulus → 2 ≤ r → magnitude v / r < half
quotient-lt v r h k = omega (arith, magnitude-le v h, twice-div (magnitude v) r k)

-- Each step of the loop divides the magnitude.
quotient_steps :
    (v r : ℕ)
    → v < modulus
    → 2 ≤ r
    → r < half
    → (magnitude (quotient v r) ≡ magnitude v / r)
      × ((quotient v r == 0) ≡ (magnitude v / r == 0))
      × (quotient v r < modulus)
quotient_steps v r h k l =
    let (b, e) = quotient_plain v r l in
    rw e (
      magnitude-signed b _ (quotient-lt v r h k),
      signed_zero b _ (quotient-lt v r h k),
      signed-lt b _,
    )

-- The loop depends on the magnitude only.
pub format_loop-digits :
    (fuel v r : ℕ) (p : List ℕ)
    → v < modulus
    → 2 ≤ r
    → r < half
    → format_loop fuel v r p ≡ digits fuel (magnitude v) r p
unfolding format_loop digits
format_loop-digits zero v r p h k l = refl
format_loop-digits (suc fuel) v r p h k l =
    let (em, ez, lt) = quotient_steps v r h k l in
    let ed = remainder-magnitude v r k l in
    elim (Bool-cases (magnitude v / r == 0)) [
      | inl e ↦ rw (e, ez ∙ e, format_loop, digits) (ap (λ d. some (digit_char d ∷ p)) ed)
      | inr e ↦
          rw (e, ez ∙ e, format_loop, digits)
            (ap (λ d. format_loop fuel (quotient v r) r (digit_char d ∷ p)) ed
              ∙ format_loop-digits fuel (quotient v r) r _ lt k l
              ∙ ap (λ m. digits fuel m r (digit_char (magnitude v % r) ∷ p)) em)
    ]

halved : (fuel m r : ℕ) → 2 ≤ r → m < 2 ^ suc fuel → m / r < 2 ^ fuel
halved fuel m r h lt = omega (arith, twice-div m r h, lt)

-- Fuel f is enough for a magnitude below 2 ^ f, and each unit of it writes at most one digit.
pub digits-some :
    (fuel m r : ℕ) (p : List ℕ)
    → 2 ≤ r
    → m < 2 ^ suc fuel
    → (s : List ℕ) × (digits (suc fuel) m r p ≡ some s) × (length s ≤ suc fuel + length p)
unfolding digits
digits-some zero m r p h lt =
    let e : (m / r == 0) ≡ true = ground (arith, halved zero m r h lt) in
    rw (e, digits) (_, refl, omega arith)
digits-some (suc fuel) m r p h lt =
    let p' = digit_char (m % r) ∷ p in
    elim (Bool-cases (m / r == 0)) [
      | inl e ↦ rw (e, digits) (p', refl, omega arith)
      | inr e ↦
          rw (e, digits)
            (let (s, es, le) = digits-some fuel (m / r) r p' h (halved (suc fuel) m r h lt) in
              (s, es, omega (arith, le)))
    ]

digit_added : (r m : ℕ) → 2 ≤ r → m < modulus → TecoInt.add (multiply (m / r) r) (m % r) ≡ m
unfolding TecoInt.add multiply
digit_added r m h l = omega (arith, div-add-mod m r, mul_comm (m / r) r)

digit_not_sign : (d : ℕ) → d ≤ 36 → (digit_char d == b'-') ≡ false
unfolding digit_char
digit_not_sign d h = ground arith

-- The first character that is written is no sign.
pub digits_first :
    (fuel m r : ℕ) (p s : List ℕ)
    → 2 ≤ r
    → r ≤ 36
    → digits fuel m r p ≡ some s
    → (c : ℕ) × (t : List ℕ) × (s ≡ c ∷ t) × ((c == b'-') ≡ false)
unfolding digits
digits_first zero m r p s h k = λ es. absurd cc
digits_first (suc fuel) m r p s h k = elim (Bool-cases (m / r == 0)) [
  | inl e ↦
      rw (e, digits)
        (λ es.
          let lt : m % r < r = mod-lt m {m = r} (omega arith) in
          (_, p, sym (some-injective _ _ es), digit_not_sign (m % r) (omega (arith, lt))))
  | inr e ↦ rw (e, digits) (λ es. digits_first fuel (m / r) r _ s h k es)
]

read_step :
    (r m : ℕ) (cs : List ℕ)
    → 2 ≤ r
    → r ≤ 36
    → m < modulus
    → read_loop r (m / r) (digit_char (m % r) ∷ cs) ≡ read_loop r m cs
unfolding read_loop
read_step r m cs h k l =
    rw (digit_value-digit_char r (m % r) k (mod-lt m {m = r} (omega arith)), read_loop)
      (ap (λ v. read_loop r v cs) (digit_added r m h l))

-- What is written is read, in front of everything that follows it.
pub read_loop-digits :
    (fuel m r : ℕ) (p s rest : List ℕ)
    → 2 ≤ r
    → r ≤ 36
    → m < modulus
    → digits fuel m r p ≡ some s
    → read_loop r 0 (s ++ rest) ≡ read_loop r m (p ++ rest)
unfolding digits
read_loop-digits zero m r p s rest h k l = λ es. absurd cc
read_loop-digits (suc fuel) m r p s rest h k l =
    let step = read_step r m (p ++ rest) h k l in
    elim (Bool-cases (m / r == 0)) [
      | inl e ↦
          rw (e, digits)
            (λ es.
              ap (λ xs. read_loop r 0 (xs ++ rest)) (sym (some-injective _ _ es))
              ∙ ap (λ d. read_loop r d (digit_char (m % r) ∷ p ++ rest)) (sym (ground (arith, e)))
              ∙ step)
      | inr e ↦
          rw (e, digits)
            (λ es.
              read_loop-digits fuel (m / r) r _ s rest h k (omega (arith, twice-div m r h)) es
              ∙ step)
    ]
