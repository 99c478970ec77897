-- ===== src/Expressions/Power.antt =====
-- src/expressions.c: the power operator and powers modulo 2 ^ 64.
use native.Mathlib.Nat.{mul_assoc, mul_comm, pow-suc, div-add-mod, mul-add-mod_self_left}
use sciteco.Prelude.{
  ℕ, zero, suc, ◌+◌, ◌*◌, ◌/◌, ◌%◌, ◌^◌, ◌<◌, ◌≡◌, ◌≢◌, refl, ap, sym, ◌∙◌, inl, inr, false, arith,
  ◌==◌, Bool-cases,
}
use sciteco.TecoInt.{modulus, half, is_negative, multiply}
use sciteco.Expressions.Calc.{value, loops, pow_loop, power}

-- The power by its definition.
pub power_of : ℕ → ℕ → ℕ
power_of b zero = 1
power_of b (suc n) = b * power_of b n

module _ (m : ℕ) where
  mod-mul : (a b : ℕ) → a % m * b % m ≡ a * b % m
  mod-mul a b = rw split (sym (mul-add-mod_self_left m (a / m * b) (a % m * b)))
    where
      split : a * b ≡ m * (a / m * b) + a % m * b
      split = omega (arith, ap (λ (t : ℕ). t * b) (div-add-mod a m))

  mul-mod : (a b : ℕ) → a * (b % m) % m ≡ a * b % m
  mul-mod a b = rw (mul_comm a (b % m), mul_comm a b) (mod-mul b a)

  -- A factor may be replaced by a congruent one.
  mul_congr : (a b c : ℕ) → b % m ≡ c % m → a * b % m ≡ a * c % m
  mul_congr a b c e = sym (mul-mod a b) ∙ rw e (mul-mod a c)

  mod-power_of : (n b : ℕ) → power_of (b % m) n % m ≡ power_of b n % m
  unfolding power_of
  mod-power_of zero b = refl
  mod-power_of (suc n) b =
      mod-mul b (power_of (b % m) n)
      ∙ mul_congr b (power_of (b % m) n) (power_of b n) (mod-power_of n b)

-- Squaring halves the exponent.
power_of-square : (n b : ℕ) → power_of b (2 * n) ≡ power_of (b * b) n
unfolding power_of
power_of-square zero b = refl
power_of-square (suc n) b =
    rw (double n) (omega (arith, ap (λ (t : ℕ). b * b * t) (power_of-square n b)))
  where
    double : (n : ℕ) → 2 * suc n ≡ suc (suc (2 * n))
    double n = omega arith

power_of-suc : (n b : ℕ) → power_of b (suc n) ≡ b * power_of b n
unfolding power_of
power_of-suc n b = refl

-- One round: the lowest bit of the exponent decides on a factor.
power_of-odd : (r b : ℕ) → r % 2 ≡ 1 → power_of b r ≡ b * power_of (b * b) (r / 2)
power_of-odd r b odd =
    ap (power_of b) half ∙ power_of-suc (2 * (r / 2)) b ∙ rw (power_of-square (r / 2) b)
  where
    half : r ≡ suc (2 * (r / 2))
    half = omega arith

power_of-even : (r b : ℕ) → r % 2 ≢ 1 → power_of b r ≡ power_of (b * b) (r / 2)
power_of-even r b even = ap (power_of b) half ∙ power_of-square (r / 2) b
  where
    half : r ≡ 2 * (r / 2)
    half = omega arith

-- The rest of the loop computes what is still owed.
owed : ℕ → ℕ → ℕ → ℕ
owed result b r = result * power_of b r % modulus

owed-square :
    (result b r : ℕ) → owed result (multiply b b) r ≡ result * power_of (b * b) r % modulus
unfolding owed multiply
owed-square result b r =
    mul_congr modulus result (power_of (b * b % modulus) r) (power_of (b * b) r)
      (mod-power_of modulus r (b * b))

owed-odd :
    (result b r : ℕ) → r % 2 ≡ 1 → owed (multiply result b) (multiply b b) (r / 2) ≡ owed result b r
owed-odd result b r odd =
    owed-square (multiply result b) b (r / 2)
    ∙ unfold multiply in mod-mul modulus (result * b) (power_of (b * b) (r / 2)) ∙ rest
  where
    rest : result * b * power_of (b * b) (r / 2) % modulus ≡ owed result b r
    rest =
        unfold owed in rw (power_of-odd r b odd, mul_assoc result b (power_of (b * b) (r / 2))) refl

owed-even : (result b r : ℕ) → r % 2 ≢ 1 → owed result (multiply b b) (r / 2) ≡ owed result b r
owed-even result b r even =
    owed-square result b (r / 2) ∙ unfold owed in rw (power_of-even r b even) refl

owed_one : (result b r : ℕ) → r ≡ 1 → owed result b r ≡ multiply result b
unfolding owed multiply power_of
owed_one result b r e = rw e (ap (λ (t : ℕ). result * t % modulus) (omega arith))

halved : (r fuel : ℕ) → r < 2 ^ suc fuel → r / 2 < 2 ^ fuel
halved r fuel k = omega (arith, pow-suc 2 fuel)

pow_loop-owed :
    (fuel result b r : ℕ)
    → 0 < r
    → r < 2 ^ fuel
    → pow_loop fuel result b r ≡ value (owed result b r)
unfolding pow_loop
pow_loop-owed zero result b r h k = absurd (omega arith)
pow_loop-owed (suc fuel) result b r h k = elim (Bool-cases (r % 2 == 1)) [
  | inl odd ↦ elim (Bool-cases (r / 2 == 0)) [
    | inl last ↦ rw (last, odd, pow_loop) (ap value (sym (owed_one result b r (ground arith))))
    | inr more ↦
        rw (more, odd, pow_loop)
          (pow_loop-owed fuel (multiply result b) (multiply b b) (r / 2) (ground arith)
              (halved r fuel k)
            ∙ ap value (owed-odd result b r (ground arith)))
  ]
  | inr even ↦ elim (Bool-cases (r / 2 == 0)) [
    | inl last ↦ absurd (ground arith)
    | inr more ↦
        rw (more, even, pow_loop)
          (pow_loop-owed fuel result (multiply b b) (r / 2) (ground arith) (halved r fuel k)
            ∙ ap value (owed-even result b r (ground arith)))
  ]
]

-- For a positive exponent below 2 ^ 63 the loop of squarings computes the power of the base by
-- repeated multiplication, modulo 2 ^ 64.
pub power-power_of : (b r : ℕ) → 0 < r → r < half → power b r ≡ value (power_of b r % modulus)
unfolding power
power-power_of b r h k =
    rw (nonzero, nonneg)
      (pow_loop-owed 64 1 b r h (omega arith)
        ∙ ap value (unfold owed in ap (λ (t : ℕ). t % modulus) (omega arith)))
  where
    nonzero : (r == 0) ≡ false
    nonzero = ground arith

    nonneg : is_negative r ≡ false
    nonneg = ground arith

-- The loop of the power operator ends within 64 rounds, for every base and exponent.
pub power-ne-loops : (b r : ℕ) → power b r ≢ loops
unfolding power
power-ne-loops b r = ground (arith, pow_loop-owed 64 1 b r)
