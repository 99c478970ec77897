-- ===== src/Expressions/Calc.antt =====
-- src/expressions.c: the calculation of one operator, teco_expressions_calc().
use Prim.Native.Nat.{bit_and, bit_or, bit_xor}
use sciteco.Prelude.{ℕ, zero, suc, ◌/◌, ◌%◌, Bool, true, false, not, ◌==◌, if◌then◌else◌}
use sciteco.Editor.{Operator, pow, modulo, div, mul, sub, add, and, xor, or, State}
use sciteco.Expressions.Stacks.{
  Error, missing_right_operand, missing_left_operand, negative_power_of_zero, division_by_zero,
  remainder_of_division_by_zero, Run, ok, err, crash, no_fuel, is_number, peek_op, pop_num, pop_op,
  push_int,
}
use sciteco.TecoInt.{
  minus_one, is_negative, magnitude, subtract, multiply, quotient, remainder, overflows,
}
use sciteco.TecoInt

-- What the switch of teco_expressions_calc() ends with.
pub data Outcome : Type 0 where
  value : ℕ → Outcome
  fails : Error → Outcome
  traps : Outcome
  loops : Outcome

-- The loop of TECO_OP_POW, for an exponent that is not negative.
unfoldable pub pow_loop : ℕ → ℕ → ℕ → ℕ → Outcome
pow_loop zero result vleft vright = loops
pow_loop (suc fuel) result vleft vright =
    let result' = if vright % 2 == 1 then multiply result vleft else result in
    elim (vright / 2 == 0) [
      | true ↦ value result'
      | false ↦ pow_loop fuel result' (multiply vleft vleft) (vright / 2)
    ]

-- The 64 bits of the exponent are as many rounds as the loop can take.
unfoldable pub power : ℕ → ℕ → Outcome
power vleft vright =
    if vright == 0
    then value (if is_negative vleft then minus_one else 1)
    else if is_negative vright
    then (if vleft == 0
        then fails negative_power_of_zero
        else value (if magnitude vleft == 1 then vleft else 0))
    else pow_loop 64 1 vleft vright

-- The switch of teco_expressions_calc().
unfoldable pub operate : Operator → ℕ → ℕ → Outcome
unfolding power
operate pow l r = power l r
operate mul l r = value (multiply l r)
operate div l r =
    if r == 0 then fails division_by_zero else if overflows l r then traps else value (quotient l r)
operate modulo l r =
    if r == 0
    then fails remainder_of_division_by_zero
    else if overflows l r
    then traps
    else value (remainder l r)
operate add l r = value (TecoInt.add l r)
operate sub l r = value (subtract l r)
operate and l r = value (bit_and l r)
operate xor l r = value (bit_xor l r)
operate or l r = value (bit_or l r)
operate _ l r = traps

-- !teco_operators->len || teco_expressions_peek_op(0) != TECO_OP_NUMBER
unfoldable pub lacks_operand : State → Bool
unfolding peek_op
lacks_operand s = not (is_number (peek_op 0 s))

-- teco_expressions_push(result), or the error
unfoldable pub finish : Outcome → State → Run (Unit {0})
unfolding push_int
finish (value n) s = ok tt (push_int n s)
finish (fails e) s = err e s
finish traps s = crash
finish loops s = no_fuel

unfoldable pub calc_left : ℕ → Operator → State → Run (Unit {0})
unfolding lacks_operand finish pop_num operate
calc_left vright op s =
    if lacks_operand s
    then err missing_left_operand s
    else let (vleft, t) = pop_num 0 s in finish (operate op vleft vright) t

unfoldable pub calc : State → Run (Unit {0})
unfolding lacks_operand calc_left pop_num pop_op
calc s =
    if lacks_operand s
    then err missing_right_operand s
    else let (vright, t) = pop_num 0 s in let (op, u) = pop_op 0 t in calc_left vright op u
