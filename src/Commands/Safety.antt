-- ===== src/Commands/Safety.antt =====
-- src/core-commands.c: the fuel and the undo tokens of the commands of expressions.
use sciteco.Prelude.{◌≢◌, inl, inr, false, ltb, Bool-cases}
use sciteco.Editor.{new, mul, sub, plus, State, whole}
use sciteco.Expressions.Stacks.{ok, no_fuel, is_minus, set_num_sign, push_int, args}
use sciteco.Expressions.Eval.{eval, push_calc, brace_open}
use sciteco.Expressions.Termination.{eval-ends, push_calc-ends, brace_close-ends, then-ends}
use sciteco.Expressions.Rubout.{
  RunReverts, RunReverts-ok, RunReverts-after, >>-RunReverts, set_num_sign-Reverts, push_op-Reverts,
  push_int-Reverts,
}
use sciteco.Expressions.Rubout.Eval.{eval-RunReverts, push_calc-RunReverts}
use sciteco.Expressions.Rubout.Braces.{brace_open-Reverts, brace_close-RunReverts}
use sciteco.Commands.{
  Item, operand, infix_op, open_brace, close_brace, comma, input, start_minus, start_brace_open,
  start_comma,
}
use sciteco.TecoInt.{minus_one}

start_minus-ends : (s : State) → start_minus s ≢ no_fuel
unfolding start_minus
start_minus-ends s = elim (Bool-cases (ltb 0 (args s))) [
  | inl some_arg ↦ rw some_arg (push_calc-ends sub s)
  | inr no_arg ↦ rw no_arg (λ p. cc)
]

start_brace_open-ends : (s : State) → start_brace_open s ≢ no_fuel
unfolding start_brace_open
start_brace_open-ends s = elim (Bool-cases (is_minus s.vars.num_sign)) [
  | inl neg ↦ rw neg (
      then-ends (eval false (set_num_sign plus s)) _ (eval-ends false (set_num_sign plus s)) λ t.
        then-ends (push_calc mul (push_int minus_one t)) (λ u. ok tt (brace_open u))
          (push_calc-ends mul (push_int minus_one t)) (λ u p. cc))
  | inr pos ↦ rw pos (λ p. cc)
]

-- No command of an expression runs out of the fuel of its loops, in whatever state of the stacks it
-- is typed.
pub input-ends : (i : Item) (s : State) → input i s ≢ no_fuel
unfolding input start_comma
input-ends (operand n) s = then-ends (eval false s) _ (eval-ends false s) (λ t p. cc)
input-ends (infix_op sub) s = start_minus-ends s
input-ends (infix_op op) s = push_calc-ends op s
input-ends open_brace s = start_brace_open-ends s
input-ends close_brace s = brace_close-ends s
input-ends comma s = then-ends (eval false s) _ (eval-ends false s) (λ t p. cc)

start_minus-RunReverts : (s : State) → RunReverts whole s (start_minus s)
unfolding start_minus
start_minus-RunReverts s = elim (Bool-cases (ltb 0 (args s))) [
  | inl some_arg ↦ rw some_arg (push_calc-RunReverts whole sub s)
  | inr no_arg ↦ rw no_arg (RunReverts-ok whole tt s _ (set_num_sign-Reverts whole _ s))
]

start_brace_open-RunReverts : (s : State) → RunReverts whole s (start_brace_open s)
unfolding start_brace_open
start_brace_open-RunReverts s = elim (Bool-cases (is_minus s.vars.num_sign)) [
  | inl neg ↦ rw neg (
      RunReverts-after whole s (set_num_sign plus s) _ (set_num_sign-Reverts whole plus s) (
        >>-RunReverts whole (set_num_sign plus s) (eval false (set_num_sign plus s)) _
          (eval-RunReverts whole false (set_num_sign plus s))
          λ t.
            >>-RunReverts whole t (push_calc mul (push_int minus_one t)) (λ u. ok tt (brace_open u))
              (RunReverts-after whole t (push_int minus_one t) _
                (push_int-Reverts whole minus_one t)
                (push_calc-RunReverts whole mul (push_int minus_one t)))
              (λ u. RunReverts-ok whole tt u _ (brace_open-Reverts u))))
  | inr pos ↦ rw pos (RunReverts-ok whole tt s _ (brace_open-Reverts s))
]

-- From a session in which undo is enabled and no token belongs to a later key, every command of an
-- expression, whether it succeeds or fails, leaves such a session, and rubbing out to any earlier
-- position then gives the variables that rubbing out gave before the command. Traps of the
-- processor are left out.
pub input-RunReverts : (i : Item) (s : State) → RunReverts whole s (input i s)
unfolding input start_comma
input-RunReverts (operand n) s =
    >>-RunReverts whole s (eval false s) _ (eval-RunReverts whole false s)
      (λ t. RunReverts-ok whole tt t _ (push_int-Reverts whole n t))
input-RunReverts (infix_op sub) s = start_minus-RunReverts s
input-RunReverts (infix_op op) s = push_calc-RunReverts whole op s
input-RunReverts open_brace s = start_brace_open-RunReverts s
input-RunReverts close_brace s = brace_close-RunReverts s
input-RunReverts comma s =
    >>-RunReverts whole s (eval false s) _ (eval-RunReverts whole false s)
      (λ t. RunReverts-ok whole tt t _ (push_op-Reverts whole new t))
