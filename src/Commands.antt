-- ===== src/Commands.antt =====
-- src/core-commands.c: the commands that build expressions.
pub mod Safety
pub mod Loops
pub mod Keys
use sciteco.Prelude.{ℕ, Bool, true, false, List, [], ◌∷◌, ltb, leb, ◌&&◌, if◌then◌else◌}
use sciteco.Editor.{
  Operator, new, pow, modulo, div, mul, sub, add, and, xor, or, Sign, plus, minus, State,
}
use sciteco.Expressions.Stacks.{
  Run, ok, err, crash, no_fuel, ◌>>◌, is_minus, set_num_sign, push_op, push_int, pop_num, args,
}
use sciteco.Expressions.Eval.{eval, push_calc, pop_num_calc, add_digit, brace_open, brace_close}
use sciteco.TecoInt.{minus_one}

abbrev pub opposite : Sign → Sign
opposite plus = minus
opposite minus = plus

-- teco_state_start_minus()
unfoldable pub start_minus : State → Run (Unit {0})
unfolding args set_num_sign push_calc
start_minus s =
    if ltb 0 (args s) then push_calc sub s else ok tt (set_num_sign (opposite s.vars.num_sign) s)

-- teco_state_start_brace_open()
unfoldable pub start_brace_open : State → Run (Unit {0})
unfolding set_num_sign eval push_int push_calc brace_open
start_brace_open s =
    if is_minus s.vars.num_sign
    then (eval false (set_num_sign plus s) >> λ t.
        push_calc mul (push_int minus_one t) >> λ u. ok tt (brace_open u))
    else ok tt (brace_open s)

-- teco_state_start_comma()
unfoldable pub start_comma : State → Run (Unit {0})
unfolding eval push_op
start_comma s = eval false s >> λ t. ok tt (push_op new t)

-- One step of an expression: a command that pushes a number (after resolving what is on the stack),
-- an infix operator, a brace or the argument separator.
pub data Item : Type 0 where
  operand : ℕ → Item
  infix_op : Operator → Item
  open_brace close_brace comma : Item

unfoldable pub input : Item → State → Run (Unit {0})
unfolding start_minus start_brace_open start_comma push_calc brace_close eval push_int
input (operand n) s = eval false s >> λ t. ok tt (push_int n t)
input (infix_op sub) s = start_minus s
input (infix_op op) s = push_calc op s
input open_brace s = start_brace_open s
input close_brace s = brace_close s
input comma s = start_comma s

unfoldable pub inputs : List Item → State → Run (Unit {0})
unfolding input
inputs [] s = ok tt s
inputs (i ∷ is) s = input i s >> λ t. inputs is t
