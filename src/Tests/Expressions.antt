-- ===== src/Tests/Expressions.antt =====
-- The stacks of src/expressions.c on concrete expressions.
use sciteco.Prelude.{◌≡◌, ◌≢◌, refl, true, false, [], ◌∷◌, arith, length, ◌%◌}
use sciteco.Undo.{Undo, push_size, pop}
use sciteco.Undo.Rubout.{state-pop-push_size, length-push_size}
use sciteco.Editor.{
  div, number, mul, sub, add, Token, act, State, whole, insert_number, remove_number,
}
use sciteco.Expressions.Stacks.{no_fuel, ◌>>◌}
use sciteco.Expressions.Calc.{value, traps, operate, power}
use sciteco.Expressions.Eval.{eval, brace_return}
use sciteco.Expressions.Tree.{Tree, lit, node, paren, items, meaning}
use sciteco.Expressions.Contents.{Holds, Succeeds}
use sciteco.Expressions.Precedence.{eval-inputs}
use sciteco.Expressions.Power.{power_of, power-power_of}
use sciteco.Expressions.Rubout.{RunReverts}
use sciteco.Expressions.Rubout.Braces.{brace_return-RunReverts}
use sciteco.Commands.{operand, infix_op, open_brace, close_brace, comma, input, inputs}
use sciteco.Commands.Safety.{input-ends, input-RunReverts}
use sciteco.TecoInt.{minus_one, modulus, multiply, subtract}
use sciteco.TecoInt
use sciteco.Tests.{fresh, start, after}

-- 2+3*(4-1)
abbrev sample : Tree
sample = node add (lit 2) (node mul (lit 3) (paren (node sub (lit 4) (lit 1))))

sample-value : meaning sample ≡ value 11
unfolding operate TecoInt.add multiply subtract
sample-value = refl

-- (1,2
abbrev inside : State
inside = after (open_brace ∷ operand 1 ∷ comma ∷ operand 2 ∷ [])

start-Holds : Holds [] [] 0 start
start-Holds = record { numbers = refl; operators = refl; num_sign = refl; brace_level = refl }

eval-inputs_example :
    Succeeds (inputs (items sample) start >> eval false) (Holds (11 ∷ []) (number ∷ []) 0)
eval-inputs_example =
    eval-inputs sample 11 0 [] [] start
      (
        refl,
        omega arith,
        omega arith,
        tt,
        (refl, omega arith, omega arith, tt, (refl, omega arith, omega arith, tt, tt)),
      )
      sample-value tt start-Holds

input-RunReverts_example : RunReverts whole inside (input close_brace inside)
input-RunReverts_example = input-RunReverts close_brace inside

input-ends_example : input (infix_op sub) inside ≢ no_fuel
input-ends_example = input-ends (infix_op sub) inside

brace_return-RunReverts_example : RunReverts whole inside (brace_return 0 1 inside)
brace_return-RunReverts_example = brace_return-RunReverts 0 1 inside

power-power_of_example : power 3 5 ≡ value (power_of 3 5 % modulus)
power-power_of_example = power-power_of 3 5 (omega arith) (omega arith)

-- A stack with one token for the first key; the third key pushes another one.
abbrev tokens : Undo Token
tokens = record { enabled = true; heads = (remove_number 0 ∷ []) ∷ [] }

state-pop-push_size_example :
    (pop act 1 (push_size (insert_number 0 7) 2 tokens) fresh).1
    ≡ (pop act 1 tokens (act (insert_number 0 7) fresh)).1
state-pop-push_size_example =
    state-pop-push_size act (insert_number 0 7) 1 2 tokens fresh refl (omega arith) (omega arith)

length-push_size_example : length (push_size (insert_number 0 7) 2 tokens).heads ≡ 3
length-push_size_example = length-push_size (insert_number 0 7) 2 tokens refl (omega arith)

-- (-1)^*(-2) and (-5)^*0
negative_power : power minus_one 0xfffffffffffffffe ≡ value minus_one
unfolding power TecoInt.magnitude
negative_power = refl

zeroth_power : power 0xfffffffffffffffb 0 ≡ value minus_one
unfolding power
zeroth_power = refl

-- The least integer divided by -1, which traps.
least_quotient : operate div 0x8000000000000000 minus_one ≡ traps
unfolding operate
least_quotient = refl
