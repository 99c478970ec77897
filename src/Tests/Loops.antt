-- ===== src/Tests/Loops.antt =====
-- The loop commands of src/core-commands.c on concrete stacks.
use sciteco.Prelude.{◌≡◌, ◌≢◌, refl, [], ◌∷◌, length}
use sciteco.Undo.Reverts.{change}
use sciteco.Editor.{div, act, State, whole}
use sciteco.Expressions.Stacks.{no_fuel, ◌>>◌}
use sciteco.Expressions.Rubout.{RunReverts}
use sciteco.Commands.{operand, infix_op, open_brace, input, inputs}
use sciteco.Undo.{pop, push_size}
use sciteco.Expressions.Calc.{calc}
use sciteco.Expressions.Eval.{pop_num_calc, discard_args, brace_return}
use sciteco.Commands.Loops.{eval_colon, loop_open, loop_close, break_loop}
use sciteco.Commands.Loops.Rubout.{loop_open-RunReverts, loop_close-RunReverts}
use sciteco.Commands.Loops.Endings.{loop_close-ends}
use sciteco.Cmdline.{advance, rubout}
use sciteco.Tests.{start, state_of}

-- <(5/0(0
abbrev in_loop : State
unfolding advance loop_open inputs
in_loop = advance (
    state_of (
      loop_open 1 start >> λ s.
      inputs (open_brace ∷ operand 5 ∷ infix_op div ∷ operand 0 ∷ open_brace ∷ operand 0 ∷ []) s))

in_loop-length : length in_loop.vars.loop_stack ≡ 1
unfolding loop_open inputs input change advance pop_num_calc eval_colon
in_loop-length = refl

-- Here ; fails with the division in the outer brace. The loop stays removed from the loop stack
-- after the command has been rubbed out.
break_fails : (rubout 1 (state_of (break_loop 0 0 in_loop))).vars.loop_stack ≡ []
unfolding loop_open inputs input change advance rubout break_loop pop pop_num_calc discard_args
    brace_return calc push_size act
break_fails = refl

loop_open-RunReverts_example : RunReverts whole start (loop_open 1 start)
loop_open-RunReverts_example = loop_open-RunReverts 1 start

loop_close-RunReverts_example : RunReverts whole in_loop (loop_close 0 in_loop)
loop_close-RunReverts_example = loop_close-RunReverts 0 in_loop

loop_close-ends_example : loop_close 0 in_loop ≢ no_fuel
loop_close-ends_example = loop_close-ends 0 in_loop
