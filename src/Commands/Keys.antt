-- ===== src/Commands/Keys.antt =====
-- src/core-commands.c and src/cmdline.c: the commands of expressions as keys of the command line.
use sciteco.Prelude.{◌==◌, Bool, true, false}
use sciteco.Expressions.Eval.{code}
use sciteco.Commands.{Item, operand, infix_op, open_brace, close_brace, comma, input}
use sciteco.Commands.Safety.{input-RunReverts}
use sciteco.Cmdline.{Machine}

unfoldable pub same_item : Item → Item → Bool
same_item (operand n) (operand k) = n == k
same_item (infix_op a) (infix_op b) = code a == code b
same_item open_brace open_brace = true
same_item close_brace close_brace = true
same_item comma comma = true
same_item _ _ = false

unfoldable pub expression_machine : Machine Item
unfolding same_item
expression_machine = record {
  step = input;
  wants_exit = λ s. false;
  same = same_item;
  taken_back = input-RunReverts;
}
