-- ===== src/Expressions/Tree.antt =====
-- Infix expressions: what is typed at the prompt, and what it is to compute. src/core-commands.c types
-- them command by command; the operators are those of src/expressions.c.
use sciteco.Prelude.{ℕ, ◌≤◌, ◌<◌, ◌≡◌, true, List, [], ◌∷◌, ◌++◌}
use sciteco.Editor.{Operator}
use sciteco.Expressions.Calc.{Outcome, value, operate}
use sciteco.Expressions.Eval.{precedence}
use sciteco.Expressions.Contents.{is_infix}
use sciteco.Expressions.Pending.{and_then}
use sciteco.Commands.{Item, operand, infix_op, open_brace, close_brace}

-- An expression as it is meant, and as it is typed.
pub data Tree : Type 0 where
  lit : ℕ → Tree
  node : Operator → Tree → Tree → Tree
  paren : Tree → Tree

abbrev pub items : Tree → List Item
items (lit n) = operand n ∷ []
items (node op l r) = items l ++ (infix_op op ∷ items r)
items (paren e) = open_brace ∷ (items e ++ (close_brace ∷ []))

-- What it is to compute: both operands first, from left to right.
abbrev pub meaning : Tree → Outcome
meaning (lit n) = value n
meaning (node op l r) = and_then (meaning l) (λ a. and_then (meaning r) (λ b. operate op a b))
meaning (paren e) = meaning e

-- How tightly the outermost operator binds; no operator binds more than a number or a brace.
abbrev pub binding : Tree → ℕ
binding (lit n) = 7
binding (node op l r) = precedence op
binding (paren e) = 7

-- The tree is the one that precedence and association to the left give to the text.
abbrev pub IsParsed : Tree → Type 0
IsParsed (lit n) = Unit {0}
IsParsed (node op l r) =
    (is_infix op ≡ true)
    × (precedence op ≤ binding l)
    × (precedence op < binding r)
    × IsParsed l
    × IsParsed r
IsParsed (paren e) = IsParsed e
