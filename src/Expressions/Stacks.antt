-- ===== src/Expressions/Stacks.antt =====
-- src/expressions.c: pushing to and popping from the two stacks, each with its undo token.
use sciteco.Prelude.{
  ℕ, zero, suc, ◌-◌, Bool, true, false, Option, none, some, List, [], ◌∷◌, ltb, length, get_or,
  erase_idx, if◌then◌else◌,
}
use sciteco.Undo.Reverts.{change}
use sciteco.Editor.{
  Operator, nil, new, brace, number, Sign, plus, minus, Vars, remove_number, insert_number,
  remove_operator, insert_operator, restore_num_sign, State,
}
use sciteco.TecoInt.{multiply, minus_one}

-- The messages of the errors, by name.
pub data Error : Type 0 where
  missing_right_operand missing_left_operand negative_power_of_zero : Error
  division_by_zero remainder_of_division_by_zero missing_opening_brace : Error
  loop_end_without_start brace_left_open only_allowed_in_loops : Error
  unexpected_modifier unexpected_character argument_expected invalid_conditional : Error
  macro_return : ℕ → Error

-- What a call leaves: a value, an error (the undo tokens then take back what was done), a trap of
-- the processor, or a loop that ran out of its fuel.
pub data Run (A : Type 0) : Type 0 where
  ok : A → State → Run A
  err : Error → State → Run A
  crash : Run A
  no_fuel : Run A

infixl 5 ◌>>=◌ ◌>>◌
abbrev pub ◌>>=◌ : {A B : Type 0} → Run A → (A → State → Run B) → Run B
ok a s >>= f = f a s
err e s >>= f = err e s
crash >>= f = crash
no_fuel >>= f = no_fuel

abbrev pub ◌>>◌ : {B : Type 0} → Run (Unit {0}) → (State → Run B) → Run B
ok _ s >> f = f s
err e s >> f = err e s
crash >> f = crash
no_fuel >> f = no_fuel

unfoldable pub set_num_sign : Sign → State → State
set_num_sign g s = change (restore_num_sign s.vars.num_sign) (record v { num_sign = g }) s
  where
    v : Vars
    v = s.vars

unfoldable pub peek_num : ℕ → State → ℕ
peek_num i s = get_or s.vars.numbers i 0

unfoldable pub peek_op : ℕ → State → Operator
peek_op i s = get_or s.vars.operators i nil

abbrev pub is_number : Operator → Bool
is_number number = true
is_number _ = false

abbrev pub is_new : Operator → Bool
is_new new = true
is_new _ = false

abbrev pub is_brace : Operator → Bool
is_brace brace = true
is_brace _ = false

-- g_array_append_val() and g_array_remove_index() on the two stacks, each under its token.
unfoldable pub push_op : Operator → State → State
push_op op s =
    change (remove_operator (length (op ∷ s.vars.operators) - 1))
      (record v { operators = op ∷ v.operators }) s
  where
    v : Vars
    v = s.vars

unfoldable pub append_number : ℕ → State → State
append_number n s =
    change (remove_number (length (n ∷ s.vars.numbers) - 1)) (record v { numbers = n ∷ v.numbers })
      s
  where
    v : Vars
    v = s.vars

unfoldable pub drop_op : ℕ → State → State
unfolding peek_op
drop_op i s =
    change (insert_operator (length s.vars.operators - 1 - i) (peek_op i s))
      (record v { operators = erase_idx i v.operators }) s
  where
    v : Vars
    v = s.vars

unfoldable pub drop_num : ℕ → State → State
unfolding peek_num
drop_num i s =
    change (insert_number (length s.vars.numbers - 1 - i) (peek_num i s))
      (record v { numbers = erase_idx i v.numbers }) s
  where
    v : Vars
    v = s.vars

unfoldable pub pop_op : ℕ → State → Operator × State
unfolding drop_op peek_op
pop_op i s = if ltb 0 (length s.vars.operators) then (peek_op i s, drop_op i s) else (nil, s)

-- teco_expressions_pop_num(): its assertion on the operator is a theorem elsewhere.
unfoldable pub pop_num : ℕ → State → ℕ × State
unfolding drop_num peek_num pop_op
pop_num i s =
    let t = (pop_op 0 s).1 in
    if ltb 0 (length t.vars.numbers) then (peek_num i t, drop_num i t) else (0, t)

-- while (teco_operators->len > 0 && teco_expressions_peek_op(0) == TECO_OP_NEW) pop
unfoldable pub pop_new_loop : ℕ → State → State
unfolding pop_op peek_op
pop_new_loop zero s = s
pop_new_loop (suc fuel) s = elim (is_new (peek_op 0 s)) [
  | true ↦ pop_new_loop fuel (pop_op 0 s).1
  | false ↦ s
]

unfoldable pub pop_new : State → State
unfolding pop_new_loop
pop_new s = pop_new_loop (length s.vars.operators) s

abbrev pub is_minus : Sign → Bool
is_minus minus = true
is_minus plus = false

unfoldable pub push_int : ℕ → State → State
unfolding pop_new push_op set_num_sign append_number
push_int n s =
    let t = push_op number (pop_new s) in
    if is_minus t.vars.num_sign
    then append_number (multiply n minus_one) (set_num_sign plus t)
    else append_number n t

-- The index of the first proper operator or brace from the top, if there is one.
abbrev pub first_op_of : List Operator → Option ℕ
first_op_of [] = none
first_op_of (number ∷ os) = elim (first_op_of os) [ none ↦ none | some i ↦ some (suc i) ]
first_op_of (new ∷ os) = elim (first_op_of os) [ none ↦ none | some i ↦ some (suc i) ]
first_op_of (_ ∷ os) = some 0

unfoldable pub first_op : State → Option ℕ
first_op s = first_op_of s.vars.operators

-- How many numbers are on top of the operator stack.
abbrev pub args_of : List Operator → ℕ
args_of [] = 0
args_of (number ∷ os) = suc (args_of os)
args_of (_ ∷ os) = 0

unfoldable pub args : State → ℕ
args s = args_of s.vars.operators
