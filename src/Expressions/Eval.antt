-- ===== src/Expressions/Eval.antt =====
-- src/expressions.c: resolving operators by precedence, arguments, and braces.
use sciteco.Prelude.{
  ℕ, zero, suc, ◌+◌, ◌-◌, ◌/◌, Bool, true, false, none, some, List, [], ◌∷◌, ltb, ◌==◌, length,
  if◌then◌else◌,
}
use sciteco.Undo.Reverts.{change}
use sciteco.Editor.{
  Operator, nil, new, brace, number, pow, modulo, div, mul, sub, add, and, xor, or, plus, Vars,
  restore_brace_level, State,
}
use sciteco.Expressions.Stacks.{
  missing_opening_brace, Run, ok, err, no_fuel, ◌>>=◌, ◌>>◌, is_brace, is_minus, set_num_sign,
  peek_op, push_op, pop_op, pop_num, pop_new, push_int, first_op, args,
}
use sciteco.Expressions.Calc.{calc}
use sciteco.TecoInt.{minus_one, is_negative, multiply, subtract}
use sciteco.TecoInt

-- teco_expressions_precedence(): the upper nibble of the enumeration value.
abbrev pub code : Operator → ℕ
code nil = 0x00
code new = 0x01
code brace = 0x02
code number = 0x03
code pow = 0x60
code modulo = 0x50
code div = 0x51
code mul = 0x52
code sub = 0x40
code add = 0x41
code and = 0x30
code xor = 0x20
code or = 0x10

abbrev pub precedence : Operator → ℕ
precedence op = code op / 16

-- The loop of teco_expressions_push_calc(): calculate while the operator on the stack does not bind
-- less than `op`.
unfoldable pub reduce_loop : ℕ → Operator → State → Run (Unit {0})
unfolding peek_op first_op
reduce_loop zero op s = no_fuel
reduce_loop (suc fuel) op s = elim (first_op s) [
  | none ↦ ok tt s
  | some first ↦ elim (ltb (precedence (peek_op first s)) (precedence op)) [
    | true ↦ ok tt s
    | false ↦ calc s >> λ t. reduce_loop fuel op t
  ]
]

-- Each calculation takes two entries off the operator stack, so its length is enough fuel.
abbrev pub rounds : State → ℕ
rounds s = suc (length s.vars.operators)

unfoldable pub push_calc : Operator → State → Run (Unit {0})
unfolding reduce_loop push_op
push_calc op s = reduce_loop (rounds s) op s >> λ t. ok tt (push_op op t)

unfoldable pub pop_brace : Bool → ℕ → State → Run (Unit {0})
unfolding pop_op
pop_brace pop n s = ok tt (if pop then (pop_op n s).1 else s)

-- The loop of teco_expressions_eval().
unfoldable pub eval_loop : ℕ → Bool → State → Run (Unit {0})
unfolding peek_op first_op pop_brace
eval_loop zero pop s = no_fuel
eval_loop (suc fuel) pop s = elim (first_op s) [
  | none ↦ ok tt s
  | some n ↦ elim (is_brace (peek_op n s)) [
    | true ↦ pop_brace pop n s
    | false ↦ elim (ltb n 1) [ true ↦ ok tt s | false ↦ calc s >> λ t. eval_loop fuel pop t ]
  ]
]

unfoldable pub eval : Bool → State → Run (Unit {0})
unfolding eval_loop
eval pop s = eval_loop (rounds s) pop s

-- teco_set_num_sign(1) under its test
unfoldable pub plus_sign : State → State
unfolding set_num_sign
plus_sign s = if is_minus s.vars.num_sign then set_num_sign plus s else s

-- An argument of the top, or the implied value.
unfoldable pub take_arg : ℕ → State → Run ℕ
unfolding args pop_num
take_arg imply s = if ltb 0 (args s) then (let (n, t) = pop_num 0 s in ok n t) else ok imply s

unfoldable pub pop_num_calc : ℕ → State → Run ℕ
unfolding eval plus_sign take_arg
pop_num_calc imply s = eval false s >> λ t. take_arg imply (plus_sign t)

-- The number on top, or 0.
unfoldable pub top_or_zero : State → ℕ × State
unfolding args pop_num
top_or_zero s = if ltb 0 (args s) then pop_num 0 s else (0, s)

-- n * radix + (n < 0 ? -1 : 1) * (digit - '0')
pub with_digit : ℕ → ℕ → ℕ → ℕ
with_digit n radix digit =
    TecoInt.add (multiply n radix)
      (multiply (if is_negative n then minus_one else 1) (subtract digit b'0'))

-- `radix` is the value of the register ^R.
unfoldable pub add_digit : ℕ → ℕ → State → State
unfolding top_or_zero push_int with_digit
add_digit digit radix s = let (n, t) = top_or_zero s in push_int (with_digit n radix digit) t

-- for (guint i = teco_expressions_args(); i; i--) teco_expressions_pop_num_calc(NULL, 0, error)
unfoldable pub discard_loop : ℕ → State → Run (Unit {0})
unfolding pop_num_calc
discard_loop zero s = ok tt s
discard_loop (suc i) s = pop_num_calc 0 s >>= λ _ t. discard_loop i t

unfoldable pub discard_args : State → Run (Unit {0})
unfolding eval discard_loop args
discard_args s = eval false s >> λ t. discard_loop (args t) t

-- teco_undo_guint(teco_brace_level) with the assignment that follows it
unfoldable pub set_brace_level : ℕ → State → State
set_brace_level n s =
    change (restore_brace_level s.vars.brace_level) (record v { brace_level = n }) s
  where
    v : Vars
    v = s.vars

unfoldable pub brace_open : State → State
unfolding pop_new push_op set_brace_level
brace_open s = let t = push_op brace (pop_new s) in set_brace_level (t.vars.brace_level + 1) t

unfoldable pub brace_close : State → Run (Unit {0})
unfolding set_brace_level eval
brace_close s =
    if s.vars.brace_level == 0
    then err missing_opening_brace s
    else eval true (set_brace_level (s.vars.brace_level - 1) s)

-- for (guint i = args; i; i--) return_numbers[i-1] = teco_expressions_pop_num(0): the head of the
-- result is return_numbers[0].
unfoldable pub save_numbers : ℕ → List ℕ → State → List ℕ × State
unfolding pop_num
save_numbers zero ns s = (ns, s)
save_numbers (suc i) ns s = let (n, t) = pop_num 0 s in save_numbers i (n ∷ ns) t

unfoldable pub push_numbers : List ℕ → State → State
unfolding push_int
push_numbers [] s = s
push_numbers (n ∷ ns) s = push_numbers ns (push_int n s)

-- teco_brace_level-- with no token of its own: the one pushed before the loop restores the level.
unfoldable pub lower_brace_level : State → State
lower_brace_level s = record s { vars = record v { brace_level = v.brace_level - 1 } }
  where
    v : Vars
    v = s.vars

-- while (teco_brace_level > keep_braces): the fuel is the number of levels left.
unfoldable pub unwind_loop : ℕ → State → Run (Unit {0})
unfolding discard_args eval lower_brace_level
unwind_loop zero s = ok tt s
unwind_loop (suc n) s =
    discard_args s >> λ t. eval true t >> λ u. unwind_loop n (lower_brace_level u)

unfoldable pub brace_return : ℕ → ℕ → State → Run (Unit {0})
unfolding save_numbers set_brace_level unwind_loop push_numbers
brace_return keep count s =
    let (ns, t) = save_numbers count [] s in
    unwind_loop (t.vars.brace_level - keep) (set_brace_level t.vars.brace_level t) >> λ u.
    ok tt (push_numbers ns u)

-- teco_expressions_clear(), which pushes no token
unfoldable pub clear : State → State
clear s = record s { vars = record v { numbers = []; operators = []; brace_level = 0 } }
  where
    v : Vars
    v = s.vars
