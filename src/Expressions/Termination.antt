-- ===== src/Expressions/Termination.antt =====
-- src/expressions.c: the fuel of the loops of the evaluation, one more than the length of the
-- operator stack, which each calculation shortens.
use sciteco.Prelude.{
  ℕ, zero, suc, ◌+◌, ◌-◌, ◌≤◌, ◌<◌, ◌≡◌, ◌≢◌, refl, inl, inr, Bool, true, false, List, [], ◌∷◌,
  arith, ltb, ◌==◌, length, Bool-cases, Option-cases, length-erase_idx_lt, get_or, not,
}
use sciteco.Undo.Reverts.{change}
use sciteco.Editor.{Operator, nil, pow, State}
use sciteco.Expressions.Stacks.{
  Error, Run, ok, err, crash, no_fuel, ◌>>=◌, ◌>>◌, is_number, is_brace, set_num_sign, peek_op,
  push_op, append_number, drop_op, drop_num, pop_op, pop_num, pop_new_loop, pop_new, push_int,
  first_op, args,
}
use sciteco.Expressions.Calc.{
  Outcome, value, fails, traps, loops, operate, lacks_operand, finish, calc_left, calc,
}
use sciteco.Expressions.Eval.{
  precedence, rounds, reduce_loop, push_calc, eval_loop, eval, plus_sign, take_arg, pop_num_calc,
  discard_loop, discard_args, set_brace_level, brace_close, unwind_loop, lower_brace_level,
  save_numbers, push_numbers, brace_return,
}
use sciteco.Expressions.Power.{power-ne-loops}

abbrev entries : State → ℕ
entries s = length s.vars.operators

entries-pop_op : (s : State) → entries (pop_op 0 s).1 ≤ entries s - 1
unfolding pop_op drop_op change
entries-pop_op s = ground (arith, length-erase_idx_lt 0 s.vars.operators)

entries-pop_num : (s : State) → entries (pop_num 0 s).1 ≤ entries s - 1
unfolding pop_num drop_num change
entries-pop_num s = ground (arith, entries-pop_op s)

entries-pop_new_loop : (fuel : ℕ) (s : State) → entries (pop_new_loop fuel s) ≤ entries s
unfolding pop_new_loop
entries-pop_new_loop zero s = omega arith
entries-pop_new_loop (suc fuel) s =
    ground (arith, entries-pop_new_loop fuel (pop_op 0 s).1, entries-pop_op s)

entries-push_int : (n : ℕ) (s : State) → entries (push_int n s) ≤ entries s + 1
unfolding push_int pop_new push_op append_number set_num_sign change
entries-push_int n s = ground (arith, entries-pop_new_loop (length s.vars.operators) s)

has_top : (os : List Operator) → not (is_number (get_or os 0 nil)) ≡ false → 0 < length os
has_top [] e = cc
has_top (o ∷ os) e = omega arith

entries-pos : (s : State) → lacks_operand s ≡ false → 0 < entries s
unfolding lacks_operand peek_op
entries-pos s e = has_top s.vars.operators e

operate-ne-loops : (op : Operator) (l r : ℕ) → operate op l r ≢ loops
unfolding operate
operate-ne-loops pow l r = power-ne-loops l r
operate-ne-loops _ l r = ground arith

-- A result that is no loop without end, and if a value, leaves fewer than `n` entries.
record Shrinks (n : ℕ) (r : Run (Unit {0})) : Type 0 where
  ends : r ≢ no_fuel
  fewer : (t : State) → r ≡ ok tt t → entries t < n

finish-Shrinks :
    (n : ℕ) (o : Outcome) (s : State) → o ≢ loops → entries s + 1 < n → Shrinks n (finish o s)
unfolding finish
finish-Shrinks n (value v) s h k = record {
  ends = λ e. cc;
  fewer = λ t e. ground (arith, entries-push_int v s);
}
finish-Shrinks n (fails x) s h k = record { ends = λ e. cc; fewer = λ t e. cc }
finish-Shrinks n traps s h k = record { ends = λ e. cc; fewer = λ t e. cc }
finish-Shrinks n loops s h k = absurd (h refl)

err-Shrinks : (n : ℕ) (e : Error) (s : State) → Shrinks n (err e s)
err-Shrinks n e s = record { ends = λ p. cc; fewer = λ t p. cc }

calc_left-Shrinks :
    (n r : ℕ) (op : Operator) (s : State) → entries s < n → Shrinks n (calc_left r op s)
unfolding calc_left
calc_left-Shrinks n r op s h = elim (Bool-cases (lacks_operand s)) [
  | inl missing ↦ rw missing (err-Shrinks n _ s)
  | inr there ↦ rw there (
      finish-Shrinks n _ (pop_num 0 s).1 (operate-ne-loops op (pop_num 0 s).0 r)
        (omega (arith, entries-pop_num s, entries-pos s there)))
]

-- A calculation ends, and if it succeeds the operator stack is shorter.
calc-Shrinks : (s : State) → Shrinks (entries s) (calc s)
unfolding calc
calc-Shrinks s = elim (Bool-cases (lacks_operand s)) [
  | inl missing ↦ rw missing (err-Shrinks _ _ s)
  | inr there ↦ rw there (
      calc_left-Shrinks _ (pop_num 0 s).0 (pop_op 0 (pop_num 0 s).1).0 (pop_op 0 (pop_num 0 s).1).1
        (omega (arith, entries-pop_num s, entries-pop_op (pop_num 0 s).1, entries-pos s there)))
]

-- A loop around calculations ends if its fuel exceeds the entries.
>>-ends :
    (n fuel : ℕ) (r : Run (Unit {0})) (f : State → Run (Unit {0}))
    → Shrinks n r
    → n < suc fuel
    → ((t : State) → entries t < fuel → f t ≢ no_fuel)
    → (r >> f) ≢ no_fuel
>>-ends n fuel (ok _ t) f h k g = g t (omega (arith, h.fewer t refl))
>>-ends n fuel (err e t) f h k g = λ p. cc
>>-ends n fuel crash f h k g = λ p. cc
>>-ends n fuel no_fuel f h k g = absurd (h.ends refl)

reduce_loop-ends :
    (fuel : ℕ) (op : Operator) (s : State) → entries s < fuel → reduce_loop fuel op s ≢ no_fuel
unfolding reduce_loop
reduce_loop-ends zero op s h = absurd (omega arith)
reduce_loop-ends (suc fuel) op s h = elim (Option-cases (first_op s)) [
  | inl e ↦ rw (e, reduce_loop) (λ p. cc)
  | inr (n, e) ↦ elim (Bool-cases (ltb (precedence (peek_op n s)) (precedence op))) [
    | inl lower ↦ rw (e, lower, reduce_loop) (λ p. cc)
    | inr binds ↦
        rw (e, binds, reduce_loop)
          (>>-ends (entries s) fuel (calc s) (reduce_loop fuel op) (calc-Shrinks s) h
            (reduce_loop-ends fuel op))
  ]
]

eval_loop-ends :
    (fuel : ℕ) (pop : Bool) (s : State) → entries s < fuel → eval_loop fuel pop s ≢ no_fuel
unfolding eval_loop
eval_loop-ends zero pop s h = absurd (omega arith)
eval_loop-ends (suc fuel) pop s h = elim (Option-cases (first_op s)) [
  | inl e ↦ rw (e, eval_loop) (λ p. cc)
  | inr (n, e) ↦ elim (Bool-cases (is_brace (peek_op n s))) [
    | inl opening ↦ rw (e, opening, eval_loop) (λ p. cc)
    | inr other ↦ elim (Bool-cases (ltb n 1)) [
      | inl bare ↦ rw (e, other, bare, eval_loop) (λ p. cc)
      | inr more ↦
          rw (e, other, more, eval_loop)
            (>>-ends (entries s) fuel (calc s) (eval_loop fuel pop) (calc-Shrinks s) h
              (eval_loop-ends fuel pop))
    ]
  ]
]

pub eval-ends : (pop : Bool) (s : State) → eval pop s ≢ no_fuel
unfolding eval
eval-ends pop s = eval_loop-ends (rounds s) pop s (omega arith)

module _ {B : Type 0} where
  pub then-ends :
      (r : Run (Unit {0})) (f : State → Run B)
      → r ≢ no_fuel
      → ((t : State) → f t ≢ no_fuel)
      → (r >> f) ≢ no_fuel
  then-ends (ok _ t) f h k = k t
  then-ends (err e t) f h k = λ p. cc
  then-ends crash f h k = λ p. cc
  then-ends no_fuel f h k = absurd (h refl)

pub push_calc-ends : (op : Operator) (s : State) → push_calc op s ≢ no_fuel
unfolding push_calc
push_calc-ends op s =
    then-ends (reduce_loop (rounds s) op s) (λ t. ok tt (push_op op t))
      (reduce_loop-ends (rounds s) op s (omega arith)) (λ t p. cc)

pub brace_close-ends : (s : State) → brace_close s ≢ no_fuel
unfolding brace_close
brace_close-ends s = elim (Bool-cases (s.vars.brace_level == 0)) [
  | inl outside ↦ rw outside (λ p. cc)
  | inr inside ↦ rw inside (eval-ends true (set_brace_level (s.vars.brace_level - 1) s))
]

take_arg-ends : (imply : ℕ) (s : State) → take_arg imply s ≢ no_fuel
unfolding take_arg
take_arg-ends imply s = ground arith

-- Popping an argument with an implied value does not run out of the fuel of its loops, in any
-- state.
pub pop_num_calc-ends : (imply : ℕ) (s : State) → pop_num_calc imply s ≢ no_fuel
unfolding pop_num_calc
pop_num_calc-ends imply s =
    then-ends (eval false s) (λ t. take_arg imply (plus_sign t)) (eval-ends false s)
      (λ t. take_arg-ends imply (plus_sign t))

discard_loop-ends : (n : ℕ) (s : State) → discard_loop n s ≢ no_fuel
unfolding discard_loop
discard_loop-ends zero s = λ p. cc
discard_loop-ends (suc n) s = go (pop_num_calc 0 s) (pop_num_calc-ends 0 s) (discard_loop-ends n)
  where
    go :
        (r : Run ℕ)
        → r ≢ no_fuel
        → ((t : State) → discard_loop n t ≢ no_fuel)
        → (r >>= λ _ t. discard_loop n t) ≢ no_fuel
    go (ok a t) h k = k t
    go (err e t) h k = λ p. cc
    go crash h k = λ p. cc
    go no_fuel h k = absurd (h refl)

pub discard_args-ends : (s : State) → discard_args s ≢ no_fuel
unfolding discard_args
discard_args-ends s =
    then-ends (eval false s) (λ t. discard_loop (args t) t) (eval-ends false s)
      (λ t. discard_loop-ends (args t) t)

unwind_loop-ends : (n : ℕ) (s : State) → unwind_loop n s ≢ no_fuel
unfolding unwind_loop
unwind_loop-ends zero s = λ p. cc
unwind_loop-ends (suc n) s = then-ends (discard_args s) _ (discard_args-ends s) λ t.
    then-ends (eval true t) (λ u. unwind_loop n (lower_brace_level u)) (eval-ends true t)
      (λ u. unwind_loop-ends n (lower_brace_level u))

-- Returning from brace levels does not run out of the fuel of its loops, for any level, any number
-- of arguments and any stacks.
pub brace_return-ends : (keep count : ℕ) (s : State) → brace_return keep count s ≢ no_fuel
unfolding brace_return
brace_return-ends keep count s =
    then-ends (unwind_loop (t.vars.brace_level - keep) (set_brace_level t.vars.brace_level t))
      (λ u. ok tt (push_numbers (save_numbers count [] s).0 u))
      (unwind_loop-ends (t.vars.brace_level - keep) _) (λ u p. cc)
  where
    t : State
    t = (save_numbers count [] s).1
