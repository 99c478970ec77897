-- ===== src/Expressions/Rubout/Eval.antt =====
-- src/expressions.c: the undo tokens of calculations, braces and arguments.
use sciteco.Prelude.{
  ℕ, zero, suc, ◌<◌, ◌≡◌, inl, inr, Bool, true, false, some, List, [], ◌∷◌, arith, ltb, lt→ltb,
  length, Bool-cases, Option-cases,
}
use sciteco.Undo.Reverts.{Reverts-refl, Reverts-trans}
use sciteco.Editor.{Operator, new, number, plus, act, State, Scope, mask, Reverts}
use sciteco.Expressions.Stacks.{
  ok, is_brace, is_minus, peek_op, push_op, pop_op, pop_num, first_op_of, first_op, args,
}
use sciteco.Expressions.Calc.{
  Outcome, value, fails, traps, loops, lacks_operand, finish, calc_left, calc,
}
use sciteco.Expressions.Eval.{
  precedence, rounds, reduce_loop, push_calc, pop_brace, eval_loop, eval, plus_sign, take_arg,
  pop_num_calc, top_or_zero, add_digit, discard_loop, discard_args,
}
use sciteco.Expressions.Rubout.{
  RunReverts, RunReverts-ok, RunReverts-err, RunReverts-crash, RunReverts-no_fuel, RunReverts-done,
  >>=-RunReverts, RunReverts-after, >>-RunReverts, if-RunReverts, set_num_sign-Reverts,
  push_op-Reverts, drop_op-Reverts, pop_op-Reverts, pop_num-Reverts, push_int-Reverts,
}

-- The first operator lies on the stack.
pub first_op_of-lt : (os : List Operator) (n : ℕ) → first_op_of os ≡ some n → n < length os
first_op_of-lt [] n e = cc
first_op_of-lt (number ∷ os) zero e = omega arith
first_op_of-lt (number ∷ os) (suc n) e = omega (arith, first_op_of-lt os n (ground arith))
first_op_of-lt (new ∷ os) zero e = omega arith
first_op_of-lt (new ∷ os) (suc n) e = omega (arith, first_op_of-lt os n (ground arith))
first_op_of-lt (_ ∷ os) n e = ground arith

module _ (κ : Scope) where
  finish-RunReverts : (o : Outcome) (s : State) → RunReverts κ s (finish o s)
  unfolding finish
  finish-RunReverts (value n) s = RunReverts-ok κ tt s _ (push_int-Reverts κ n s)
  finish-RunReverts (fails e) s = RunReverts-err κ _ e s
  finish-RunReverts traps s = RunReverts-crash κ _ s
  finish-RunReverts loops s = RunReverts-no_fuel κ _ s

  calc_left-RunReverts :
      (vright : ℕ) (op : Operator) (s : State) → RunReverts κ s (calc_left vright op s)
  unfolding calc_left
  calc_left-RunReverts vright op s =
      if-RunReverts κ s (lacks_operand s) _ _ (RunReverts-err κ _ _ s)
        (RunReverts-after κ s t _ (pop_num-Reverts κ s) (finish-RunReverts _ t))
    where
      t : State
      t = (pop_num 0 s).1

  pub calc-RunReverts : (s : State) → RunReverts κ s (calc s)
  unfolding calc
  calc-RunReverts s = if-RunReverts κ s (lacks_operand s) _ _ (RunReverts-err κ _ _ s) (
      RunReverts-after κ s t _ (pop_num-Reverts κ s) (
        RunReverts-after κ t u _ (pop_op-Reverts κ t)
          (calc_left-RunReverts (pop_num 0 s).0 (pop_op 0 t).0 u)))
    where
      t : State
      t = (pop_num 0 s).1

      u : State
      u = (pop_op 0 t).1

  reduce_loop-RunReverts :
      (fuel : ℕ) (op : Operator) (s : State) → RunReverts κ s (reduce_loop fuel op s)
  unfolding reduce_loop
  reduce_loop-RunReverts zero op s = RunReverts-no_fuel κ _ s
  reduce_loop-RunReverts (suc fuel) op s = elim (Option-cases (first_op s)) [
    | inl e ↦ rw (e, reduce_loop) (RunReverts-done κ s)
    | inr (n, e) ↦ elim (Bool-cases (ltb (precedence (peek_op n s)) (precedence op))) [
      | inl lower ↦ rw (e, lower, reduce_loop) (RunReverts-done κ s)
      | inr binds ↦
          rw (e, binds, reduce_loop)
            (>>-RunReverts κ s (calc s) (reduce_loop fuel op) (calc-RunReverts s)
              (reduce_loop-RunReverts fuel op))
    ]
  ]

  pub push_calc-RunReverts : (op : Operator) (s : State) → RunReverts κ s (push_calc op s)
  unfolding push_calc
  push_calc-RunReverts op s =
      >>-RunReverts κ s (reduce_loop (rounds s) op s) (λ t. ok tt (push_op op t))
        (reduce_loop-RunReverts (rounds s) op s)
        (λ t. RunReverts-ok κ tt t _ (push_op-Reverts κ op t))

  pop_brace-RunReverts :
      (pop : Bool) (n : ℕ) (s : State)
      → n < length s.vars.operators
      → RunReverts κ s (pop_brace pop n s)
  unfolding pop_brace pop_op
  pop_brace-RunReverts false n s h = RunReverts-done κ s
  pop_brace-RunReverts true n s h =
      rw (lt→ltb 0 (length s.vars.operators) (omega arith))
        (RunReverts-ok κ tt s _ (drop_op-Reverts κ n s h))

  eval_loop-RunReverts : (fuel : ℕ) (pop : Bool) (s : State) → RunReverts κ s (eval_loop fuel pop s)
  unfolding eval_loop
  eval_loop-RunReverts zero pop s = RunReverts-no_fuel κ _ s
  eval_loop-RunReverts (suc fuel) pop s = elim (Option-cases (first_op s)) [
    | inl e ↦ rw (e, eval_loop) (RunReverts-done κ s)
    | inr (n, e) ↦ elim (Bool-cases (is_brace (peek_op n s))) [
      | inl opening ↦
          rw (e, opening, eval_loop)
            (pop_brace-RunReverts pop n s
              (first_op_of-lt s.vars.operators n (unfold first_op in e)))
      | inr other ↦ elim (Bool-cases (ltb n 1)) [
        | inl bare ↦ rw (e, other, bare, eval_loop) (RunReverts-done κ s)
        | inr more ↦
            rw (e, other, more, eval_loop)
              (>>-RunReverts κ s (calc s) (eval_loop fuel pop) (calc-RunReverts s)
                (eval_loop-RunReverts fuel pop))
      ]
    ]
  ]

  pub eval-RunReverts : (pop : Bool) (s : State) → RunReverts κ s (eval pop s)
  unfolding eval
  eval-RunReverts pop s = eval_loop-RunReverts (rounds s) pop s

  plus_sign-Reverts : (s : State) → Reverts κ s (plus_sign s)
  unfolding plus_sign
  plus_sign-Reverts s = elim (Bool-cases (is_minus s.vars.num_sign)) [
    | inl neg ↦ rw neg (set_num_sign-Reverts κ plus s)
    | inr pos ↦ rw pos (Reverts-refl act (mask κ) s)
  ]

  take_arg-RunReverts : (imply : ℕ) (s : State) → RunReverts κ s (take_arg imply s)
  unfolding take_arg
  take_arg-RunReverts imply s =
      if-RunReverts κ s (ltb 0 (args s)) _ _ (RunReverts-ok κ _ s _ (pop_num-Reverts κ s))
        (RunReverts-ok κ imply s s (Reverts-refl act (mask κ) s))

  pub pop_num_calc-RunReverts : (imply : ℕ) (s : State) → RunReverts κ s (pop_num_calc imply s)
  unfolding pop_num_calc
  pop_num_calc-RunReverts imply s =
      >>-RunReverts κ s (eval false s) (λ t. take_arg imply (plus_sign t)) (eval-RunReverts false s)
        λ t.
          RunReverts-after κ t (plus_sign t) _ (plus_sign-Reverts t) (take_arg-RunReverts imply _)

  pub add_digit-Reverts : (digit radix : ℕ) (s : State) → Reverts κ s (add_digit digit radix s)
  unfolding add_digit
  add_digit-Reverts digit radix s =
      Reverts-trans act (mask κ) (top_or_zero-Reverts s) (push_int-Reverts κ _ (top_or_zero s).1)
    where
      top_or_zero-Reverts : (s : State) → Reverts κ s (top_or_zero s).1
      top_or_zero-Reverts s = elim (Bool-cases (ltb 0 (args s))) [
        | inl some_arg ↦ rw (some_arg, top_or_zero) (pop_num-Reverts κ s)
        | inr no_arg ↦ rw (no_arg, top_or_zero) (Reverts-refl act (mask κ) s)
      ]

  discard_loop-RunReverts : (n : ℕ) (s : State) → RunReverts κ s (discard_loop n s)
  unfolding discard_loop
  discard_loop-RunReverts zero s = RunReverts-done κ s
  discard_loop-RunReverts (suc i) s =
      >>=-RunReverts κ s (pop_num_calc 0 s) (λ _ t. discard_loop i t) (pop_num_calc-RunReverts 0 s)
        λ _. discard_loop-RunReverts i

  pub discard_args-RunReverts : (s : State) → RunReverts κ s (discard_args s)
  unfolding discard_args
  discard_args-RunReverts s =
      >>-RunReverts κ s (eval false s) (λ t. discard_loop (args t) t) (eval-RunReverts false s)
        λ t. discard_loop-RunReverts (args t) t
