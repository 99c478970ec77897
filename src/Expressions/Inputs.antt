-- ===== src/Expressions/Inputs.antt =====
-- src/expressions.c and src/core-commands.c: what the commands of an expression leave on the stacks.
use sciteco.Prelude.{
  ℕ, ◌+◌, ◌≡◌, refl, ap, true, false, none, some, List, [], ◌∷◌, ◌++◌, arith, ltb, lt→ltb, ◌==◌,
  inl, inr, Bool-cases,
}
use sciteco.Undo.Reverts.{change}
use sciteco.Editor.{Operator, brace, number, sub, State}
use sciteco.Expressions.Stacks.{
  Run, ok, err, crash, no_fuel, ◌>>◌, peek_op, first_op_of, first_op, is_brace, is_minus, push_op,
  push_int, pop_op, drop_op, args,
}
use sciteco.Expressions.Eval.{
  push_calc, pop_brace, eval_loop, eval, set_brace_level, brace_open, brace_close,
}
use sciteco.Expressions.Contents.{
  Holds, is_infix, waits, Succeeds, push_op-Holds, push_int-Holds, pop_new-eq,
}
use sciteco.Commands.{
  Item, operand, infix_op, open_brace, close_brace, input, inputs, start_minus, start_brace_open,
}

pub inputs-append :
    (xs ys : List Item) (s : State) → inputs (xs ++ ys) s ≡ (inputs xs s >> inputs ys)
unfolding inputs
inputs-append [] ys s = refl
inputs-append (x ∷ xs) ys s = go (input x s) (inputs-append xs ys)
  where
    go :
        (r : Run (Unit {0}))
        → ((t : State) → inputs (xs ++ ys) t ≡ (inputs xs t >> inputs ys))
        → (r >> λ t. inputs (xs ++ ys) t) ≡ ((r >> λ t. inputs xs t) >> inputs ys)
    go (ok a t) h = h t
    go (err e t) h = refl
    go crash h = refl
    go no_fuel h = refl

-- The scan for an operator where an operand is waited for.
first_op_of-waiting :
    (op : Operator) (os : List Operator) → waits (op ∷ os) ≡ true → first_op_of (op ∷ os) ≡ some 0
first_op_of-waiting op os w = ground arith

module _ {ns : List ℕ} {level : ℕ} {s : State} where
  first_op-waiting :
      {op : Operator} {os : List Operator}
      → waits (op ∷ os) ≡ true
      → Holds ns (op ∷ os) level s
      → first_op s ≡ some 0
  unfolding first_op
  first_op-waiting {op} {os} w h = rw h.operators (first_op_of-waiting op os w)

  first_op-empty : Holds ns [] level s → first_op s ≡ none
  unfolding first_op
  first_op-empty h = rw h.operators

  -- Where an operand is waited for there is nothing to resolve.
  pub eval-waits :
      (os : List Operator) → waits os ≡ true → Holds ns os level s → eval false s ≡ ok tt s
  unfolding eval eval_loop pop_brace
  eval-waits [] w h = rw (first_op-empty h, eval_loop)
  eval-waits (op ∷ os) w h = elim (Bool-cases (is_brace (peek_op 0 s))) [
    | inl opening ↦ rw (first_op-waiting w h, opening, eval_loop)
    | inr other ↦ rw (first_op-waiting w h, other, eval_loop)
  ]

module _ {ns : List ℕ} {os : List Operator} {level : ℕ} {s : State} where
  pub operand-Holds :
      (n : ℕ)
      → waits os ≡ true
      → Holds ns os level s
      → Succeeds (input (operand n) s) (Holds (n ∷ ns) (number ∷ os) level)
  unfolding input
  operand-Holds n w h = (push_int n s, rw (eval-waits os w h), push_int-Holds n w h)

  args-number : Holds ns (number ∷ os) level s → ltb 0 (args s) ≡ true
  unfolding args
  args-number h = rw h.operators (lt→ltb _ _ (omega arith))

  pub input-infix :
      (op : Operator)
      → is_infix op ≡ true
      → Holds ns (number ∷ os) level s
      → input (infix_op op) s ≡ push_calc op s
  unfolding input start_minus
  input-infix sub i h = rw (args-number h)
  input-infix _ i h = refl

  pub set_brace_level-Holds :
      (n m : ℕ) → n ≡ m → Holds ns os level s → Holds ns os m (set_brace_level n s)
  unfolding set_brace_level change
  set_brace_level-Holds n m e h = record {
    numbers = h.numbers;
    operators = h.operators;
    num_sign = h.num_sign;
    brace_level = e;
  }

module _ {ns : List ℕ} {os : List Operator} {level : ℕ} {s : State} where
  pub open_brace-Holds :
      waits os ≡ true
      → Holds ns os level s
      → Succeeds (input open_brace s) (Holds ns (brace ∷ os) (level + 1))
  unfolding input start_brace_open brace_open
  open_brace-Holds w h = (
    brace_open s,
    rw (ap is_minus h.num_sign),
    rw (pop_new-eq w h)
        (set_brace_level-Holds (t.vars.brace_level + 1) (level + 1) (ap (◌+ 1) same_level) pushed),
  )
    where
      t : State
      t = push_op brace s

      pushed : Holds ns (brace ∷ os) level t
      pushed = push_op-Holds brace h

      same_level : t.vars.brace_level ≡ level
      same_level = pushed.brace_level

  pub pop_brace-Holds :
      Holds ns (number ∷ brace ∷ os) level s
      → Succeeds (pop_brace true 1 s) (Holds ns (number ∷ os) level)
  unfolding pop_brace pop_op drop_op peek_op change
  pop_brace-Holds h = ((pop_op 1 s).1, refl, ground arith)

  pub close_brace-Holds :
      (after : State → Type 0)
      → ((t : State) → Holds ns os level t → Succeeds (eval true t) after)
      → Holds ns os (level + 1) s
      → Succeeds (input close_brace s) after
  unfolding input brace_close
  close_brace-Holds after k h =
      rw (positive (s.vars.brace_level) h.brace_level)
        (k _ (set_brace_level-Holds _ level (omega (arith, h.brace_level)) h))
    where
      positive : (n : ℕ) → n ≡ level + 1 → (n == 0) ≡ false
      positive n e = ground arith
