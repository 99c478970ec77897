-- ===== src/Expressions/Contents.antt =====
-- src/expressions.c: what the operations leave on the two stacks, the undo stack left aside.
use sciteco.Prelude.{ℕ, zero, suc, ◌≡◌, refl, ap, Bool, true, false, List, [], ◌∷◌, arith, get_or}
use sciteco.Undo.Reverts.{change}
use sciteco.Editor.{Operator, nil, new, brace, number, plus, State}
use sciteco.Expressions.Stacks.{
  Run, ok, ◌>>◌, is_new, is_minus, peek_num, peek_op, push_op, append_number, drop_op, drop_num,
  pop_op, pop_num, pop_new_loop, pop_new, push_int,
}
use sciteco.Expressions.Calc.{value, operate, lacks_operand, finish, calc_left, calc}

-- The numbers, the operators and the brace level of a state; no unary minus is pending.
pub record Holds (ns : List ℕ) (os : List Operator) (level : ℕ) (s : State) : Type 0 where
  pub numbers : s.vars.numbers ≡ ns
  pub operators : s.vars.operators ≡ os
  pub num_sign : s.vars.num_sign ≡ plus
  pub brace_level : s.vars.brace_level ≡ level

-- An operator that stands between operands.
abbrev pub is_infix : Operator → Bool
is_infix nil = false
is_infix new = false
is_infix brace = false
is_infix number = false
is_infix _ = true

-- The next thing that the stack waits for is an operand.
abbrev pub waits : List Operator → Bool
waits [] = true
waits (brace ∷ os) = true
waits (op ∷ os) = is_infix op

module _ {ns : List ℕ} {os : List Operator} {level : ℕ} {s : State} where
  pub push_op-Holds :
      (op : Operator) → Holds ns os level s → Holds ns (op ∷ os) level (push_op op s)
  unfolding push_op change
  push_op-Holds op h = record {
    numbers = h.numbers;
    operators = ap (op ∷◌) h.operators;
    num_sign = h.num_sign;
    brace_level = h.brace_level;
  }

  append_number-Holds : (n : ℕ) → Holds ns os level s → Holds (n ∷ ns) os level (append_number n s)
  unfolding append_number change
  append_number-Holds n h = record {
    numbers = ap (n ∷◌) h.numbers;
    operators = h.operators;
    num_sign = h.num_sign;
    brace_level = h.brace_level;
  }

pop_new_loop-eq : (fuel : ℕ) (s : State) → is_new (peek_op 0 s) ≡ false → pop_new_loop fuel s ≡ s
unfolding pop_new_loop
pop_new_loop-eq zero s e = refl
pop_new_loop-eq (suc fuel) s e = rw (e, pop_new_loop)

is_new_of_waits : (os : List Operator) → waits os ≡ true → is_new (get_or os 0 nil) ≡ false
is_new_of_waits [] w = refl
is_new_of_waits (op ∷ os) w = ground arith

module _ {ns : List ℕ} {os : List Operator} {level : ℕ} {s : State} where
  -- Nothing is popped before an operand is pushed, unless the entry on top is TECO_OP_NEW.
  pub pop_new-eq : waits os ≡ true → Holds ns os level s → pop_new s ≡ s
  unfolding pop_new peek_op
  pop_new-eq w h = pop_new_loop-eq _ s (rw h.operators (is_new_of_waits os w))

  pub push_int-Holds :
      (n : ℕ)
      → waits os ≡ true
      → Holds ns os level s
      → Holds (n ∷ ns) (number ∷ os) level (push_int n s)
  unfolding push_int
  push_int-Holds n w h =
      rw (pop_new-eq w h, ap is_minus pushed.num_sign) (append_number-Holds n pushed)
    where
      pushed : Holds ns (number ∷ os) level (push_op number s)
      pushed = push_op-Holds number h

module _ {n : ℕ} {ns : List ℕ} {op : Operator} {os : List Operator} {level : ℕ} {s : State} where
  pub pop_op-Holds :
      Holds (n ∷ ns) (op ∷ os) level s
      → ((pop_op 0 s).0 ≡ op) × Holds (n ∷ ns) os level (pop_op 0 s).1
  unfolding pop_op drop_op peek_op change
  pop_op-Holds h = ground arith

  pub pop_num-Holds :
      Holds (n ∷ ns) (op ∷ os) level s → ((pop_num 0 s).0 ≡ n) × Holds ns os level (pop_num 0 s).1
  unfolding pop_num drop_num peek_num pop_op drop_op peek_op change
  pop_num-Holds h = ground arith

-- With a number on top no operand is missing.
lacks_operand-number :
    {ns : List ℕ} {os : List Operator} {level : ℕ} {s : State}
    → Holds ns (number ∷ os) level s
    → lacks_operand s ≡ false
unfolding lacks_operand peek_op
lacks_operand-number h = rw h.operators

-- The state that a successful call leaves.
abbrev pub Succeeds : Run (Unit {0}) → (State → Type 0) → Type 0
Succeeds r P = (t : State) × (r ≡ ok tt t) × P t

pub Succeeds->> :
    {P Q : State → Type 0} (r : Run (Unit {0})) (f : State → Run (Unit {0}))
    → Succeeds r P
    → ((t : State) → P t → Succeeds (f t) Q)
    → Succeeds (r >> f) Q
Succeeds->> r f (t, e, p) k = let (u, e', q) = k t p in (u, rw e e', q)

module _ {l r v level : ℕ} {ns : List ℕ} {op : Operator} {os : List Operator} {s : State} where
  -- One calculation: the operator and its two operands give way to the value.
  pub calc-Holds :
      waits os ≡ true
      → operate op l r ≡ value v
      → Holds (r ∷ l ∷ ns) (number ∷ op ∷ number ∷ os) level s
      → Succeeds (calc s) (Holds (v ∷ ns) (number ∷ os) level)
  unfolding calc calc_left finish
  calc-Holds w e h =
      let (right, h₁) = pop_num-Holds h in
      let (between, h₂) = pop_op-Holds h₁ in
      let (left, h₃) = pop_num-Holds h₂ in
      (
        push_int v (pop_num 0 (pop_op 0 (pop_num 0 s).1).1).1,
        rw (lacks_operand-number h, lacks_operand-number h₂, right, between, left, e),
        push_int-Holds v w h₃,
      )
