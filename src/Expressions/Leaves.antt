-- ===== src/Expressions/Leaves.antt =====
-- src/expressions.c: what typing an expression leaves pending on the stacks, and what resolves it.
use sciteco.Prelude.{ℕ, ◌+◌, ◌≤◌, ◌<◌, ◌≡◌, refl, true, List, [], ◌∷◌, arith, length}
use sciteco.Editor.{Operator, brace, number, pow, modulo, div, mul, sub, add, and, xor, or, State}
use sciteco.Expressions.Stacks.{push_op}
use sciteco.Expressions.Calc.{Outcome, value}
use sciteco.Expressions.Eval.{precedence, rounds, reduce_loop, push_calc, eval}
use sciteco.Expressions.Contents.{Holds, is_infix, waits, Succeeds, Succeeds->>, push_op-Holds}
use sciteco.Expressions.Pending.{
  Pending, lefts, pending, and_then, and_then-eq_value, resolve, Binds, Stops, Binds-mono,
  reduce_loop-Holds, eval_loop-Holds, eval_loop-brace,
}
use sciteco.Expressions.Inputs.{input-infix, close_brace-Holds, pop_brace-Holds}
use sciteco.Expressions.Tree.{Tree, lit, node, paren, items, binding, IsParsed}
use sciteco.Commands.{infix_op, close_brace, input, inputs}

-- All operators between operands bind more than a brace.
pub infix_pos : (op : Operator) → is_infix op ≡ true → 0 < precedence op
infix_pos pow i = omega arith
infix_pos modulo i = omega arith
infix_pos div i = omega arith
infix_pos mul i = omega arith
infix_pos sub i = omega arith
infix_pos add i = omega arith
infix_pos and i = omega arith
infix_pos xor i = omega arith
infix_pos or i = omega arith
infix_pos _ i = cc

pub binding-pos : (e : Tree) → IsParsed e → 0 < binding e
binding-pos (lit n) p = omega arith
binding-pos (node op l r) p = infix_pos op p.0
binding-pos (paren e) p = omega arith

length-pending : (ps : Pending) (os : List Operator) → length ps ≤ length (pending ps os)
length-pending [] os = omega arith
length-pending (p ∷ ps) os = omega (arith, length-pending ps os)

-- The pending operations fit the loops' fuel.
pub enough_rounds :
    {ns : List ℕ} (ps : Pending) (os : List Operator) {level : ℕ} {s : State}
    → Holds ns (number ∷ pending ps os) level s
    → length ps < rounds s
enough_rounds ps os h = rw h.operators (omega (arith, length-pending ps os))

-- The operations that typing `e` leaves pending, and the number on top of them.
pub record Leaves (e : Tree) (v : ℕ) (ns : List ℕ) (os : List Operator) (level : ℕ) (s : State)
    : Type 0 where
  pub waiting : Pending
  pub top : ℕ
  pub binds : Binds (binding e) waiting
  pub result : resolve waiting top ≡ value v
  pub after :
      Succeeds
        (inputs (items e) s)
        (Holds (top ∷ lefts waiting ns) (number ∷ pending waiting os) level)

-- An infix operator resolves what binds at least as tightly, and waits for its right operand.
pub infix_op-Holds :
    {ns : List ℕ} {os : List Operator} {level v : ℕ} {s : State} (op : Operator) (q : ℕ)
    (ps : Pending) (r : ℕ)
    → is_infix op ≡ true
    → precedence op ≤ q
    → Binds q ps
    → waits os ≡ true
    → Stops (precedence op) os
    → resolve ps r ≡ value v
    → Holds (r ∷ lefts ps ns) (number ∷ pending ps os) level s
    → Succeeds (input (infix_op op) s) (Holds (v ∷ ns) (op ∷ number ∷ os) level)
unfolding push_calc
infix_op-Holds {ns} {os} {level} {v} {s} op q ps r i le b w stop e h =
    rw (input-infix op i h, push_calc)
      (Succeeds->> (reduce_loop (rounds s) op s) _
        (reduce_loop-Holds ps os ns r v level (rounds s) op s (Binds-mono (precedence op) q ps le b)
          w stop e (enough_rounds ps os h) h)
        λ t ht. (push_op op t, refl, push_op-Holds op ht))

-- The closing brace resolves everything behind the opening one.
pub close-Holds :
    {ns : List ℕ} {os : List Operator} {level v : ℕ} {s : State} (q : ℕ) (ps : Pending) (r : ℕ)
    → Binds q ps
    → resolve ps r ≡ value v
    → Holds (r ∷ lefts ps ns) (number ∷ pending ps (brace ∷ os)) (level + 1) s
    → Succeeds (input close_brace s) (Holds (v ∷ ns) (number ∷ os) level)
unfolding eval
close-Holds {ns} {os} {level} {v} q ps r b e h =
    close_brace-Holds (Holds (v ∷ ns) (number ∷ os) level)
      (λ t ht.
        eval_loop-Holds ps (brace ∷ os) ns q r v level (rounds t) true t b refl e
          (enough_rounds ps (brace ∷ os) ht)
          (λ f u hu. rw (eval_loop-brace f true hu) (pop_brace-Holds hu)) ht)
      h

pub and_then₂-eq_value :
    (o p : Outcome) (f : ℕ → ℕ → Outcome) (v : ℕ)
    → and_then o (λ a. and_then p (f a)) ≡ value v
    → (a : ℕ) × (b : ℕ) × (o ≡ value a) × (p ≡ value b) × (f a b ≡ value v)
and_then₂-eq_value o p f v e =
    let (a, ea, e') = and_then-eq_value o (λ a. and_then p (f a)) v e in
    let (b, eb, e'') = and_then-eq_value p (f a) v e' in (a, b, ea, eb, e'')
