-- ===== src/Expressions/Pending.antt =====
-- src/expressions.c: operators that wait on the stack, each with its left operand, and the loops that
-- resolve them.
use sciteco.Prelude.{
  ℕ, zero, suc, ◌≤◌, ◌<◌, ◌≡◌, refl, ap, Bool, true, false, none, some, List, [], ◌∷◌, ◌++◌, arith,
  lt→ltb, le→ltb, length,
}
use sciteco.Editor.{Operator, brace, number, State}
use sciteco.Expressions.Stacks.{ok, peek_op, first_op_of, first_op, is_brace}
use sciteco.Expressions.Calc.{Outcome, value, fails, traps, loops, operate, calc}
use sciteco.Expressions.Eval.{precedence, reduce_loop, pop_brace, eval_loop}
use sciteco.Expressions.Contents.{Holds, is_infix, waits, Succeeds, Succeeds->>, calc-Holds}

abbrev pub Pending : Type 0
Pending = List (ℕ × Operator)

-- The stacks with the pending operations above `ns` and `os`, the most recent one on top.
abbrev pub lefts : Pending → List ℕ → List ℕ
lefts [] ns = ns
lefts ((l, op) ∷ ps) ns = l ∷ lefts ps ns

abbrev pub pending : Pending → List Operator → List Operator
pending [] os = os
pending ((l, op) ∷ ps) os = op ∷ number ∷ pending ps os

abbrev pub and_then : Outcome → (ℕ → Outcome) → Outcome
and_then (value n) f = f n
and_then (fails e) f = fails e
and_then traps f = traps
and_then loops f = loops

-- What the pending operations make of a right operand.
abbrev pub resolve : Pending → ℕ → Outcome
resolve [] r = value r
resolve ((l, op) ∷ ps) r = and_then (operate op l r) (resolve ps)

-- All of them bind at least as tightly as `q`.
abbrev pub Binds : ℕ → Pending → Type 0
Binds q [] = Unit {0}
Binds q ((l, op) ∷ ps) = (is_infix op ≡ true) × (q ≤ precedence op) × Binds q ps

-- Below them lies nothing, a brace, or an operator that binds less than `q`.
abbrev pub Stops : ℕ → List Operator → Type 0
Stops q [] = Unit {0}
Stops q (op ∷ os) = precedence op < q

pub waits-pending :
    (q : ℕ) (ps : Pending) (os : List Operator)
    → Binds q ps
    → waits os ≡ true
    → waits (pending ps os) ≡ true
waits-pending q [] os b w = w
waits-pending q ((l, op) ∷ ps) os b w = ground arith

pub Binds-append : (q : ℕ) (ps qs : Pending) → Binds q ps → Binds q qs → Binds q (ps ++ qs)
Binds-append q [] qs b c = c
Binds-append q ((l, op) ∷ ps) qs (i, h, b) c = (i, h, Binds-append q ps qs b c)

pub Binds-mono : (p q : ℕ) (ps : Pending) → p ≤ q → Binds q ps → Binds p ps
Binds-mono p q [] h b = tt
Binds-mono p q ((l, op) ∷ ps) h (i, k, b) = (i, omega arith, Binds-mono p q ps h b)

and_then_assoc :
    (o : Outcome) (f g h : ℕ → Outcome)
    → ((n : ℕ) → h n ≡ and_then (f n) g)
    → and_then o h ≡ and_then (and_then o f) g
and_then_assoc (value n) f g h e = e n
and_then_assoc (fails x) f g h e = refl
and_then_assoc traps f g h e = refl
and_then_assoc loops f g h e = refl

pub resolve-append :
    (ps qs : Pending) (r : ℕ) → resolve (ps ++ qs) r ≡ and_then (resolve ps r) (resolve qs)
resolve-append [] qs r = refl
resolve-append ((l, op) ∷ ps) qs r =
    and_then_assoc (operate op l r) (resolve ps) (resolve qs) (resolve (ps ++ qs))
      (resolve-append ps qs)

pub and_then-eq_value :
    (o : Outcome) (f : ℕ → Outcome) (v : ℕ)
    → and_then o f ≡ value v
    → (n : ℕ) × (o ≡ value n) × (f n ≡ value v)
and_then-eq_value (value n) f v e = (n, refl, e)
and_then-eq_value (fails x) f v e = cc
and_then-eq_value traps f v e = cc
and_then-eq_value loops f v e = cc

-- Where the scan for the first operator ends: behind the number on top.
first_op_of-waits :
    (op : Operator) (os : List Operator)
    → waits (op ∷ os) ≡ true
    → first_op_of (number ∷ op ∷ os) ≡ some 1
first_op_of-waits op os w = ground arith

module _ {ns : List ℕ} {op : Operator} {os : List Operator} {level : ℕ} {s : State} where
  first_op-Holds :
      waits (op ∷ os) ≡ true → Holds ns (number ∷ op ∷ os) level s → first_op s ≡ some 1
  unfolding first_op
  first_op-Holds w h = rw h.operators (first_op_of-waits op os w)

  peek_op-Holds : Holds ns (number ∷ op ∷ os) level s → peek_op 1 s ≡ op
  unfolding peek_op
  peek_op-Holds h = rw h.operators

first_op-bottom :
    {ns : List ℕ} {level : ℕ} {s : State} → Holds ns (number ∷ []) level s → first_op s ≡ none
unfolding first_op
first_op-bottom h = rw h.operators

pub waits_of_infix :
    (op : Operator) (os : List Operator) → is_infix op ≡ true → waits (op ∷ os) ≡ true
waits_of_infix op os i = ground arith

Holds-value :
    {r v level : ℕ} {ns : List ℕ} {os : List Operator} {s : State}
    → value r ≡ value v
    → Holds (r ∷ ns) os level s
    → Holds (v ∷ ns) os level s
Holds-value {r} {v} e h = let e' : r ≡ v = cc in rw (← e') h

-- The loop of teco_expressions_push_calc() stops at what binds less than the new operator.
reduce_loop-Stops :
    {ns : List ℕ} (os : List Operator) {level : ℕ} {s : State} (fuel : ℕ) (op : Operator)
    → waits os ≡ true
    → Stops (precedence op) os
    → Holds ns (number ∷ os) level s
    → reduce_loop (suc fuel) op s ≡ ok tt s
unfolding reduce_loop
reduce_loop-Stops [] fuel op w stop h = rw (first_op-bottom h, reduce_loop)
reduce_loop-Stops (o ∷ os) fuel op w stop h =
    rw
      (first_op-Holds w h, peek_op-Holds h, lt→ltb (precedence o) (precedence op) stop, reduce_loop)

-- It resolves all that binds at least as tightly.
pub reduce_loop-Holds :
    (ps : Pending) (os : List Operator) (ns : List ℕ) (r v level fuel : ℕ) (op : Operator)
    (s : State)
    → Binds (precedence op) ps
    → waits os ≡ true
    → Stops (precedence op) os
    → resolve ps r ≡ value v
    → length ps < fuel
    → Holds (r ∷ lefts ps ns) (number ∷ pending ps os) level s
    → Succeeds (reduce_loop fuel op s) (Holds (v ∷ ns) (number ∷ os) level)
unfolding reduce_loop
reduce_loop-Holds ps os ns r v level zero op s b w stop e lt h = absurd (omega arith)
reduce_loop-Holds [] os ns r v level (suc fuel) op s b w stop e lt h =
    (s, reduce_loop-Stops os fuel op w stop h, Holds-value e h)
reduce_loop-Holds ((l, o) ∷ ps) os ns r v level (suc fuel) op s (i, k, b) w stop e lt h =
    let (n, e₁, e₂) = and_then-eq_value (operate o l r) (resolve ps) v e in
    rw
      (
        first_op-Holds (waits_of_infix o _ i) h,
        peek_op-Holds h,
        le→ltb (precedence o) (precedence op) k,
        reduce_loop,
      )
      (Succeeds->> (calc s) (reduce_loop fuel op) (calc-Holds (waits-pending _ ps os b w) e₁ h)
        λ t ht. reduce_loop-Holds ps os ns n v level fuel op t b w stop e₂ (omega arith) ht)

-- The loop of teco_expressions_eval() resolves everything down to a brace or to the bottom.
pub eval_loop-Holds :
    {P : State → Type 0} (ps : Pending) (os : List Operator) (ns : List ℕ) (q r v level fuel : ℕ)
    (pop : Bool) (s : State)
    → Binds q ps
    → waits os ≡ true
    → resolve ps r ≡ value v
    → length ps < fuel
    → ((f : ℕ) (t : State)
        → Holds (v ∷ ns) (number ∷ os) level t
        → Succeeds (eval_loop (suc f) pop t) P)
    → Holds (r ∷ lefts ps ns) (number ∷ pending ps os) level s
    → Succeeds (eval_loop fuel pop s) P
unfolding eval_loop
eval_loop-Holds ps os ns q r v level zero pop s b w e lt k h = absurd (omega arith)
eval_loop-Holds [] os ns q r v level (suc fuel) pop s b w e lt k h = k fuel s (Holds-value e h)
eval_loop-Holds ((l, o) ∷ ps) os ns q r v level (suc fuel) pop s (i, j, b) w e lt k h =
    let (n, e₁, e₂) = and_then-eq_value (operate o l r) (resolve ps) v e in
    rw (first_op-Holds (waits_of_infix o _ i) h, peek_op-Holds h, infix_is_no_brace o i, eval_loop)
      (Succeeds->> (calc s) (eval_loop fuel pop) (calc-Holds (waits-pending _ ps os b w) e₁ h)
        λ t ht. eval_loop-Holds ps os ns q n v level fuel pop t b w e₂ (omega arith) k ht)
  where
    infix_is_no_brace : (o : Operator) → is_infix o ≡ true → is_brace o ≡ false
    infix_is_no_brace o i = ground arith

-- At the bottom or at a brace the loop ends; the brace is popped if that is wanted.
pub eval_loop-bottom :
    {ns : List ℕ} {level : ℕ} {t : State} (fuel : ℕ) (pop : Bool)
    → Holds ns (number ∷ []) level t
    → eval_loop (suc fuel) pop t ≡ ok tt t
unfolding eval_loop
eval_loop-bottom fuel pop h = rw (first_op-bottom h, eval_loop)

pub eval_loop-brace :
    {ns : List ℕ} {os : List Operator} {level : ℕ} {t : State} (fuel : ℕ) (pop : Bool)
    → Holds ns (number ∷ brace ∷ os) level t
    → eval_loop (suc fuel) pop t ≡ pop_brace pop 1 t
unfolding eval_loop
eval_loop-brace fuel pop h = rw (first_op-Holds refl h, ap is_brace (peek_op-Holds h), eval_loop)
