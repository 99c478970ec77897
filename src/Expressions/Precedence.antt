-- ===== src/Expressions/Precedence.antt =====
-- src/expressions.c and src/core-commands.c: infix expressions as they are typed, and their
-- values.
use sciteco.Prelude.{ℕ, suc, ◌+◌, ◌≤◌, ◌≡◌, refl, ap, ◌∙◌, true, false, List, [], ◌∷◌, ◌++◌, arith}
use sciteco.Editor.{Operator, brace, number, State}
use sciteco.Expressions.Stacks.{ok, ◌>>◌}
use sciteco.Expressions.Calc.{value, operate}
use sciteco.Expressions.Eval.{precedence, rounds, pop_brace, eval_loop, eval}
use sciteco.Expressions.Contents.{Holds, waits, Succeeds, Succeeds->>}
use sciteco.Expressions.Pending.{
  Pending, lefts, pending, resolve, Stops, waits_of_infix, Binds-append, Binds-mono, resolve-append,
  eval_loop-Holds, eval_loop-bottom, eval_loop-brace,
}
use sciteco.Expressions.Inputs.{inputs-append, operand-Holds, open_brace-Holds}
use sciteco.Expressions.Tree.{Tree, lit, node, paren, items, meaning, binding, IsParsed}
use sciteco.Commands.{Item, operand, infix_op, open_brace, close_brace, input, inputs}
use sciteco.Expressions.Leaves.{
  binding-pos, enough_rounds, Leaves, infix_op-Holds, close-Holds, and_then₂-eq_value,
}

Stops-mono : (p q : ℕ) (os : List Operator) → p ≤ q → Stops p os → Stops q os
Stops-mono p q [] h k = tt
Stops-mono p q (o ∷ os) h k = omega arith

inputs_one :
    (i : Item) (s : State) (P : State → Type 0)
    → Succeeds (input i s) P
    → Succeeds (inputs (i ∷ []) s) P
unfolding inputs
inputs_one i s P (t, e, p) = (t, rw e, p)

lefts-append : (ps qs : Pending) (ns : List ℕ) → lefts (ps ++ qs) ns ≡ lefts ps (lefts qs ns)
lefts-append [] qs ns = refl
lefts-append ((l, op) ∷ ps) qs ns = ap (l ∷◌) (lefts-append ps qs ns)

pending-append :
    (ps qs : Pending) (os : List Operator) → pending (ps ++ qs) os ≡ pending ps (pending qs os)
pending-append [] qs os = refl
pending-append ((l, op) ∷ ps) qs os =
    ap (λ (xs : List Operator). op ∷ number ∷ xs) (pending-append ps qs os)

-- A left operand and its operator join the operations that the right operand leaves.
Holds-under :
    (ns : List ℕ) (os : List Operator) (level a r : ℕ) (op : Operator) (s : State) (ps : Pending)
    → Holds (r ∷ lefts ps (a ∷ ns)) (number ∷ pending ps (op ∷ number ∷ os)) level s
    → Holds (r ∷ lefts (ps ++ (a, op) ∷ []) ns) (number ∷ pending (ps ++ (a, op) ∷ []) os) level s
Holds-under ns os level a r op s ps h = rw (lefts-append ps, pending-append ps) h

resolve-under :
    (op : Operator) (a b r v : ℕ) (ps : Pending)
    → resolve ps r ≡ value b
    → operate op a b ≡ value v
    → resolve (ps ++ (a, op) ∷ []) r ≡ value v
resolve-under op a b r v ps e f = rw (resolve-append ps, e, f)

inputs-node :
    (xs ys : List Item) (op : Operator) (s t u : State)
    → inputs xs s ≡ ok tt t
    → input (infix_op op) t ≡ ok tt u
    → inputs (xs ++ (infix_op op ∷ ys)) s ≡ inputs ys u
unfolding inputs
inputs-node xs ys op s t u e f = inputs-append xs (infix_op op ∷ ys) s ∙ rw (e, f)

inputs-paren :
    (xs : List Item) (s t u v : State)
    → input open_brace s ≡ ok tt t
    → inputs xs t ≡ ok tt u
    → input close_brace u ≡ ok tt v
    → inputs (open_brace ∷ (xs ++ (close_brace ∷ []))) s ≡ ok tt v
unfolding inputs
inputs-paren xs s t u v e f g = rw e (inputs-append xs (close_brace ∷ []) t ∙ rw (f, g))

-- Typing an expression where an operand is waited for leaves operations that resolve to its value.
inputs-Leaves :
    (e : Tree) (v : ℕ) (ns : List ℕ) (os : List Operator) (level : ℕ) (s : State)
    → IsParsed e
    → meaning e ≡ value v
    → waits os ≡ true
    → Stops (binding e) os
    → Holds ns os level s
    → Leaves e v ns os level s
inputs-Leaves (lit n) v ns os level s p m w stop h = record {
  waiting = [];
  top = n;
  binds = tt;
  result = m;
  after = inputs_one (operand n) s _ (operand-Holds n w h);
}
inputs-Leaves (paren e) v ns os level s p m w stop h =
    let (t, et, ht) = open_brace-Holds w h in
    let inner = inputs-Leaves e v ns (brace ∷ os) (level + 1) t p m refl (binding-pos e p) ht in
    let (u, eu, hu) = inner.after in
    let (x, ex, hx) = close-Holds (binding e) inner.waiting inner.top inner.binds inner.result hu in
    record {
      waiting = [];
      top = v;
      binds = tt;
      result = refl;
      after = (x, inputs-paren (items e) s t u x et eu ex, hx);
    }
inputs-Leaves (node op l r) v ns os level s (i, le, lt, pl, pr) m w stop h =
    let (a, b, ma, mb, mv) = and_then₂-eq_value (meaning l) (meaning r) (operate op) v m in
    let left = inputs-Leaves l a ns os level s pl ma w (Stops-mono _ _ os le stop) h in
    let (t, et, ht) = left.after in
    let (u, eu, hu) =
      infix_op-Holds op (binding l) left.waiting left.top i le left.binds w stop left.result ht in
    let right =
      inputs-Leaves r b (a ∷ ns) (op ∷ number ∷ os) level u pr mb (waits_of_infix op _ i) lt hu in
    let (x, ex, hx) = right.after in
    record {
      waiting = right.waiting ++ (a, op) ∷ [];
      top = right.top;
      binds =
          Binds-append (precedence op) right.waiting ((a, op) ∷ [])
            (Binds-mono (precedence op) (binding r) right.waiting (omega arith) right.binds)
            (i, omega arith, tt);
      result = resolve-under op a b right.top v right.waiting right.result mv;
      after = (
        x,
        inputs-node (items l) (items r) op s t u et eu ∙ ex,
        Holds-under ns os level a right.top op x right.waiting hx,
      );
    }

-- The bottom of the stack, or an open brace on top of it.
abbrev pub IsBase : List Operator → Type 0
IsBase [] = Unit {0}
IsBase (brace ∷ os) = Unit {0}
IsBase (op ∷ os) = ⊥

eval_loop-base :
    {ns : List ℕ} (os : List Operator) {level : ℕ} {u : State} (fuel : ℕ)
    → IsBase os
    → Holds ns (number ∷ os) level u
    → eval_loop (suc fuel) false u ≡ ok tt u
unfolding pop_brace
eval_loop-base [] fuel b h = eval_loop-bottom fuel false h
eval_loop-base (brace ∷ os) fuel b h = eval_loop-brace fuel false h
eval_loop-base (_ ∷ os) fuel b h = absurd b

base-waits :
    (os : List Operator) (e : Tree)
    → IsBase os
    → IsParsed e
    → (waits os ≡ true) × Stops (binding e) os
base-waits [] e b p = (refl, tt)
base-waits (brace ∷ os) e b p = (refl, binding-pos e p)
base-waits (_ ∷ os) e b p = absurd b

-- Typed at the bottom of the stack or behind an open brace, and then resolved, an expression leaves
-- its value as one argument above what lay there, with the brace level as it was: operators are
-- applied by precedence, from the left among equals, and braces group. The expression is the tree
-- that precedence gives to the text, and its value is defined.
pub eval-inputs :
    (e : Tree) (v level : ℕ) (ns : List ℕ) (os : List Operator) (s : State)
    → IsParsed e
    → meaning e ≡ value v
    → IsBase os
    → Holds ns os level s
    → Succeeds (inputs (items e) s >> eval false) (Holds (v ∷ ns) (number ∷ os) level)
unfolding eval
eval-inputs e v level ns os s p m b h =
    let (w, stop) = base-waits os e b p in
    let typed = inputs-Leaves e v ns os level s p m w stop h in
    Succeeds->> (inputs (items e) s) (eval false) typed.after λ t ht.
      eval_loop-Holds typed.waiting os ns (binding e) typed.top v level (rounds t) false t
        typed.binds w typed.result (enough_rounds typed.waiting os ht)
        (λ f u hu. (u, eval_loop-base os f b hu, hu)) ht
