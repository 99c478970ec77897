-- ===== src/Parser/Stepping.antt =====
-- src/parser.c: teco_machine_main_step() over a piece of the macro.
use mathlib.Core.List.{head-eq_of_cons-eq, tail-eq_of_cons-eq}
use sciteco.Prelude.{
  drop-drop, drop-append, ℕ, zero, suc, ◌+◌, ◌<◌, ◌≡◌, refl, sym, ap, ◌∙◌, List, [], ◌∷◌, ◌++◌,
  lt→ltb, arith, length, length-append, append_assoc, get_or, drop,
}
use sciteco.Editor.{Vars, State}
use sciteco.Expressions.Stacks.{ok}
use sciteco.Parser.{Context}
use sciteco.Parser.Start.{machine_input, main_step}

-- The first of the characters that are left.
dropped :
    (pc c : ℕ) (macro text : List ℕ)
    → drop pc macro ≡ c ∷ text
    → (get_or macro pc 0 ≡ c) × (pc < length macro) × (drop (suc pc) macro ≡ text)
dropped zero c [] text h = absurd cc
dropped (suc pc) c [] text h = absurd cc
dropped zero c (x ∷ macro) text h = (head-eq_of_cons-eq h, omega arith, tail-eq_of_cons-eq h)
dropped (suc pc) c (x ∷ macro) text h =
    let (e, lt, d) = dropped pc c macro text h in (e, omega (arith, lt), d)

behind :
    (pc : ℕ) (xs rest macro : List ℕ)
    → drop pc macro ≡ xs ++ rest
    → drop (length xs + pc) macro ≡ rest
behind pc xs rest macro h =
    let e : length xs + pc ≡ pc + length xs = omega arith in
    let z : length xs ≡ length xs + 0 = omega arith in
    ap (λ n. drop n macro) e
    ∙ sym (drop-drop pc (length xs) macro)
    ∙ ap (drop (length xs)) h
    ∙ ap (λ n. drop n (xs ++ rest)) z
    ∙ drop-append xs rest 0

module _ (ctx : Context) (macro : List ℕ) where
  -- The piece of the macro from here on is executed without a jump, and leaves these variables.
  pub record Runs (text : List ℕ) (pc : ℕ) (s : State) (v : Vars) : Type 0 where
    pub after : State
    pub leaves : after.vars ≡ v
    pub steps :
        (fuel : ℕ) (rest : List ℕ)
        → drop pc macro ≡ text ++ rest
        → main_step (length text + fuel) ctx macro (length macro) pc s
          ≡ main_step fuel ctx macro (length macro) (length text + pc) after

  pub nothing-Runs : (pc : ℕ) (s : State) → Runs [] pc s s.vars
  nothing-Runs pc s = record {
    after = s;
    leaves = refl;
    steps = λ fuel rest d.
        let e : 0 + fuel ≡ fuel = omega arith in
        let p : pc ≡ 0 + pc = omega arith in
        ap (λ n. main_step n ctx macro (length macro) pc s) e
        ∙ ap (λ n. main_step fuel ctx macro (length macro) n s) p;
  }

  pub char-Runs :
      (c pc : ℕ) (s : State) (v : Vars)
      → (s' : State) × (s'.vars ≡ v) × (machine_input ctx c (suc pc) s ≡ ok (suc pc) s')
      → Runs (c ∷ []) pc s v
  unfolding main_step
  char-Runs c pc s v (s', e, i) = record {
    after = s';
    leaves = e;
    steps = λ fuel rest d.
        let (ch, lt, _) = dropped pc c macro rest d in
        let one : 1 + fuel ≡ suc fuel = omega arith in
        let behind : suc pc ≡ 1 + pc = omega arith in
        ap (λ n. main_step n ctx macro (length macro) pc s) one
        ∙ rw (lt→ltb _ _ lt, main_step)
            (rw (ch, main_step)
              (rw (i, main_step) (ap (λ n. main_step fuel ctx macro (length macro) n s') behind)));
  }

  pub append-Runs :
      (xs ys : List ℕ) (pc : ℕ) (s : State) (v w : Vars)
      → Runs xs pc s v
      → ((t : State) → t.vars ≡ v → Runs ys (length xs + pc) t w)
      → Runs (xs ++ ys) pc s w
  append-Runs xs ys pc s v w r k =
      let q = k r.after r.leaves in
      record {
        after = q.after;
        leaves = q.leaves;
        steps = λ fuel rest d.
            let d' : drop pc macro ≡ xs ++ (ys ++ rest) = d ∙ append_assoc xs ys rest in
            let sum : length (xs ++ ys) + fuel ≡ length xs + (length ys + fuel) =
              omega (arith, length-append xs ys) in
            let place : length ys + (length xs + pc) ≡ length (xs ++ ys) + pc =
              omega (arith, length-append xs ys) in
            ap (λ n. main_step n ctx macro (length macro) pc s) sum
            ∙ r.steps (length ys + fuel) (ys ++ rest) d'
            ∙ q.steps fuel rest (behind pc xs (ys ++ rest) macro d')
            ∙ ap (λ n. main_step fuel ctx macro (length macro) n q.after) place;
      }
