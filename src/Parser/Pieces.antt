-- ===== src/Parser/Pieces.antt =====
-- src/core-commands.c: commands of two characters that are only parsed.
use sciteco.Prelude.{
  ℕ, suc, ◌+◌, ◌≡◌, ◌≢◌, refl, sym, subst, true, none, some, List, [], ◌∷◌, Option-cases, inl, inr,
}
use sciteco.Undo.Reverts.{change}
use sciteco.Editor.{Vars, State, state_start, state_condcommand, state_fcommand}
use sciteco.Expressions.Stacks.{ok}
use sciteco.Numbers.{ascii_toupper}
use sciteco.Parser.{Context, find, fcommand_transitions, set_nest_level}
use sciteco.Parser.Input.{fcommand_input, transition_input, transition_of, call_back}
use sciteco.Parser.Conditions.{Condition, condition, condcommand_input, cond_begin, cond_decide}
use sciteco.Parser.Start.{
  start_case, start_input, case_input, table_input, input_cb, enter, machine_input,
}
use sciteco.Parser.Stepping.{Runs, char-Runs, append-Runs}
use sciteco.Parser.Skipping.{
  Skipped, a_loop, a_part, all_parts, skipping, starts, parsing, transition_of-parsed, parses,
}

-- A conditional counts as a level only when conditionals are skipped.
abbrev pub level_in : Skipped → ℕ → ℕ
level_in a_loop nest = nest
level_in _ nest = suc nest

module _ (ctx : Context) (macro : List ℕ) (colons : ℕ) (v : Vars) where
  -- One character in the start state, from literal variables.
  pub step_from :
      (c pc : ℕ) (s : State) (w w' : Vars)
      → s.vars ≡ w
      → ((u : State)
          → (s' : State) × (s'.vars ≡ w')
            × (machine_input ctx c (suc pc) (record u { vars = w }) ≡ ok (suc pc) s'))
      → Runs ctx macro (c ∷ []) pc s w'
  step_from c pc s w w' e k =
      let (s', q, i) = k s in
      char-Runs ctx macro c pc s w' (
        s',
        q,
        subst (λ (x : Vars). machine_input ctx c (suc pc) (record s { vars = x }) ≡ ok (suc pc) s')
            (sym e) i,
      )

  pub quote-Runs :
      (m : Skipped) (nest pc : ℕ) (s : State)
      → s.vars ≡ parsing (skipping m) colons nest v
      → Runs ctx macro
          (b'"' ∷ [])
          pc
          s
          (record (parsing (skipping m) colons nest v) { current = state_condcommand })
  unfolding machine_input input_cb start_input start_case case_input table_input transition_input
      transition_of call_back enter change
  quote-Runs a_loop nest pc s e = step_from (b'"') pc s _ _ e (λ u. (_, refl, refl))
  quote-Runs a_part nest pc s e = step_from (b'"') pc s _ _ e (λ u. (_, refl, refl))
  quote-Runs all_parts nest pc s e = step_from (b'"') pc s _ _ e (λ u. (_, refl, refl))

  pub condition-Runs :
      (m : Skipped) (nest t pc : ℕ) (s : State)
      → condition t ≢ none
      → s.vars ≡ record (parsing (skipping m) colons nest v) { current = state_condcommand }
      → Runs ctx macro (t ∷ []) pc s (parsing (skipping m) colons (level_in m nest) v)
  unfolding machine_input input_cb condcommand_input cond_begin cond_decide enter change
      set_nest_level
  condition-Runs m nest t pc s h e = elim (Option-cases (condition t)) [
    | inl n ↦ absurd (h n)
    | inr (c, p) ↦ decided m c p e
  ]
    where
      -- The condition is not looked at.
      decided :
          (m : Skipped) (c : Condition)
          → condition t ≡ some c
          → s.vars ≡ record (parsing (skipping m) colons nest v) { current = state_condcommand }
          → Runs ctx macro (t ∷ []) pc s (parsing (skipping m) colons (level_in m nest) v)
      decided a_loop c p e = step_from t pc s _ _ e (λ (u : State).
          let w = record u {
            vars = record (parsing (skipping a_loop) colons nest v) { current = state_condcommand };
          } in
          (enter state_start w, refl, rw (p, cond_decide) refl))
      decided a_part c p e = step_from t pc s _ _ e (λ (u : State).
          let w = record u {
            vars = record (parsing (skipping a_part) colons nest v) { current = state_condcommand };
          } in
          (enter state_start (set_nest_level (suc nest) w), refl, rw (p, cond_decide) refl))
      decided all_parts c p e = step_from t pc s _ _ e (λ (u : State).
          let w = record u {
            vars = record (parsing (skipping all_parts) colons nest v) {
              current = state_condcommand;
            };
          } in
          (enter state_start (set_nest_level (suc nest) w), refl, rw (p, cond_decide) refl))

  f_Runs :
      (m : Skipped) (nest pc : ℕ) (s : State)
      → s.vars ≡ parsing (skipping m) colons nest v
      → Runs ctx macro
          (b'F' ∷ [])
          pc
          s
          (record (parsing (skipping m) colons nest v) { current = state_fcommand })
  unfolding machine_input input_cb start_input start_case case_input table_input transition_input
      transition_of call_back enter change
  f_Runs a_loop nest pc s e = step_from (b'F') pc s _ _ e (λ u. (_, refl, refl))
  f_Runs a_part nest pc s e = step_from (b'F') pc s _ _ e (λ u. (_, refl, refl))
  f_Runs all_parts nest pc s e = step_from (b'F') pc s _ _ e (λ u. (_, refl, refl))

  pub fcommand-Runs :
      (m : Skipped) (nest c pc : ℕ) (s : State)
      → starts (find (ascii_toupper c) fcommand_transitions) ≡ true
      → s.vars ≡ parsing (skipping m) colons nest v
      → Runs ctx macro (b'F' ∷ c ∷ []) pc s (parsing (skipping m) colons nest v)
  unfolding machine_input input_cb fcommand_input transition_input enter change
  fcommand-Runs m nest c pc s h e =
      append-Runs ctx macro (b'F' ∷ []) (c ∷ []) pc s _ _ (f_Runs m nest pc s e) (λ t q.
        step_from c (1 + pc) t _ _ q (λ (u : State).
          let w = record u {
            vars = record (parsing (skipping m) colons nest v) { current = state_fcommand };
          } in
          (
            enter state_start w,
            refl,
            rw (transition_of-parsed ctx (suc (1 + pc)) _ w h (parses m) refl) refl,
          )))
