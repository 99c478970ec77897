-- ===== src/Parser/Levels.antt =====
-- src/core-commands.c: loops and conditionals within what is only parsed.
use sciteco.Prelude.{ℕ, zero, suc, ◌-◌, ◌<◌, ◌≡◌, refl, ap, false, List, [], ◌∷◌, ◌++◌, ◌==◌, arith}
use sciteco.Undo.Reverts.{change}
use sciteco.Editor.{Mode, Vars, State, state_start}
use sciteco.Expressions.Stacks.{ok}
use sciteco.Commands.Loops.{set_flags, set_mode}
use sciteco.Parser.{Context, set_nest_level}
use sciteco.Parser.Start.{
  start_case, start_input, case_input, loop_input, unmodified, loop_ends, cond_ends, else_mode,
  input_cb, enter, machine_input,
}
use sciteco.Parser.Stepping.{Runs, append-Runs}
use sciteco.Parser.Skipping.{Skipped, a_loop, a_part, all_parts, skipping, parsing, enter-same}
use sciteco.Parser.Pieces.{step_from}

module _ (ctx : Context) (macro : List ℕ) (colons : ℕ) (v : Vars) where
  -- What encloses a body.
  pub open_loop-Runs :
      (nest pc : ℕ) (s : State)
      → s.vars ≡ parsing (skipping a_loop) colons nest v
      → Runs ctx macro (b'<' ∷ []) pc s (parsing (skipping a_loop) colons (suc nest) v)
  unfolding machine_input input_cb start_input start_case case_input loop_input set_nest_level enter
      change
  open_loop-Runs nest pc s e = step_from ctx macro colons v (b'<') pc s _ _ e (λ u. (_, refl, refl))

  loop_ends-vars :
      (m : Mode) (nest : ℕ) (u : State)
      → (loop_ends (record u { vars = parsing m colons (suc nest) v })).vars
        ≡ parsing m colons nest v
  unfolding loop_ends set_nest_level change
  loop_ends-vars m nest u =
      let more : (suc nest == 0) ≡ false = ground arith in
      let less : suc nest - 1 ≡ nest = omega arith in
      rw (more, loop_ends) (ap (λ n. parsing m colons n v) less)

  level_ends :
      (m : Mode) (nest pc : ℕ) (u : State)
      → (s' : State) × (s'.vars ≡ parsing m colons nest v)
        × (ok pc (enter state_start (loop_ends (record u { vars = parsing m colons (suc nest) v })))
            ≡ ok pc s')
  level_ends m nest pc u =
      let t = loop_ends (record u { vars = parsing m colons (suc nest) v }) in
      let e = loop_ends-vars m nest u in
      (t, e, ap (ok pc) (enter-same t (ap (λ (w : Vars). w.current) e)))

  pub close_loop-Runs :
      (nest pc : ℕ) (s : State)
      → s.vars ≡ parsing (skipping a_loop) colons (suc nest) v
      → Runs ctx macro (b'>' ∷ []) pc s (parsing (skipping a_loop) colons nest v)
  unfolding machine_input input_cb start_input start_case case_input loop_input
  close_loop-Runs nest pc s e =
      step_from ctx macro colons v (b'>') pc s _ _ e (level_ends (skipping a_loop) nest (suc pc))

  pub close_part-Runs :
      (nest pc : ℕ) (s : State)
      → s.vars ≡ parsing (skipping a_part) colons (suc nest) v
      → Runs ctx macro (b'\'' ∷ []) pc s (parsing (skipping a_part) colons nest v)
  unfolding machine_input input_cb start_input start_case case_input unmodified cond_ends
  close_part-Runs nest pc s e =
      step_from ctx macro colons v (b'\'') pc s _ _ e (level_ends (skipping a_part) nest (suc pc))

  pub close_all-Runs :
      (nest pc : ℕ) (s : State)
      → s.vars ≡ parsing (skipping all_parts) colons (suc nest) v
      → Runs ctx macro (b'\'' ∷ []) pc s (parsing (skipping all_parts) colons nest v)
  unfolding machine_input input_cb start_input start_case case_input unmodified cond_ends
  close_all-Runs nest pc s e =
      step_from ctx macro colons v (b'\'') pc s _ _ e
        (level_ends (skipping all_parts) nest (suc pc))

  pub else_part-Runs :
      (nest pc : ℕ) (s : State)
      → 0 < nest
      → s.vars ≡ parsing (skipping a_part) colons nest v
      → Runs ctx macro (b'|' ∷ []) pc s (parsing (skipping a_part) colons nest v)
  unfolding machine_input input_cb start_input start_case case_input unmodified else_mode set_mode
      set_flags enter change
  else_part-Runs zero pc s h e = absurd (omega arith)
  else_part-Runs (suc nest) pc s h e =
      step_from ctx macro colons v (b'|') pc s _ _ e (λ u. (_, refl, refl))

  -- A body, then its end, then the rest, around which there is another level.
  pub level-Runs :
      (m : Skipped) (opening xs : List ℕ) (closing : ℕ) (ys : List ℕ) (nest pc : ℕ) (s : State)
      → Runs ctx macro opening pc s (parsing (skipping m) colons (suc nest) v)
      → ((pc : ℕ) (t : State)
          → t.vars ≡ parsing (skipping m) colons (suc nest) v
          → Runs ctx macro xs pc t (parsing (skipping m) colons (suc nest) v))
      → ((pc : ℕ) (t : State)
          → t.vars ≡ parsing (skipping m) colons (suc nest) v
          → Runs ctx macro (closing ∷ []) pc t (parsing (skipping m) colons nest v))
      → ((pc : ℕ) (t : State)
          → t.vars ≡ parsing (skipping m) colons nest v
          → Runs ctx macro ys pc t (parsing (skipping m) colons nest v))
      → Runs ctx macro (opening ++ (xs ++ (closing ∷ ys))) pc s (parsing (skipping m) colons nest v)
  level-Runs m opening xs closing ys nest pc s o x c y =
      append-Runs ctx macro opening (xs ++ (closing ∷ ys)) pc s _ _ o (λ t e.
        append-Runs ctx macro xs (closing ∷ ys) _ t _ _ (x _ t e)
          (λ u f. append-Runs ctx macro (closing ∷ []) ys _ u _ _ (c _ u f) (λ w g. y _ w g)))
