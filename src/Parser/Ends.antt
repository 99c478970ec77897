-- ===== src/Parser/Ends.antt =====
-- src/core-commands.c: the end of a loop, or of the part of a conditional, that is only parsed.
use sciteco.Prelude.{ℕ, ◌+◌, ◌≡◌, refl, List, [], ◌∷◌, ◌++◌, true, length}
use sciteco.Undo.Reverts.{change}
use sciteco.Commands.Loops.{set_flags, set_mode}
use sciteco.Editor.{normal, Vars, State}
use sciteco.Parser.{Context}
use sciteco.Parser.Start.{
  start_case, start_input, case_input, loop_input, unmodified, loop_ends, cond_ends, else_mode,
  input_cb, enter, machine_input,
}
use sciteco.Parser.Stepping.{Runs, append-Runs}
use sciteco.Parser.Skipping.{Skipped, a_loop, a_part, all_parts, skipping, parsing}
use sciteco.Parser.Pieces.{step_from}
use sciteco.Parser.Bodies.{Body, parsed-Runs}

-- The command at which the execution is resumed: the end of the loop, the next part of the
-- conditional or its end.
pub data Ends : Skipped → ℕ → Type 0 where
  ends_loop : Ends a_loop b'>'
  next_part : Ends a_part b'|'
  ends_part : Ends a_part b'\''
  ends_all : Ends all_parts b'\''

module _ (ctx : Context) (macro : List ℕ) (colons : ℕ) (v : Vars) where
  closing-Runs :
      (m : Skipped) (c pc : ℕ) (s : State)
      → Ends m c
      → s.vars ≡ parsing (skipping m) colons 0 v
      → Runs ctx macro (c ∷ []) pc s (parsing normal colons 0 v)
  unfolding machine_input input_cb start_input start_case case_input loop_input unmodified loop_ends
      cond_ends else_mode set_mode set_flags enter change
  closing-Runs m c pc s ends_loop e =
      step_from ctx macro colons v b'>' pc s _ _ e (λ u. (_, refl, refl))
  closing-Runs m c pc s next_part e =
      step_from ctx macro colons v b'|' pc s _ _ e (λ u. (_, refl, refl))
  closing-Runs m c pc s ends_part e =
      step_from ctx macro colons v b'\'' pc s _ _ e (λ u. (_, refl, refl))
  closing-Runs m c pc s ends_all e =
      step_from ctx macro colons v b'\'' pc s _ _ e (λ u. (_, refl, refl))

  -- In a mode that only parses, a body of complete loops or conditionals, made of commands without
  -- an argument of their own, is executed character by character without an effect, whatever the
  -- commands that are not modelled would do; the end of the loop, the next part of the conditional
  -- or its end then returns to normal execution, with all variables as they were but for the mode.
  pub skipped-Runs :
      (m : Skipped) (text : List ℕ) (c pc : ℕ) (s : State)
      → Body ctx.lone_star m true text
      → Ends m c
      → s.vars ≡ parsing (skipping m) colons 0 v
      → Runs ctx macro (text ++ (c ∷ [])) pc s (parsing normal colons 0 v)
  skipped-Runs m text c pc s b end e =
      append-Runs ctx macro text (c ∷ []) pc s _ _
        (parsed-Runs ctx macro colons v m true text b 0 pc s tt e)
        (λ t f. closing-Runs m c (length text + pc) t end f)
