-- ===== src/Parser/Bodies.antt =====
-- src/core-commands.c: bodies of loops and parts of conditionals that are only parsed.
use sciteco.Prelude.{
  ℕ, suc, ◌+◌, ◌<◌, ◌≡◌, ◌≢◌, subst, Bool, true, false, none, List, [], ◌∷◌, ◌++◌, arith,
}
use sciteco.Editor.{Vars, State}
use sciteco.Numbers.{ascii_toupper}
use sciteco.Parser.{Context, find, fcommand_transitions}
use sciteco.Parser.Conditions.{condition}
use sciteco.Parser.Start.{start_case}
use sciteco.Parser.Stepping.{Runs, nothing-Runs, char-Runs, append-Runs}
use sciteco.Parser.Skipping.{
  Skipped, a_loop, a_part, all_parts, skipping, simple, starts, parsing, simple-machine_input,
}
use sciteco.Parser.Pieces.{level_in}
use sciteco.Parser.Pieces.{quote-Runs, condition-Runs, fcommand-Runs}
use sciteco.Parser.Levels.{
  open_loop-Runs, close_loop-Runs, close_part-Runs, close_all-Runs, else_part-Runs, level-Runs,
}

-- A text in which loops, or conditionals, are complete: the innermost ones are made of commands
-- without an argument of their own. Within a conditional there may be any number of parts, but not at
-- the top, which the first flag tells, when a part is skipped.
pub data Body (star : Bool) : Skipped → Bool → List ℕ → Type 0 where
  done : {m : Skipped} {top : Bool} → Body star m top []
  char :
      {m : Skipped} {top : Bool} (c : ℕ) (cs : List ℕ)
      → simple m (start_case star c) c ≡ true
      → Body star m top cs
      → Body star m top (c ∷ cs)
  fcommand :
      {m : Skipped} {top : Bool} (c : ℕ) (cs : List ℕ)
      → starts (find (ascii_toupper c) fcommand_transitions) ≡ true
      → Body star m top cs
      → Body star m top (b'F' ∷ c ∷ cs)
  conditional_of_loop :
      {top : Bool} (t : ℕ) (cs : List ℕ)
      → condition t ≢ none
      → Body star a_loop top cs
      → Body star a_loop top (b'"' ∷ t ∷ cs)
  loop :
      {top : Bool} (xs ys : List ℕ)
      → Body star a_loop false xs
      → Body star a_loop top ys
      → Body star a_loop top (b'<' ∷ (xs ++ (b'>' ∷ ys)))
  conditional :
      {top : Bool} (t : ℕ) (xs ys : List ℕ)
      → condition t ≢ none
      → Body star a_part false xs
      → Body star a_part top ys
      → Body star a_part top (b'"' ∷ t ∷ (xs ++ (b'\'' ∷ ys)))
  conditional_of_all :
      {top : Bool} (t : ℕ) (xs ys : List ℕ)
      → condition t ≢ none
      → Body star all_parts false xs
      → Body star all_parts top ys
      → Body star all_parts top (b'"' ∷ t ∷ (xs ++ (b'\'' ∷ ys)))
  else_part_within : (cs : List ℕ) → Body star a_part false cs → Body star a_part false (b'|' ∷ cs)

-- The nesting level is positive within the text.
abbrev pub Within : Bool → ℕ → Type 0
Within true nest = Unit
Within false nest = 0 < nest

module _ (ctx : Context) (macro : List ℕ) (colons : ℕ) (v : Vars) where
  conditional_opens :
      (m : Skipped) (t nest pc : ℕ) (s : State)
      → condition t ≢ none
      → s.vars ≡ parsing (skipping m) colons nest v
      → Runs ctx macro (b'"' ∷ t ∷ []) pc s (parsing (skipping m) colons (level_in m nest) v)
  conditional_opens m t nest pc s h e =
      append-Runs ctx macro (b'"' ∷ []) (t ∷ []) pc s _ _
        (quote-Runs ctx macro colons v m nest pc s e)
        (λ u f. condition-Runs ctx macro colons v m nest t (1 + pc) u h f)

  pub parsed-Runs :
      (m : Skipped) (top : Bool) (text : List ℕ)
      → Body ctx.lone_star m top text
      → (nest pc : ℕ) (s : State) → Within top nest
      → s.vars ≡ parsing (skipping m) colons nest v
      → Runs ctx macro text pc s (parsing (skipping m) colons nest v)
  parsed-Runs m top text done nest pc s h e =
      subst (Runs ctx macro [] pc s) e (nothing-Runs ctx macro pc s)
  parsed-Runs m top text (char c cs i b) nest pc s h e =
      append-Runs ctx macro (c ∷ []) cs pc s _ _
        (char-Runs ctx macro c pc s _ (simple-machine_input ctx m colons nest c (suc pc) v s e i))
        (λ t f. parsed-Runs m top cs b nest (1 + pc) t h f)
  parsed-Runs m top text (fcommand c cs i b) nest pc s h e =
      append-Runs ctx macro (b'F' ∷ c ∷ []) cs pc s _ _
        (fcommand-Runs ctx macro colons v m nest c pc s i e)
        (λ t f. parsed-Runs m top cs b nest (2 + pc) t h f)
  parsed-Runs m top text (conditional_of_loop t cs i b) nest pc s h e =
      append-Runs ctx macro (b'"' ∷ t ∷ []) cs pc s _ _ (conditional_opens a_loop t nest pc s i e)
        (λ u f. parsed-Runs a_loop top cs b nest (2 + pc) u h f)
  parsed-Runs m top text (loop xs ys b c) nest pc s h e =
      level-Runs ctx macro colons v a_loop (b'<' ∷ []) xs (b'>') ys nest pc s
        (open_loop-Runs ctx macro colons v nest pc s e)
        (λ pc t f. parsed-Runs a_loop false xs b (suc nest) pc t (omega arith) f)
        (λ pc t f. close_loop-Runs ctx macro colons v nest pc t f)
        (λ pc t f. parsed-Runs a_loop top ys c nest pc t h f)
  parsed-Runs m top text (conditional t xs ys i b c) nest pc s h e =
      level-Runs ctx macro colons v a_part (b'"' ∷ t ∷ []) xs (b'\'') ys nest pc s
        (conditional_opens a_part t nest pc s i e)
        (λ pc t f. parsed-Runs a_part false xs b (suc nest) pc t (omega arith) f)
        (λ pc t f. close_part-Runs ctx macro colons v nest pc t f)
        (λ pc t f. parsed-Runs a_part top ys c nest pc t h f)
  parsed-Runs m top text (conditional_of_all t xs ys i b c) nest pc s h e =
      level-Runs ctx macro colons v all_parts (b'"' ∷ t ∷ []) xs (b'\'') ys nest pc s
        (conditional_opens all_parts t nest pc s i e)
        (λ pc t f. parsed-Runs all_parts false xs b (suc nest) pc t (omega arith) f)
        (λ pc t f. close_all-Runs ctx macro colons v nest pc t f)
        (λ pc t f. parsed-Runs all_parts top ys c nest pc t h f)
  parsed-Runs m top text (else_part_within cs b) nest pc s h e =
      append-Runs ctx macro (b'|' ∷ []) cs pc s _ _
        (else_part-Runs ctx macro colons v nest pc s h e)
        (λ t f. parsed-Runs a_part false cs b nest (1 + pc) t h f)
