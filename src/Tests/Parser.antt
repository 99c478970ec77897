-- ===== src/Tests/Parser.antt =====
-- src/parser.c and src/core-commands.c: macros executed.
use sciteco.Prelude.{ℕ, ◌≡◌, refl, false, List, [], ◌∷◌, ◌++◌, length, true}
use sciteco.Editor.{normal}
use sciteco.Expressions.Stacks.{Run, ok, err, crash, no_fuel}
use sciteco.Parser.{Context}
use sciteco.Parser.Start.{main_step, start_case}
use sciteco.Parser.Conditions.{condition}
use sciteco.Parser.Input.{fcommand_loop_start}
use sciteco.Parser.Stepping.{Runs}
use sciteco.Parser.Skipping.{a_loop, skipping, parsing}
use sciteco.Parser.Bodies.{Body, done, char, conditional_of_loop, loop}
use sciteco.Parser.Ends.{ends_loop, skipped-Runs}
use sciteco.Tests.{start, fresh}

abbrev context : Context
context = record {
  loop_stack_fp = 0;
  lone_star = false;
  radix = 10;
  search_result = 0;
  is_alpha = λ c. false;
  is_alnum = λ c. false;
  is_digit = λ c. false;
  is_lower = λ c. false;
  is_upper = λ c. false;
  is_dir_separator = λ c. false;
  callback = λ c s. ok tt s;
  words = λ c at s. ok tt s;
  state_input = λ c chr pc s. ok (c, pc) s;
}

abbrev numbers_of : Run ℕ → List ℕ
numbers_of (ok pc s) = s.vars.numbers
numbers_of (err e s) = []
numbers_of crash = []
numbers_of no_fuel = []

abbrev execute : List ℕ → Run ℕ
execute macro = main_step 50 context macro (length macro) 0 start

-- 0"E 1"N 2|3' | 4' and then 5
nested_conditionals :
    numbers_of (
      execute (
        b'0' ∷ b'"' ∷ b'E' ∷ b'1' ∷ b'"' ∷ b'G' ∷ b'2' ∷ b'|' ∷ b'3' ∷ b'\'' ∷ b'|' ∷ b'4' ∷ b'\''
        ∷ b'5' ∷ []))
    ≡ 25 ∷ []
unfolding main_step sciteco.Expressions.Eval.add_digit sciteco.Undo.Reverts.change
    sciteco.Expressions.Eval.eval condition sciteco.TecoInt.add sciteco.TecoInt.multiply
    sciteco.TecoInt.subtract sciteco.Commands.Loops.set_mode sciteco.Parser.set_nest_level
nested_conditionals = refl

-- The body of a loop, with a conditional and another loop
body : List ℕ
body = b'1' ∷ b'"' ∷ b'N' ∷ b'<' ∷ b'5' ∷ b'>' ∷ b'|' ∷ b'\'' ∷ []

sample-Body : Body false a_loop true body
unfolding body start_case condition
sample-Body = char b'1' _ refl (
    conditional_of_loop b'N' _ (λ e. cc)
      (loop (b'5' ∷ []) _ (char b'5' [] refl done) (char b'|' _ refl (char b'\'' [] refl done))))

skipped-Runs_example :
    Runs context
      (body ++ (b'>' ∷ []))
      (body ++ (b'>' ∷ []))
      0
      (record start { vars = parsing (skipping a_loop) 0 0 fresh })
      (parsing normal 0 0 fresh)
skipped-Runs_example =
    skipped-Runs context (body ++ (b'>' ∷ [])) 0 fresh a_loop body b'>' 0
      (record start { vars = parsing (skipping a_loop) 0 0 fresh }) sample-Body ends_loop refl

-- Outside of a loop, F< leaves the colon modifier set.
abbrev colons_of : Run ℕ → ℕ
colons_of (ok pc s) = s.vars.flags.modifier_colon
colons_of (err e s) = 0
colons_of crash = 0
colons_of no_fuel = 0

kept_colon :
    colons_of (fcommand_loop_start context (record start { vars = parsing normal 1 0 fresh })) ≡ 1
unfolding fcommand_loop_start sciteco.Expressions.Eval.discard_args
kept_colon = refl
