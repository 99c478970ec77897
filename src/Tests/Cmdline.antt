-- ===== src/Tests/Cmdline.antt =====
-- Sessions at the command line of src/cmdline.c.
use sciteco.Prelude.{
  ◌≡◌, refl, ap, sym, ◌∙◌, Bool, true, false, suc, Option, none, some, [], ◌∷◌, arith,
}
use sciteco.Undo.Reverts.{change}
use sciteco.Editor.{add, State, whole}
use sciteco.Expressions.Stacks.{Run, err, macro_return}
use sciteco.Expressions.Rubout.{RunReverts, RunReverts-err}
use sciteco.Commands.{Item, operand, infix_op, input}
use sciteco.Commands.Keys.{expression_machine}
use sciteco.Commands.Safety.{input-RunReverts}
use sciteco.Cmdline.{Machine, Typed, Pressed, pressed, quits, traps, keypress, rubout_key}
use sciteco.Cmdline.Keys.{IsIdle}
use sciteco.Cmdline.Sessions.{begin, typed, returned, rubbed_out, Snapshots, Reached-Snapshots}
use sciteco.Tests.{start}

-- The commands of expressions, and none for the key that returns from the command line.
abbrev step : Option Item → State → Run (Unit {0})
step none s = err (macro_return 0) s
step (some i) s = input i s

step-RunReverts : (c : Option Item) (s : State) → RunReverts whole s (step c s)
step-RunReverts none s = RunReverts-err whole (Unit {0}) (macro_return 0) s
step-RunReverts (some i) s = input-RunReverts i s

abbrev same_key : Option Item → Option Item → Bool
same_key none none = true
same_key (some a) (some b) = expression_machine.same a b
same_key _ _ = false

abbrev machine : Machine (Option Item)
machine = record {
  step = step;
  wants_exit = λ s. false;
  same = same_key;
  taken_back = step-RunReverts;
}

abbrev nothing : Typed (Option Item)
nothing = record { str = []; effective_len = 0; last_cmdline = [] }

start-IsIdle : IsIdle 0 start
start-IsIdle = record { on = refl; fits = omega arith }

abbrev after_press :
    Typed (Option Item) × State → Pressed (Option Item) → Typed (Option Item) × State
after_press r (pressed t s) = (t, s)
after_press r quits = r
after_press r traps = r

-- What one key leaves.
abbrev press : Option Item → Typed (Option Item) × State → Typed (Option Item) × State
unfolding keypress
press i r = after_press r (keypress machine (i ∷ []) r.0 r.1)

-- 2, then a return, then 3 and +, and + is rubbed out
abbrev one_key : Typed (Option Item) × State
one_key = press (some (operand 2)) (nothing, start)

abbrev no_key : Typed (Option Item) × State
no_key = press none one_key

abbrev third_key : Typed (Option Item) × State
third_key = press (some (operand 3)) no_key

abbrev fourth_key : Typed (Option Item) × State
fourth_key = press (some (infix_op add)) third_key

one_key-eq : keypress machine (some (operand 2) ∷ []) nothing start ≡ pressed one_key.0 one_key.1
unfolding keypress input change
one_key-eq = refl

no_key-eq : keypress machine (none ∷ []) one_key.0 one_key.1 ≡ pressed no_key.0 no_key.1
unfolding keypress input change
no_key-eq = refl

third_key-eq :
    keypress machine (some (operand 3) ∷ []) no_key.0 no_key.1 ≡ pressed third_key.0 third_key.1
unfolding keypress input change
third_key-eq = refl

fourth_key-eq :
    keypress machine (some (infix_op add) ∷ []) third_key.0 third_key.1
    ≡ pressed fourth_key.0 fourth_key.1
unfolding keypress input change
fourth_key-eq = refl

-- The keys behind the return are at the beginning of the command line.
lengths :
    (one_key.0.effective_len ≡ 1)
    × (no_key.0.effective_len ≡ 0)
    × (third_key.0.effective_len ≡ 1)
    × (fourth_key.0.effective_len ≡ 2)
unfolding keypress input change
lengths = (refl, refl, refl, refl)

-- A return between two keys of a string.
abbrev both_keys : Typed (Option Item) × State
unfolding keypress
both_keys =
    after_press (nothing, start)
      (keypress machine (some (operand 2) ∷ none ∷ some (operand 3) ∷ []) nothing start)

Reached-Snapshots_example :
    Snapshots machine
      (rubout_key fourth_key.0 fourth_key.1).0.effective_len
      (rubout_key fourth_key.0 fourth_key.1).1
      (third_key.1.vars ∷ no_key.1.vars ∷ [])
unfolding keypress input change
Reached-Snapshots_example = Reached-Snapshots machine (
    rubbed_out
      (typed (some (infix_op add))
        (typed (some (operand 3))
          (returned none
            (typed (some (operand 2)) (begin {t = nothing} refl start-IsIdle) refl one_key-eq
              lengths.0)
            refl no_key-eq)
          refl third_key-eq (lengths.2 ∙ ap suc (sym lengths.1)))
        refl fourth_key-eq (lengths.3 ∙ ap suc (sym lengths.2)))
      (omega (arith, lengths.3)))
