-- ===== src/Commands/Loops/Rubout.antt =====
-- src/core-commands.c: the undo tokens of the commands < and >.
use sciteco.Prelude.{
  ℕ, ◌-◌, ◌≡◌, refl, sym, inl, inr, Bool, true, false, none, List, [], ◌∷◌, ltb, leb, ◌==◌,
  if◌then◌else◌, Bool-cases, arith, length,
}
use sciteco.Undo.Reverts.{change-Reverts, Reverts-refl, Reverts-trans}
use sciteco.Editor.{
  LoopContext, Mode, parse_only_loop, Flags, Vars, remove_loop, insert_loop, restore_counter, act,
  State, whole, mask, Reverts, with_counter,
}
use sciteco.Expressions.Stacks.{ok}
use sciteco.Expressions.Eval.{pop_num_calc, discard_args, brace_open, brace_close}
use sciteco.Expressions.Rubout.{
  RunReverts, RunReverts-err, RunReverts-ok, RunReverts-after, if-RunReverts, >>=-RunReverts,
  >>-RunReverts,
}
use sciteco.Expressions.Rubout.Eval.{pop_num_calc-RunReverts, discard_args-RunReverts}
use sciteco.Expressions.Rubout.Braces.{brace_open-Reverts, brace_close-RunReverts}
use sciteco.Commands.Loops.{
  set_flags, set_mode, eval_colon, push_loop, enter_loop, loop_open, top_loop, drop_loop,
  drop_loop_of, count_down, count_down_of, close_args, next_iteration, close_body, inner_level,
  loop_close,
}
use sciteco.TecoInt.{minus_one, is_negative, subtract}

-- The tokens of the loop stack.
module _ (v : Vars) (l : LoopContext) (ls : List LoopContext) where
  act-remove_loop :
      act (remove_loop (length (l ∷ ls) - 1)) (record v { loop_stack = l ∷ ls })
      ≡ record v { loop_stack = ls }
  unfolding act
  act-remove_loop = rw zero_index refl
    where
      zero_index : length (l ∷ ls) - 1 - (length (l ∷ ls) - 1) ≡ 0
      zero_index = omega arith

  act-insert_loop :
      v.loop_stack ≡ l ∷ ls → act (insert_loop (length ls) l) (record v { loop_stack = ls }) ≡ v
  unfolding act
  act-insert_loop e = rw (zero_index, sym e) refl
    where
      zero_index : length ls - length ls ≡ 0
      zero_index = omega arith

  act-restore_counter :
      (n : ℕ)
      → v.loop_stack ≡ l ∷ ls
      → act
          (restore_counter (length ls) l.counter)
          (record v { loop_stack = with_counter n l ∷ ls })
        ≡ v
  unfolding act
  act-restore_counter n e = rw (zero_index, sym e) refl
    where
      zero_index : length (with_counter n l ∷ ls) - 1 - length ls ≡ 0
      zero_index = omega arith

set_flags-Reverts : (f : Flags) (s : State) → Reverts whole s (set_flags f s)
unfolding set_flags act
set_flags-Reverts f s = change-Reverts act (mask whole) _ _ s (λ m. refl)

set_mode-Reverts : (m : Mode) (s : State) → Reverts whole s (set_mode m s)
unfolding set_mode
set_mode-Reverts m s = set_flags-Reverts _ s

push_loop-Reverts : (l : LoopContext) (s : State) → Reverts whole s (push_loop l s)
unfolding push_loop
push_loop-Reverts l s =
    change-Reverts act (mask whole) _ _ s (λ m. act-remove_loop s.vars l s.vars.loop_stack)

eval_colon-Reverts : (s : State) → Reverts whole s (eval_colon s).1
unfolding eval_colon
eval_colon-Reverts s = elim (Bool-cases (s.vars.flags.modifier_colon == 0)) [
  | inl zero_colons ↦ rw (zero_colons, eval_colon) (Reverts-refl act (mask whole) s)
  | inr colons ↦ rw (colons, eval_colon) (set_flags-Reverts _ s)
]

drop_loop_of-Reverts :
    (ls : List LoopContext) (s : State)
    → s.vars.loop_stack ≡ ls
    → Reverts whole s (drop_loop_of ls s)
unfolding drop_loop_of
drop_loop_of-Reverts [] s e = Reverts-refl act (mask whole) s
drop_loop_of-Reverts (l ∷ ls) s e =
    change-Reverts act (mask whole) _ _ s (λ m. act-insert_loop s.vars l ls e)

count_down_of-Reverts :
    (ls : List LoopContext) (s : State)
    → s.vars.loop_stack ≡ ls
    → Reverts whole s (count_down_of ls s)
unfolding count_down_of
count_down_of-Reverts [] s e = Reverts-refl act (mask whole) s
count_down_of-Reverts (l ∷ ls) s e =
    change-Reverts act (mask whole) _ _ s
      (λ m. act-restore_counter s.vars l ls (subtract l.counter 1) e)

-- The last counter and the way back are taken back.
next_iteration-RunReverts : (s : State) → RunReverts whole s (next_iteration s)
unfolding next_iteration drop_loop count_down
next_iteration-RunReverts s = elim (Bool-cases ((top_loop s).counter == 1)) [
  | inl last ↦
      rw last (RunReverts-ok whole none s _ (drop_loop_of-Reverts s.vars.loop_stack s refl))
  | inr more ↦ elim (Bool-cases (is_negative (top_loop s).counter)) [
    | inl infinite ↦
        rw (more, infinite) (RunReverts-ok whole _ s s (Reverts-refl act (mask whole) s))
    | inr finite ↦
        rw (more, finite)
          (RunReverts-ok whole _ s _ (count_down_of-Reverts s.vars.loop_stack s refl))
  ]
]

reopen-RunReverts :
    (b : Bool) (s : State) → RunReverts whole s (ok tt (if b then s else brace_open s))
reopen-RunReverts true s = RunReverts-ok whole tt s s (Reverts-refl act (mask whole) s)
reopen-RunReverts false s = RunReverts-ok whole tt s _ (brace_open-Reverts s)

reclose-RunReverts :
    (b : Bool) (s : State) → RunReverts whole s (if b then brace_close s else ok tt s)
reclose-RunReverts true s = brace_close-RunReverts s
reclose-RunReverts false s = RunReverts-ok whole tt s s (Reverts-refl act (mask whole) s)

close_args-RunReverts : (colons : ℕ) (s : State) → RunReverts whole s (close_args colons s)
unfolding close_args
close_args-RunReverts colons s =
    if-RunReverts whole s (ltb 0 colons) _ _
      (>>-RunReverts whole s (brace_close s) _ (brace_close-RunReverts s)
        λ t. reopen-RunReverts ((top_loop t).counter == 1) t)
      (>>-RunReverts whole s (discard_args s) _ (discard_args-RunReverts whole s)
        λ t. reclose-RunReverts ((top_loop t).counter == 1) t)

close_body-RunReverts : (s : State) → RunReverts whole s (close_body s)
unfolding close_body
close_body-RunReverts s = RunReverts-after whole s t _ (eval_colon-Reverts s) (
    >>-RunReverts whole t (if (top_loop t).pass_through then ok tt t else close_args colons t) _
      (if-RunReverts whole t (top_loop t).pass_through _ _
        (RunReverts-ok whole tt t t (Reverts-refl act (mask whole) t))
        (close_args-RunReverts colons t))
      next_iteration-RunReverts)
  where
    colons : ℕ
    colons = (eval_colon s).0

    t : State
    t = (eval_colon s).1

-- From a session in which undo is enabled and no token belongs to a later key, the end of a loop,
-- whether it fails, ends the loop or starts another iteration, leaves such a session, and rubbing
-- out to any earlier position then gives the variables that rubbing out gave before; traps are left
-- out.
pub loop_close-RunReverts : (fp : ℕ) (s : State) → RunReverts whole s (loop_close fp s)
unfolding loop_close
loop_close-RunReverts fp s =
    if-RunReverts whole s (leb (length s.vars.loop_stack) fp) _ _ (RunReverts-err whole _ _ s) (
      if-RunReverts whole s (s.vars.brace_level == inner_level (top_loop s)) _ _
        (close_body-RunReverts s) (RunReverts-err whole _ _ s))

if-Reverts :
    (b : Bool) (s x y : State)
    → Reverts whole s x
    → Reverts whole s y
    → Reverts whole s (if b then x else y)
if-Reverts true s x y f g = f
if-Reverts false s x y f g = g

enter_loop-Reverts :
    (pc counter level : ℕ) (s : State) → Reverts whole s (enter_loop pc counter level s)
unfolding enter_loop
enter_loop-Reverts pc counter level s = Reverts-trans act (mask whole) (eval_colon-Reverts s) (
    if-Reverts (counter == 0) t _ _ (set_mode-Reverts parse_only_loop t) (
      Reverts-trans act (mask whole)
        (if-Reverts (ltb 0 (eval_colon s).0) t t (brace_open t) (Reverts-refl act (mask whole) t)
          (brace_open-Reverts t))
        (push_loop-Reverts _ _)))
  where
    t : State
    t = (eval_colon s).1

-- From a session in which undo is enabled and no token belongs to a later key, the start of a loop,
-- whether it fails, is entered or is skipped, leaves such a session, and rubbing out to any earlier
-- position then gives the variables that rubbing out gave before; traps are left out.
pub loop_open-RunReverts : (pc : ℕ) (s : State) → RunReverts whole s (loop_open pc s)
unfolding loop_open
loop_open-RunReverts pc s =
    >>=-RunReverts whole s (pop_num_calc minus_one s) _ (pop_num_calc-RunReverts whole minus_one s)
      λ counter t. RunReverts-ok whole tt t _ (enter_loop-Reverts pc counter t.vars.brace_level t)
