-- ===== src/Commands/Loops/Endings.antt =====
-- src/core-commands.c: the fuel of the loop commands.
use sciteco.Prelude.{ℕ, ◌≢◌, refl, Bool, true, false, ltb, leb, ◌==◌, if◌then◌else◌, length}
use sciteco.Editor.{LoopContext, State}
use sciteco.Expressions.Stacks.{Run, ok, err, crash, no_fuel, ◌>>=◌}
use sciteco.Expressions.Eval.{pop_num_calc, discard_args, brace_open, brace_close, brace_return}
use sciteco.Expressions.Termination.{
  pop_num_calc-ends, discard_args-ends, brace_close-ends, brace_return-ends, then-ends,
}
use sciteco.Commands.Loops.{
  eval_colon, top_loop, close_args, next_iteration, close_body, inner_level, loop_close, complement,
  remove_top_loop, leave_loop, break_out, break_on, break_loop,
}
use sciteco.TecoInt.{is_negative}

module _ {A B : Type 0} where
  bind-ends :
      (r : Run A) (f : A → State → Run B)
      → r ≢ no_fuel
      → ((a : A) (t : State) → f a t ≢ no_fuel)
      → (r >>= f) ≢ no_fuel
  bind-ends (ok a t) f h k = k a t
  bind-ends (err e t) f h k = λ p. cc
  bind-ends crash f h k = λ p. cc
  bind-ends no_fuel f h k = absurd (h refl)

module _ {A : Type 0} where
  if-ends : (b : Bool) (x y : Run A) → x ≢ no_fuel → y ≢ no_fuel → (if b then x else y) ≢ no_fuel
  if-ends true x y h k = h
  if-ends false x y h k = k

break_out-ends : (l : LoopContext) (s : State) → break_out l s ≢ no_fuel
unfolding break_out
break_out-ends l s =
    then-ends (discard_args (remove_top_loop s)) _ (discard_args-ends (remove_top_loop s)) λ t.
      then-ends (if l.pass_through then ok tt t else brace_return l.brace_level 0 t)
        (λ u. ok tt (leave_loop l u))
        (if-ends l.pass_through (ok tt t) (brace_return l.brace_level 0 t) (λ p. cc)
          (brace_return-ends l.brace_level 0 t))
        (λ u p. cc)

break_on-ends : (rc : ℕ) (s : State) → break_on rc s ≢ no_fuel
unfolding break_on
break_on-ends rc s =
    if-ends (is_negative (if ltb 0 (eval_colon s).0 then complement rc else rc)) _ _ (λ p. cc)
      (break_out-ends (top_loop (eval_colon s).1) (eval_colon s).1)

-- The break command does not run out of the fuel of its loops, in whatever state it is executed.
pub break_loop-ends : (fp v : ℕ) (s : State) → break_loop fp v s ≢ no_fuel
unfolding break_loop
break_loop-ends fp v s =
    if-ends (leb (length s.vars.loop_stack) fp) _ _ (λ p. cc)
      (bind-ends (pop_num_calc v s) _ (pop_num_calc-ends v s) break_on-ends)

close_args-ends : (colons : ℕ) (s : State) → close_args colons s ≢ no_fuel
unfolding close_args
close_args-ends colons s =
    if-ends (ltb 0 colons) _ _
      (then-ends (brace_close s)
        (λ t. ok tt (if (top_loop t).counter == 1 then t else brace_open t)) (brace_close-ends s)
        (λ t p. cc))
      (then-ends (discard_args s)
        (λ t. if (top_loop t).counter == 1 then brace_close t else ok tt t) (discard_args-ends s)
        (λ t.
          if-ends ((top_loop t).counter == 1) (brace_close t) (ok tt t) (brace_close-ends t)
            (λ p. cc)))

next_iteration-ends : (s : State) → next_iteration s ≢ no_fuel
unfolding next_iteration
next_iteration-ends s = if-ends ((top_loop s).counter == 1) _ _ (λ p. cc) (λ p. cc)

-- The end of a loop does not run out of the fuel of its loops, in whatever state it is executed.
pub loop_close-ends : (fp : ℕ) (s : State) → loop_close fp s ≢ no_fuel
unfolding loop_close close_body
loop_close-ends fp s =
    if-ends (leb (length s.vars.loop_stack) fp) _ _ (λ p. cc)
      (if-ends (s.vars.brace_level == inner_level (top_loop s)) _ _
        (then-ends (if (top_loop t).pass_through then ok tt t else close_args (eval_colon s).0 t)
          next_iteration
          (if-ends (top_loop t).pass_through (ok tt t) (close_args (eval_colon s).0 t) (λ p. cc)
            (close_args-ends (eval_colon s).0 t))
          next_iteration-ends)
        (λ p. cc))
  where
    t : State
    t = (eval_colon s).1
