-- ===== src/Commands/Loops.antt =====
-- src/core-commands.c: the loops < > and the break command ; of an interactive macro frame. `fp` is
-- the frame's loop_stack_fp and `pc` its macro_pc behind the command.
pub mod Rubout
pub mod Endings
use sciteco.Prelude.{
  ℕ, suc, ◌+◌, ◌-◌, Bool, true, false, not, Option, none, some, List, [], ◌∷◌, ltb, leb, ◌==◌, drop,
  if◌then◌else◌, length,
}
use sciteco.Undo.Reverts.{Session, change}
use sciteco.Editor.{
  LoopContext, Mode, parse_only_loop, Flags, Vars, Token, remove_loop, insert_loop, restore_counter,
  restore_flags, with_counter, State,
}
use sciteco.Expressions.Stacks.{
  loop_end_without_start, brace_left_open, only_allowed_in_loops, Run, ok, err, crash, no_fuel,
  ◌>>=◌, ◌>>◌,
}
use sciteco.Expressions.Eval.{pop_num_calc, discard_args, brace_open, brace_close, brace_return}
use sciteco.TecoInt.{minus_one, is_negative, subtract}

-- teco_undo_flags(ctx->flags) with the assignment that follows it
unfoldable pub set_flags : Flags → State → State
set_flags f s = change (restore_flags s.vars.flags) (record v { flags = f }) s
  where
    v : Vars
    v = s.vars

unfoldable pub set_mode : Mode → State → State
unfolding set_flags
set_mode m s = set_flags (record f { mode = m }) s
  where
    f : Flags
    f = s.vars.flags

-- teco_machine_main_eval_colon() of src/parser.c
unfoldable pub eval_colon : State → ℕ × State
unfolding set_flags
eval_colon s =
    if s.vars.flags.modifier_colon == 0
    then (0, s)
    else (s.vars.flags.modifier_colon, set_flags (record f { modifier_colon = 0 }) s)
  where
    f : Flags
    f = s.vars.flags

unfoldable pub push_loop : LoopContext → State → State
push_loop l s =
    change (remove_loop (length (l ∷ s.vars.loop_stack) - 1))
      (record v { loop_stack = l ∷ v.loop_stack }) s
  where
    v : Vars
    v = s.vars

-- The end of teco_state_start_loop_open(), for a counter and the number of colons.
unfoldable pub enter_loop : ℕ → ℕ → ℕ → State → State
unfolding set_mode push_loop
enter_loop pc counter level s =
    let (colons, t) = eval_colon s in
    let l : LoopContext = record {
      counter = counter;
      brace_level = level;
      loop_pc = pc;
      pass_through = ltb 0 colons;
    } in
    if counter == 0
    then set_mode parse_only_loop t
    else push_loop l (if ltb 0 colons then t else brace_open t)

-- teco_state_start_loop_open()
unfoldable pub loop_open : ℕ → State → Run (Unit {0})
unfolding enter_loop
loop_open pc s =
    pop_num_calc minus_one s >>= λ counter t. ok tt (enter_loop pc counter t.vars.brace_level t)

-- The loop context that lctx points to; there is one after the check of the stack's length.
abbrev pub no_loop : LoopContext
no_loop = record { counter = 0; brace_level = 0; loop_pc = 0; pass_through = false }

abbrev pub top_of : List LoopContext → LoopContext
top_of [] = no_loop
top_of (l ∷ ls) = l

abbrev pub top_loop : State → LoopContext
top_loop s = top_of s.vars.loop_stack

-- The insertion token with the removal of the last element of the loop stack.
unfoldable pub drop_loop_of : List LoopContext → State → State
drop_loop_of [] s = s
drop_loop_of (l ∷ ls) s = change (insert_loop (length ls) l) (record v { loop_stack = ls }) s
  where
    v : Vars
    v = s.vars

unfoldable pub drop_loop : State → State
unfolding drop_loop_of
drop_loop s = drop_loop_of s.vars.loop_stack s

-- teco_undo_int(lctx->counter) with the decrement
unfoldable pub count_down_of : List LoopContext → State → State
count_down_of [] s = s
count_down_of (l ∷ ls) s =
    change (restore_counter (length ls) l.counter)
      (record v { loop_stack = with_counter (subtract l.counter 1) l ∷ ls }) s
  where
    v : Vars
    v = s.vars

unfoldable pub count_down : State → State
unfolding count_down_of
count_down s = count_down_of s.vars.loop_stack s

-- The arguments that the loop body leaves, for a loop that does not pass them through.
unfoldable pub close_args : ℕ → State → Run (Unit {0})
close_args colons s =
    if ltb 0 colons
    then (brace_close s >> λ t. ok tt (if (top_loop t).counter == 1 then t else brace_open t))
    else (discard_args s >> λ t. if (top_loop t).counter == 1 then brace_close t else ok tt t)

-- The last iteration ends the loop; any other one returns to its start, which is the result.
unfoldable pub next_iteration : State → Run (Option ℕ)
unfolding drop_loop count_down
next_iteration s =
    if (top_loop s).counter == 1
    then ok none (drop_loop s)
    else ok (some (top_loop s).loop_pc)
        (if is_negative (top_loop s).counter then s else count_down s)

unfoldable pub close_body : State → Run (Option ℕ)
unfolding eval_colon close_args next_iteration
close_body s =
    let (colons, t) = eval_colon s in
    (if (top_loop t).pass_through then ok tt t else close_args colons t) >> λ u. next_iteration u

-- The brace level inside of the loop.
abbrev pub inner_level : LoopContext → ℕ
inner_level l = l.brace_level + (if l.pass_through then 0 else 1)

-- teco_state_start_loop_close(): the new macro_pc, if there is another iteration.
unfoldable pub loop_close : ℕ → State → Run (Option ℕ)
unfolding close_body
loop_close fp s =
    if leb (length s.vars.loop_stack) fp
    then err loop_end_without_start s
    else if s.vars.brace_level == inner_level (top_loop s)
    then close_body s
    else err brace_left_open s

-- ~rc
abbrev pub complement : ℕ → ℕ
complement n = subtract minus_one n

-- g_array_remove_index(), with no token yet
unfoldable pub remove_top_loop : State → State
remove_top_loop s = record s { vars = record v { loop_stack = drop 1 v.loop_stack } }
  where
    v : Vars
    v = s.vars

-- The token of the removal, pushed when nothing has failed, and the mode that skips the loop.
unfoldable pub leave_loop : LoopContext → State → State
unfolding set_mode
leave_loop l s =
    set_mode parse_only_loop (change (insert_loop (length s.vars.loop_stack) l) s.vars s)

unfoldable pub break_out : LoopContext → State → Run (Unit {0})
unfolding leave_loop remove_top_loop
break_out l s = discard_args (remove_top_loop s) >> λ t.
    (if l.pass_through then ok tt t else brace_return l.brace_level 0 t) >> λ u.
    ok tt (leave_loop l u)

-- The condition, with the colon modifier read.
unfoldable pub break_on : ℕ → State → Run (Unit {0})
unfolding eval_colon break_out
break_on rc s =
    let (colons, t) = eval_colon s in
    if is_negative (if ltb 0 colons then complement rc else rc)
    then ok tt t
    else break_out (top_loop t) t

-- teco_state_start_break(), where `v` is the integer of the register "_".
unfoldable pub break_loop : ℕ → ℕ → State → Run (Unit {0})
unfolding break_on
break_loop fp v s =
    if leb (length s.vars.loop_stack) fp
    then err only_allowed_in_loops s
    else pop_num_calc v s >>= λ rc t. break_on rc t
