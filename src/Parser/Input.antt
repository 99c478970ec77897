-- ===== src/Parser/Input.antt =====
-- src/parser.c and src/core-commands.c: the input of a main machine. Positions count characters.
use sciteco.Prelude.{
  ℕ, Bool, true, false, not, Option, none, some, ltb, leb, ◌==◌, ◌&&◌, ◌||◌, if◌then◌else◌, length,
}
use sciteco.Editor.{
  parse_only_loop, parse_only_cond, parse_only_cond_force, Flags, Vars, State, ParserState,
  state_start,
}
use sciteco.Expressions.Stacks.{
  Run, ok, err, ◌>>=◌, ◌>>◌, unexpected_modifier, unexpected_character, argument_expected,
  macro_return, push_int, pop_num, args,
}
use sciteco.Expressions.Eval.{eval, push_calc, brace_open, brace_close, discard_args}
use sciteco.Commands.{start_minus, start_brace_open, start_comma}
use sciteco.Commands.Loops.{
  set_flags, set_mode, eval_colon, loop_open, loop_close, top_loop, break_loop, complement,
}
use sciteco.Numbers.{ascii_toupper}
use sciteco.Parser.{
  Callback, calculates, minus_cb, brace_open_cb, brace_close_cb, comma_cb, loop_open_cb,
  loop_close_cb, break_cb, fcommand_loop_start_cb, fcommand_loop_end_cb, fcommand_cond_end_cb,
  fcommand_cond_else_cb, negate_cb, other_cb, Transition, Table, find, fcommand_transitions,
  control_transitions, normally, Context,
}

-- teco_machine_main_eval_at()
unfoldable pub eval_at : State → Bool × State
unfolding set_flags
eval_at s =
    if s.vars.flags.modifier_at
    then (true, set_flags (record f { modifier_at = false }) s)
    else (false, s)
  where
    f : Flags
    f = s.vars.flags

-- teco_state_control_negate()
unfoldable pub control_negate : State → Run (Unit {0})
control_negate s = eval false s >> λ t.
    if args t == 0
    then err argument_expected t
    else (let (n, u) = pop_num 0 t in ok tt (push_int (complement n) u))

-- teco_state_fcommand_loop_start(): the new macro_pc.
unfoldable pub fcommand_loop_start : Context → State → Run ℕ
fcommand_loop_start ctx s =
    if leb (length s.vars.loop_stack) ctx.loop_stack_fp
    then (discard_args s >> λ t. ok 0 t)
    else (let (colons, t) = eval_colon s in
        (if (top_loop s).pass_through
          then ok tt t
          else if ltb 0 colons
          then (brace_close t >> λ u. ok tt (brace_open u))
          else discard_args t)
        >> λ u. ok (top_loop s).loop_pc u)

-- Another iteration of a loop, or the position behind the command.
abbrev pub jump : ℕ → Option ℕ → ℕ
jump pc none = pc
jump pc (some start) = start

-- teco_state_fcommand_loop_end(): outside of a loop it returns from the macro.
unfoldable pub fcommand_loop_end : Context → ℕ → State → Run ℕ
fcommand_loop_end ctx pc s =
    if leb (length s.vars.loop_stack) ctx.loop_stack_fp
    then (eval false (record s { vars = record v { current = state_start } }) >> λ t.
        err (macro_return (args t)) t)
    else (loop_close ctx.loop_stack_fp s >>= λ start t. ok (jump pc start) (
        if ltb (length t.vars.loop_stack) (length s.vars.loop_stack)
        then set_mode parse_only_loop t
        else t))
  where
    v : Vars
    v = s.vars

-- transitions[chr].transition_cb(ctx, &tmp_error): the new macro_pc.
unfoldable pub run_callback : Context → Callback → ℕ → State → Run ℕ
unfolding control_negate fcommand_loop_start fcommand_loop_end
run_callback ctx (calculates op) pc s = push_calc op s >> λ t. ok pc t
run_callback ctx minus_cb pc s = start_minus s >> λ t. ok pc t
run_callback ctx brace_open_cb pc s = start_brace_open s >> λ t. ok pc t
run_callback ctx brace_close_cb pc s = brace_close s >> λ t. ok pc t
run_callback ctx comma_cb pc s = start_comma s >> λ t. ok pc t
run_callback ctx loop_open_cb pc s = loop_open pc s >> λ t. ok pc t
run_callback ctx loop_close_cb pc s =
    loop_close ctx.loop_stack_fp s >>= λ start t. ok (jump pc start) t
run_callback ctx break_cb pc s = break_loop ctx.loop_stack_fp ctx.search_result s >> λ t. ok pc t
run_callback ctx fcommand_loop_start_cb pc s = fcommand_loop_start ctx s
run_callback ctx fcommand_loop_end_cb pc s = fcommand_loop_end ctx pc s
run_callback ctx fcommand_cond_end_cb pc s = ok pc (set_mode parse_only_cond_force s)
run_callback ctx fcommand_cond_else_cb pc s = ok pc (set_mode parse_only_cond s)
run_callback ctx negate_cb pc s = control_negate s >> λ t. ok pc t
run_callback ctx (other_cb c) pc s = ctx.callback c s >> λ t. ok pc t

-- What a state's input leaves: the next state and macro_pc.
abbrev pub Next : Type 0
Next = ParserState × ℕ

unfoldable pub call_back : Context → ℕ → Option Callback → ParserState → State → Run Next
unfolding run_callback
call_back ctx pc none next s = ok (next, pc) s
call_back ctx pc (some cb) next s =
    if normally s then (run_callback ctx cb pc s >>= λ pc' t. ok (next, pc') t) else ok (next, pc) s

-- teco_machine_main_transition_input()
unfoldable pub transition_of : Context → ℕ → Option Transition → State → Run Next
unfolding call_back
transition_of ctx pc none s = err unexpected_character s
transition_of ctx pc (some t) s =
    if (s.vars.flags.modifier_at && not t.modifier_at)
      || (normally s && ltb t.modifier_colon s.vars.flags.modifier_colon)
    then err unexpected_modifier s
    else call_back ctx pc t.transition_cb t.next s

unfoldable pub transition_input : Context → Table → ℕ → ℕ → State → Run Next
unfolding transition_of
transition_input ctx transitions chr pc s = transition_of ctx pc (find chr transitions) s

-- The states whose input is a table.
unfoldable pub fcommand_input : Context → ℕ → ℕ → State → Run Next
unfolding transition_input
fcommand_input ctx chr pc s = transition_input ctx fcommand_transitions (ascii_toupper chr) pc s

unfoldable pub control_input : Context → ℕ → ℕ → State → Run Next
unfolding transition_input
control_input ctx chr pc s = transition_input ctx control_transitions (ascii_toupper chr) pc s

-- teco_state_ascii_input()
unfoldable pub ascii_input : ℕ → ℕ → State → Run Next
ascii_input chr pc s = ok (state_start, pc) (if normally s then push_int chr s else s)

-- teco_is_noop() of src/core-commands.h
abbrev pub is_noop : ℕ → Bool
is_noop c = (c == b' ') || (c == 12) || (c == b'\r') || (c == b'\n') || (c == 11)
