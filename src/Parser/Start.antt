-- ===== src/Parser/Start.antt =====
-- src/core-commands.c and src/parser.c: the start state and the main loop.
use sciteco.Prelude.{
  ℕ, zero, suc, ◌+◌, ◌-◌, Bool, true, false, not, List, ltb, leb, ◌==◌, ◌&&◌, ◌||◌, if◌then◌else◌,
  get_or,
}
use sciteco.Undo.Reverts.{change}
use sciteco.Editor.{
  Mode, normal, parse_only_loop, parse_only_cond, parse_only_cond_force, Flags, Vars, State,
  restore_current, ParserState, state_start, state_fcommand, state_condcommand, state_control,
  state_ascii, state_save_cmdline,
}
use sciteco.Expressions.Stacks.{Run, ok, err, no_fuel, ◌>>=◌, ◌>>◌, unexpected_modifier}
use sciteco.Expressions.Eval.{add_digit}
use sciteco.Commands.Loops.{set_flags, set_mode}
use sciteco.Numbers.{ascii_toupper}
use sciteco.Parser.{start_transitions, normally, modified, set_nest_level, state_code, Context}
use sciteco.Parser.Conditions.{condcommand_input}
use sciteco.Parser.Input.{
  eval_at, Next, transition_input, fcommand_input, control_input, ascii_input, is_noop,
}

-- The cases '<' and '>' in PARSE_ONLY_LOOP mode, '|' and '\'' of teco_state_start_input()
unfoldable pub loop_ends : State → State
loop_ends s =
    if s.vars.nest_level == 0 then set_mode normal s else set_nest_level (s.vars.nest_level - 1) s

unfoldable pub else_mode : Mode → ℕ → Mode
else_mode parse_only_cond zero = normal
else_mode normal n = parse_only_cond
else_mode m n = m

unfoldable pub cond_ends : Mode → State → State
unfolding loop_ends
cond_ends parse_only_cond s = loop_ends s
cond_ends parse_only_cond_force s = loop_ends s
cond_ends _ s = s

abbrev pub is_parse_only_loop : Mode → Bool
is_parse_only_loop parse_only_loop = true
is_parse_only_loop _ = false

-- The case '@'
unfoldable pub at_input : ℕ → State → Run Next
at_input pc s =
    if s.vars.flags.modifier_at
    then err unexpected_modifier s
    else ok (state_start, pc) (set_flags (record f { modifier_at = true }) s)
  where
    f : Flags
    f = s.vars.flags

-- The case ':'
unfoldable pub colon_input : ℕ → State → Run Next
colon_input pc s =
    if not (normally s)
    then ok (state_start, pc) s
    else if leb 2 s.vars.flags.modifier_colon
    then err unexpected_modifier s
    else ok (state_start, pc) (set_flags (record f { modifier_colon = suc f.modifier_colon }) s)
  where
    f : Flags
    f = s.vars.flags

-- teco_state_start_words() and teco_state_start_delete_words() of src/move-commands.c
unfoldable pub words_input : Context → ℕ → ℕ → State → Run Next
unfolding eval_at
words_input ctx chr pc s =
    let (at, t) = eval_at s in
    if normally t
    then (ctx.words chr at t >> λ u. ok (state_start, pc) u)
    else ok (state_start, pc) t

abbrev pub is_words : ℕ → Bool
is_words c =
    let upper = ascii_toupper c in
    (upper == b'W') || (upper == b'P') || (upper == b'V') || (upper == b'Y')

unfoldable pub digit_input : Context → ℕ → ℕ → State → Run Next
digit_input ctx chr pc s =
    if normally s then ok (state_start, pc) (add_digit chr ctx.radix s) else ok (state_start, pc) s

-- The table of the start state, in which teco_state_start_input() ends.
unfoldable pub table_input : Context → ℕ → ℕ → State → Run Next
unfolding transition_input
table_input ctx chr pc s = transition_input ctx start_transitions (ascii_toupper chr) pc s

-- The cases '<' and '>'
unfoldable pub loop_input : Context → ℕ → ℕ → State → State → Run Next
unfolding table_input
loop_input ctx chr pc s skipped =
    if s.vars.flags.modifier_at
    then err unexpected_modifier s
    else if is_parse_only_loop s.vars.flags.mode
    then ok (state_start, pc) skipped
    else table_input ctx chr pc s

-- A case that rejects modifiers before it does anything.
unfoldable pub unmodified : State → Run Next → Run Next
unmodified s next = if modified s then err unexpected_modifier s else next

-- The cases of teco_state_start_input(): its first tests, and those of its switch.
pub data StartCase : Type 0 where
  noop digit lone_star loop_start loop_end else_part cond_end words at_sign colon : StartCase
  control_char table_char : StartCase

unfoldable pub start_case : Bool → ℕ → StartCase
start_case star chr =
    if is_noop chr
    then noop
    else if leb b'0' chr && leb chr b'9'
    then digit
    else if (chr == b'*') && star
    then lone_star
    else if chr == b'<'
    then loop_start
    else if chr == b'>'
    then loop_end
    else if chr == b'|'
    then else_part
    else if chr == b'\''
    then cond_end
    else if is_words chr
    then words
    else if chr == b'@'
    then at_sign
    else if chr == b':'
    then colon
    else if ltb chr 32
    then control_char
    else table_char

unfoldable pub case_input : StartCase → Context → ℕ → ℕ → State → Run Next
unfolding unmodified digit_input loop_input else_mode cond_ends words_input at_input colon_input
case_input noop ctx chr pc s = unmodified s (ok (state_start, pc) s)
case_input digit ctx chr pc s = unmodified s (digit_input ctx chr pc s)
case_input lone_star ctx chr pc s = ok (state_save_cmdline, pc) s
case_input loop_start ctx chr pc s =
    loop_input ctx chr pc s (set_nest_level (suc s.vars.nest_level) s)
case_input loop_end ctx chr pc s = loop_input ctx chr pc s (loop_ends s)
case_input else_part ctx chr pc s =
    unmodified s (ok (state_start, pc) (set_mode (else_mode s.vars.flags.mode s.vars.nest_level) s))
case_input cond_end ctx chr pc s =
    unmodified s (ok (state_start, pc) (cond_ends s.vars.flags.mode s))
case_input words ctx chr pc s = words_input ctx chr pc s
case_input at_sign ctx chr pc s = at_input pc s
case_input colon ctx chr pc s = colon_input pc s
case_input control_char ctx chr pc s = control_input ctx (chr + 64) pc s
case_input table_char ctx chr pc s = table_input ctx chr pc s

-- teco_state_start_input()
unfoldable pub start_input : Context → ℕ → ℕ → State → Run Next
unfolding start_case case_input
start_input ctx chr pc s = case_input (start_case ctx.lone_star chr) ctx chr pc s

-- ctx->current->input_cb
unfoldable pub input_cb : Context → ParserState → ℕ → ℕ → State → Run Next
unfolding start_input condcommand_input fcommand_input control_input ascii_input
input_cb ctx state_start chr pc s = start_input ctx chr pc s
input_cb ctx state_fcommand chr pc s = fcommand_input ctx chr pc s
input_cb ctx state_condcommand chr pc s = condcommand_input ctx chr pc s
input_cb ctx state_control chr pc s = control_input ctx chr pc s
input_cb ctx state_ascii chr pc s = ascii_input chr pc s
input_cb ctx other chr pc s = ctx.state_input other chr pc s

-- teco_machine_input(): the next state is entered under its token. The initial callbacks of the
-- states that are modelled are empty.
unfoldable pub enter : ParserState → State → State
enter next s =
    if state_code next == state_code s.vars.current
    then s
    else change (restore_current s.vars.current) (record v { current = next }) s
  where
    v : Vars
    v = s.vars

unfoldable pub machine_input : Context → ℕ → ℕ → State → Run ℕ
unfolding input_cb enter
machine_input ctx chr pc s =
    input_cb ctx s.vars.current chr pc s >>= λ next t. ok next.1 (enter next.0 t)

-- The loop of teco_machine_main_step(), without interruption and within the memory limit; the fuel
-- counts the characters that are executed.
unfoldable pub main_step : ℕ → Context → List ℕ → ℕ → ℕ → State → Run ℕ
unfolding machine_input
main_step zero ctx macro stop_pos pc s = no_fuel
main_step (suc fuel) ctx macro stop_pos pc s =
    if ltb pc stop_pos
    then (machine_input ctx (get_or macro pc 0) (suc pc) s >>= λ pc' t.
        main_step fuel ctx macro stop_pos pc' t)
    else ok pc s
