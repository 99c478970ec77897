-- ===== src/Parser.antt =====
-- src/parser.c and src/core-commands.c: the main machine, its flags and its tables of transitions.
-- The commands on the text, on registers and on the command line are parameters, and so are the
-- states of commands with an argument of their own.
pub mod Input
pub mod Conditions
pub mod Start
pub mod Stepping
pub mod Skipping
pub mod Pieces
pub mod Levels
pub mod Bodies
pub mod Ends
use sciteco.Prelude.{
  ℕ, ◌+◌, ◌-◌, Bool, true, false, not, Option, none, some, List, [], ◌∷◌, ltb, leb, ◌==◌, ◌&&◌,
  ◌||◌, if◌then◌else◌,
}
use sciteco.Undo.Reverts.{change}
use sciteco.Editor.{
  Operator, pow, modulo, div, mul, add, and, xor, or, Mode, normal, Vars, State, restore_nest_level,
  ParserState, state_start, state_fcommand, state_condcommand, state_control, state_ascii,
  state_escape, state_label, state_goto, state_ecommand, state_insert_plain, state_help,
  state_search, state_search_all, state_pushqreg, state_popqreg, state_getqregstring,
  state_queryqreg, state_setqreginteger, state_increaseqreg, state_macro, state_copytoqreg,
  state_print_decimal, state_save_cmdline, state_search_kill, state_search_delete, state_replace,
  state_replace_default, state_replace_default_all, state_changedir, state_insert_indent,
  state_ctlucommand, state_ctlc, state_print_string,
}
use sciteco.Expressions.Stacks.{Run}

-- The callbacks of the tables whose code is modelled, and the others by their character.
pub data Callback : Type 0 where
  calculates : Operator → Callback
  minus_cb brace_open_cb brace_close_cb comma_cb : Callback
  loop_open_cb loop_close_cb break_cb : Callback
  fcommand_loop_start_cb fcommand_loop_end_cb fcommand_cond_end_cb fcommand_cond_else_cb : Callback
  negate_cb : Callback
  other_cb : ℕ → Callback

-- teco_machine_main_transition_t of src/parser.h
pub record Transition : Type 0 where
  pub next : ParserState
  pub transition_cb : Option Callback
  pub modifier_at : Bool
  pub modifier_colon : ℕ

-- The entries of a table, by character.
abbrev pub Table : Type 0
Table = List (ℕ × Transition)

abbrev pub entry : ℕ → ParserState → Option Callback → Bool → ℕ → ℕ × Transition
entry c next cb at colon =
    (c, record { next = next; transition_cb = cb; modifier_at = at; modifier_colon = colon })

abbrev leads_to : ℕ → ParserState → Bool → ℕ → ℕ × Transition
leads_to c next at colon = entry c next none at colon

abbrev runs : ℕ → Callback → ℕ → ℕ × Transition
runs c cb colon = entry c state_start (some cb) false colon

-- The table of teco_state_start_input()
abbrev pub start_transitions : Table
start_transitions =
    leads_to b'$' state_escape false 0
    ∷ leads_to b'!' state_label false 0
    ∷ leads_to b'O' state_goto true 1
    ∷ leads_to b'^' state_control true 2
    ∷ leads_to b'F' state_fcommand true 2
    ∷ leads_to b'"' state_condcommand false 0
    ∷ leads_to b'E' state_ecommand true 2
    ∷ leads_to b'I' state_insert_plain true 0
    ∷ leads_to b'?' state_help true 0
    ∷ leads_to b'S' state_search true 2
    ∷ leads_to b'N' state_search_all true 1
    ∷ leads_to b'[' state_pushqreg false 0
    ∷ leads_to b']' state_popqreg false 1
    ∷ leads_to b'G' state_getqregstring false 1
    ∷ leads_to b'Q' state_queryqreg false 1
    ∷ leads_to b'U' state_setqreginteger true 1
    ∷ leads_to b'%' state_increaseqreg false 0
    ∷ leads_to b'M' state_macro false 1
    ∷ leads_to b'X' state_copytoqreg true 1
    ∷ leads_to b'=' state_print_decimal false 1
    ∷ runs b'*' (calculates mul) 0
    ∷ runs b'/' (calculates div) 0
    ∷ runs b'+' (calculates add) 0
    ∷ runs b'-' minus_cb 0
    ∷ runs b'&' (calculates and) 0
    ∷ runs b'#' (calculates or) 0
    ∷ runs b'(' brace_open_cb 0
    ∷ runs b')' brace_close_cb 0
    ∷ runs b',' comma_cb 0
    ∷ runs b'.' (other_cb b'.') 0
    ∷ runs b'Z' (other_cb b'Z') 0
    ∷ runs b'H' (other_cb b'H') 0
    ∷ runs b'\\' (other_cb b'\\') 0
    ∷ runs b'<' loop_open_cb 1
    ∷ runs b'>' loop_close_cb 1
    ∷ runs b';' break_cb 1
    ∷ runs b'{' (other_cb b'{') 0
    ∷ runs b'}' (other_cb b'}') 0
    ∷ runs b'J' (other_cb b'J') 1
    ∷ runs b'C' (other_cb b'C') 1
    ∷ runs b'R' (other_cb b'R') 1
    ∷ runs b'L' (other_cb b'L') 1
    ∷ runs b'B' (other_cb b'B') 1
    ∷ runs b'K' (other_cb b'K') 1
    ∷ runs b'D' (other_cb b'D') 1
    ∷ runs b'A' (other_cb b'A') 0
    ∷ runs b'T' (other_cb b'T') 0
    ∷ []

-- The table of teco_state_fcommand_input()
abbrev pub fcommand_transitions : Table
fcommand_transitions =
    leads_to b'K' state_search_kill true 1
    ∷ leads_to b'D' state_search_delete true 2
    ∷ leads_to b'S' state_replace true 2
    ∷ leads_to b'R' state_replace_default true 2
    ∷ leads_to b'N' state_replace_default_all true 1
    ∷ leads_to b'G' state_changedir true 0
    ∷ runs b'<' fcommand_loop_start_cb 1
    ∷ runs b'>' fcommand_loop_end_cb 1
    ∷ runs b'\'' fcommand_cond_end_cb 0
    ∷ runs b'|' fcommand_cond_else_cb 0
    ∷ []

-- The table of teco_state_control_input(); the characters of the other callbacks are those of
-- control commands.
abbrev pub control_transitions : Table
control_transitions =
    leads_to b'I' state_insert_indent true 0
    ∷ leads_to b'U' state_ctlucommand true 1
    ∷ leads_to b'^' state_ascii false 0
    ∷ leads_to b'[' state_escape false 0
    ∷ leads_to b'C' state_ctlc false 0
    ∷ leads_to b'A' state_print_string true 1
    ∷ runs b'_' negate_cb 0
    ∷ runs b'*' (calculates pow) 0
    ∷ runs b'/' (calculates modulo) 0
    ∷ runs b'#' (calculates xor) 0
    ∷ runs b'B' (other_cb 2) 0
    ∷ runs b'H' (other_cb 8) 2
    ∷ runs b'O' (other_cb 15) 0
    ∷ runs b'D' (other_cb 4) 0
    ∷ runs b'R' (other_cb 18) 0
    ∷ runs b'Q' (other_cb 17) 1
    ∷ runs b'E' (other_cb 5) 1
    ∷ runs b'X' (other_cb 24) 0
    ∷ runs b'Y' (other_cb 25) 0
    ∷ runs b'S' (other_cb 19) 0
    ∷ runs b'T' (other_cb 20) 1
    ∷ runs b'W' (other_cb 23) 0
    ∷ []

abbrev pub find : ℕ → Table → Option Transition
find c [] = none
find c ((d, t) ∷ ts) = if c == d then some t else find c ts

abbrev pub is_normal : Mode → Bool
is_normal normal = true
is_normal _ = false

abbrev pub normally : State → Bool
normally s = is_normal s.vars.flags.mode

-- ctx->flags.modifier_at || (ctx->flags.mode == TECO_MODE_NORMAL && ctx->flags.modifier_colon)
abbrev pub modified : State → Bool
modified s = s.vars.flags.modifier_at || (normally s && ltb 0 s.vars.flags.modifier_colon)

-- teco_undo_gint(ctx->nest_level) with the assignment that follows it
unfoldable pub set_nest_level : ℕ → State → State
set_nest_level n s = change (restore_nest_level s.vars.nest_level) (record v { nest_level = n }) s
  where
    v : Vars
    v = s.vars

-- What the commands that are not modelled do, and what is known about the macro that is executed.
pub record Context : Type 0 where
  -- loop_stack_fp, and whether the command line is a lone asterisk
  pub loop_stack_fp : ℕ
  pub lone_star : Bool
  -- the integers of the registers ^R and _
  pub radix : ℕ
  pub search_result : ℕ
  -- the classes of characters in GLib, and the directory separators
  pub is_alpha : ℕ → Bool
  pub is_alnum : ℕ → Bool
  pub is_digit : ℕ → Bool
  pub is_lower : ℕ → Bool
  pub is_upper : ℕ → Bool
  pub is_dir_separator : ℕ → Bool
  -- the other callbacks, the commands W, P, V and Y in normal mode, and the other states
  pub callback : ℕ → State → Run (Unit {0})
  pub words : ℕ → Bool → State → Run (Unit {0})
  pub state_input : ParserState → ℕ → ℕ → State → Run (ParserState × ℕ)

-- The address of a state, as far as it matters: different states have different ones.
abbrev pub state_code : ParserState → ℕ
state_code state_start = 0
state_code state_fcommand = 1
state_code state_condcommand = 2
state_code state_control = 3
state_code state_ascii = 4
state_code state_escape = 5
state_code state_label = 6
state_code state_goto = 7
state_code state_ecommand = 8
state_code state_insert_plain = 9
state_code state_help = 10
state_code state_search = 11
state_code state_search_all = 12
state_code state_pushqreg = 13
state_code state_popqreg = 14
state_code state_getqregstring = 15
state_code state_queryqreg = 16
state_code state_setqreginteger = 17
state_code state_increaseqreg = 18
state_code state_macro = 19
state_code state_copytoqreg = 20
state_code state_print_decimal = 21
state_code state_save_cmdline = 22
state_code state_search_kill = 23
state_code state_search_delete = 24
state_code state_replace = 25
state_code state_replace_default = 26
state_code state_replace_default_all = 27
state_code state_changedir = 28
state_code state_insert_indent = 29
state_code state_ctlucommand = 30
state_code state_ctlc = 31
state_code state_print_string = 32
