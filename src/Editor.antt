-- ===== src/Editor.antt =====
-- The global variables that the modelled code shares and that undo tokens restore, as one record:
-- the stacks of src/expressions.c, the loop stack of src/parser.c and the flags,
-- the nesting level and the state of a main machine. The head of a list is the last element of the GArray that it stands for.
use sciteco.Prelude.{ℕ, zero, suc, ◌-◌, Bool, List, [], ◌∷◌, length, insert_at, erase_idx}
use sciteco.Undo.Reverts.{Session, Reverts as RevertsBy}

-- teco_operator_t of src/expressions.h
pub data Operator : Type 0 where
  nil new brace number : Operator
  pow modulo div mul sub add and xor or : Operator

-- teco_num_sign, which is 1 or -1
pub data Sign : Type 0 where
  plus minus : Sign

-- teco_loop_context_t of src/parser.h
pub record LoopContext : Type 0 where
  pub counter : ℕ
  pub brace_level : ℕ
  pub loop_pc : ℕ
  pub pass_through : Bool

-- teco_mode_t of src/parser.h
pub data Mode : Type 0 where
  normal parse_only_goto parse_only_loop parse_only_cond parse_only_cond_force lexing : Mode

-- teco_machine_main_flags_t of src/parser.h
pub record Flags : Type 0 where
  pub mode : Mode
  pub modifier_colon : ℕ
  pub modifier_at : Bool

-- The states of a main machine: those whose input is modelled, and those of the commands with an
-- argument of their own, which stand in the tables of transitions.
pub data ParserState : Type 0 where
  state_start state_fcommand state_condcommand state_control state_ascii : ParserState
  state_escape state_label state_goto state_ecommand state_insert_plain state_help : ParserState
  state_search state_search_all state_pushqreg state_popqreg state_getqregstring : ParserState
  state_queryqreg state_setqreginteger state_increaseqreg state_macro state_copytoqreg : ParserState
  state_print_decimal state_save_cmdline state_search_kill state_search_delete : ParserState
  state_replace state_replace_default state_replace_default_all state_changedir : ParserState
  state_insert_indent state_ctlucommand state_ctlc state_print_string : ParserState

pub record Vars : Type 0 where
  pub numbers : List ℕ
  pub operators : List Operator
  pub num_sign : Sign
  pub brace_level : ℕ
  pub loop_stack : List LoopContext
  pub flags : Flags
  pub nest_level : ℕ
  pub current : ParserState

-- The undo tokens that these variables have, with the arguments that they capture.
pub data Token : Type 0 where
  remove_number : ℕ → Token
  insert_number : ℕ → ℕ → Token
  remove_operator : ℕ → Token
  insert_operator : ℕ → Operator → Token
  restore_num_sign : Sign → Token
  restore_brace_level : ℕ → Token
  remove_loop : ℕ → Token
  insert_loop : ℕ → LoopContext → Token
  restore_counter : ℕ → ℕ → Token
  restore_flags : Flags → Token
  restore_nest_level : ℕ → Token
  restore_current : ParserState → Token

module _ {A : Type 0} where
  -- g_array_remove_index() and g_array_insert_val() at an index counted from the array's start
  abbrev pub remove_index : ℕ → List A → List A
  remove_index i xs = erase_idx (length xs - 1 - i) xs

  abbrev pub insert_val : ℕ → A → List A → List A
  insert_val i x xs = insert_at (length xs - i) x xs

abbrev pub with_counter : ℕ → LoopContext → LoopContext
with_counter n l = record l { counter = n }

-- The element of the loop stack at an index gets back its counter. The token in the source holds
-- the address of the counter in the array instead of the index.
abbrev pub set_counter : ℕ → ℕ → List LoopContext → List LoopContext
set_counter i n [] = []
set_counter zero n (l ∷ ls) = with_counter n l ∷ ls
set_counter (suc i) n (l ∷ ls) = l ∷ set_counter i n ls

-- What a token does when it is run.
unfoldable pub act : Token → Vars → Vars
act (remove_number i) v = record v { numbers = remove_index i v.numbers }
act (insert_number i n) v = record v { numbers = insert_val i n v.numbers }
act (remove_operator i) v = record v { operators = remove_index i v.operators }
act (insert_operator i o) v = record v { operators = insert_val i o v.operators }
act (restore_num_sign g) v = record v { num_sign = g }
act (restore_brace_level n) v = record v { brace_level = n }
act (remove_loop i) v = record v { loop_stack = remove_index i v.loop_stack }
act (insert_loop i l) v = record v { loop_stack = insert_val i l v.loop_stack }
act (restore_counter i n) v = record v {
  loop_stack = set_counter (length v.loop_stack - 1 - i) n v.loop_stack;
}
act (restore_flags f) v = record v { flags = f }
act (restore_nest_level n) v = record v { nest_level = n }
act (restore_current c) v = record v { current = c }

abbrev pub State : Type 0
State = Session Vars Token

-- What a piece of code may assume of the brace level: nothing is put in its place, or any number is.
pub data Scope : Type 0 where
  whole any_level : Scope

abbrev pub mask : Scope → ℕ → Vars → Vars
mask whole n v = v
mask any_level n v = record v { brace_level = n }

module _ (κ : Scope) where
  abbrev pub Reverts : State → State → Type 0
  Reverts = RevertsBy act (mask κ)
