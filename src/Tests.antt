-- ===== src/Tests.antt =====
-- Runs on concrete inputs: tests of the definitions, and the theorems applied.
pub mod Expressions
pub mod Cmdline
pub mod Eol
pub mod Loops
pub mod Glob
pub mod Strings
pub mod Numbers
pub mod Writer
pub mod Parser
pub mod Symbols
pub mod Goto
pub mod Building
pub mod Search
pub mod Ring
use sciteco.Prelude.{[], true, false, List}
use sciteco.Undo.{Undo}
use sciteco.Undo.Reverts.{Session}
use sciteco.Commands.{Item, inputs}
use sciteco.Expressions.Stacks.{Run, ok, err, crash, no_fuel}
use sciteco.Editor.{plus, normal, Flags, Vars, State, state_start}

-- The variables at start-up, and a session in which the first key is about to be executed.
abbrev pub no_flags : Flags
no_flags = record { mode = normal; modifier_colon = 0; modifier_at = false }

abbrev pub fresh : Vars
fresh = record {
  numbers = [];
  operators = [];
  num_sign = plus;
  brace_level = 0;
  loop_stack = [];
  flags = no_flags;
  nest_level = 0;
  current = state_start;
}

abbrev pub start : State
start = record { vars = fresh; undo = record { enabled = true; heads = [] }; pc = 0 }

abbrev pub state_of : Run (Unit {0}) → State
state_of (ok _ s) = s
state_of (err e s) = s
state_of crash = start
state_of no_fuel = start

-- The state after some commands have been executed as one key.
abbrev pub after : List Item → State
unfolding inputs
after is = state_of (inputs is start)
