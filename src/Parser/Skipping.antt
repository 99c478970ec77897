-- ===== src/Parser/Skipping.antt =====
-- src/core-commands.c: single commands that are only parsed, in the body of a loop or in a part of a
-- conditional that is skipped.
use sciteco.Prelude.{
  ℕ, ◌+◌, ◌≡◌, refl, sym, ap, subst, Bool, true, false, Option, none, some, ◌&&◌, ◌||◌,
}
use sciteco.Editor.{
  Mode, parse_only_loop, parse_only_cond, parse_only_cond_force, Vars, State, ParserState,
  state_start,
}
use sciteco.Expressions.Stacks.{Run, ok}
use sciteco.Numbers.{ascii_toupper}
use sciteco.Parser.{
  Callback, is_normal, normally, Context, Transition, find, start_transitions, control_transitions,
}
use sciteco.Undo.Reverts.{change}
use sciteco.Commands.Loops.{set_flags, set_mode}
use sciteco.Parser.Input.{control_input, transition_input, call_back, Next, transition_of}
use sciteco.Parser.Start.{
  StartCase, noop, digit, loop_start, loop_end, else_part, cond_end, words, colon, control_char,
  table_char, start_case, case_input, table_input, unmodified, digit_input, words_input,
  colon_input, enter, input_cb, start_input, machine_input,
}

-- The variables with the flags of a machine in this mode and nested this deep.
abbrev pub parsing : Mode → ℕ → ℕ → Vars → Vars
parsing m colons nest v = record v {
  flags = record { mode = m; modifier_colon = colons; modifier_at = false };
  nest_level = nest;
  current = state_start;
}

abbrev pub is_start : ParserState → Bool
is_start state_start = true
is_start _ = false

-- A command without an argument of its own.
abbrev pub starts : Option Transition → Bool
starts none = false
starts (some t) = is_start t.next

is_start-equal : (c : ParserState) → is_start c ≡ true → c ≡ state_start
is_start-equal state_start h = refl
is_start-equal _ h = absurd cc

-- The modes that skip a loop, and the parts of a conditional.
pub data Skipped : Type 0 where
  a_loop a_part all_parts : Skipped

abbrev pub skipping : Skipped → Mode
skipping a_loop = parse_only_loop
skipping a_part = parse_only_cond
skipping all_parts = parse_only_cond_force

-- The cases that leave a machine in this mode as it is, whatever the nesting.
abbrev pub simple : Skipped → StartCase → ℕ → Bool
simple m noop c = true
simple m digit c = true
simple m words c = true
simple m colon c = true
simple m control_char c = starts (find (ascii_toupper (c + 64)) control_transitions)
simple m table_char c = starts (find (ascii_toupper c) start_transitions)
simple a_loop else_part c = true
simple a_loop cond_end c = true
simple a_part loop_start c = starts (find (ascii_toupper c) start_transitions)
simple a_part loop_end c = starts (find (ascii_toupper c) start_transitions)
simple all_parts loop_start c = starts (find (ascii_toupper c) start_transitions)
simple all_parts loop_end c = starts (find (ascii_toupper c) start_transitions)
simple all_parts else_part c = true
simple _ _ c = false

-- The input of a state returns to the start state with these variables.
unfoldable pub Returns : ℕ → Vars → Run Next → Type 0
Returns pc v r = (s : State) × (r ≡ ok (state_start, pc) s) × (s.vars ≡ v)

pub parses : (m : Skipped) → is_normal (skipping m) ≡ false
parses a_loop = refl
parses a_part = refl
parses all_parts = refl

call_back-parsed :
    (ctx : Context) (pc : ℕ) (cb : Option Callback) (next : ParserState) (s : State)
    → next ≡ state_start
    → normally s ≡ false
    → call_back ctx pc cb next s ≡ ok (state_start, pc) s
unfolding call_back
call_back-parsed ctx pc none next s h n = rw h refl
call_back-parsed ctx pc (some cb) next s h n = rw (n, h) refl

neither : (a b x y : Bool) → a ≡ false → b ≡ false → (a && x || b && y) ≡ false
neither a b x y h k = rw (h, k) refl

-- Outside of the normal mode, a command of a table that returns to the start state does nothing.
pub transition_of-parsed :
    (ctx : Context) (pc : ℕ) (o : Option Transition) (s : State)
    → starts o ≡ true
    → normally s ≡ false
    → s.vars.flags.modifier_at ≡ false
    → transition_of ctx pc o s ≡ ok (state_start, pc) s
unfolding transition_of
transition_of-parsed ctx pc none s h n a = absurd cc
transition_of-parsed ctx pc (some t) s h n a =
    rw (neither s.vars.flags.modifier_at (normally s) _ _ a n, transition_of)
      (call_back-parsed ctx pc t.transition_cb t.next s (is_start-equal t.next h) n)

module _ (ctx : Context) (colons nest : ℕ) (v : Vars) (s : State) where
  unfoldable pub at_start : Skipped → State
  at_start m = record s { vars = parsing (skipping m) colons nest v }

  table-Returns :
      (m : Skipped) (pc : ℕ) (o : Option Transition)
      → starts o ≡ true
      → Returns pc (parsing (skipping m) colons nest v) (transition_of ctx pc o (at_start m))
  unfolding Returns at_start
  table-Returns m pc o h =
      (at_start m, transition_of-parsed ctx pc o (at_start m) h (parses m) refl, refl)

  case_input-Returns :
      (m : Skipped) (k : StartCase) (c pc : ℕ)
      → simple m k c ≡ true
      → Returns pc (parsing (skipping m) colons nest v) (case_input k ctx c pc (at_start m))
  unfolding case_input Returns at_start set_mode set_flags change control_input table_input
      transition_input
  case_input-Returns m noop c pc h = (at_start m, rw (parses m, unmodified) refl, refl)
  case_input-Returns m digit c pc h =
      (at_start m, rw (parses m, unmodified, digit_input) refl, refl)
  case_input-Returns m words c pc h = (at_start m, rw (parses m, words_input) refl, refl)
  case_input-Returns m colon c pc h = (at_start m, rw (parses m, colon_input) refl, refl)
  case_input-Returns a_loop else_part c pc h = (_, refl, refl)
  case_input-Returns a_loop cond_end c pc h = (_, refl, refl)
  case_input-Returns all_parts else_part c pc h = (_, refl, refl)
  case_input-Returns a_part loop_start c pc h = table-Returns a_part pc _ h
  case_input-Returns a_part loop_end c pc h = table-Returns a_part pc _ h
  case_input-Returns all_parts loop_start c pc h = table-Returns all_parts pc _ h
  case_input-Returns all_parts loop_end c pc h = table-Returns all_parts pc _ h
  case_input-Returns m control_char c pc h = table-Returns m pc _ h
  case_input-Returns m table_char c pc h = table-Returns m pc _ h
  case_input-Returns _ _ c pc h = absurd cc

pub enter-same : (s : State) → s.vars.current ≡ state_start → enter state_start s ≡ s
unfolding enter
enter-same s h = rw (h, enter) refl

-- A character that is read in the start state, and after which the machine is in it again.
pub simple-machine_input :
    (ctx : Context) (m : Skipped) (colons nest c pc : ℕ) (v : Vars) (s : State)
    → s.vars ≡ parsing (skipping m) colons nest v
    → simple m (start_case ctx.lone_star c) c ≡ true
    → (s' : State) × (s'.vars ≡ parsing (skipping m) colons nest v)
      × (machine_input ctx c pc s ≡ ok pc s')
unfolding machine_input Returns at_start enter input_cb start_input
simple-machine_input ctx m colons nest c pc v s e h =
    let (s', i, q) = case_input-Returns ctx colons nest v s m (start_case ctx.lone_star c) c pc h in
    (
      s',
      q,
      subst (λ (w : Vars). machine_input ctx c pc (record s { vars = w }) ≡ ok pc s') (sym e)
          (rw (i, machine_input) (ap (ok pc) (enter-same s' (ap (λ (w : Vars). w.current) q)))),
    )
