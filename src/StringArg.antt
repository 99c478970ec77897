-- ===== src/StringArg.antt =====
-- src/parser.c: the string argument of a command, teco_state_expectstring_input(). The callbacks of
-- the command are parameters; undo tokens are left aside.
pub mod Scanning
pub mod Completing
pub mod Skipping
use sciteco.Prelude.{
  ℕ, zero, suc, ◌+◌, ◌-◌, Bool, true, false, Option, none, some, List, [], ◌∷◌, ◌++◌, length, ltb,
  ◌==◌, ◌&&◌, if◌then◌else◌,
}
use sciteco.Parser.Input.{is_noop}
use sciteco.Building.{Glib, SpecMachine, Building, is_start_state}
use sciteco.Building.Input.{building_input, building_reset}

-- teco_machine_expectstring_t, and the flag modifier_at
pub record StringArg (Q : Type 0) : Type 0 where
  pub string : List ℕ
  pub insert_len : ℕ
  pub nesting : ℕ
  pub machine : Building Q
  pub modifier_at : Bool

-- What a state says of its string argument. The callbacks work on the rest of the editor; none is an
-- error, and process_cb may be missing.
pub record Command (C : Type 0) : Type 0 where
  pub string_building : Bool
  pub last : Bool
  pub process_cb : Option (List ℕ → ℕ → C → Option C)
  pub done_cb : List ℕ → C → Option C

-- What a character does to the argument: an error, another character, or the end.
pub data ArgStep (Q : Type 0) : Type 0 where
  arg_error : ArgStep Q
  arg_more : StringArg Q → ArgStep Q
  arg_end : StringArg Q → ArgStep Q

-- The nesting behind a character.
unfoldable pub count_nesting : Glib → {Q : Type 0} → ℕ → StringArg Q → ℕ
count_nesting g chr a =
    if is_start_state a.machine.current
    then if a.machine.escape_char == b'{'
      then if chr == b'{' then a.nesting + 1 else if chr == b'}' then a.nesting - 1 else a.nesting
      else if g.unichar_toupper chr == a.machine.escape_char
      then a.nesting - 1
      else a.nesting
    else a.nesting

module _ (g : Glib) (q : SpecMachine) where
  -- The string in normal mode, and none for NULL.
  abbrev pub target : Bool → List ℕ → Option (List ℕ)
  target normally s = if normally then some s else none

  -- The result of string building becomes the string.
  unfoldable pub built :
      StringArg q.Spec → Option (Building q.Spec × Option (List ℕ)) → ArgStep q.Spec
  built a none = arg_error
  built a (some (m, none)) = arg_more (record a { machine = m })
  built a (some (m, some s)) =
      arg_more (record a {
        machine = m;
        string = s;
        insert_len = a.insert_len + length s - length a.string;
      })

  -- The accumulation of the argument.
  unfoldable pub collect : Bool → Bool → ℕ → StringArg q.Spec → ArgStep q.Spec
  unfolding built
  collect building normally chr a =
      if building
      then built a (building_input g q chr a.machine (target normally a.string))
      else if normally
      then arg_more (record a {
        string = a.string ++ g.unichar_to_utf8 chr;
        insert_len = a.insert_len + length (g.unichar_to_utf8 chr);
      })
      else arg_more a

  -- teco_state_expectstring_input(), up to the end of the argument
  unfoldable pub arg_step : Bool → Bool → ℕ → StringArg q.Spec → ArgStep q.Spec
  unfolding count_nesting collect
  arg_step building normally chr a =
      if a.modifier_at && is_noop chr
      then arg_more a
      else if a.modifier_at
      then arg_more (record a {
        modifier_at = false;
        machine = record (a.machine) { escape_char = g.unichar_toupper chr };
      })
      else if count_nesting g chr a == 0
      then arg_end a
      else collect building normally chr (record a { nesting = count_nesting g chr a })

  -- What teco_state_expectstring_input() leaves of the argument at its end.
  unfoldable pub clear_arg : {C : Type 0} → Command C → StringArg q.Spec → StringArg q.Spec
  unfolding building_reset
  clear_arg cmd a = record a {
    string = [];
    insert_len = 0;
    nesting = 1;
    modifier_at =
        if cmd.last
        then a.modifier_at
        else if a.machine.escape_char == b'{'
        then true
        else a.modifier_at;
    machine = if cmd.string_building then building_reset g q (closed cmd a) else closed cmd a;
  }
    where
      closed : {C : Type 0} → Command C → StringArg q.Spec → Building q.Spec
      closed cmd a = if cmd.last then record (a.machine) { escape_char = 27 } else a.machine

module _ {Q : Type 0} {C : Type 0} (cmd : Command C) where
  -- process_cb() is called for what is new in the string.
  unfoldable pub process : StringArg Q → C → Option C
  process a c = elim (cmd.process_cb) [
    | none ↦ some c
    | some process_cb ↦ if ltb 0 a.insert_len then process_cb a.string a.insert_len c else some c
  ]

  -- teco_state_expectstring_refresh()
  unfoldable pub refresh : StringArg Q → C → Option (StringArg Q × C)
  unfolding process
  refresh a c = elim (process a c) [
    | none ↦ none
    | some c' ↦ some (record a { insert_len = 0 }, c')
  ]

  -- The callbacks at the end of the argument.
  unfoldable pub complete : StringArg Q → C → Option C
  unfolding process
  complete a c = elim (process a c) [ none ↦ none | some c' ↦ cmd.done_cb a.string c' ]

-- What teco_state_expectstring_input() returns: an error, the same state, or that of done_cb().
pub data ArgResult (Q C : Type 0) : Type 0 where
  failed : ArgResult Q C
  stays : StringArg Q → C → ArgResult Q C
  leaves : StringArg Q → C → ArgResult Q C

module _ (g : Glib) (q : SpecMachine) {C : Type 0} (cmd : Command C) where
  unfoldable pub on_step : C → ArgStep q.Spec → ArgResult q.Spec C
  unfolding clear_arg complete
  on_step c arg_error = failed
  on_step c (arg_more a) = stays a c
  on_step c (arg_end a) = elim (complete cmd a c) [
    | none ↦ failed
    | some c' ↦ leaves (clear_arg g q cmd a) c'
  ]

  -- teco_state_expectstring_input()
  unfoldable pub expectstring_input : Bool → ℕ → StringArg q.Spec → C → ArgResult q.Spec C
  unfolding arg_step on_step
  expectstring_input normally chr a c = on_step c (arg_step g q cmd.string_building normally chr a)
