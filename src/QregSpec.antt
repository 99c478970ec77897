-- ===== src/QregSpec.antt =====
-- src/qreg.c: the machine that reads the name of a register, whose names in brackets are built by a
-- string building machine of their own. The tables of registers are functions of the name; a
-- specification that creates its register is left aside.
pub mod Alike
pub mod Skipping
use sciteco.Prelude.{
  ℕ, zero, suc, ◌+◌, ◌-◌, Bool, true, false, not, Option, none, some, List, [], ◌∷◌, ◌++◌, ltb,
  ◌==◌, ◌||◌, if◌then◌else◌,
}
use sciteco.Numbers.{ascii_toupper}
use sciteco.Building.{
  Glib, Register, SpecStatus, spec_error, spec_more, spec_done, SpecMachine, mode_normal, start,
  is_start_state, ctl_key, Building,
}
use sciteco.Building.Input.{building_input, building_reset}

pub data SpecType : Type 0 where
  qreg_required qreg_optional : SpecType

pub data SpecState : Type 0 where
  spec_start start_global caret firstchar secondchar in_string : SpecState

-- teco_machine_qregspec_t
pub record SpecVars (Q : Type 0) : Type 0 where
  pub spec_state : SpecState
  pub building : Building Q
  pub brackets : ℕ
  pub name : List ℕ
  pub in_locals : Bool

-- What a specification is read with: the type, the two tables, and the encoding and the radix that
-- its string building machine begins with.
pub record Lookup (A : Type 0) : Type 0 where
  pub spec_type : SpecType
  pub locals : List ℕ → Option A
  pub globals : List ℕ → Option A
  pub default_utf8 : Bool
  pub locals_radix : ℕ

abbrev pub is_required : SpecType → Bool
is_required qreg_required = true
is_required qreg_optional = false

-- A required register has to exist.
unfoldable pub result_of :
    {Q : Type 0} → SpecType → SpecVars Q → Option Register → SpecStatus (SpecVars Q)
result_of t v none =
    if is_required t then spec_error else spec_done none (record v { spec_state = spec_start })
result_of t v (some reg) = spec_done (some reg) (record v { spec_state = spec_start })

module _ (g : Glib) (l : Lookup Register) (q : SpecMachine) where
  -- teco_state_qregspec_done()
  unfoldable pub qregspec_done : Bool → SpecVars q.Spec → SpecStatus (SpecVars q.Spec)
  unfolding result_of
  qregspec_done parse_only v =
      if parse_only
      then spec_done none (record v { spec_state = spec_start })
      else result_of l.spec_type v (if v.in_locals then l.locals v.name else l.globals v.name)

  abbrev to_state : SpecState → SpecVars q.Spec → SpecStatus (SpecVars q.Spec)
  to_state s v = spec_more (record v { spec_state = s })

  -- A character of the name, which is not collected if it is only parsed.
  unfoldable pub add_name : Bool → ℕ → SpecVars q.Spec → SpecVars q.Spec
  add_name parse_only chr v = record v {
    name = if parse_only then v.name else v.name ++ g.unichar_to_utf8 chr;
  }

  -- teco_state_qregspec_start_global_input()
  unfoldable pub start_global_input : Bool → ℕ → SpecVars q.Spec → SpecStatus (SpecVars q.Spec)
  unfolding qregspec_done add_name
  start_global_input parse_only chr v =
      if chr == b'^'
      then to_state caret v
      else if chr == b'#'
      then to_state firstchar v
      else if chr == b'['
      then to_state in_string (record v { brackets = v.brackets + 1 })
      else qregspec_done parse_only (add_name parse_only (g.unichar_toupper chr) v)

  -- teco_state_qregspec_start_input()
  unfoldable pub qregspec_start_input : Bool → ℕ → SpecVars q.Spec → SpecStatus (SpecVars q.Spec)
  unfolding start_global_input
  qregspec_start_input parse_only chr v =
      if chr == b'.'
      then to_state start_global (record v { in_locals = true })
      else start_global_input parse_only chr v

  -- teco_state_qregspec_caret_input()
  unfoldable pub caret_input : Bool → ℕ → SpecVars q.Spec → SpecStatus (SpecVars q.Spec)
  unfolding qregspec_done add_name
  caret_input parse_only chr v =
      if ltb (ascii_toupper chr) b'@' || ltb b'_' (ascii_toupper chr)
      then spec_error
      else qregspec_done parse_only (add_name parse_only (ctl_key (ascii_toupper chr)) v)

  -- teco_state_qregspec_firstchar_input()
  unfoldable pub firstchar_input : Bool → ℕ → SpecVars q.Spec → SpecStatus (SpecVars q.Spec)
  unfolding add_name
  firstchar_input parse_only chr v =
      to_state secondchar (add_name parse_only (g.unichar_toupper chr) v)

  -- teco_state_qregspec_secondchar_input()
  unfoldable pub secondchar_input : Bool → ℕ → SpecVars q.Spec → SpecStatus (SpecVars q.Spec)
  unfolding qregspec_done add_name
  secondchar_input parse_only chr v =
      qregspec_done parse_only (add_name parse_only (g.unichar_toupper chr) v)

  unfoldable pub name_built :
      SpecVars q.Spec → Option (Building q.Spec × Option (List ℕ)) → SpecStatus (SpecVars q.Spec)
  name_built v none = spec_error
  name_built v (some (b, none)) = to_state in_string (record v { building = b })
  name_built v (some (b, some name)) = to_state in_string (record v { building = b; name = name })

  unfoldable pub build_name : Bool → ℕ → SpecVars q.Spec → SpecStatus (SpecVars q.Spec)
  unfolding name_built
  build_name parse_only chr v =
      name_built v (building_input g q chr v.building (if parse_only then none else some v.name))

  -- teco_state_qregspec_string_input()
  unfoldable pub string_input : Bool → ℕ → SpecVars q.Spec → SpecStatus (SpecVars q.Spec)
  unfolding build_name qregspec_done
  string_input parse_only chr v =
      if is_start_state v.building.current
      then if chr == b'['
        then build_name parse_only chr (record v { brackets = v.brackets + 1 })
        else if chr == b']'
        then if v.brackets - 1 == 0
          then qregspec_done parse_only (record v { brackets = v.brackets - 1 })
          else build_name parse_only chr (record v { brackets = v.brackets - 1 })
        else build_name parse_only chr v
      else build_name parse_only chr v

  unfoldable pub spec_state_input :
      SpecState → Bool → ℕ → SpecVars q.Spec → SpecStatus (SpecVars q.Spec)
  unfolding qregspec_start_input start_global_input caret_input firstchar_input secondchar_input
      string_input
  spec_state_input spec_start = qregspec_start_input
  spec_state_input start_global = start_global_input
  spec_state_input caret = caret_input
  spec_state_input firstchar = firstchar_input
  spec_state_input secondchar = secondchar_input
  spec_state_input in_string = string_input

  -- teco_machine_qregspec_input()
  unfoldable pub qregspec_input : Bool → ℕ → SpecVars q.Spec → SpecStatus (SpecVars q.Spec)
  unfolding spec_state_input
  qregspec_input parse_only chr v = spec_state_input v.spec_state parse_only chr v

  -- teco_machine_qregspec_new() and teco_machine_stringbuilding_init()
  unfoldable pub qregspec_new : SpecVars q.Spec
  qregspec_new = record {
    spec_state = spec_start;
    building = record {
      current = start;
      mode = mode_normal;
      escape_char = b'[';
      radix = l.locals_radix;
      spec = none;
      is_utf8 = l.default_utf8;
      code = [];
    };
    brackets = 0;
    name = [];
    in_locals = false;
  }

  -- teco_machine_qregspec_reset()
  unfoldable pub qregspec_reset : SpecVars q.Spec → SpecVars q.Spec
  unfolding building_reset
  qregspec_reset v = record {
    spec_state = spec_start;
    building = building_reset g q v.building;
    brackets = 0;
    name = [];
    in_locals = false;
  }

  unfoldable pub qregspec : SpecMachine
  unfolding qregspec_new qregspec_reset qregspec_input
  qregspec = record {
    Spec = SpecVars q.Spec;
    new = qregspec_new;
    reset = qregspec_reset;
    input = qregspec_input;
  }

-- A machine in front of which names are nested too deeply.
unfoldable pub no_qregspec : SpecMachine
no_qregspec = record {
  Spec = Unit {0};
  new = tt;
  reset = λ s. s;
  input = λ parse_only chr s. spec_error;
}

-- Names of registers in which names of registers are built, up to some depth.
unfoldable pub nested : Glib → Lookup Register → ℕ → SpecMachine
unfolding qregspec no_qregspec
nested g l zero = no_qregspec
nested g l (suc n) = qregspec g l (nested g l n)
