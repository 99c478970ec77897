-- ===== src/Tests/Building.antt =====
-- src/parser.c and src/qreg.c: string arguments, built and skipped.
use sciteco.Prelude.{
  ℕ, ◌+◌, ◌≡◌, refl, true, false, none, some, List, [], ◌∷◌, ◌++◌, ltb, if◌then◌else◌,
}
use sciteco.Building.{Glib, Register, SpecMachine, mode_normal, start, Building}
use sciteco.Building.Input.{building_escape, building_input, must_escape}
use sciteco.Numbers.{ascii_toupper}
use sciteco.StringArg.{StringArg, Command, arg_end, arg_step, on_step}
use sciteco.StringArg.Scanning.{scan, scan_end, read, at_end}
use sciteco.StringArg.Completing.{reading, read-building_escape}
use sciteco.StringArg.Skipping.{SameArg, Skips}
use sciteco.QregSpec.{Lookup, qreg_required, spec_start, nested}
use sciteco.QregSpec.Skipping.{nested-SkipsAlike, scan-nested}
use sciteco.Building.Alike.{SameSpec}

abbrev shift_case : ℕ → ℕ
shift_case c = if ltb c b'A' then c else if ltb b'Z' c then c else c + 0x20

-- One byte for each character, and the letters of ASCII.
abbrev glib : Glib
glib = record {
  unichar_toupper = ascii_toupper;
  unichar_tolower = shift_case;
  unichar_validate = λ c. ltb c 0x110000;
  unichar_to_utf8 = λ c. c ∷ [];
  utf8_strup = λ s. s;
  utf8_strdown = λ s. s;
  ascii_toupper = ascii_toupper;
  ascii_tolower = shift_case;
  ascii_strup = λ s. s;
  ascii_strdown = λ s. s;
  shell_quote = λ s. s;
  strtoll = λ s. (0, 0, true);
}

-- Every register holds the text "r".
abbrev registers : Lookup Register
registers = record {
  spec_type = qreg_required;
  locals = λ name. none;
  globals = λ name. some (record { integer = some 7; string = some (b'r' ∷ []) });
  default_utf8 = true;
  locals_radix = 10;
}

abbrev specs : SpecMachine
specs = nested glib registers 1

abbrev machine : Building specs.Spec
machine = record {
  current = start;
  mode = mode_normal;
  escape_char = b'/';
  radix = 10;
  spec = none;
  is_utf8 = true;
  code = [];
}

-- A command that keeps its argument.
abbrev keep : Command (List ℕ)
keep = record { string_building = true; last = true; process_cb = none; done_cb = λ s c. some s }

-- The path a/b, whose slash is escaped.
abbrev path : List ℕ
path = b'a' ∷ b'/' ∷ b'b' ∷ []

read-building_escape_example :
    read glib specs keep true
      (building_escape glib b'/' path ++ (b'/' ∷ b'X' ∷ []))
      (reading machine start [] 0 1)
      []
    ≡ at_end glib specs keep
        (on_step glib specs keep [] (arg_end (reading machine start path 3 1)))
        (b'X' ∷ [])
unfolding must_escape
read-building_escape_example =
    read-building_escape glib specs keep machine path (b'X' ∷ []) b'/' [] refl refl refl refl refl

-- x^EQ[a]/Z
abbrev text : List ℕ
text = b'x' ∷ 5 ∷ b'Q' ∷ b'[' ∷ b'a' ∷ b']' ∷ b'/' ∷ b'Z' ∷ []

abbrev read_arg : StringArg specs.Spec
unfolding nested
read_arg = record {
  string = b'x' ∷ b'r' ∷ [];
  insert_len = 2;
  nesting = 1;
  modifier_at = false;
  machine = record machine {
    spec = some (record {
      spec_state = spec_start;
      building = record {
        current = start;
        mode = mode_normal;
        escape_char = b'[';
        radix = 10;
        spec = none;
        is_utf8 = true;
        code = [];
      };
      brackets = 0;
      name = b'a' ∷ [];
      in_locals = false;
    });
  };
}

scanned :
    scan glib specs true true text (reading machine start [] 0 1) ≡ scan_end read_arg (b'Z' ∷ [])
unfolding scan nested arg_step building_input
scanned = refl

same_start :
    SameArg glib specs
      (nested-SkipsAlike glib registers 1)
      (reading machine start [] 0 1)
      (reading machine start [] 0 1)
unfolding SameSpec
same_start = record {
  levels = refl;
  modified = refl;
  machines = record {
    states = refl;
    same = record { disabled = refl; ends_by = refl; specs = tt };
    enabled_in = refl;
  };
}

scan-nested_example :
    Skips glib specs
      (nested-SkipsAlike glib registers 1)
      true
      text
      (reading machine start [] 0 1)
      read_arg
      (b'Z' ∷ [])
scan-nested_example =
    scan-nested glib registers 1 true text (b'Z' ∷ []) (reading machine start [] 0 1)
      (reading machine start [] 0 1) read_arg same_start scanned
