-- ===== src/Building.antt =====
-- src/parser.c: the string building machine, which constructs the string argument of a command.
-- Characters are code points, strings are bytes. GLib's functions on characters and the machine
-- that reads the name of a register are parameters; undo tokens are left aside.
pub mod Input
pub mod Alike
pub mod Skipping
use sciteco.Prelude.{
  ℕ, zero, suc, ◌+◌, ◌-◌, ◌/◌, ◌%◌, Bool, true, false, Option, none, some, List, [], ◌∷◌, ◌++◌,
  length, ltb, ◌==◌, ◌||◌, not, if◌then◌else◌,
}
use sciteco.TecoInt.{is_negative}
use sciteco.Strings.{is_ctl}
use sciteco.Numbers.{ascii_toupper, format}
use sciteco.Glob.{escape_pattern}

-- GLib's functions on characters and strings. strtoll gives the value as a 64-bit word, the number of
-- bytes that it has read, and whether errno is set.
pub record Glib : Type 0 where
  pub unichar_toupper : ℕ → ℕ
  pub unichar_tolower : ℕ → ℕ
  pub unichar_validate : ℕ → Bool
  pub unichar_to_utf8 : ℕ → List ℕ
  pub utf8_strup : List ℕ → List ℕ
  pub utf8_strdown : List ℕ → List ℕ
  pub ascii_toupper : ℕ → ℕ
  pub ascii_tolower : ℕ → ℕ
  pub ascii_strup : List ℕ → List ℕ
  pub ascii_strdown : List ℕ → List ℕ
  pub shell_quote : List ℕ → List ℕ
  pub strtoll : List ℕ → ℕ × ℕ × Bool

-- What get_integer() and get_string() of a register return; none is an error.
pub record Register : Type 0 where
  pub integer : Option ℕ
  pub string : Option (List ℕ)

-- What teco_machine_qregspec_input() returns, with the machine behind it, and the register.
pub data SpecStatus (Q : Type 0) : Type 0 where
  spec_error : SpecStatus Q
  spec_more : Q → SpecStatus Q
  spec_done : Option Register → Q → SpecStatus Q

-- The machine that reads the name of a register: teco_machine_qregspec_new(), _reset() and _input(),
-- where the flag tells that the name is only parsed.
pub record SpecMachine : Type 1 where
  pub Spec : Type 0
  pub new : Spec
  pub reset : Spec → Spec
  pub input : Bool → ℕ → Spec → SpecStatus Spec

pub data BuildMode : Type 0 where
  mode_normal mode_upper mode_lower mode_disabled : BuildMode

pub data BuildState : Type 0 where
  start ctl escaped lower lower_ctl upper upper_ctl ctle : BuildState
  ctle_num ctle_u ctle_code ctle_q ctle_quote ctle_n : BuildState

-- The member is_start of a state.
abbrev pub is_start_state : BuildState → Bool
is_start_state start = true
is_start_state _ = false

-- teco_machine_stringbuilding_t, without its result; `radix` is that of the local registers, and an
-- empty code is NULL.
pub record Building (Q : Type 0) : Type 0 where
  pub current : BuildState
  pub mode : BuildMode
  pub escape_char : ℕ
  pub radix : ℕ
  pub spec : Option Q
  pub is_utf8 : Bool
  pub code : List ℕ

-- TECO_CTL_KEY() and TECO_CTL_ECHO(), which clear and set the bit 0x40
abbrev pub has_ctl_bit : ℕ → Bool
has_ctl_bit c = (c / 0x40) % 2 == 1

abbrev pub ctl_key : ℕ → ℕ
ctl_key c = if has_ctl_bit c then c - 0x40 else c

abbrev pub ctl_echo : ℕ → ℕ
ctl_echo c = if has_ctl_bit c then c else c + 0x40

abbrev pub is_disabled : BuildMode → Bool
is_disabled mode_disabled = true
is_disabled _ = false

-- Bytes are appended to the result, if there is one.
unfoldable pub emit : List ℕ → Option (List ℕ) → Option (List ℕ)
emit bytes none = none
emit bytes (some s) = some (s ++ bytes)

-- teco_string_contains() of a null byte
abbrev pub has_null : List ℕ → Bool
has_null [] = false
has_null (c ∷ cs) = (c == 0) || has_null cs

-- What an input gives: an error, or the next state, the machine, and the result.
abbrev pub Step : Type 0 → Type 0
Step Q = Option (BuildState × Building Q × Option (List ℕ))

module _ (g : Glib) where
  -- The case folding of teco_state_stringbuilding_escaped_input().
  unfoldable pub fold_chr : BuildMode → Bool → ℕ → ℕ
  fold_chr mode_upper is_utf8 chr = if is_utf8 || ltb chr 0x80 then g.unichar_toupper chr else chr
  fold_chr mode_lower is_utf8 chr = if is_utf8 || ltb chr 0x80 then g.unichar_tolower chr else chr
  fold_chr _ is_utf8 chr = chr

  -- teco_machine_stringbuilding_append(): what is appended
  unfoldable pub fold_str : BuildMode → Bool → List ℕ → List ℕ
  fold_str mode_upper is_utf8 str = if is_utf8 then g.utf8_strup str else g.ascii_strup str
  fold_str mode_lower is_utf8 str = if is_utf8 then g.utf8_strdown str else g.ascii_strdown str
  fold_str _ is_utf8 str = str

  abbrev pub fold_unichar : BuildMode → ℕ → ℕ
  fold_unichar mode_upper value = g.unichar_toupper value
  fold_unichar mode_lower value = g.unichar_tolower value
  fold_unichar _ value = value

  abbrev pub fold_byte : BuildMode → ℕ → ℕ
  fold_byte mode_upper value = g.ascii_toupper value
  fold_byte mode_lower value = g.ascii_tolower value
  fold_byte _ value = value

  -- teco_machine_stringbuilding_append_c(): what is appended, or none for a value out of range
  unfoldable pub append_c : BuildMode → Bool → ℕ → Option (List ℕ)
  append_c mode is_utf8 value =
      if is_utf8
      then if is_negative value || not (g.unichar_validate value)
        then none
        else some (g.unichar_to_utf8 (fold_unichar mode value))
      else if is_negative value || ltb 0xFF value
      then none
      else some (fold_byte mode value ∷ [])

  module _ {Q : Type 0} where
    -- teco_state_stringbuilding_escaped_input()
    unfoldable pub escaped_input : ℕ → Building Q → Option (List ℕ) → Step Q
    unfolding emit fold_chr
    escaped_input chr b r =
        some (start, b, emit (g.unichar_to_utf8 (fold_chr b.mode b.is_utf8 chr)) r)

    -- teco_state_stringbuilding_ctl_input(), behind teco_ascii_toupper()
    unfoldable pub ctl_case : ℕ → Building Q → Option (List ℕ) → Step Q
    unfolding emit
    ctl_case chr b r =
        if chr == b'^'
        then some (start, b, emit (g.unichar_to_utf8 chr) r)
        else if chr == b'P'
        then some (start, record b { mode = mode_disabled }, r)
        else if (chr == b'Q') || (chr == b'R')
        then some (escaped, b, r)
        else if chr == b'V'
        then some (lower, b, r)
        else if chr == b'W'
        then some (upper, b, r)
        else if chr == b'E'
        then some (ctle, b, r)
        else if ltb chr b'@' || ltb b'_' chr
        then some (start, b, emit (b'^' ∷ g.unichar_to_utf8 chr) r)
        else some (start, b, emit (g.unichar_to_utf8 (ctl_key chr)) r)

    unfoldable pub ctl_input : ℕ → Building Q → Option (List ℕ) → Step Q
    unfolding ctl_case
    ctl_input chr b r = ctl_case (ascii_toupper chr) b r

    -- teco_state_stringbuilding_start_input()
    unfoldable pub start_input : ℕ → Building Q → Option (List ℕ) → Step Q
    unfolding escaped_input ctl_input
    start_input chr b r =
        if is_disabled b.mode
        then escaped_input chr b r
        else if chr == b'^'
        then some (ctl, b, r)
        else if chr == 30
        then escaped_input chr b r
        else if is_ctl chr
        then ctl_input (ctl_echo chr) b r
        else escaped_input chr b r

    -- teco_state_stringbuilding_lower_ctl_input() and teco_state_stringbuilding_upper_ctl_input(), which
    -- differ in their letter and in the mode
    unfoldable pub case_ctl_input : ℕ → BuildMode → ℕ → Building Q → Option (List ℕ) → Step Q
    case_ctl_input letter m chr b none = some (start, b, none)
    case_ctl_input letter m chr b (some s) =
        if ascii_toupper chr == letter
        then some (start, record b { mode = m }, some s)
        else some (start, b, some (s ++ g.unichar_to_utf8 (ctl_key (ascii_toupper chr))))

    -- teco_state_stringbuilding_lower_input() and teco_state_stringbuilding_upper_input()
    unfoldable pub folding_input :
        ℕ → BuildMode → BuildState → ℕ → Building Q → Option (List ℕ) → Step Q
    unfolding case_ctl_input emit fold_chr
    folding_input letter m on_ctl chr b r =
        if chr == b'^'
        then some (on_ctl, b, r)
        else if is_ctl chr
        then case_ctl_input letter m (ctl_echo chr) b r
        else some (start, b, emit (g.unichar_to_utf8 (fold_chr m b.is_utf8 chr)) r)
