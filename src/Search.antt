-- ===== src/Search.antt =====
-- src/search.c: the translation of search patterns to regular expressions. GLib's functions on
-- characters and the machine for names of registers are parameters; patterns are bytes, in valid
-- UTF-8 if that is the code page. The assertion that no null byte is written is left aside.

pub mod Conversion
pub mod Classes
pub mod Bounds
pub mod Ending
pub mod Elements
pub mod Writing
pub mod Nesting
pub mod Costs
pub mod Translating
pub mod Patterns
use sciteco.Prelude.{
  ℕ, zero, suc, ◌+◌, ◌-◌, ◌^◌, Bool, true, false, Option, none, some, List, [], ◌∷◌, ◌++◌, length,
  take, drop, leb, ltb, ◌==◌, ◌&&◌, ◌||◌, if◌then◌else◌,
}
use sciteco.Numbers.{ascii_toupper}
use sciteco.Building.{Register, SpecStatus, spec_error, spec_more, spec_done, SpecMachine, ctl_key}

-- utf8_more is the number of bytes behind the first one of a character, get_char its code point.
pub record Characters : Type 0 where
  pub is_utf8 : Bool
  pub utf8_more : ℕ → ℕ
  pub utf8_get_char : List ℕ → ℕ
  pub regex_escape : List ℕ → List ℕ

-- teco_search_state_t
pub data SearchState : Type 0 where
  search_start search_ctl search_escape search_not search_ctl_e search_anyq search_many search_alt :
      SearchState

abbrev pub is_search_start : SearchState → Bool
is_search_start search_start = true
is_search_start _ = false

-- What teco_class2regexp() returns: an error, or a class, the state, the pattern left and the machine.
pub data ClassResult (Q : Type 0) : Type 0 where
  class_error class_no_fuel : ClassResult Q
  class_done : List ℕ → SearchState → List ℕ → Q → ClassResult Q

-- What teco_pattern2regexp() returns; an assertion may fail.
pub data Converted (Q : Type 0) : Type 0 where
  failed no_fuel asserts : Converted Q
  converted : List ℕ → List ℕ → Q → Converted Q

-- [:name:]
abbrev pub posix : List ℕ → List ℕ
posix name = b'[' ∷ b':' ∷ (name ++ (b':' ∷ b']' ∷ []))

abbrev pub alnum : List ℕ
alnum = b'a' ∷ b'l' ∷ b'n' ∷ b'u' ∷ b'm' ∷ []

-- The classes behind ^E, by their upper case letters.
unfoldable pub class_name : ℕ → Option (List ℕ)
class_name c =
    if c == b'A'
    then some (posix (b'a' ∷ b'l' ∷ b'p' ∷ b'h' ∷ b'a' ∷ []))
    else if c == b'B'
    then some (posix (b'^' ∷ alnum))
    else if c == b'C'
    then some (posix alnum ++ (b'.' ∷ b'$' ∷ []))
    else if c == b'D'
    then some (posix (b'd' ∷ b'i' ∷ b'g' ∷ b'i' ∷ b't' ∷ []))
    else if c == b'L'
    then some (b'\r' ∷ b'\n' ∷ 11 ∷ 12 ∷ [])
    else if c == b'R'
    then some (posix alnum)
    else if c == b'V'
    then some (posix (b'l' ∷ b'o' ∷ b'w' ∷ b'e' ∷ b'r' ∷ []))
    else if c == b'W'
    then some (posix (b'u' ∷ b'p' ∷ b'p' ∷ b'e' ∷ b'r' ∷ []))
    else none

-- g_ascii_toupper() and TECO_CTL_KEY() of the character behind a caret
abbrev pub ctl_first : List ℕ → List ℕ
ctl_first [] = []
ctl_first (c ∷ cs) = ctl_key (ascii_toupper c) ∷ cs

module _ (t : Characters) (q : SpecMachine) where
  -- The bytes behind the first one of a character.
  abbrev pub more : ℕ → ℕ
  more c = if t.is_utf8 then t.utf8_more c else 0

  -- In a code page of single bytes the gchar is signed, and it is extended to 32 bits.
  abbrev pub chr_of : ℕ → List ℕ → ℕ
  chr_of c cs =
      if t.is_utf8 then t.utf8_get_char (c ∷ cs) else if ltb c 128 then c else c + (2 ^ 32 - 256)

  -- The case TECO_MACHINE_QREGSPEC_DONE of teco_class2regexp()
  unfoldable pub class_of_register : Option Register → List ℕ → q.Spec → ClassResult q.Spec
  class_of_register none rest m = class_error
  class_of_register (some reg) rest m = elim reg.string [
    | none ↦ class_error
    | some str ↦ class_done (t.regex_escape str) search_start rest (q.reset m)
  ]

  abbrev pub Class : Type 0
  Class = SearchState → List ℕ → q.Spec → ClassResult q.Spec

  -- One round of teco_class2regexp() on a pattern that is not empty; `self` is the next one.
  unfoldable pub class_round : Class → Bool → SearchState → ℕ → List ℕ → q.Spec → ClassResult q.Spec
  unfolding class_name class_of_register
  class_round self escape_default search_start c cs m =
      if c == 0x13
      then class_done (posix (b'^' ∷ alnum)) search_start cs m
      else if c == 5
      then self search_ctl_e cs m
      else if escape_default
      then class_done (t.regex_escape (c ∷ take (more c) cs)) search_start (drop (more c) cs) m
      else class_done [] search_start (c ∷ cs) m
  class_round self escape_default search_ctl_e c cs m = elim (class_name (ascii_toupper c)) [
    | some re ↦ class_done re search_start cs m
    | none ↦
        if ascii_toupper c == b'G'
        then self search_anyq cs m
        else class_done [] search_ctl_e (c ∷ cs) m
  ]
  class_round self escape_default search_anyq c cs m = elim (q.input false (chr_of c cs) m) [
    | spec_error ↦ class_error
    | spec_more m' ↦ self search_anyq (drop (more c) cs) m'
    | spec_done reg m' ↦ class_of_register reg (drop (more c) cs) m'
  ]
  class_round self escape_default state c cs m = class_done [] state (c ∷ cs) m

  unfoldable pub class_loop : ℕ → Bool → Class
  unfolding class_round
  class_loop fuel escape_default state [] m = class_done [] state [] m
  class_loop zero escape_default state (c ∷ cs) m = class_no_fuel
  class_loop (suc fuel) escape_default state (c ∷ cs) m =
      class_round (class_loop fuel escape_default) escape_default state c cs m

  -- teco_class2regexp(): every round takes a byte off the pattern.
  unfoldable pub class2regexp : Bool → Class
  unfolding class_loop
  class2regexp escape_default state pattern m =
      class_loop (length pattern) escape_default state pattern m
