-- ===== src/Search/Elements.antt =====
-- src/search.c: the elements of a search pattern, how they are written, and the regular expressions
-- that they stand for. Elements with registers are left out.
use sciteco.Prelude.{
  ℕ, Bool, true, not, Option, none, some, List, [], ◌∷◌, ◌++◌, length, ltb, ◌==◌, ◌&&◌, ◌||◌,
}
use sciteco.Numbers.{ascii_toupper}
use sciteco.Building.{SpecMachine}
use sciteco.Search.{Characters, class_name, posix, alnum, more}

mutual
  pub data Element : Type 0 where
    quoted : ℕ → List ℕ → Element
    plain : ℕ → Element
    any_chr : Element
    spaces : Element
    no_word : Element
    class : ℕ → Element
    not_chr : ℕ → List ℕ → Element
    not_class : ℕ → Element
    many : Element → Element
    choice : Items → Element

  -- Elements and the commas between alternatives.
  pub data Items : Type 0 where
    no_items : Items
    item : Element → Items → Items
    or : Items → Items

-- A character that stands for itself, also in an alternative.
abbrev pub is_plain : ℕ → Bool
is_plain c = not (
    (c == b'^')
    || (c == 0x13)
    || (c == 5)
    || (c == 0x11)
    || (c == 0x12)
    || (c == 0x18)
    || (c == 0x0E)
    || (c == b',')
    || (c == b']'))

unfoldable mutual
  pub print : Element → List ℕ
  print (quoted c cs) = 0x11 ∷ c ∷ cs
  print (plain c) = c ∷ []
  print any_chr = 0x18 ∷ []
  print spaces = 5 ∷ b'S' ∷ []
  print no_word = 0x13 ∷ []
  print (class c) = 5 ∷ c ∷ []
  print (not_chr c cs) = 0x0E ∷ c ∷ cs
  print (not_class c) = 0x0E ∷ 5 ∷ c ∷ []
  print (many e) = 5 ∷ b'M' ∷ print e
  print (choice is) = 5 ∷ b'[' ∷ (print_items is ++ (b']' ∷ []))

  pub print_items : Items → List ℕ
  print_items no_items = []
  print_items (item e is) = print e ++ print_items is
  print_items (or is) = b',' ∷ print_items is

-- A class in brackets.
abbrev pub brackets : List ℕ → List ℕ
brackets re = b'[' ∷ (re ++ (b']' ∷ []))

abbrev pub or_none : Option (List ℕ) → List ℕ
or_none none = []
or_none (some re) = re

abbrev pub name_of : ℕ → List ℕ
name_of c = or_none (class_name (ascii_toupper c))

unfoldable mutual
  pub regexp : Characters → Element → List ℕ
  regexp t (quoted c cs) = t.regex_escape (c ∷ cs)
  regexp t (plain c) = t.regex_escape (c ∷ [])
  regexp t any_chr = b'.' ∷ []
  regexp t spaces = b'\\' ∷ b's' ∷ b'+' ∷ []
  regexp t no_word = brackets (posix (b'^' ∷ alnum))
  regexp t (class c) = brackets (name_of c)
  regexp t (not_chr c cs) = brackets (b'^' ∷ t.regex_escape (c ∷ cs))
  regexp t (not_class c) = brackets (b'^' ∷ name_of c)
  regexp t (many e) = b'(' ∷ b'?' ∷ b':' ∷ (regexp t e ++ (b')' ∷ b'+' ∷ []))
  regexp t (choice is) = b'(' ∷ (regexp_items t is ++ (b')' ∷ []))

  pub regexp_items : Characters → Items → List ℕ
  regexp_items t no_items = []
  regexp_items t (item e is) = regexp t e ++ regexp_items t is
  regexp_items t (or is) = b'|' ∷ regexp_items t is

abbrev pub is_named : ℕ → Bool
is_named c = ltb 0 (length (name_of c))

-- The characters are complete, plain ones have one byte, and classes have a name.
unfoldable mutual
  pub is_valid : Characters → SpecMachine → Element → Bool
  is_valid t q (quoted c cs) = more t q c == length cs
  is_valid t q (plain c) = is_plain c && (more t q c == 0)
  is_valid t q any_chr = true
  is_valid t q spaces = true
  is_valid t q no_word = true
  is_valid t q (class c) = is_named c
  is_valid t q (not_chr c cs) = not ((c == 0x13) || (c == 5)) && (more t q c == length cs)
  is_valid t q (not_class c) = is_named c
  is_valid t q (many e) = is_valid t q e
  is_valid t q (choice is) = are_valid t q is

  pub are_valid : Characters → SpecMachine → Items → Bool
  are_valid t q no_items = true
  are_valid t q (item e is) = is_valid t q e && are_valid t q is
  are_valid t q (or is) = are_valid t q is

-- A pattern is a sequence of elements.
abbrev pub print_all : List Element → List ℕ
unfolding print
print_all [] = []
print_all (e ∷ es) = print e ++ print_all es

abbrev pub regexp_all : Characters → List Element → List ℕ
unfolding regexp
regexp_all t [] = []
regexp_all t (e ∷ es) = regexp t e ++ regexp_all t es

abbrev pub all_valid : Characters → SpecMachine → List Element → Bool
unfolding is_valid
all_valid t q [] = true
all_valid t q (e ∷ es) = is_valid t q e && all_valid t q es
