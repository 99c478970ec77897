-- ===== src/Search/Conversion.antt =====
-- src/search.c: teco_pattern2regexp().
use sciteco.Prelude.{
  ℕ, zero, suc, ◌+◌, Bool, true, false, List, [], ◌∷◌, ◌++◌, length, take, drop, ◌==◌, ◌&&◌, ◌||◌,
  if◌then◌else◌,
}
use sciteco.Numbers.{ascii_toupper}
use sciteco.Building.{SpecMachine}
use sciteco.Search.{
  Characters, SearchState, search_start, search_ctl, search_escape, search_not, search_ctl_e,
  search_many, search_alt, is_search_start, ClassResult, class_error, class_no_fuel, class_done,
  Converted, failed, no_fuel, asserts, converted, ctl_first, more, class2regexp,
}

module _ (t : Characters) (q : SpecMachine) where
  -- The rest of teco_pattern2regexp(), for a flag single_expr, a state, a pattern and what is written.
  abbrev pub Convert : Type 0
  Convert = Bool → SearchState → List ℕ → List ℕ → q.Spec → Converted q.Spec

  -- Behind the loop, an open alternative is completed.
  unfoldable pub finish : SearchState → List ℕ → List ℕ → q.Spec → Converted q.Spec
  finish search_alt pattern re m = converted (re ++ (b')' ∷ [])) pattern m
  finish _ pattern re m = converted re pattern m

  -- The condition of the loop.
  unfoldable pub again : Convert → Convert
  unfolding finish
  again self single state pattern re m =
      if single && is_search_start state
      then finish state pattern re m
      else self single state pattern re m

  -- The case TECO_SEARCH_STATE_START
  unfoldable pub in_start : Convert → Bool → ℕ → List ℕ → List ℕ → q.Spec → Converted q.Spec
  unfolding again
  in_start self single c cs re m =
      if c == b'^'
      then again self single search_ctl cs re m
      else if (c == 0x11) || (c == 0x12)
      then again self single search_escape cs re m
      else if c == 0x18
      then again self single search_start cs (re ++ (b'.' ∷ [])) m
      else if c == 0x0E
      then again self single search_not cs re m
      else again self single search_escape (c ∷ cs) re m

  -- The case TECO_SEARCH_STATE_NOT, behind the class
  unfoldable pub negated : Convert → Bool → List ℕ → ClassResult q.Spec → Converted q.Spec
  unfolding again
  negated self single re class_error = failed
  negated self single re class_no_fuel = no_fuel
  negated self single re (class_done [] state pattern m) = converted [] pattern m
  negated self single re (class_done (x ∷ temp) state pattern m) =
      if is_search_start state
      then again self single search_start pattern (re ++ (b'[' ∷ b'^' ∷ x ∷ (temp ++ (b']' ∷ []))))
          m
      else asserts

  -- The case TECO_SEARCH_STATE_CTL_E
  unfoldable pub in_ctl_e : Convert → Bool → ℕ → List ℕ → List ℕ → q.Spec → Converted q.Spec
  unfolding again
  in_ctl_e self single c cs re m =
      if c == b'M'
      then again self single search_many cs re m
      else if c == b'S'
      then again self single search_start cs (re ++ (b'\\' ∷ b's' ∷ b'+' ∷ [])) m
      else if c == b'X'
      then again self single search_start cs (re ++ (b'.' ∷ [])) m
      else if c == b'['
      then again self single search_alt cs (re ++ (b'(' ∷ [])) m
      else failed

  -- The case TECO_SEARCH_STATE_MANY, behind the pattern element
  unfoldable pub repeated : Convert → Bool → List ℕ → Converted q.Spec → Converted q.Spec
  unfolding again
  repeated self single re (converted [] pattern m) = converted [] pattern m
  repeated self single re (converted (x ∷ temp) pattern m) =
      again self single search_start pattern
        (re ++ (b'(' ∷ b'?' ∷ b':' ∷ x ∷ (temp ++ (b')' ∷ b'+' ∷ [])))) m
  repeated self single re other = other

  -- An element of an alternative, in the case TECO_SEARCH_STATE_ALT
  unfoldable pub alternative : Convert → Bool → List ℕ → Converted q.Spec → Converted q.Spec
  unfolding again
  alternative self single re (converted [] pattern m) = converted [] pattern m
  alternative self single re (converted (x ∷ temp) pattern m) =
      again self single search_alt pattern (re ++ (x ∷ temp)) m
  alternative self single re other = other

  -- The states, on a pattern that is not empty.
  unfoldable pub in_state :
      Convert → Bool → SearchState → ℕ → List ℕ → List ℕ → q.Spec → Converted q.Spec
  unfolding again in_start class2regexp negated in_ctl_e repeated alternative
  in_state self single search_start c cs re m = in_start self single c cs re m
  in_state self single search_escape c cs re m =
      again self single search_start (drop (more t q c) cs)
        (re ++ t.regex_escape (c ∷ take (more t q c) cs)) m
  in_state self single search_not c cs re m =
      negated self single re (class2regexp t q true search_start (c ∷ cs) m)
  in_state self single search_ctl_e c cs re m = in_ctl_e self single (ascii_toupper c) cs re m
  in_state self single search_many c cs re m =
      repeated self single re (self true search_start (c ∷ cs) [] m)
  in_state self single search_alt c cs re m =
      if c == b','
      then again self single search_alt cs (re ++ (b'|' ∷ [])) m
      else if c == b']'
      then again self single search_start cs (re ++ (b')' ∷ [])) m
      else alternative self single re (self true search_start (c ∷ cs) [] m)
  in_state self single _ c cs re m = asserts

  -- A round of the loop, behind teco_class2regexp()
  unfoldable pub with_class : Convert → Bool → List ℕ → ClassResult q.Spec → Converted q.Spec
  unfolding again in_state finish
  with_class self single re class_error = failed
  with_class self single re class_no_fuel = no_fuel
  with_class self single re (class_done (x ∷ temp) state pattern m) =
      if is_search_start state
      then again self single state pattern (re ++ (b'[' ∷ x ∷ (temp ++ (b']' ∷ [])))) m
      else asserts
  with_class self single re (class_done [] state [] m) = finish state [] re m
  with_class self single re (class_done [] state (c ∷ cs) m) = in_state self single state c cs re m

  -- A round of the loop of teco_pattern2regexp()
  unfoldable pub round : Convert → Convert
  unfolding with_class class2regexp
  round self single search_ctl pattern re m =
      with_class self single re (class2regexp t q false search_start (ctl_first pattern) m)
  round self single state pattern re m =
      with_class self single re (class2regexp t q false state pattern m)

  unfoldable pub pattern_loop : ℕ → Convert
  unfolding round
  pattern_loop zero single state pattern re m = no_fuel
  pattern_loop (suc fuel) single state pattern re m =
      round (pattern_loop fuel) single state pattern re m

  -- teco_pattern2regexp()
  unfoldable pub pattern2regexp : List ℕ → q.Spec → Converted q.Spec
  unfolding pattern_loop
  pattern2regexp pattern m =
      pattern_loop (suc (suc (length pattern + length pattern))) false search_start pattern [] m
