-- ===== src/Search/Writing.antt =====
-- src/search.c: the rounds in which an element of a pattern is written as a regular expression.
use sciteco.Prelude.{
  ℕ, suc, ◌≡◌, refl, ap, ◌∙◌, Bool, true, false, List, [], ◌∷◌, ◌++◌, length, take, drop, ◌||◌,
  Option-cases, inl, inr, arith,
}
use sciteco.Numbers.{ascii_toupper}
use sciteco.Building.{SpecMachine}
use sciteco.Search.{
  Characters, SearchState, search_start, search_escape, is_search_start, Converted, class_name,
  posix, alnum, more, class_round, class_loop, class2regexp,
}
use sciteco.Search.Conversion.{again, in_start, in_ctl_e, in_state, with_class, round, pattern_loop}
use sciteco.Search.Elements.{brackets, is_plain, name_of, is_named}

pub take_all : (xs ys : List ℕ) → take (length xs) (xs ++ ys) ≡ xs
take_all [] ys = refl
take_all (x ∷ xs) ys = ap (x ∷◌) (take_all xs ys)

pub drop_all : (xs ys : List ℕ) → drop (length xs) (xs ++ ys) ≡ ys
drop_all [] ys = refl
drop_all (x ∷ xs) ys = drop_all xs ys

pub split_or : (a b : Bool) → (a || b) ≡ false → (a ≡ false) × (b ≡ false)
split_or true b h = absurd cc
split_or false b h = (refl, h)

module _ (t : Characters) (q : SpecMachine) where
  -- In any other state than the first one, the loop goes on.
  pub goes_on :
      (f : ℕ) (single : Bool) (s : SearchState) (p re : List ℕ) (m : q.Spec)
      → is_search_start s ≡ false
      → again t q (pattern_loop t q f) single s p re m ≡ pattern_loop t q f single s p re m
  unfolding again
  goes_on f true s p re m h = rw (h, again) refl
  goes_on f false s p re m h = refl

  module _ (f : ℕ) (single : Bool) (m : q.Spec) where
    -- Behind an element.
    abbrev next : List ℕ → List ℕ → Converted q.Spec
    next rest re = again t q (pattern_loop t q f) single search_start rest re m

    escape_round :
        (c : ℕ) (cs rest re : List ℕ)
        → more t q c ≡ length cs
        → pattern_loop t q (suc f) single search_escape (c ∷ (cs ++ rest)) re m
          ≡ next rest (re ++ t.regex_escape (c ∷ cs))
    unfolding pattern_loop round class2regexp class_loop class_round with_class in_state
    escape_round c cs rest re h = rw h (rw (take_all cs rest) (rw (drop_all cs rest) refl))

    pub quoted_rounds :
        (c : ℕ) (cs rest re : List ℕ)
        → more t q c ≡ length cs
        → pattern_loop t q (suc (suc f)) single search_start (0x11 ∷ c ∷ (cs ++ rest)) re m
          ≡ next rest (re ++ t.regex_escape (c ∷ cs))
    unfolding pattern_loop round class2regexp class_loop class_round with_class in_state in_start
    quoted_rounds c cs rest re h =
        goes_on (suc f) single search_escape (c ∷ (cs ++ rest)) re m refl
        ∙ escape_round c cs rest re h

    plain_round :
        (c : ℕ) (rest re : List ℕ)
        → is_plain c ≡ true
        → pattern_loop t q (suc (suc f)) single search_start (c ∷ rest) re m
          ≡ again t q (pattern_loop t q (suc f)) single search_escape (c ∷ rest) re m
    unfolding pattern_loop round class2regexp class_loop class_round with_class in_state in_start
    plain_round c rest re h = ground arith

    pub plain_rounds :
        (c : ℕ) (rest re : List ℕ)
        → is_plain c ≡ true
        → more t q c ≡ 0
        → pattern_loop t q (suc (suc f)) single search_start (c ∷ rest) re m
          ≡ next rest (re ++ t.regex_escape (c ∷ []))
    plain_rounds c rest re h k =
        plain_round c rest re h
        ∙ goes_on (suc f) single search_escape (c ∷ rest) re m refl
        ∙ escape_round c [] rest re k

    pub any_round :
        (rest re : List ℕ)
        → pattern_loop t q (suc f) single search_start (0x18 ∷ rest) re m
          ≡ next rest (re ++ (b'.' ∷ []))
    unfolding pattern_loop round class2regexp class_loop class_round with_class in_state in_start
    any_round rest re = refl

    pub spaces_round :
        (rest re : List ℕ)
        → pattern_loop t q (suc f) single search_start (5 ∷ b'S' ∷ rest) re m
          ≡ next rest (re ++ (b'\\' ∷ b's' ∷ b'+' ∷ []))
    unfolding pattern_loop round class2regexp class_loop class_round with_class in_state in_ctl_e
        class_name
    spaces_round rest re = refl

    pub no_word_round :
        (rest re : List ℕ)
        → pattern_loop t q (suc f) single search_start (0x13 ∷ rest) re m
          ≡ next rest (re ++ brackets (posix (b'^' ∷ alnum)))
    unfolding pattern_loop round class2regexp class_loop class_round with_class
    no_word_round rest re = refl

    pub class_round_lem :
        (c : ℕ) (rest re : List ℕ)
        → is_named c ≡ true
        → pattern_loop t q (suc f) single search_start (5 ∷ c ∷ rest) re m
          ≡ next rest (re ++ brackets (name_of c))
    unfolding pattern_loop round class2regexp class_loop class_round with_class
    class_round_lem c rest re h = elim (Option-cases (class_name (ascii_toupper c))) [
      | inl e ↦ absurd (ground (arith, e, h))
      | inr ([], e) ↦ absurd (ground (arith, e, h))
      | inr (x ∷ name, e) ↦ rw (e, class_round) refl
    ]
