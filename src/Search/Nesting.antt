-- ===== src/Search/Nesting.antt =====
-- src/search.c: the rounds in which negations, repetitions and alternatives are written.
use sciteco.Prelude.{
  ℕ, suc, ◌<◌, ◌≡◌, refl, ap, ◌∙◌, Bool, true, false, List, [], ◌∷◌, ◌++◌, length, ◌==◌, ◌||◌,
  Option-cases, inl, inr, arith,
}
use sciteco.Numbers.{ascii_toupper}
use sciteco.Building.{SpecMachine}
use sciteco.Search.{
  Characters, search_start, search_not, search_many, search_alt, class_done, Converted, converted,
  class_name, more, class_round, class_loop, class2regexp,
}
use sciteco.Search.Conversion.{
  again, in_start, negated, in_ctl_e, repeated, alternative, in_state, with_class, round,
  pattern_loop,
}
use sciteco.Search.Elements.{brackets, name_of, is_named}
use sciteco.Search.Writing.{take_all, drop_all, split_or, goes_on}

module _ (t : Characters) (q : SpecMachine) where
  module _ (f : ℕ) (single : Bool) (m : q.Spec) where
    -- Behind an element.
    abbrev next : List ℕ → List ℕ → Converted q.Spec
    next rest re = again t q (pattern_loop t q f) single search_start rest re m

    first_not :
        (p re : List ℕ)
        → pattern_loop t q (suc (suc f)) single search_start (0x0E ∷ p) re m
          ≡ again t q (pattern_loop t q (suc f)) single search_not p re m
    unfolding pattern_loop round class2regexp class_loop class_round with_class in_state in_start
    first_not p re = refl

    not_round :
        (p re : List ℕ)
        → pattern_loop t q (suc (suc f)) single search_start (0x0E ∷ p) re m
          ≡ pattern_loop t q (suc f) single search_not p re m
    not_round p re = first_not p re ∙ goes_on t q (suc f) single search_not p re m refl

    negated_lem :
        (text rest re : List ℕ)
        → 0 < length text
        → negated t q (pattern_loop t q f) single re (class_done text search_start rest m)
          ≡ next rest (re ++ brackets (b'^' ∷ text))
    unfolding negated
    negated_lem [] rest re h = absurd (omega arith)
    negated_lem (x ∷ text) rest re h = refl

    not_chr_round :
        (c : ℕ) (cs rest re : List ℕ)
        → (c == 0x13) ≡ false
        → (c == 5) ≡ false
        → more t q c ≡ length cs
        → pattern_loop t q (suc f) single search_not (c ∷ (cs ++ rest)) re m
          ≡ negated t q
              (pattern_loop t q f)
              single
              re
              (class_done (t.regex_escape (c ∷ cs)) search_start rest m)
    unfolding pattern_loop round class2regexp class_loop class_round with_class in_state
    not_chr_round c cs rest re a b h =
        rw (a, class_round)
          (rw (b, class_round)
            (rw (h, class_round) (rw (take_all cs rest) (rw (drop_all cs rest) refl))))

    pub not_chr_rounds :
        (c : ℕ) (cs rest re : List ℕ)
        → ((c == 0x13) || (c == 5)) ≡ false
        → more t q c ≡ length cs
        → 0 < length (t.regex_escape (c ∷ cs))
        → pattern_loop t q (suc (suc f)) single search_start (0x0E ∷ c ∷ (cs ++ rest)) re m
          ≡ next rest (re ++ brackets (b'^' ∷ t.regex_escape (c ∷ cs)))
    not_chr_rounds c cs rest re n h e =
        let (a, b) = split_or (c == 0x13) (c == 5) n in
        not_round (c ∷ (cs ++ rest)) re
        ∙ not_chr_round c cs rest re a b h
        ∙ negated_lem (t.regex_escape (c ∷ cs)) rest re e

    not_class_round :
        (c : ℕ) (rest re : List ℕ)
        → is_named c ≡ true
        → pattern_loop t q (suc f) single search_not (5 ∷ c ∷ rest) re m
          ≡ next rest (re ++ brackets (b'^' ∷ name_of c))
    unfolding pattern_loop round class2regexp class_loop class_round with_class in_state negated
    not_class_round c rest re h = elim (Option-cases (class_name (ascii_toupper c))) [
      | inl e ↦ absurd (ground (arith, e, h))
      | inr ([], e) ↦ absurd (ground (arith, e, h))
      | inr (x ∷ name, e) ↦ rw (e, class_round) refl
    ]

    pub not_class_rounds :
        (c : ℕ) (rest re : List ℕ)
        → is_named c ≡ true
        → pattern_loop t q (suc (suc f)) single search_start (0x0E ∷ 5 ∷ c ∷ rest) re m
          ≡ next rest (re ++ brackets (b'^' ∷ name_of c))
    not_class_rounds c rest re h = not_round (5 ∷ c ∷ rest) re ∙ not_class_round c rest re h

    first_many :
        (p re : List ℕ)
        → pattern_loop t q (suc (suc f)) single search_start (5 ∷ b'M' ∷ p) re m
          ≡ again t q (pattern_loop t q (suc f)) single search_many p re m
    unfolding pattern_loop round class2regexp class_loop class_round with_class in_state in_ctl_e
        class_name
    first_many p re = refl

    many_round :
        (c : ℕ) (p re : List ℕ)
        → pattern_loop t q (suc f) single search_many (c ∷ p) re m
          ≡ repeated t q
              (pattern_loop t q f)
              single
              re
              (pattern_loop t q f true search_start (c ∷ p) [] m)
    unfolding pattern_loop round class2regexp class_loop class_round with_class in_state
    many_round c p re = refl

    repeated_lem :
        (text rest re : List ℕ)
        → 0 < length text
        → repeated t q (pattern_loop t q f) single re (converted text rest m)
          ≡ next rest (re ++ (b'(' ∷ b'?' ∷ b':' ∷ (text ++ (b')' ∷ b'+' ∷ []))))
    unfolding repeated
    repeated_lem [] rest re h = absurd (omega arith)
    repeated_lem (x ∷ text) rest re h = refl

    pub many_rounds :
        (c : ℕ) (p rest re text : List ℕ)
        → 0 < length text
        → pattern_loop t q f true search_start (c ∷ p) [] m ≡ converted text rest m
        → pattern_loop t q (suc (suc f)) single search_start (5 ∷ b'M' ∷ c ∷ p) re m
          ≡ next rest (re ++ (b'(' ∷ b'?' ∷ b':' ∷ (text ++ (b')' ∷ b'+' ∷ []))))
    many_rounds c p rest re text h e =
        first_many (c ∷ p) re
        ∙ goes_on t q (suc f) single search_many (c ∷ p) re m refl
        ∙ many_round c p re
        ∙ ap (repeated t q (pattern_loop t q f) single re) e
        ∙ repeated_lem text rest re h

    first_choice :
        (p re : List ℕ)
        → pattern_loop t q (suc f) single search_start (5 ∷ b'[' ∷ p) re m
          ≡ again t q (pattern_loop t q f) single search_alt p (re ++ (b'(' ∷ [])) m
    unfolding pattern_loop round class2regexp class_loop class_round with_class in_state in_ctl_e
        class_name
    first_choice p re = refl

    pub choice_round :
        (p re : List ℕ)
        → pattern_loop t q (suc f) single search_start (5 ∷ b'[' ∷ p) re m
          ≡ pattern_loop t q f single search_alt p (re ++ (b'(' ∷ [])) m
    choice_round p re =
        first_choice p re ∙ goes_on t q f single search_alt p (re ++ (b'(' ∷ [])) m refl

    first_comma :
        (p re : List ℕ)
        → pattern_loop t q (suc f) single search_alt (b',' ∷ p) re m
          ≡ again t q (pattern_loop t q f) single search_alt p (re ++ (b'|' ∷ [])) m
    unfolding pattern_loop round class2regexp class_loop class_round with_class in_state
    first_comma p re = refl

    pub comma_round :
        (p re : List ℕ)
        → pattern_loop t q (suc f) single search_alt (b',' ∷ p) re m
          ≡ pattern_loop t q f single search_alt p (re ++ (b'|' ∷ [])) m
    comma_round p re =
        first_comma p re ∙ goes_on t q f single search_alt p (re ++ (b'|' ∷ [])) m refl

    pub close_round :
        (rest re : List ℕ)
        → pattern_loop t q (suc f) single search_alt (b']' ∷ rest) re m
          ≡ next rest (re ++ (b')' ∷ []))
    unfolding pattern_loop round class2regexp class_loop class_round with_class in_state
    close_round rest re = refl

    alt_round :
        (c : ℕ) (p re : List ℕ)
        → (c == b',') ≡ false
        → (c == b']') ≡ false
        → pattern_loop t q (suc f) single search_alt (c ∷ p) re m
          ≡ alternative t q
              (pattern_loop t q f)
              single
              re
              (pattern_loop t q f true search_start (c ∷ p) [] m)
    unfolding pattern_loop round class2regexp class_loop class_round with_class in_state
    alt_round c p re n k = rw (n, in_state) (rw (k, in_state) refl)

    alternative_lem :
        (text rest re : List ℕ)
        → 0 < length text
        → alternative t q (pattern_loop t q f) single re (converted text rest m)
          ≡ pattern_loop t q f single search_alt rest (re ++ text) m
    unfolding alternative
    alternative_lem [] rest re h = absurd (omega arith)
    alternative_lem (x ∷ text) rest re h =
        goes_on t q f single search_alt rest (re ++ (x ∷ text)) m refl

    pub item_round :
        (c : ℕ) (p rest re text : List ℕ)
        → (c == b',') ≡ false
        → (c == b']') ≡ false
        → 0 < length text
        → pattern_loop t q f true search_start (c ∷ p) [] m ≡ converted text rest m
        → pattern_loop t q (suc f) single search_alt (c ∷ p) re m
          ≡ pattern_loop t q f single search_alt rest (re ++ text) m
    item_round c p rest re text n k h e =
        alt_round c p re n k
        ∙ ap (alternative t q (pattern_loop t q f) single re) e
        ∙ alternative_lem text rest re h
