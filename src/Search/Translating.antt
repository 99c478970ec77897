-- ===== src/Search/Translating.antt =====
-- src/search.c: an element of a pattern, and the regular expression that it is translated to.
use sciteco.Prelude.{
  both, ℕ, suc, ◌+◌, ◌-◌, ◌≤◌, ◌<◌, ◌≡◌, refl, sym, ap, ◌∙◌, Bool, true, false, not, List, [], ◌∷◌,
  ◌++◌, length, ◌==◌, ◌||◌, arith, append_assoc, append_nil,
}
use sciteco.Building.{SpecMachine}
use sciteco.Search.{Characters, search_start, search_alt, converted, more}
use sciteco.Search.Conversion.{finish, again, pattern_loop}
use sciteco.Search.Elements.{
  Element, quoted, plain, any_chr, spaces, no_word, class, not_chr, not_class, many, choice, Items,
  no_items, item, or, is_plain, print, print_items, regexp, regexp_items, is_valid, are_valid,
}
use sciteco.Search.Writing.{
  quoted_rounds, plain_rounds, any_round, spaces_round, no_word_round, class_round_lem,
}
use sciteco.Search.Nesting.{
  not_chr_rounds, not_class_rounds, many_rounds, choice_round, comma_round, close_round, item_round,
}
use sciteco.Search.Costs.{
  rounds, max, cost, items_cost, need, items_need, first, behind, print_lem, rounds_lem, rounds-suc,
}

module _ (t : Characters) (q : SpecMachine) where
  -- An element does not begin like a comma or the end of the alternatives.
  first_lem :
      (e : Element)
      → is_valid t q e ≡ true
      → ((first e == b',') ≡ false) × ((first e == b']') ≡ false)
  unfolding is_valid
  first_lem (plain c) h = (ground (arith, h), ground (arith, h))
  first_lem (quoted c cs) h = (refl, refl)
  first_lem any_chr h = (refl, refl)
  first_lem spaces h = (refl, refl)
  first_lem no_word h = (refl, refl)
  first_lem (class c) h = (refl, refl)
  first_lem (not_chr c cs) h = (refl, refl)
  first_lem (not_class c) h = (refl, refl)
  first_lem (many e) h = (refl, refl)
  first_lem (choice is) h = (refl, refl)

  -- Escaping leaves something of every character.
  module _ (escapes : (c : ℕ) (cs : List ℕ) → 0 < length (t.regex_escape (c ∷ cs)))
      (m : q.Spec) where
    regexp_lem : (e : Element) → 0 < length (regexp t e)
    unfolding regexp
    regexp_lem (quoted c cs) = escapes c cs
    regexp_lem (plain c) = escapes c []
    regexp_lem any_chr = omega arith
    regexp_lem spaces = omega arith
    regexp_lem no_word = omega arith
    regexp_lem (class c) = omega arith
    regexp_lem (not_chr c cs) = omega arith
    regexp_lem (not_class c) = omega arith
    regexp_lem (many e) = omega arith
    regexp_lem (choice is) = omega arith

    abbrev pub Runs : Element → Type 0
    Runs e =
        (f : ℕ) (single : Bool) (rest re : List ℕ)
        → need e ≤ f
        → pattern_loop t q (rounds (cost e) f) single search_start (print e ++ rest) re m
          ≡ again t q (pattern_loop t q f) single search_start rest (re ++ regexp t e) m

    -- A recursive call reads one element.
    single_lem :
        (e : Element) (n : ℕ) (rest : List ℕ)
        → Runs e
        → cost e + need e ≤ n
        → pattern_loop t q n true search_start (first e ∷ (behind e ++ rest)) [] m
          ≡ converted (regexp t e) rest m
    unfolding again finish
    single_lem e n rest run h =
        ap (λ p. pattern_loop t q n true search_start (p ++ rest) [] m) (sym (print_lem e))
        ∙ ap (λ k. pattern_loop t q k true search_start (print e ++ rest) [] m) fuel
        ∙ run (n - cost e) true rest [] (omega (arith, h))
      where
        fuel : n ≡ rounds (cost e) (n - cost e)
        fuel = omega (arith, h, rounds_lem (cost e) (n - cost e))

    pub max_le : (a b f : ℕ) → max a b ≤ f → (a ≤ f) × (b ≤ f)
    max_le a b f h = (ground (arith, h), ground (arith, h))

    -- The items of an alternative.
    unfoldable pub RunsItems : Items → Type 0
    RunsItems is =
        (f : ℕ) (single : Bool) (rest re : List ℕ)
        → items_need is ≤ f
        → pattern_loop t q (rounds (items_cost is) f) single search_alt (print_items is ++ rest) re
            m
          ≡ pattern_loop t q f single search_alt rest (re ++ regexp_items t is) m

    item_lem :
        (e : Element) (is : Items)
        → is_valid t q e ≡ true
        → Runs e
        → RunsItems is
        → RunsItems (item e is)
    unfolding RunsItems print_items regexp_items items_cost items_need
    item_lem e is v run runs f single rest re h =
        let (this, later) = max_le (cost e + need e) (items_need is) f h in
        let (comma, close) = first_lem e v in
        let tail : List ℕ = print_items is ++ rest in
        ap (λ p. pattern_loop t q (suc (rounds (items_cost is) f)) single search_alt p re m)
          (append_assoc (print e) (print_items is) rest ∙ ap (λ p. p ++ tail) (print_lem e))
        ∙ item_round t q (rounds (items_cost is) f) single m (first e) (behind e ++ tail) tail re
            (regexp t e) comma close (regexp_lem e)
            (single_lem e (rounds (items_cost is) f) tail run
              (omega (arith, this, rounds_lem (items_cost is) f)))
        ∙ runs f single rest (re ++ regexp t e) later
        ∙ ap (λ x. pattern_loop t q f single search_alt rest x m)
            (append_assoc re (regexp t e) (regexp_items t is))

    or_lem : (is : Items) → RunsItems is → RunsItems (or is)
    unfolding RunsItems print_items regexp_items items_cost items_need
    or_lem is runs f single rest re h =
        comma_round t q (rounds (items_cost is) f) single m (print_items is ++ rest) re
        ∙ runs f single rest (re ++ (b'|' ∷ [])) h
        ∙ ap (λ x. pattern_loop t q f single search_alt rest x m)
            (append_assoc re (b'|' ∷ []) (regexp_items t is))

    choice_lem : (is : Items) → RunsItems is → Runs (choice is)
    unfolding RunsItems print regexp cost need
    choice_lem is runs f single rest re h =
        let body : List ℕ = print_items is ++ (b']' ∷ rest) in
        ap
          (λ p.
            pattern_loop t q (suc (suc (rounds (items_cost is) f))) single search_start
              (5 ∷ b'[' ∷ p) re m)
          (append_assoc (print_items is) (b']' ∷ []) rest)
        ∙ choice_round t q (suc (rounds (items_cost is) f)) single m body re
        ∙ ap (λ k. pattern_loop t q k single search_alt body (re ++ (b'(' ∷ [])) m)
            (sym (rounds-suc (items_cost is) f))
        ∙ runs (suc f) single (b']' ∷ rest) (re ++ (b'(' ∷ [])) (omega (arith, h))
        ∙ close_round t q f single m rest ((re ++ (b'(' ∷ [])) ++ regexp_items t is)
        ∙ ap (λ x. again t q (pattern_loop t q f) single search_start rest x m)
            (append_assoc (re ++ (b'(' ∷ [])) (regexp_items t is) (b')' ∷ [])
              ∙ append_assoc re (b'(' ∷ []) (regexp_items t is ++ (b')' ∷ [])))

    many_lem : (e : Element) → Runs e → Runs (many e)
    unfolding print regexp cost need
    many_lem e run f single rest re h =
        ap (λ p. pattern_loop t q (suc (suc f)) single search_start (5 ∷ b'M' ∷ (p ++ rest)) re m)
          (print_lem e)
        ∙ many_rounds t q f single m (first e) (behind e ++ rest) rest re (regexp t e)
            (regexp_lem e) (single_lem e f rest run h)

    mutual
      unfolding is_valid are_valid RunsItems cost print regexp

      pub runs_lem : (e : Element) → is_valid t q e ≡ true → Runs e
      runs_lem (quoted c cs) v f single rest re h =
          quoted_rounds t q f single m c cs rest re (ground (arith, v))
      runs_lem (plain c) v f single rest re h =
          let (p, one) = both (is_plain c) (more t q c == 0) v in
          plain_rounds t q f single m c rest re p (ground (arith, one))
      runs_lem any_chr v f single rest re h = any_round t q f single m rest re
      runs_lem spaces v f single rest re h = spaces_round t q f single m rest re
      runs_lem no_word v f single rest re h = no_word_round t q f single m rest re
      runs_lem (class c) v f single rest re h = class_round_lem t q f single m c rest re v
      runs_lem (not_chr c cs) v f single rest re h =
          let (n, one) = both (not ((c == 0x13) || (c == 5))) (more t q c == length cs) v in
          not_chr_rounds t q f single m c cs rest re (ground (arith, n)) (ground (arith, one))
            (escapes c cs)
      runs_lem (not_class c) v f single rest re h = not_class_rounds t q f single m c rest re v
      runs_lem (many e) v f single rest re h = many_lem e (runs_lem e v) f single rest re h
      runs_lem (choice is) v f single rest re h = choice_lem is (items_lem is v) f single rest re h

      pub items_lem : (is : Items) → are_valid t q is ≡ true → RunsItems is
      items_lem no_items v f single rest re h =
          ap (λ x. pattern_loop t q f single search_alt rest x m) (sym (append_nil re))
      items_lem (item e is) v f single rest re h =
          let (a, b) = both (is_valid t q e) (are_valid t q is) v in
          item_lem e is a (runs_lem e a) (items_lem is b) f single rest re h
      items_lem (or is) v f single rest re h = or_lem is (items_lem is v) f single rest re h
