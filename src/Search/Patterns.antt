-- ===== src/Search/Patterns.antt =====
-- src/search.c: whole patterns, and the regular expressions that they are translated to.
use sciteco.Prelude.{
  both, ℕ, suc, ◌+◌, ◌-◌, ◌≤◌, ◌<◌, ◌≡◌, refl, sym, ap, ◌∙◌, true, false, List, [], ◌∷◌, ◌++◌,
  length, arith, append_assoc, append_nil,
}
use sciteco.Building.{SpecMachine}
use sciteco.Search.{Characters, search_start, converted, class2regexp, class_loop}
use sciteco.Search.Conversion.{finish, again, with_class, round, pattern_loop, pattern2regexp}
use sciteco.Search.Elements.{Element, print, regexp, is_valid, print_all, regexp_all, all_valid}
use sciteco.Search.Costs.{need, cost_all, need_all, fuel_all, fuel_all_lem, cost_all_lem}
use sciteco.Search.Translating.{max_le, runs_lem}

module _ (t : Characters) (q : SpecMachine)
    (escapes : (c : ℕ) (cs : List ℕ) → 0 < length (t.regex_escape (c ∷ cs))) (m : q.Spec) where
  all_lem :
      (es : List Element) (f : ℕ) (re : List ℕ)
      → all_valid t q es ≡ true
      → need_all es ≤ f
      → pattern_loop t q (fuel_all es f) false search_start (print_all es) re m
        ≡ pattern_loop t q f false search_start [] (re ++ regexp_all t es) m
  unfolding need_all print regexp is_valid again
  all_lem [] f re v h = ap (λ x. pattern_loop t q f false search_start [] x m) (sym (append_nil re))
  all_lem (e ∷ es) f re v h =
      let (a, b) = both (is_valid t q e) (all_valid t q es) v in
      let (this, later) = max_le t q escapes m (need e) (need_all es) f h in
      runs_lem t q escapes m e a (fuel_all es f) false (print_all es) re
        (omega (arith, this, fuel_all_lem es f))
      ∙ all_lem es f (re ++ regexp t e) b later
      ∙ ap (λ x. pattern_loop t q f false search_start [] x m)
          (append_assoc re (regexp t e) (regexp_all t es))

  end_lem :
      (f : ℕ) (re : List ℕ)
      → pattern_loop t q (suc f) false search_start [] re m ≡ converted re [] m
  unfolding pattern_loop round class2regexp class_loop with_class finish
  end_lem f re = refl

  -- A search pattern that is written from elements, in which characters, classes, their negations,
  -- repetitions and alternatives are nested in any way, is translated without an error to the
  -- regular expression of the elements: classes in brackets, a repeated element as a group of its
  -- own, alternatives in parentheses. It is assumed that the characters are complete, that classes
  -- have a name, that a negated class is one or a character that is none, and that the escaping of
  -- GLib leaves something of every text.
  pub pattern2regexp-print_all :
      (es : List Element)
      → all_valid t q es ≡ true
      → pattern2regexp t q (print_all es) m ≡ converted (regexp_all t es) [] m
  unfolding pattern2regexp
  pattern2regexp-print_all es v =
      let fuel : suc (suc (length (print_all es) + length (print_all es)))
          ≡ fuel_all es (suc spare) =
        omega (arith, fuel_all_lem es (suc spare), cost_all_lem es) in
      ap (λ k. pattern_loop t q k false search_start (print_all es) [] m) fuel
      ∙ all_lem es (suc spare) [] v (omega (arith, cost_all_lem es))
      ∙ end_lem spare (regexp_all t es)
    where
      spare : ℕ
      spare = suc (length (print_all es) + length (print_all es)) - cost_all es
