-- ===== src/Search/Ending.antt =====
-- src/search.c: how many rounds the translation of a pattern takes, and its assertions.
use sciteco.Prelude.{
  ℕ, zero, suc, ◌+◌, ◌-◌, ◌≤◌, ◌<◌, ◌≡◌, refl, subst, Bool, true, false, List, [], ◌∷◌, ◌++◌,
  length, drop, ◌==◌, ◌&&◌, ◌||◌, if◌then◌else◌, arith,
}
use sciteco.Numbers.{ascii_toupper}
use sciteco.Building.{SpecMachine}
use sciteco.Search.{
  Characters, SearchState, search_start, search_ctl, search_escape, search_not, search_ctl_e,
  search_anyq, search_many, search_alt, is_search_start, ClassResult, class_error, class_no_fuel,
  class_done, Converted, failed, no_fuel, asserts, converted, ctl_first, more,
}
use sciteco.Search.Conversion.{
  Convert, again, in_start, negated, in_ctl_e, repeated, alternative, in_state, with_class, round,
  pattern_loop, pattern2regexp,
}
use sciteco.Search.Classes.{weight, is_read_in, ClassBound, class2regexp_bound, drop_short}
use sciteco.Search.Bounds.{
  is_begun_in, IsBounded, weaken_bound, finish_bound, if_bound, asserted_bound, start_lem,
  ctl_first_lem,
}

module _ (t : Characters) (q : SpecMachine) where
  -- Rounds with less than `bound` to do.
  module _ (self : Convert t q) (bound : ℕ)
      (ih : (single : Bool) (s : SearchState) (p re : List ℕ) (m : q.Spec)
        → is_begun_in s ≡ true
        → length p + length p + weight s < bound
        → IsBounded (length p) (self single s p re m)) where
    again_bound :
        (single : Bool) (s : SearchState) (n : ℕ) (p re : List ℕ) (m : q.Spec)
        → is_begun_in s ≡ true
        → length p ≤ n - 1
        → length p + length p + weight s < bound
        → IsBounded n (again t q self single s p re m)
    unfolding again
    again_bound single s n p re m k h e =
        if_bound t q (single && is_search_start s) n _ _ (finish_bound t q s n p re m h)
          (weaken (self single s p re m) (ih single s p re m k e))
      where
        weaken : (r : Converted q.Spec) → IsBounded (length p) r → IsBounded n r
        weaken r b = weaken_bound t q n (length p) r (omega arith) b

    start_bound :
        (single : Bool) (c : ℕ) (cs re : List ℕ) (m : q.Spec)
        → suc (suc (length cs + length cs)) < bound
        → IsBounded (suc (length cs)) (in_start t q self single c cs re m)
    unfolding in_start again
    start_bound single c cs re m h =
        if_bound t q (c == b'^') _ _ _
          (again_bound single search_ctl _ cs re m refl (omega arith) (omega arith))
          (if_bound t q ((c == 0x11) || (c == 0x12)) _ _ _
            (again_bound single search_escape _ cs re m refl (omega arith) (omega arith))
            (if_bound t q (c == 0x18) _ _ _
              (again_bound single search_start _ cs _ m refl (omega arith) (omega arith))
              (if_bound t q (c == 0x0E) _ _ _
                (again_bound single search_not _ cs re m refl (omega arith) (omega arith))
                (escape_bound single))))
      where
        escape_bound :
            (b : Bool)
            → IsBounded
                (suc (length cs))
                (if b && false then converted re (c ∷ cs) m else self b search_escape (c ∷ cs) re m)
        escape_bound true = ih true search_escape (c ∷ cs) re m refl (omega arith)
        escape_bound false = ih false search_escape (c ∷ cs) re m refl (omega arith)

    negated_bound :
        (single : Bool) (n : ℕ) (re : List ℕ) (r : ClassResult q.Spec)
        → suc (n + n) < bound
        → ClassBound n 1 r
        → IsBounded n (negated t q self single re r)
    unfolding negated
    negated_bound single n re class_error h b = tt
    negated_bound single n re class_no_fuel h b = absurd b
    negated_bound single n re (class_done [] s p m) h b = b.1
    negated_bound single n re (class_done (x ∷ temp) s p m) h b =
        rw (b.0, negated)
          (again_bound single search_start n p _ m refl (omega (arith, b.1)) (omega (arith, b.1)))

    ctl_e_bound :
        (single : Bool) (c : ℕ) (cs re : List ℕ) (m : q.Spec)
        → suc (suc (length cs + length cs)) < bound
        → IsBounded (suc (length cs)) (in_ctl_e t q self single c cs re m)
    unfolding in_ctl_e
    ctl_e_bound single c cs re m h =
        if_bound t q (c == b'M') _ _ _
          (again_bound single search_many _ cs re m refl (omega arith) (omega arith))
          (if_bound t q (c == b'S') _ _ _
            (again_bound single search_start _ cs _ m refl (omega arith) (omega arith))
            (if_bound t q (c == b'X') _ _ _
              (again_bound single search_start _ cs _ m refl (omega arith) (omega arith))
              (if_bound t q (c == b'[') _ _ _
                (again_bound single search_alt _ cs _ m refl (omega arith) (omega arith)) tt)))

    repeated_bound :
        (single : Bool) (n : ℕ) (re : List ℕ) (r : Converted q.Spec)
        → suc (n + n) < bound
        → IsBounded n r
        → IsBounded n (repeated t q self single re r)
    unfolding repeated
    repeated_bound single n re failed h b = tt
    repeated_bound single n re no_fuel h b = b
    repeated_bound single n re asserts h b = b
    repeated_bound single n re (converted [] p m) h b = b
    repeated_bound single n re (converted (x ∷ temp) p m) h b =
        again_bound single search_start n p _ m refl b (omega (arith, b))

    alternative_bound :
        (single : Bool) (n : ℕ) (re : List ℕ) (r : Converted q.Spec)
        → suc (suc (n + n)) < bound
        → IsBounded (suc n) r
        → IsBounded (suc n) (alternative t q self single re r)
    unfolding alternative
    alternative_bound single n re failed h b = tt
    alternative_bound single n re no_fuel h b = b
    alternative_bound single n re asserts h b = b
    alternative_bound single n re (converted [] p m) h b = b
    alternative_bound single n re (converted (x ∷ temp) p m) h b =
        again_bound single search_alt (suc n) p _ m refl b (omega (arith, b))

    state_bound :
        (single : Bool) (s : SearchState) (c : ℕ) (cs re : List ℕ) (m : q.Spec)
        → is_read_in s ≡ true
        → suc (length cs + length cs) + weight s < bound
        → IsBounded (suc (length cs)) (in_state t q self single s c cs re m)
    unfolding in_state
    state_bound single search_start c cs re m k h = start_bound single c cs re m (omega arith)
    state_bound single search_escape c cs re m k h =
        again_bound single search_start _ (drop (more t q c) cs) _ m refl
          (omega (arith, drop_short t q (more t q c) c cs))
          (omega (arith, drop_short t q (more t q c) c cs))
    state_bound single search_not c cs re m k h =
        negated_bound single _ re _ (omega arith)
          (class2regexp_bound t q true search_start (c ∷ cs) m refl)
    state_bound single search_ctl_e c cs re m k h =
        ctl_e_bound single (ascii_toupper c) cs re m (omega arith)
    state_bound single search_many c cs re m k h =
        repeated_bound single _ re _ (omega arith)
          (ih true search_start (c ∷ cs) [] m refl (omega arith))
    state_bound single search_alt c cs re m k h =
        if_bound t q (c == b',') _ _ _
          (again_bound single search_alt _ cs _ m refl (omega arith) (omega arith))
          (if_bound t q (c == b']') _ _ _
            (again_bound single search_start _ cs _ m refl (omega arith) (omega arith))
            (alternative_bound single (length cs) re _ (omega arith)
              (ih true search_start (c ∷ cs) [] m refl (omega arith))))
    state_bound single search_ctl c cs re m k h = absurd cc
    state_bound single search_anyq c cs re m k h = absurd cc

    with_class_bound :
        (single : Bool) (n k : ℕ) (re : List ℕ) (r : ClassResult q.Spec)
        → n + n + k ≤ bound
        → ClassBound n k r
        → IsBounded n (with_class t q self single re r)
    unfolding with_class
    with_class_bound single n k re class_error h b = tt
    with_class_bound single n k re class_no_fuel h b = absurd b
    with_class_bound single n k re (class_done (x ∷ temp) s p m) h b =
        let (begun, weighs) = start_lem t q s b.0 in
        asserted_bound t q (is_search_start s) n _ b.0 (
          again_bound single s n p (re ++ (b'[' ∷ x ∷ (temp ++ (b']' ∷ [])))) m begun
            (omega (arith, b.1)) (omega (arith, b.1, weighs)))
    with_class_bound single n k re (class_done [] s [] m) h b =
        finish_bound t q s n [] re m (omega arith)
    with_class_bound single n k re (class_done [] s (c ∷ cs) m) h b =
        weaken_bound t q n (suc (length cs)) (in_state t q self single s c cs re m) b.1
          (state_bound single s c cs re m b.2 (omega (arith, b.0)))

    round_bound :
        (single : Bool) (s : SearchState) (p re : List ℕ) (m : q.Spec)
        → is_begun_in s ≡ true
        → length p + length p + weight s ≤ bound
        → IsBounded (length p) (round t q self single s p re m)
    unfolding round
    round_bound single search_start p re m k h =
        with_class_bound single _ 1 re _ h (class2regexp_bound t q false search_start p m refl)
    round_bound single search_ctl p re m k h =
        subst (λ n. IsBounded n (round t q self single search_ctl p re m)) (ctl_first_lem t q p)
          (with_class_bound single _ 1 re _ (omega (arith, ctl_first_lem t q p))
            (class2regexp_bound t q false search_start (ctl_first p) m refl))
    round_bound single search_escape p re m k h =
        with_class_bound single _ 0 re _ h (class2regexp_bound t q false search_escape p m refl)
    round_bound single search_not p re m k h =
        with_class_bound single _ 2 re _ h (class2regexp_bound t q false search_not p m refl)
    round_bound single search_ctl_e p re m k h =
        with_class_bound single _ 2 re _ h (class2regexp_bound t q false search_ctl_e p m refl)
    round_bound single search_many p re m k h =
        with_class_bound single _ 2 re _ h (class2regexp_bound t q false search_many p m refl)
    round_bound single search_alt p re m k h =
        with_class_bound single _ 2 re _ h (class2regexp_bound t q false search_alt p m refl)
    round_bound single search_anyq p re m k h = absurd cc

  convert_bound :
      (fuel : ℕ) (single : Bool) (s : SearchState) (p re : List ℕ) (m : q.Spec)
      → is_begun_in s ≡ true
      → length p + length p + weight s < fuel
      → IsBounded (length p) (pattern_loop t q fuel single s p re m)
  unfolding pattern_loop
  convert_bound zero single s p re m k h = absurd (omega arith)
  convert_bound (suc fuel) single s p re m k h =
      round_bound (pattern_loop t q fuel) fuel
        (λ b s' p' re' m' k' h'. convert_bound fuel b s' p' re' m' k' h') single s p re m k
        (omega arith)

  -- The translation of every search pattern, with whatever machine for names of registers, ends
  -- with a regular expression or with an error, its assertions on the state hold, and it leaves a
  -- pattern that is shorter by at least a byte if a regular expression is written.
  pub pattern2regexp-IsBounded :
      (pattern : List ℕ) (m : q.Spec) → IsBounded (length pattern) (pattern2regexp t q pattern m)
  unfolding pattern2regexp
  pattern2regexp-IsBounded pattern m =
      convert_bound (suc (suc (length pattern + length pattern))) false search_start pattern [] m
        refl (omega arith)
