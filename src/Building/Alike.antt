-- ===== src/Building/Alike.antt =====
-- src/parser.c: what a string building machine in parse-only mode has in common with one that builds
-- a string, and the states without a register.
use sciteco.Prelude.{
  ℕ, ◌≡◌, refl, sym, ◌∙◌, Bool, true, false, not, Option, none, some, List, ltb, ◌==◌, ◌||◌,
  if◌then◌else◌, Bool-cases, inl, inr, arith,
}
use sciteco.Strings.{is_ctl}
use sciteco.Numbers.{ascii_toupper}
use sciteco.Building.{
  Glib, SpecStatus, spec_error, spec_more, spec_done, SpecMachine, BuildMode, BuildState, ctl,
  escaped, lower, upper, ctle, Building, Step, is_start_state, is_disabled, ctl_echo, emit,
  start_input, ctl_input, ctl_case, escaped_input, folding_input, case_ctl_input,
}

-- Of an input without an error, one that only parses does the same.
unfoldable pub AlikeStatus : {Q : Type 0} → (Q → Q → Type 0) → SpecStatus Q → SpecStatus Q → Type 0
AlikeStatus Same spec_error s = Unit {0}
AlikeStatus Same (spec_more a) (spec_more b) = Same a b
AlikeStatus Same (spec_done x a) (spec_done y b) = Same a b
AlikeStatus Same (spec_more a) _ = ⊥
AlikeStatus Same (spec_done x a) _ = ⊥

-- A machine for names of registers that reads the same characters when it only parses.
pub record SkipsAlike (q : SpecMachine) : Type 1 where
  pub Same : q.Spec → q.Spec → Type 0
  pub new_lem : Same q.new q.new
  pub reset_lem : (a b : q.Spec) → Same a b → Same (q.reset a) (q.reset b)
  pub input_lem :
      (chr : ℕ) (a b : q.Spec)
      → Same a b
      → AlikeStatus Same (q.input false chr a) (q.input true chr b)

module _ (q : SpecMachine) (k : SkipsAlike q) where
  unfoldable pub SameSpec : Option q.Spec → Option q.Spec → Type 0
  SameSpec none none = Unit {0}
  SameSpec none (some b) = ⊥
  SameSpec (some a) none = ⊥
  SameSpec (some a) (some b) = k.Same a b

  -- What two machines have in common beside their states.
  pub record SameRest (b c : Building q.Spec) : Type 0 where
    pub disabled : is_disabled b.mode ≡ is_disabled c.mode
    pub ends_by : b.escape_char ≡ c.escape_char
    pub specs : SameSpec b.spec c.spec

  -- A step that builds a string, and one that only parses.
  unfoldable pub AlikeStep : Step q.Spec → Step q.Spec → Type 0
  AlikeStep none y = Unit {0}
  AlikeStep (some (s, b, some str)) (some (t, c, none)) =
      (s ≡ t) × SameRest b c × ((is_start_state s || not (is_disabled b.mode)) ≡ true)
  AlikeStep (some x) y = ⊥

  alike_if :
      (t u : Bool) (x y v w : Step q.Spec)
      → t ≡ u
      → AlikeStep x v
      → AlikeStep y w
      → AlikeStep (if t then x else y) (if u then v else w)
  alike_if true true x y v w e h l = h
  alike_if false false x y v w e h l = l
  alike_if true false x y v w e h l = absurd cc
  alike_if false true x y v w e h l = absurd cc

  module _ (g : Glib) (chr : ℕ) (str : List ℕ) {b c : Building q.Spec} (same : SameRest b c) where
    pub escaped-AlikeStep :
        AlikeStep (escaped_input g chr b (some str)) (escaped_input g chr c none)
    unfolding AlikeStep escaped_input emit
    escaped-AlikeStep = (refl, same, refl)

    module _ (live : is_disabled b.mode ≡ false) where
      enabled : (s : BuildState) → (is_start_state s || not (is_disabled b.mode)) ≡ true
      enabled s = rw live (ground arith)

      pub ctl_case-AlikeStep : AlikeStep (ctl_case g chr b (some str)) (ctl_case g chr c none)
      unfolding AlikeStep ctl_case emit
      ctl_case-AlikeStep =
          alike_if (chr == b'^') _ _ _ _ _ refl (refl, same, refl)
            (alike_if (chr == b'P') _ _ _ _ _ refl
              (refl, record { disabled = refl; ends_by = same.ends_by; specs = same.specs }, refl)
              (alike_if ((chr == b'Q') || (chr == b'R')) _ _ _ _ _ refl
                (refl, same, enabled escaped)
                (alike_if (chr == b'V') _ _ _ _ _ refl (refl, same, enabled lower)
                  (alike_if (chr == b'W') _ _ _ _ _ refl (refl, same, enabled upper)
                    (alike_if (chr == b'E') _ _ _ _ _ refl (refl, same, enabled ctle)
                      (alike_if (ltb chr b'@' || ltb b'_' chr) _ _ _ _ _ refl (refl, same, refl)
                        (refl, same, refl)))))))

      pub case_ctl-AlikeStep :
          (letter : ℕ) (m : BuildMode)
          → is_disabled m ≡ false
          → AlikeStep
              (case_ctl_input g letter m chr b (some str))
              (case_ctl_input g letter m chr c none)
      unfolding AlikeStep case_ctl_input
      case_ctl-AlikeStep letter m e = elim (Bool-cases (ascii_toupper chr == letter)) [
        | inl h ↦
            rw (h, case_ctl_input)
              (
                refl,
                record {
                  disabled = e ∙ sym live ∙ same.disabled;
                  ends_by = same.ends_by;
                  specs = same.specs;
                },
                refl,
              )
        | inr h ↦ rw (h, case_ctl_input) (refl, same, refl)
      ]

      pub case-AlikeStep :
          (letter : ℕ) (m : BuildMode) (on_ctl : BuildState)
          → ((n : ℕ)
              → AlikeStep
                  (case_ctl_input g letter m n b (some str))
                  (case_ctl_input g letter m n c none))
          → AlikeStep
              (folding_input g letter m on_ctl chr b (some str))
              (folding_input g letter m on_ctl chr c none)
      unfolding AlikeStep folding_input emit
      case-AlikeStep letter m on_ctl h =
          alike_if (chr == b'^') _ _ _ _ _ refl (refl, same, enabled on_ctl)
            (alike_if (is_ctl chr) _ _ _ _ _ refl (h (ctl_echo chr)) (refl, same, refl))

  module _ (g : Glib) where
    pub start-AlikeStep :
        (chr : ℕ) (str : List ℕ) (b c : Building q.Spec)
        → SameRest b c
        → AlikeStep (start_input g chr b (some str)) (start_input g chr c none)
    unfolding start_input AlikeStep ctl_input
    start-AlikeStep chr str b c same = elim (Bool-cases (is_disabled b.mode)) [
      | inl d ↦
          rw (d, start_input)
            (rw (sym same.disabled ∙ d, start_input) (escaped-AlikeStep g chr str same))
      | inr e ↦
          rw (e, start_input)
            (rw (sym same.disabled ∙ e, start_input)
              (alike_if (chr == b'^') _ _ _ _ _ refl (refl, same, enabled g chr str same e ctl)
                (alike_if (chr == 30) _ _ _ _ _ refl (escaped-AlikeStep g chr str same) (
                  alike_if (is_ctl chr) _ _ _ _ _ refl
                    (ctl_case-AlikeStep g (ascii_toupper (ctl_echo chr)) str same e)
                    (escaped-AlikeStep g chr str same)))))
    ]
