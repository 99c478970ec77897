-- ===== src/Building/Skipping.antt =====
-- src/parser.c: the string building machine in parse-only mode, beside one that builds a string.
use sciteco.Prelude.{
  ℕ, ◌≡◌, refl, subst, Bool, true, false, not, Option, none, some, List, [], ◌++◌, length, ◌==◌,
  ◌||◌, if◌then◌else◌, Bool-cases, Option-cases, inl, inr, arith,
}
use sciteco.Numbers.{ascii_toupper}
use sciteco.Building.{
  Glib, Register, SpecStatus, spec_error, spec_more, spec_done, SpecMachine, mode_upper, mode_lower,
  BuildState, start, ctl, escaped, lower, lower_ctl, upper, upper_ctl, ctle, ctle_num, ctle_u,
  ctle_code, ctle_q, ctle_quote, ctle_n, Building, Step, is_start_state, is_disabled, emit,
  ctl_input, append_c,
}
use sciteco.Building.Input.{
  Finish, finished, on_status, code_end, code_input, ctle_state, ctle_input, fresh_spec, spec_input,
  state_input, take_step, building_input, finish_num, finish_u, finish_q, finish_quote, finish_n,
}
use sciteco.Building.Alike.{
  AlikeStatus, SkipsAlike, SameSpec, SameRest, AlikeStep, escaped-AlikeStep, ctl_case-AlikeStep,
  case_ctl-AlikeStep, case-AlikeStep, start-AlikeStep,
}

module _ (q : SpecMachine) (k : SkipsAlike q) where
  module _ (g : Glib) where
    finished-AlikeStep :
        (finish : Finish q.Spec) (str : List ℕ) (b c : Building q.Spec) (x y : Option Register)
        → SameRest q k b c
        → AlikeStep q k (finished g finish b x (some str)) (finished g finish c y none)
    unfolding finished AlikeStep
    finished-AlikeStep finish str b c none y same = tt
    finished-AlikeStep finish str b c (some reg) y same = elim (Option-cases (finish b reg str)) [
      | inl e ↦ rw (e, finished) tt
      | inr (s, e) ↦ rw (e, finished) (refl, same, refl)
    ]

    status-AlikeStep :
        (state : BuildState) (finish : Finish q.Spec) (str : List ℕ) (b c : Building q.Spec)
        (x y : SpecStatus q.Spec)
        → SameRest q k b c
        → is_disabled b.mode ≡ false
        → AlikeStatus k.Same x y
        → AlikeStep q k
            (on_status g state finish b (some str) x)
            (on_status g state finish c none y)
    unfolding on_status AlikeStep AlikeStatus SameSpec
    status-AlikeStep state finish str b c spec_error y same live h = tt
    status-AlikeStep state finish str b c (spec_more s) (spec_more t) same live h = (
      refl,
      record { disabled = same.disabled; ends_by = same.ends_by; specs = h },
      rw live (ground arith),
    )
    status-AlikeStep state finish str b c (spec_done x s) (spec_done y t) same live h =
        finished-AlikeStep finish str _ _ x y
          (record { disabled = same.disabled; ends_by = same.ends_by; specs = h })
    status-AlikeStep state finish str b c (spec_more s) spec_error same live h = absurd h
    status-AlikeStep state finish str b c (spec_more s) (spec_done y t) same live h = absurd h
    status-AlikeStep state finish str b c (spec_done x s) spec_error same live h = absurd h
    status-AlikeStep state finish str b c (spec_done x s) (spec_more t) same live h = absurd h

    on_spec :
        (state : BuildState) (finish : Finish q.Spec) (chr : ℕ) (str : List ℕ)
        (b c : Building q.Spec) (x y : Option q.Spec)
        → SameRest q k b c
        → is_disabled b.mode ≡ false
        → SameSpec q k x y
        → AlikeStep q k
            (elim x [
              | none ↦ none
              | some s ↦ on_status g state finish b (some str) (q.input false chr s)
            ])
            (elim y [ none ↦ none | some s ↦ on_status g state finish c none (q.input true chr s) ])
    unfolding AlikeStep SameSpec
    on_spec state finish chr str b c none y same live h = tt
    on_spec state finish chr str b c (some s) none same live h = absurd h
    on_spec state finish chr str b c (some s) (some t) same live h =
        status-AlikeStep state finish str b c _ _ same live (k.input_lem chr s t h)

    spec-AlikeStep :
        (state : BuildState) (finish : Finish q.Spec) (chr : ℕ) (str : List ℕ)
        (b c : Building q.Spec)
        → SameRest q k b c
        → is_disabled b.mode ≡ false
        → AlikeStep q k
            (spec_input g q state finish chr b (some str))
            (spec_input g q state finish chr c none)
    unfolding spec_input
    spec-AlikeStep state finish chr str b c same live =
        on_spec state finish chr str b c b.spec c.spec same live same.specs

    code_end-AlikeStep :
        (str : List ℕ) (b c : Building q.Spec)
        → SameRest q k b c
        → AlikeStep q k (code_end g b str) (some (start, c, none))
    unfolding code_end AlikeStep
    code_end-AlikeStep str b c same =
        let (value, read, failed) = g.strtoll b.code in
        only_if (length b.code == 0) _ _ tt (
          only_if (failed || not (read == length b.code)) _ _ tt
            (appended (append_c g b.mode b.is_utf8 value)))
      where
        only_if :
            (t : Bool) (x y : Step q.Spec)
            → AlikeStep q k x (some (start, c, none))
            → AlikeStep q k y (some (start, c, none))
            → AlikeStep q k (if t then x else y) (some (start, c, none))
        only_if true x y h l = h
        only_if false x y h l = l

        appended :
            (o : Option (List ℕ))
            → AlikeStep q k
                (elim o [
                  | none ↦ none
                  | some bytes ↦ some (start, record b { code = [] }, some (str ++ bytes))
                ])
                (some (start, c, none))
        appended none = tt
        appended (some bytes) = (
          refl,
          record { disabled = same.disabled; ends_by = same.ends_by; specs = same.specs },
          refl,
        )

    code-AlikeStep :
        (chr : ℕ) (str : List ℕ) (b c : Building q.Spec)
        → SameRest q k b c
        → is_disabled b.mode ≡ false
        → AlikeStep q k (code_input g chr b (some str)) (code_input g chr c none)
    unfolding code_input AlikeStep
    code-AlikeStep chr str b c same live = elim (Bool-cases (chr == b'>')) [
      | inl e ↦ rw (e, code_input) (code_end-AlikeStep str b c same)
      | inr e ↦
          rw (e, code_input)
            (
              refl,
              record { disabled = same.disabled; ends_by = same.ends_by; specs = same.specs },
              rw live (ground arith),
            )
    ]

    fresh-SameSpec :
        (x y : Option q.Spec) → SameSpec q k x y → k.Same (fresh_spec g q x) (fresh_spec g q y)
    unfolding fresh_spec SameSpec
    fresh-SameSpec none none h = k.new_lem
    fresh-SameSpec none (some t) h = absurd h
    fresh-SameSpec (some s) none h = absurd h
    fresh-SameSpec (some s) (some t) h = k.reset_lem s t h

    ctle-AlikeStep :
        (chr : ℕ) (str : List ℕ) (b c : Building q.Spec)
        → SameRest q k b c
        → is_disabled b.mode ≡ false
        → AlikeStep q k (ctle_input g q chr b (some str)) (ctle_input g q chr c none)
    unfolding ctle_input AlikeStep emit SameSpec
    ctle-AlikeStep chr str b c same live =
        elim (Option-cases (ctle_state g q (ascii_toupper chr))) [
          | inl e ↦ rw (e, ctle_input) (refl, same, refl)
          | inr (next, e) ↦
              rw (e, ctle_input)
                (
                  refl,
                  record {
                    disabled = same.disabled;
                    ends_by = same.ends_by;
                    specs = fresh-SameSpec b.spec c.spec same.specs;
                  },
                  rw live (ground arith),
                )
        ]

    -- In any state but the first one, string building is enabled.
    state-AlikeStep :
        (s : BuildState) (chr : ℕ) (str : List ℕ) (b c : Building q.Spec)
        → SameRest q k b c
        → (is_start_state s || not (is_disabled b.mode)) ≡ true
        → AlikeStep q k (state_input g q s chr b (some str)) (state_input g q s chr c none)
    unfolding state_input ctl_input
    state-AlikeStep start chr str b c same e = start-AlikeStep q k g chr str b c same
    state-AlikeStep ctl chr str b c same e =
        ctl_case-AlikeStep q k g (ascii_toupper chr) str same (ground (arith, e))
    state-AlikeStep escaped chr str b c same e = escaped-AlikeStep q k g chr str same
    state-AlikeStep lower chr str b c same e =
        let live : is_disabled b.mode ≡ false = ground (arith, e) in
        case-AlikeStep q k g chr str same live b'V' mode_lower lower_ctl
          (λ n. case_ctl-AlikeStep q k g n str same live b'V' mode_lower refl)
    state-AlikeStep lower_ctl chr str b c same e =
        case_ctl-AlikeStep q k g chr str same (ground (arith, e)) b'V' mode_lower refl
    state-AlikeStep upper chr str b c same e =
        let live : is_disabled b.mode ≡ false = ground (arith, e) in
        case-AlikeStep q k g chr str same live b'W' mode_upper upper_ctl
          (λ n. case_ctl-AlikeStep q k g n str same live b'W' mode_upper refl)
    state-AlikeStep upper_ctl chr str b c same e =
        case_ctl-AlikeStep q k g chr str same (ground (arith, e)) b'W' mode_upper refl
    state-AlikeStep ctle chr str b c same e = ctle-AlikeStep chr str b c same (ground (arith, e))
    state-AlikeStep ctle_num chr str b c same e =
        spec-AlikeStep ctle_num (finish_num g) chr str b c same (ground (arith, e))
    state-AlikeStep ctle_u chr str b c same e =
        spec-AlikeStep ctle_u (finish_u g) chr str b c same (ground (arith, e))
    state-AlikeStep ctle_code chr str b c same e =
        code-AlikeStep chr str b c same (ground (arith, e))
    state-AlikeStep ctle_q chr str b c same e =
        spec-AlikeStep ctle_q (finish_q g) chr str b c same (ground (arith, e))
    state-AlikeStep ctle_quote chr str b c same e =
        spec-AlikeStep ctle_quote (finish_quote g) chr str b c same (ground (arith, e))
    state-AlikeStep ctle_n chr str b c same e =
        spec-AlikeStep ctle_n (finish_n g) chr str b c same (ground (arith, e))

    -- Two machines in the same state, of which one builds a string and the other only parses.
    pub record SameBuilding (b c : Building q.Spec) : Type 0 where
      pub states : b.current ≡ c.current
      pub same : SameRest q k b c
      pub enabled_in : (is_start_state b.current || not (is_disabled b.mode)) ≡ true

    unfoldable pub AlikeBuilt :
        Option (Building q.Spec × Option (List ℕ))
        → Option (Building q.Spec × Option (List ℕ))
        → Type 0
    AlikeBuilt none y = Unit {0}
    AlikeBuilt (some (b, some str)) (some (c, none)) = SameBuilding b c
    AlikeBuilt (some x) y = ⊥

    take-AlikeBuilt :
        (x y : Step q.Spec) → AlikeStep q k x y → AlikeBuilt (take_step g q x) (take_step g q y)
    unfolding take_step AlikeStep AlikeBuilt
    take-AlikeBuilt none y h = tt
    take-AlikeBuilt (some (s, b, some str)) (some (t, c, none)) (e, same, on) = record {
      states = e;
      same = record { disabled = same.disabled; ends_by = same.ends_by; specs = same.specs };
      enabled_in = on;
    }
    take-AlikeBuilt (some (s, b, none)) y h = absurd h
    take-AlikeBuilt (some (s, b, some str)) none h = absurd h
    take-AlikeBuilt (some (s, b, some str)) (some (t, c, some r)) h = absurd h

    -- An input without an error leaves two machines in the same state.
    pub building_input-AlikeBuilt :
        (chr : ℕ) (str : List ℕ) (b c : Building q.Spec)
        → SameBuilding b c
        → AlikeBuilt (building_input g q chr b (some str)) (building_input g q chr c none)
    unfolding building_input
    building_input-AlikeBuilt chr str b c h = take-AlikeBuilt _ _ (
        subst
          (λ s.
            AlikeStep q k (state_input g q b.current chr b (some str))
              (state_input g q s chr c none))
          h.states (state-AlikeStep b.current chr str b c h.same h.enabled_in))
