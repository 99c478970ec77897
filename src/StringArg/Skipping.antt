-- ===== src/StringArg/Skipping.antt =====
-- src/parser.c: a string argument that is only parsed, beside one that is built.
use sciteco.Prelude.{
  ℕ, ◌+◌, ◌-◌, ◌≡◌, refl, sym, ap, subst, ◌∙◌, Bool, true, false, Option, none, some, List, [], ◌∷◌,
  ◌==◌, ◌&&◌, if◌then◌else◌,
}
use sciteco.Parser.Input.{is_noop}
use sciteco.Building.{Glib, SpecMachine, BuildState, is_start_state, Building}
use sciteco.Building.Alike.{SkipsAlike}
use sciteco.Building.Skipping.{SameBuilding, AlikeBuilt, building_input-AlikeBuilt}
use sciteco.StringArg.{
  StringArg, ArgStep, arg_error, arg_more, arg_end, count_nesting, built, collect, arg_step,
}
use sciteco.StringArg.Scanning.{Scan, scan_error, scan_end, scan}

module _ (g : Glib) (q : SpecMachine) (k : SkipsAlike q) where
  -- An argument that is built, and one that is only parsed, at the same place.
  pub record SameArg (a c : StringArg q.Spec) : Type 0 where
    pub levels : a.nesting ≡ c.nesting
    pub modified : a.modifier_at ≡ c.modifier_at
    pub machines : SameBuilding q k g a.machine c.machine

  -- The same, behind a step that leaves a string.
  record Behind (str : List ℕ) (a c : StringArg q.Spec) : Type 0 where
    pub same_arg : SameArg a c
    pub same_string : c.string ≡ str

  unfoldable AlikeArg : List ℕ → ArgStep q.Spec → ArgStep q.Spec → Type 0
  AlikeArg str arg_error y = Unit {0}
  AlikeArg str (arg_more a) (arg_more c) = Behind str a c
  AlikeArg str (arg_end a) (arg_end c) = Behind str a c
  AlikeArg str _ _ = ⊥

  abbrev count : ℕ → BuildState → ℕ → ℕ → ℕ
  count chr s escape_char nesting =
      if is_start_state s
      then if escape_char == b'{'
        then if chr == b'{' then nesting + 1 else if chr == b'}' then nesting - 1 else nesting
        else if g.unichar_toupper chr == escape_char
        then nesting - 1
        else nesting
      else nesting

  count-same :
      (chr : ℕ) (a c : StringArg q.Spec)
      → SameArg a c
      → count_nesting g chr a ≡ count_nesting g chr c
  unfolding count_nesting
  count-same chr a c h =
      ap (λ n. count chr a.machine.current a.machine.escape_char n) h.levels
      ∙ ap (λ e. count chr a.machine.current e c.nesting) h.machines.same.ends_by
      ∙ ap (λ s. count chr s c.machine.escape_char c.nesting) h.machines.states

  alike_if :
      (str : List ℕ) (t u : Bool) (x y v w : ArgStep q.Spec)
      → t ≡ u
      → AlikeArg str x v
      → AlikeArg str y w
      → AlikeArg str (if t then x else y) (if u then v else w)
  alike_if str true true x y v w e h l = h
  alike_if str false false x y v w e h l = l
  alike_if str true false x y v w e h l = absurd cc
  alike_if str false true x y v w e h l = absurd cc

  built-AlikeArg :
      (a c : StringArg q.Spec) (x y : Option (Building q.Spec × Option (List ℕ)))
      → SameArg a c
      → AlikeBuilt q k g x y
      → AlikeArg c.string (built g q a x) (built g q c y)
  unfolding built AlikeArg AlikeBuilt
  built-AlikeArg a c none y h l = tt
  built-AlikeArg a c (some (m, some s)) (some (n, none)) h l = record {
    same_arg = record { levels = h.levels; modified = h.modified; machines = l };
    same_string = refl;
  }
  built-AlikeArg a c (some (m, none)) y h l = absurd l
  built-AlikeArg a c (some (m, some s)) none h l = absurd l
  built-AlikeArg a c (some (m, some s)) (some (n, some r)) h l = absurd l

  collect-AlikeArg :
      (building : Bool) (chr : ℕ) (a c : StringArg q.Spec)
      → SameArg a c
      → AlikeArg c.string (collect g q building true chr a) (collect g q building false chr c)
  unfolding collect AlikeArg
  collect-AlikeArg true chr a c h =
      built-AlikeArg a c _ _ h
        (building_input-AlikeBuilt q k g chr a.string a.machine c.machine h.machines)
  collect-AlikeArg false chr a c h = record {
    same_arg = record { levels = h.levels; modified = h.modified; machines = h.machines };
    same_string = refl;
  }

  arg_step-AlikeArg :
      (building : Bool) (chr : ℕ) (a c : StringArg q.Spec)
      → SameArg a c
      → AlikeArg c.string (arg_step g q building true chr a) (arg_step g q building false chr c)
  unfolding arg_step AlikeArg
  arg_step-AlikeArg building chr a c h =
      alike_if c.string (a.modifier_at && is_noop chr) _ _ _ _ _
        (ap (λ m. m && is_noop chr) h.modified) (record { same_arg = h; same_string = refl })
        (alike_if c.string a.modifier_at _ _ _ _ _ h.modified
          (record {
            same_arg = record { levels = h.levels; modified = refl; machines = delimited };
            same_string = refl;
          })
          (alike_if c.string (count_nesting g chr a == 0) _ _ _ _ _
            (ap (λ n. n == 0) (count-same chr a c h)) (record { same_arg = h; same_string = refl })
            (collect-AlikeArg building chr (record a { nesting = count_nesting g chr a })
              (record c { nesting = count_nesting g chr c })
              (record {
                levels = count-same chr a c h;
                modified = h.modified;
                machines = h.machines;
              }))))
    where
      delimited :
          SameBuilding q k g
            (record (a.machine) { escape_char = g.unichar_toupper chr })
            (record (c.machine) { escape_char = g.unichar_toupper chr })
      delimited = record {
        states = h.machines.states;
        same = record {
          disabled = h.machines.same.disabled;
          ends_by = refl;
          specs = h.machines.same.specs;
        };
        enabled_in = h.machines.enabled_in;
      }

  -- A text is only parsed up to `rest`, without an error, beside an argument that ends as `a`, and
  -- nothing is added to the string.
  pub record Skips (building : Bool) (cs : List ℕ) (c a : StringArg q.Spec) (rest : List ℕ)
      : Type 0 where
    pub ended : StringArg q.Spec
    pub scanned : scan g q building false cs c ≡ scan_end ended rest
    pub alike : SameArg a ended
    pub unchanged : ended.string ≡ c.string

  unfoldable goes_on : Bool → List ℕ → Bool → ArgStep q.Spec → Scan q.Spec
  unfolding scan
  goes_on building cs normally arg_error = scan_error
  goes_on building cs normally (arg_more a) = scan g q building normally cs a
  goes_on building cs normally (arg_end a) = scan_end a cs

  goes_on_lem :
      (building normally : Bool) (chr : ℕ) (cs : List ℕ) (a : StringArg q.Spec)
      → scan g q building normally (chr ∷ cs) a
        ≡ goes_on building cs normally (arg_step g q building normally chr a)
  unfolding scan goes_on
  goes_on_lem building normally chr cs a = by_step (arg_step g q building normally chr a)
    where
      by_step :
          (s : ArgStep q.Spec)
          → (elim s [
            | arg_error ↦ scan_error
            | arg_more a' ↦ scan g q building normally cs a'
            | arg_end a' ↦ scan_end a' cs
          ])
            ≡ goes_on building cs normally s
      by_step arg_error = refl
      by_step (arg_more a') = refl
      by_step (arg_end a') = refl

  behind_step :
      (building : Bool) (cs rest : List ℕ) (str : List ℕ) (a' : StringArg q.Spec)
      (x y : ArgStep q.Spec)
      → ((a c : StringArg q.Spec)
          → SameArg a c
          → scan g q building true cs a ≡ scan_end a' rest
          → Skips building cs c a' rest)
      → AlikeArg str x y
      → goes_on building cs true x ≡ scan_end a' rest
      → (e : StringArg q.Spec) × (goes_on building cs false y ≡ scan_end e rest)
        × SameArg a' e
        × (e.string ≡ str)
  unfolding goes_on AlikeArg
  behind_step building cs rest str a' arg_error y ih h e = absurd cc
  behind_step building cs rest str a' (arg_more a) (arg_more c) ih h e =
      let r = ih a c h.same_arg e in (r.ended, r.scanned, r.alike, r.unchanged ∙ h.same_string)
  behind_step building cs rest str a' (arg_end a) (arg_end c) ih h e =
      let same : a ≡ a' = cc in
      let behind : cs ≡ rest = cc in
      (c, ap (scan_end c) behind, subst (λ x. SameArg x c) same h.same_arg, h.same_string)
  behind_step building cs rest str a' (arg_more a) arg_error ih h e = absurd h
  behind_step building cs rest str a' (arg_more a) (arg_end c) ih h e = absurd h
  behind_step building cs rest str a' (arg_end a) arg_error ih h e = absurd h
  behind_step building cs rest str a' (arg_end a) (arg_more c) ih h e = absurd h

  -- What is read as an argument without an error is skipped in the other modes.
  pub scan-Skips :
      (building : Bool) (cs rest : List ℕ) (a c a' : StringArg q.Spec)
      → SameArg a c
      → scan g q building true cs a ≡ scan_end a' rest
      → Skips building cs c a' rest
  unfolding scan
  scan-Skips building [] rest a c a' h e = absurd cc
  scan-Skips building (chr ∷ cs) rest a c a' h e =
      let (e', scanned, alike, unchanged) =
        behind_step building cs rest c.string a' _ _ (λ b d. scan-Skips building cs rest b d a')
          (arg_step-AlikeArg building chr a c h) (sym (goes_on_lem building true chr cs a) ∙ e) in
      record {
        ended = e';
        scanned = goes_on_lem building false chr cs c ∙ scanned;
        alike = alike;
        unchanged = unchanged;
      }
