-- ===== src/QregSpec/Alike.antt =====
-- src/qreg.c: the states of a machine that only parses a name, beside one that reads it.
use sciteco.Prelude.{
  ℕ, ◌+◌, ◌-◌, ◌≡◌, refl, ap, Bool, true, false, Option, none, some, List, ltb, ◌==◌, ◌||◌,
  if◌then◌else◌, Bool-cases, inl, inr,
}
use sciteco.Numbers.{ascii_toupper}
use sciteco.Building.{Glib, Register, SpecStatus, spec_done, SpecMachine, is_start_state, Building}
use sciteco.Building.Alike.{SkipsAlike, AlikeStatus}
use sciteco.Building.Skipping.{SameBuilding, AlikeBuilt, building_input-AlikeBuilt}
use sciteco.QregSpec.{
  SpecType, SpecState, spec_start, start_global, caret, firstchar, secondchar, in_string, SpecVars,
  Lookup, is_required, result_of, qregspec_done, add_name, start_global_input, qregspec_start_input,
  caret_input, firstchar_input, secondchar_input, name_built, build_name, string_input,
  spec_state_input,
}

module _ (g : Glib) (l : Lookup Register) (q : SpecMachine) (k : SkipsAlike q) where
  pub record SameSpecVars (v w : SpecVars q.Spec) : Type 0 where
    pub at_state : v.spec_state ≡ w.spec_state
    pub at_level : v.brackets ≡ w.brackets
    pub buildings : SameBuilding q k g v.building w.building

  unfoldable pub AlikeVars : SpecStatus (SpecVars q.Spec) → SpecStatus (SpecVars q.Spec) → Type 0
  unfolding AlikeStatus
  AlikeVars = AlikeStatus SameSpecVars

  if-AlikeVars :
      (t u : Bool) (x y a b : SpecStatus (SpecVars q.Spec))
      → t ≡ u
      → AlikeVars x a
      → AlikeVars y b
      → AlikeVars (if t then x else y) (if u then a else b)
  if-AlikeVars true true x y a b e h m = h
  if-AlikeVars false false x y a b e h m = m
  if-AlikeVars true false x y a b e h m = absurd cc
  if-AlikeVars false true x y a b e h m = absurd cc

  result-AlikeVars :
      (t : SpecType) (reg : Option Register) (v w : SpecVars q.Spec)
      → SameSpecVars v w
      → AlikeVars (result_of t v reg) (spec_done none (record w { spec_state = spec_start }))
  unfolding result_of AlikeVars
  result-AlikeVars t (some reg) v w h = record {
    at_state = refl;
    at_level = h.at_level;
    buildings = h.buildings;
  }
  result-AlikeVars t none v w h = elim (Bool-cases (is_required t)) [
    | inl e ↦ rw (e, result_of) tt
    | inr e ↦
        rw (e, result_of)
          (record { at_state = refl; at_level = h.at_level; buildings = h.buildings })
  ]

  done-AlikeVars :
      (v w : SpecVars q.Spec)
      → SameSpecVars v w
      → AlikeVars (qregspec_done g l q false v) (qregspec_done g l q true w)
  unfolding qregspec_done
  done-AlikeVars v w h = result-AlikeVars l.spec_type _ v w h

  named :
      (chr : ℕ) (v w : SpecVars q.Spec)
      → SameSpecVars v w
      → SameSpecVars (add_name g l q false chr v) (add_name g l q true chr w)
  unfolding add_name
  named chr v w h = record { at_state = h.at_state; at_level = h.at_level; buildings = h.buildings }

  global-AlikeVars :
      (chr : ℕ) (v w : SpecVars q.Spec)
      → SameSpecVars v w
      → AlikeVars (start_global_input g l q false chr v) (start_global_input g l q true chr w)
  unfolding start_global_input AlikeVars
  global-AlikeVars chr v w h =
      if-AlikeVars (chr == b'^') _ _ _ _ _ refl
        (record { at_state = refl; at_level = h.at_level; buildings = h.buildings })
        (if-AlikeVars (chr == b'#') _ _ _ _ _ refl
          (record { at_state = refl; at_level = h.at_level; buildings = h.buildings })
          (if-AlikeVars (chr == b'[') _ _ _ _ _ refl
            (record {
              at_state = refl;
              at_level = ap (λ n. n + 1) h.at_level;
              buildings = h.buildings;
            })
            (done-AlikeVars _ _ (named (g.unichar_toupper chr) v w h))))

  name_built-AlikeVars :
      (v w : SpecVars q.Spec) (x y : Option (Building q.Spec × Option (List ℕ)))
      → SameSpecVars v w
      → AlikeBuilt q k g x y
      → AlikeVars (name_built g l q v x) (name_built g l q w y)
  unfolding name_built AlikeBuilt AlikeVars
  name_built-AlikeVars v w none y h m = tt
  name_built-AlikeVars v w (some (b, some s)) (some (c, none)) h m = record {
    at_state = refl;
    at_level = h.at_level;
    buildings = m;
  }
  name_built-AlikeVars v w (some (b, none)) y h m = absurd m
  name_built-AlikeVars v w (some (b, some s)) none h m = absurd m
  name_built-AlikeVars v w (some (b, some s)) (some (c, some r)) h m = absurd m

  build-AlikeVars :
      (chr n m : ℕ) (v w : SpecVars q.Spec)
      → SameSpecVars v w
      → n ≡ m
      → AlikeVars
          (build_name g l q false chr (record v { brackets = n }))
          (build_name g l q true chr (record w { brackets = m }))
  unfolding build_name
  build-AlikeVars chr n m v w h e =
      name_built-AlikeVars _ _ _ _
        (record { at_state = h.at_state; at_level = e; buildings = h.buildings })
        (building_input-AlikeBuilt q k g chr v.name v.building w.building h.buildings)

  string-AlikeVars :
      (chr : ℕ) (v w : SpecVars q.Spec)
      → SameSpecVars v w
      → AlikeVars (string_input g l q false chr v) (string_input g l q true chr w)
  unfolding string_input
  string-AlikeVars chr v w h =
      if-AlikeVars (is_start_state v.building.current) _ _ _ _ _
        (ap is_start_state h.buildings.states)
        (if-AlikeVars (chr == b'[') _ _ _ _ _ refl
          (build-AlikeVars chr _ _ v w h (ap (λ n. n + 1) h.at_level))
          (if-AlikeVars (chr == b']') _ _ _ _ _ refl
            (if-AlikeVars (v.brackets - 1 == 0) _ _ _ _ _ (ap (λ n. n - 1 == 0) h.at_level)
              (done-AlikeVars _ _ (record {
                at_state = h.at_state;
                at_level = ap (λ n. n - 1) h.at_level;
                buildings = h.buildings;
              }))
              (build-AlikeVars chr _ _ v w h (ap (λ n. n - 1) h.at_level)))
            (build-AlikeVars chr _ _ v w h h.at_level)))
        (build-AlikeVars chr _ _ v w h h.at_level)

  pub spec_state-AlikeVars :
      (s : SpecState) (chr : ℕ) (v w : SpecVars q.Spec)
      → SameSpecVars v w
      → AlikeVars (spec_state_input g l q s false chr v) (spec_state_input g l q s true chr w)
  unfolding spec_state_input qregspec_start_input caret_input firstchar_input secondchar_input
      AlikeVars
  spec_state-AlikeVars spec_start chr v w h =
      if-AlikeVars (chr == b'.') _ _ _ _ _ refl
        (record { at_state = refl; at_level = h.at_level; buildings = h.buildings })
        (global-AlikeVars chr v w h)
  spec_state-AlikeVars start_global chr v w h = global-AlikeVars chr v w h
  spec_state-AlikeVars caret chr v w h =
      if-AlikeVars (ltb (ascii_toupper chr) b'@' || ltb b'_' (ascii_toupper chr)) _ _ _ _ _ refl tt
        (done-AlikeVars _ _ (named _ v w h))
  spec_state-AlikeVars firstchar chr v w h =
      let n = named (g.unichar_toupper chr) v w h in
      record { at_state = refl; at_level = n.at_level; buildings = n.buildings }
  spec_state-AlikeVars secondchar chr v w h = done-AlikeVars _ _ (named _ v w h)
  spec_state-AlikeVars in_string chr v w h = string-AlikeVars chr v w h
