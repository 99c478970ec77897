-- ===== src/QregSpec/Skipping.antt =====
-- src/qreg.c: names of registers that are only parsed.
use sciteco.Prelude.{ℕ, zero, suc, ◌≡◌, refl, subst, Bool, true, false, Option, none, some, List}
use sciteco.Building.{Glib, Register, SpecMachine, Building}
use sciteco.Building.Input.{building_reset, reset_spec}
use sciteco.Building.Alike.{SkipsAlike, AlikeStatus, SameSpec}
use sciteco.Building.Skipping.{SameBuilding}
use sciteco.StringArg.{StringArg}
use sciteco.StringArg.Scanning.{scan_end, scan}
use sciteco.StringArg.Skipping.{SameArg, Skips, scan-Skips}
use sciteco.QregSpec.{
  SpecVars, Lookup, spec_state_input, qregspec_input, qregspec_new, qregspec_reset, qregspec,
  no_qregspec, nested,
}
use sciteco.QregSpec.Alike.{SameSpecVars, AlikeVars, spec_state-AlikeVars}

module _ (g : Glib) (l : Lookup Register) (q : SpecMachine) (k : SkipsAlike q) where
  reset-SameSpec :
      (x y : Option q.Spec) → SameSpec q k x y → SameSpec q k (reset_spec g q x) (reset_spec g q y)
  unfolding reset_spec SameSpec
  reset-SameSpec none none h = tt
  reset-SameSpec none (some t) h = absurd h
  reset-SameSpec (some s) none h = absurd h
  reset-SameSpec (some s) (some t) h = k.reset_lem s t h

  pub reset-SameBuilding :
      (b c : Building q.Spec)
      → SameBuilding q k g b c
      → SameBuilding q k g (building_reset g q b) (building_reset g q c)
  unfolding building_reset
  reset-SameBuilding b c h = record {
    states = refl;
    same = record {
      disabled = refl;
      ends_by = h.same.ends_by;
      specs = reset-SameSpec b.spec c.spec h.same.specs;
    };
    enabled_in = refl;
  }

  new-SameSpecVars : SameSpecVars g l q k (qregspec_new g l q) (qregspec_new g l q)
  unfolding qregspec_new SameSpec
  new-SameSpecVars = record {
    at_state = refl;
    at_level = refl;
    buildings = record {
      states = refl;
      same = record { disabled = refl; ends_by = refl; specs = tt };
      enabled_in = refl;
    };
  }

  reset-SameSpecVars :
      (v w : SpecVars q.Spec)
      → SameSpecVars g l q k v w
      → SameSpecVars g l q k (qregspec_reset g l q v) (qregspec_reset g l q w)
  unfolding qregspec_reset
  reset-SameSpecVars v w h = record {
    at_state = refl;
    at_level = refl;
    buildings = reset-SameBuilding v.building w.building h.buildings;
  }

  input-AlikeVars :
      (chr : ℕ) (v w : SpecVars q.Spec)
      → SameSpecVars g l q k v w
      → AlikeVars g l q k (qregspec_input g l q false chr v) (qregspec_input g l q true chr w)
  unfolding qregspec_input
  input-AlikeVars chr v w h =
      subst
        (λ s.
          AlikeVars g l q k (spec_state_input g l q v.spec_state false chr v)
            (spec_state_input g l q s true chr w))
        h.at_state (spec_state-AlikeVars g l q k v.spec_state chr v w h)

  pub qregspec-SkipsAlike : SkipsAlike (qregspec g l q)
  unfolding qregspec AlikeVars
  qregspec-SkipsAlike = record {
    Same = SameSpecVars g l q k;
    new_lem = new-SameSpecVars;
    reset_lem = reset-SameSpecVars;
    input_lem = input-AlikeVars;
  }

no_qregspec-SkipsAlike : SkipsAlike no_qregspec
unfolding no_qregspec AlikeStatus
no_qregspec-SkipsAlike = record {
  Same = λ a b. Unit {0};
  new_lem = tt;
  reset_lem = λ a b h. tt;
  input_lem = λ chr a b h. tt;
}

-- However deep names are nested, a name that is only parsed ends where it ends otherwise.
pub nested-SkipsAlike : (g : Glib) (l : Lookup Register) (n : ℕ) → SkipsAlike (nested g l n)
unfolding nested
nested-SkipsAlike g l zero = no_qregspec-SkipsAlike
nested-SkipsAlike g l (suc n) = qregspec-SkipsAlike g l (nested g l n) (nested-SkipsAlike g l n)

-- If a text, read as a string argument in normal mode, ends it without an error, then read from the
-- same place in a mode that only parses it ends it at the same character, without an error and
-- without adding to the string, whatever names of registers and string building it contains. Names
-- of registers that are built from registers are nested up to any depth that is given.
pub scan-nested :
    (g : Glib) (l : Lookup Register) (n : ℕ) (building : Bool) (cs rest : List ℕ)
    (a c a' : StringArg (nested g l n).Spec)
    → SameArg g (nested g l n) (nested-SkipsAlike g l n) a c
    → scan g (nested g l n) building true cs a ≡ scan_end a' rest
    → Skips g (nested g l n) (nested-SkipsAlike g l n) building cs c a' rest
scan-nested g l n building cs rest a c a' h e =
    scan-Skips g (nested g l n) (nested-SkipsAlike g l n) building cs rest a c a' h e
