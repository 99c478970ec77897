-- ===== src/Undo/Reverts.antt =====
-- Interactive states: the editor's variables, the undo stack and the command line's program counter.
-- What it means that the tokens which a piece of code pushes take it back.
use sciteco.Prelude.{ℕ, suc, ◌≤◌, ◌≡◌, refl, ap, ◌∙◌, true, arith, length}
use sciteco.Undo.{Undo, push_size, pop}
use sciteco.Undo.Rubout.{state-pop-push_size, length-push_size, enabled-push_size}

pub record Session (A T : Type 0) : Type 0 where
  pub vars : A
  pub undo : Undo T
  pub pc : ℕ

module _ {A T : Type 0} where
  -- A variable is changed under the token that restores it.
  unfoldable pub change : T → A → Session A T → Session A T
  change t a s = record s { vars = a; undo = push_size t s.pc s.undo }

  -- Undo is enabled, and no token belongs to a later character of the command line.
  pub record IsReady (s : Session A T) : Type 0 where
    pub on : s.undo.enabled ≡ true
    pub fits : length s.undo.heads ≤ suc s.pc

module _ {A T : Type 0} (act : T → A → A) where
  -- The variables after a rubout down to position `k`.
  abbrev pub vars_at : ℕ → Session A T → A
  vars_at k s = (pop act k s.undo s.vars).1

-- `mask` puts other values into variables that the code does not touch; a rubout is to take the code
-- back whatever they hold.
module _ {A T M : Type 0} (act : T → A → A) (mask : M → A → A) where
  pub record Undoes (s s' : Session A T) : Type 0 where
    pub ready : IsReady s'
    pub same_pc : s'.pc ≡ s.pc
    pub rubout :
        (m : M) (k : ℕ)
        → k ≤ s.pc
        → (pop act k s'.undo (mask m s'.vars)).1 ≡ (pop act k s.undo (mask m s.vars)).1

  abbrev pub Reverts : Session A T → Session A T → Type 0
  Reverts s s' = IsReady s → Undoes s s'

  pub Reverts-refl : (s : Session A T) → Reverts s s
  Reverts-refl s r = record { ready = r; same_pc = refl; rubout = λ m k h. refl }

  pub Reverts-trans : {s t u : Session A T} → Reverts s t → Reverts t u → Reverts s u
  Reverts-trans {s} {t} {u} f g r =
      let a = f r in
      let b = g a.ready in
      record {
        ready = b.ready;
        same_pc = b.same_pc ∙ a.same_pc;
        rubout = λ m k h. b.rubout m k (rw a.same_pc h) ∙ a.rubout m k h;
      }

  -- A change leaves a state that is ready for the next one.
  pub change-IsReady : (t : T) (a : A) (s : Session A T) → IsReady s → IsReady (change t a s)
  unfolding change
  change-IsReady t a s r = record {
    on = enabled-push_size t s.pc s.undo ∙ r.on;
    fits = omega (arith, length-push_size t s.pc s.undo r.on r.fits);
  }

  -- A change is taken back if its token restores the variables.
  pub change-Reverts :
      (t : T) (a : A) (s : Session A T)
      → ((m : M) → act t (mask m a) ≡ mask m s.vars)
      → Reverts s (change t a s)
  unfolding change change-IsReady
  change-Reverts t a s e r = record {
    ready = change-IsReady t a s r;
    same_pc = refl;
    rubout = λ m k h.
        state-pop-push_size act t k s.pc s.undo (mask m a) r.on r.fits h
        ∙ ap (λ (v : A). (pop act k s.undo v).1) (e m);
  }
