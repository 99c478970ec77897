-- ===== src/Cmdline/OneKey.antt =====
-- src/cmdline.c: what one key leaves behind.
use sciteco.Prelude.{
  ℕ, suc, ◌≡◌, refl, sym, Bool, true, false, if◌then◌else◌, Bool-cases, inl, inr, [], ◌∷◌, arith,
  subst,
}
use sciteco.Editor.{State}
use sciteco.Expressions.Stacks.{Run, ok, err, crash, no_fuel}
use sciteco.Cmdline.{
  Machine, Typed, Pressed, pressed, quits, traps, rubout, is_macro_return, is_returning,
  is_state_start, insert_text, terminate, press_next, settle, insert_key, returns, keypress_loop,
  keypress,
}
use sciteco.Cmdline.Keys.{
  IsIdle, Keeps, RunKeeps, failed-Keeps, terminated-IsIdle, effective_len-insert_text,
  insert-RunKeeps,
}

module _ {K : Type 0} (m : Machine K) where
  -- What one key leaves that returns, or that does not.
  unfoldable pub OneKey : ℕ → State → Bool → Pressed K → Type 0
  OneKey n s b quits = Unit
  OneKey n s b traps = Unit
  OneKey n s false (pressed t' s') = Keeps m n s t' s'
  OneKey n s true (pressed t' s') = (t'.effective_len ≡ 0) × IsIdle 0 s'

  settle-OneKey :
      (n : ℕ) (t : Typed K) (s : State) (r : Run (Unit {0}))
      → t.effective_len ≡ suc n
      → RunKeeps m n s r
      → OneKey n s (is_returning r) (settle m n t r (keypress_loop m []))
  unfolding OneKey settle RunKeeps keypress_loop terminate
  settle-OneKey n t s (ok x u) e k = record {
    idle = subst (λ (j : ℕ). IsIdle j u) (sym e) k.0;
    longer = omega (arith, e);
    agrees = k.1;
  }
  settle-OneKey n t s crash e k = tt
  settle-OneKey n t s no_fuel e k = tt
  settle-OneKey n t s (err x u) e k = by_flag (is_macro_return x)
    where
      by_flag :
          (f : Bool)
          → OneKey n s f (
              if f
              then press_next m (keypress_loop m [] 0) (terminate m t u)
              else pressed (record t { effective_len = n }) (rubout n u))
      by_flag false = failed-Keeps m n n t s s u (omega arith) (λ j h. refl) k.0 k.1
      by_flag true = elim (Bool-cases (is_state_start u.vars.current)) [
        | inr c ↦ rw (c, OneKey) tt
        | inl c ↦
            rw (c, OneKey)
              (elim (Bool-cases (m.wants_exit u)) [
                | inl q ↦ rw (q, OneKey) tt
                | inr q ↦ rw (q, OneKey) (refl, terminated-IsIdle u k.0)
              ])
      ]

  pub keypress-OneKey :
      (c : K) (t t' : Typed K) (s s' : State) (b : Bool)
      → IsIdle t.effective_len s
      → returns m c t s ≡ b
      → keypress m (c ∷ []) t s ≡ pressed t' s'
      → OneKey t.effective_len s b (pressed t' s')
  unfolding keypress keypress_loop
  keypress-OneKey c t t' s s' b i h e =
      subst (λ (d : Bool). OneKey t.effective_len s d (pressed t' s')) h
        (subst (λ o. OneKey t.effective_len s (returns m c t s) o) e
          (settle-OneKey t.effective_len (insert_text m (c ∷ []) t) s (insert_key m c t s)
            (effective_len-insert_text m c t) (insert-RunKeeps m t.effective_len t s c refl i)))
