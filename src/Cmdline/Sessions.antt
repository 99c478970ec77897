-- ===== src/Cmdline/Sessions.antt =====
-- src/cmdline.c: sessions of keys and rubouts, and the variables at each position of the command
-- line.
use sciteco.Prelude.{
  true, false, ℕ, suc, ◌-◌, ◌≤◌, ◌<◌, ◌≡◌, refl, sym, ap, ◌∙◌, ◌⊎◌, inl, inr, some, List, [], ◌∷◌,
  arith, subst, length, get_elem?, lt→ltb,
}
use sciteco.Undo.Reverts.{vars_at}
use sciteco.Editor.{Vars, act, State}
use sciteco.Cmdline.{Machine, Typed, pressed, rubout, returns, keypress, rubout_key}
use sciteco.Cmdline.Keys.{IsIdle, Agrees, Keeps, vars_at-idle, rubout-IsIdle, rubout-Agrees}
use sciteco.Cmdline.OneKey.{OneKey, keypress-OneKey}

module _ {K : Type 0} (m : Machine K) where
  -- How a session can come about, with the variables after each key of the present command line,
  -- the latest first: keys that succeed, keys that fail, keys that return and so terminate the command
  -- line, and keys that are rubbed out.
  pub data Reached : Typed K → State → List Vars → Type 0 where
    begin : {t : Typed K} {s : State} → t.effective_len ≡ 0 → IsIdle 0 s → Reached t s (s.vars ∷ [])
    typed :
        {t t' : Typed K} {s s' : State} {vs : List Vars} (c : K)
        → Reached t s vs
        → returns m c t s ≡ false
        → keypress m (c ∷ []) t s ≡ pressed t' s'
        → t'.effective_len ≡ suc t.effective_len
        → Reached t' s' (s'.vars ∷ vs)
    failed :
        {t t' : Typed K} {s s' : State} {vs : List Vars} (c : K)
        → Reached t s vs
        → returns m c t s ≡ false
        → keypress m (c ∷ []) t s ≡ pressed t' s'
        → t'.effective_len ≡ t.effective_len
        → Reached t' s' vs
    returned :
        {t t' : Typed K} {s s' : State} {vs : List Vars} (c : K)
        → Reached t s vs
        → returns m c t s ≡ true
        → keypress m (c ∷ []) t s ≡ pressed t' s'
        → Reached t' s' (s'.vars ∷ [])
    rubbed_out :
        {t : Typed K} {s : State} {v : Vars} {vs : List Vars}
        → Reached t s (v ∷ vs)
        → 0 < t.effective_len
        → Reached (rubout_key t s).0 (rubout_key t s).1 vs

  -- Every position of the command line has its snapshot.
  pub record Snapshots (n : ℕ) (s : State) (vs : List Vars) : Type 0 where
    pub idle : IsIdle n s
    pub count : length vs ≡ suc n
    pub at : (k : ℕ) → k ≤ n → get_elem? vs (n - k) ≡ some (vars_at act k s)

  at-begin :
      (k : ℕ) (s : State)
      → IsIdle 0 s
      → k ≡ 0
      → get_elem? (s.vars ∷ []) (0 - k) ≡ some (vars_at act k s)
  at-begin k s i e = rw e (ap some (sym (vars_at-idle 0 s i)))

  Snapshots-begin : (s : State) → IsIdle 0 s → Snapshots 0 s (s.vars ∷ [])
  Snapshots-begin s i = record { idle = i; count = refl; at = λ k h. at-begin k s i (omega arith) }

  at-typed :
      (n k : ℕ) (s s' : State) (vs : List Vars)
      → IsIdle (suc n) s'
      → Agrees n s s'
      → Snapshots n s vs
      → k ≤ n ⊎ (k ≡ suc n)
      → get_elem? (s'.vars ∷ vs) (suc n - k) ≡ some (vars_at act k s')
  at-typed n k s s' vs i a h (inl below) = rw suc_sub (h.at k below ∙ ap some (sym (a k below)))
    where
      suc_sub : suc n - k ≡ suc (n - k)
      suc_sub = omega arith
  at-typed n k s s' vs i a h (inr last) =
      rw (last, self) (ap some (sym (vars_at-idle (suc n) s' i)))
    where
      self : suc n - suc n ≡ 0
      self = omega arith

  Snapshots-typed :
      (n : ℕ) (s : State) (vs : List Vars) (t' : Typed K) (s' : State)
      → t'.effective_len ≡ suc n
      → Keeps m n s t' s'
      → Snapshots n s vs
      → Snapshots (suc n) s' (s'.vars ∷ vs)
  Snapshots-typed n s vs t' s' e g h = record {
    idle = idle;
    count = ap suc h.count;
    at = λ k p. at-typed n k s s' vs idle g.agrees h (split k p);
  }
    where
      idle : IsIdle (suc n) s'
      idle = subst (λ (j : ℕ). IsIdle j s') e g.idle

      split : (k : ℕ) → k ≤ suc n → k ≤ n ⊎ (k ≡ suc n)
      split k p = omega arith

  Snapshots-rubbed_out :
      (n : ℕ) (s : State) (v : Vars) (vs : List Vars)
      → Snapshots (suc n) s (v ∷ vs)
      → Snapshots n (rubout n s) vs
  Snapshots-rubbed_out n s v vs h = record {
    idle = rubout-IsIdle n s h.idle.on;
    count = omega (arith, h.count);
    at = λ k p. get_elem?-tail k p ∙ h.at k (omega arith) ∙ ap some (sym (rubout-Agrees n s k p));
  }
    where
      get_elem?-tail : (k : ℕ) → k ≤ n → get_elem? vs (n - k) ≡ get_elem? (v ∷ vs) (suc n - k)
      get_elem?-tail k p = rw (suc_sub k p) refl
        where
          suc_sub : (k : ℕ) → k ≤ n → suc n - k ≡ suc (n - k)
          suc_sub k h = omega arith

  -- However a session came about by typing keys that succeed, that fail or that return and so
  -- terminate the command line, and by rubbing out, the undo tokens do what a copy of the variables
  -- per key would do: for every position of the present command line, rubbing out down to it gives
  -- exactly the variables that were there when the command line had that length. The machine that
  -- executes the keys is one whose steps are taken back by their tokens.
  pub Reached-Snapshots :
      {t : Typed K} {s : State} {vs : List Vars} → Reached t s vs → Snapshots t.effective_len s vs
  unfolding rubout_key OneKey
  Reached-Snapshots (begin {t} {s} e i) =
      subst (λ (n : ℕ). Snapshots n s (s.vars ∷ [])) (sym e) (Snapshots-begin s i)
  Reached-Snapshots (typed {t} {t'} {s} {s'} {vs} c r b k e) =
      let h = Reached-Snapshots r in
      subst (λ (n : ℕ). Snapshots n s' (s'.vars ∷ vs)) (sym e)
        (Snapshots-typed t.effective_len s vs t' s' e
          (keypress-OneKey m c t t' s s' false h.idle b k) h)
  Reached-Snapshots (failed {t} {t'} {s} {s'} {vs} c r b k e) =
      let h = Reached-Snapshots r in
      let g = keypress-OneKey m c t t' s s' false h.idle b k in
      subst (λ (n : ℕ). Snapshots n s' vs) (sym e)
        (record {
          idle = subst (λ (n : ℕ). IsIdle n s') e g.idle;
          count = h.count;
          at = λ j p. h.at j p ∙ ap some (sym (g.agrees j p));
        })
  Reached-Snapshots (returned {t} {t'} {s} {s'} {vs} c r b k) =
      let h = Reached-Snapshots r in
      let (empty, idle) = keypress-OneKey m c t t' s s' true h.idle b k in
      subst (λ (n : ℕ). Snapshots n s' (s'.vars ∷ [])) (sym empty) (Snapshots-begin s' idle)
  Reached-Snapshots (rubbed_out {t} {s} {v} {vs} r p) = rw (lt→ltb 0 t.effective_len p) (
      Snapshots-rubbed_out (t.effective_len - 1) s v vs
        (subst (λ (n : ℕ). Snapshots n s (v ∷ vs)) whole_len (Reached-Snapshots r)))
    where
      whole_len : t.effective_len ≡ suc (t.effective_len - 1)
      whole_len = omega (arith, p)
