-- ===== src/Cmdline/Keys.antt =====
-- src/cmdline.c: what typing a string of keys leaves behind, for a later rubout.
use sciteco.Prelude.{ℕ, suc, ◌≤◌, ◌≡◌, sym, ap, ◌∙◌, true, [], ◌∷◌, arith, subst, length}
use sciteco.Undo.{Undo}
use sciteco.Undo
use sciteco.Expressions.Eval
use sciteco.Undo.Rubout.{length-pop, pop_short, pop-pop, enabled-pop}
use sciteco.Undo.Reverts.{IsReady, vars_at}
use sciteco.Editor.{Vars, Token, act, State, whole}
use sciteco.Expressions.Stacks.{Run, ok, err, crash, no_fuel, ◌>>◌}
use sciteco.Expressions.Rubout.{RunReverts}
use sciteco.Cmdline.{
  Machine, Typed, Pressed, pressed, quits, traps, rubout, advance, seek, terminated, insert_loop,
  insert_text, insert_key,
}

-- Undo is enabled, and every token belongs to a key of the command line.
pub record IsIdle (n : ℕ) (s : State) : Type 0 where
  pub on : s.undo.enabled ≡ true
  pub fits : length s.undo.heads ≤ n

-- Down to position `n`, rubout gives what it gave in `s`.
abbrev pub Agrees : ℕ → State → State → Type 0
Agrees n s s' = (k : ℕ) → k ≤ n → vars_at act k s' ≡ vars_at act k s

pub vars_at-idle : (n : ℕ) (s : State) → IsIdle n s → vars_at act n s ≡ s.vars
vars_at-idle n s i = ap (λ (r : Undo Token × Vars). r.1) (pop_short act n s.undo s.vars i.fits)

pub rubout-IsIdle : (k : ℕ) (s : State) → s.undo.enabled ≡ true → IsIdle k (rubout k s)
unfolding rubout
rubout-IsIdle k s on = record {
  on = enabled-pop act k s.undo s.vars ∙ on;
  fits = length-pop act k s.undo s.vars;
}

pub rubout-Agrees : (k : ℕ) (s : State) → Agrees k s (rubout k s)
unfolding rubout
rubout-Agrees k s j h = pop-pop act j k s.undo s.vars h

-- What a return leaves: no tokens, and empty stacks.
pub record IsTerminated (s : State) : Type 0 where
  pub no_tokens : s.undo.heads ≡ []
  pub no_numbers : s.vars.numbers ≡ []
  pub no_operators : s.vars.operators ≡ []
  pub no_loops : s.vars.loop_stack ≡ []
  pub no_braces : s.vars.brace_level ≡ 0

pub terminated-IsIdle : (s : State) → s.undo.enabled ≡ true → IsIdle 0 (terminated s)
unfolding terminated Eval.clear Undo.clear
terminated-IsIdle s on = record { on = on; fits = omega arith }

module _ {K : Type 0} (m : Machine K) where
  -- What a key string leaves when it was typed behind `n` keys.
  pub record Keeps (n : ℕ) (s : State) (t' : Typed K) (s' : State) : Type 0 where
    pub idle : IsIdle t'.effective_len s'
    pub longer : n ≤ t'.effective_len
    pub agrees : Agrees n s s'

  seek-IsReady : (n : ℕ) (s : State) → IsIdle n s → IsReady (seek n s)
  unfolding seek
  seek-IsReady n s i = record { on = i.on; fits = omega (arith, i.fits) }

  -- The run of one key: it has succeeded and the next key has no tokens yet, or it has failed.
  unfoldable pub RunKeeps : ℕ → State → Run (Unit {0}) → Type 0
  RunKeeps n s (ok _ u) = IsIdle (suc n) u × Agrees n s u
  RunKeeps n s (err e u) = (u.undo.enabled ≡ true) × Agrees n s u
  RunKeeps n s crash = Unit
  RunKeeps n s no_fuel = Unit

  advance-RunKeeps :
      (n : ℕ) (s : State) (r : Run (Unit {0}))
      → IsIdle n s
      → RunReverts whole (seek n s) r
      → RunKeeps n s (r >> λ u. ok tt (advance u))
  unfolding RunKeeps RunReverts advance seek
  advance-RunKeeps n s (ok x u) i h =
      let g = h (seek-IsReady n s i) in
      (record { on = g.ready.on; fits = omega (arith, g.ready.fits, g.same_pc) }, g.rubout 0)
  advance-RunKeeps n s (err e u) i h = let g = h (seek-IsReady n s i) in (g.ready.on, g.rubout 0)
  advance-RunKeeps n s crash i h = tt
  advance-RunKeeps n s no_fuel i h = tt

  pub insert-RunKeeps :
      (n : ℕ) (t : Typed K) (s : State) (c : K)
      → t.effective_len ≡ n
      → IsIdle n s
      → RunKeeps n s (insert_key m c t s)
  unfolding insert_key insert_loop
  insert-RunKeeps n t s c e i =
      subst (λ (k : ℕ). RunKeeps n s (insert_loop m (c ∷ []) (seek k s))) (sym e)
        (advance-RunKeeps n s (m.step c (seek n s)) i (m.taken_back c (seek n s)))

  pub effective_len-insert_text :
      (c : K) (t : Typed K) → (insert_text m (c ∷ []) t).effective_len ≡ suc t.effective_len
  unfolding insert_text
  effective_len-insert_text c t = ground arith

  -- Agreement down to a position holds further down.
  Agrees-trans : (n k : ℕ) (s u v : State) → k ≤ n → Agrees k s u → Agrees n u v → Agrees k s v
  Agrees-trans n k s u v p f g j h = g j (omega arith) ∙ f j h

  -- What a key string leaves behind the last return in it, if there is one.
  pub data Leaves (n : ℕ) (s : State) (t' : Typed K) (s' : State) : Type 0 where
    kept : Keeps n s t' s' → Leaves n s t' s'
    returned : (u : State) → IsTerminated u → Keeps 0 u t' s' → Leaves n s t' s'

  LeavesAll : ℕ → State → Pressed K → Type 0
  LeavesAll n s (pressed t' s') = Leaves n s t' s'
  LeavesAll n s quits = Unit
  LeavesAll n s traps = Unit

  -- A failing key.
  pub failed-Keeps :
      (start n : ℕ) (t : Typed K) (s0 s u : State)
      → start ≤ n
      → Agrees start s0 s
      → u.undo.enabled ≡ true
      → Agrees n s u
      → Keeps start s0 (record t { effective_len = start }) (rubout start u)
  failed-Keeps start n t s0 s u p a on b = record {
    idle = rubout-IsIdle start u on;
    longer = omega arith;
    agrees = λ j h. rubout-Agrees start u j h ∙ Agrees-trans n start s0 s u p a b j h;
  }
