-- ===== src/Expressions/Rubout/Braces.antt =====
-- src/expressions.c: the undo tokens of braces. `brace_return` lowers the brace level without a
-- token for each step: one token is pushed before its loop.
use sciteco.Prelude.{ℕ, zero, suc, ◌-◌, ◌≤◌, ◌≡◌, refl, ◌∙◌, true, List, [], ◌∷◌, ◌==◌}
use sciteco.Undo.{pop}
use sciteco.Undo.Rubout.{state-pop-push_size}
use sciteco.Undo.Reverts.{
  change, IsReady, Undoes, vars_at, Reverts-refl, Reverts-trans, change-Reverts, change-IsReady,
}
use sciteco.Editor.{brace, act, State, whole, any_level, mask, Reverts}
use sciteco.Expressions.Stacks.{
  Run, ok, err, crash, no_fuel, ◌>>◌, push_op, pop_num, pop_new, push_int,
}
use sciteco.Expressions.Eval.{
  eval, discard_args, set_brace_level, brace_open, brace_close, save_numbers, push_numbers,
  lower_brace_level, unwind_loop, brace_return,
}
use sciteco.Expressions.Rubout.{
  RunReverts, RunReverts-ok, RunReverts-err, RunReverts-after, >>-RunReverts, if-RunReverts,
  push_op-Reverts, pop_num-Reverts, pop_new-Reverts, push_int-Reverts,
}
use sciteco.Expressions.Rubout.Eval.{eval-RunReverts, discard_args-RunReverts}

pub set_brace_level-Reverts : (n : ℕ) (s : State) → Reverts whole s (set_brace_level n s)
unfolding set_brace_level act
set_brace_level-Reverts n s = change-Reverts act (mask whole) _ _ s (λ m. refl)

pub brace_open-Reverts : (s : State) → Reverts whole s (brace_open s)
unfolding brace_open
brace_open-Reverts s = Reverts-trans act (mask whole) (pop_new-Reverts whole s) (
    Reverts-trans act (mask whole) (push_op-Reverts whole brace (pop_new s))
      (set_brace_level-Reverts _ (push_op brace (pop_new s))))

pub brace_close-RunReverts : (s : State) → RunReverts whole s (brace_close s)
unfolding brace_close
brace_close-RunReverts s =
    if-RunReverts whole s (s.vars.brace_level == 0) _ _ (RunReverts-err whole _ _ s)
      (RunReverts-after whole s t _ (set_brace_level-Reverts _ s) (eval-RunReverts whole true t))
  where
    t : State
    t = set_brace_level (s.vars.brace_level - 1) s

save_numbers-Reverts : (n : ℕ) (ns : List ℕ) (s : State) → Reverts whole s (save_numbers n ns s).1
unfolding save_numbers
save_numbers-Reverts zero ns s = Reverts-refl act (mask whole) s
save_numbers-Reverts (suc n) ns s =
    Reverts-trans act (mask whole) (pop_num-Reverts whole s)
      (save_numbers-Reverts n ((pop_num 0 s).0 ∷ ns) (pop_num 0 s).1)

push_numbers-Reverts : (ns : List ℕ) (s : State) → Reverts whole s (push_numbers ns s)
unfolding push_numbers
push_numbers-Reverts [] s = Reverts-refl act (mask whole) s
push_numbers-Reverts (n ∷ ns) s =
    Reverts-trans act (mask whole) (push_int-Reverts whole n s)
      (push_numbers-Reverts ns (push_int n s))

-- The tokens of `t` take it back to `s` whatever its brace level is.
record Covers (s t : State) : Type 0 where
  ready : IsReady t
  same_pc : t.pc ≡ s.pc
  rubout :
      (n : ℕ) (k : ℕ) → k ≤ s.pc → (pop act k t.undo (mask any_level n t.vars)).1 ≡ vars_at act k s

Covers-set_brace_level : (n : ℕ) (s : State) → IsReady s → Covers s (set_brace_level n s)
unfolding set_brace_level change act
Covers-set_brace_level n s r = record {
  ready = change-IsReady act (mask whole) _ _ s r;
  same_pc = refl;
  rubout = λ m k h. state-pop-push_size act _ k s.pc s.undo (mask any_level m s.vars) r.on r.fits h;
}

Covers-Reverts : {s t u : State} → Covers s t → Reverts any_level t u → Covers s u
Covers-Reverts {s} {t} {u} c f =
    let b = f c.ready in
    record {
      ready = b.ready;
      same_pc = b.same_pc ∙ c.same_pc;
      rubout = λ n k h. b.rubout n k (rw c.same_pc h) ∙ c.rubout n k h;
    }

Covers-lower_brace_level : {s t : State} → Covers s t → Covers s (lower_brace_level t)
unfolding lower_brace_level
Covers-lower_brace_level c = record {
  ready = record { on = c.ready.on; fits = c.ready.fits };
  same_pc = c.same_pc;
  rubout = c.rubout;
}

Undoes-Covers : {s t : State} → Covers s t → Undoes act (mask whole) s t
Undoes-Covers {s} {t} c = record {
  ready = c.ready;
  same_pc = c.same_pc;
  rubout = λ m k h. c.rubout t.vars.brace_level k h;
}

RunCovers : {A : Type 0} → State → Run A → Type 0
RunCovers s (ok a t) = Covers s t
RunCovers s (err e t) = Covers s t
RunCovers s crash = Unit
RunCovers s no_fuel = Unit

RunCovers-after :
    {A : Type 0} (s t : State) (r : Run A) → Covers s t → RunReverts any_level t r → RunCovers s r
unfolding RunCovers RunReverts
RunCovers-after s t (ok a u) c h = Covers-Reverts c h
RunCovers-after s t (err e u) c h = Covers-Reverts c h
RunCovers-after s t crash c h = tt
RunCovers-after s t no_fuel c h = tt

>>-RunCovers :
    {B : Type 0} (s : State) (r : Run (Unit {0})) (f : State → Run B)
    → RunCovers s r
    → ((t : State) → Covers s t → RunCovers s (f t))
    → RunCovers s (r >> f)
unfolding RunCovers
>>-RunCovers s (ok a t) f h k = k t h
>>-RunCovers s (err e t) f h k = h
>>-RunCovers s crash f h k = tt
>>-RunCovers s no_fuel f h k = tt

unwind_loop-RunCovers : (n : ℕ) (s t : State) → Covers s t → RunCovers s (unwind_loop n t)
unfolding unwind_loop
unwind_loop-RunCovers zero s t c = unfold RunCovers in c
unwind_loop-RunCovers (suc n) s t c =
    >>-RunCovers s (discard_args t) _
      (RunCovers-after s t _ c (discard_args-RunReverts any_level t))
      λ u cu.
        >>-RunCovers s (eval true u) (λ v. unwind_loop n (lower_brace_level v))
          (RunCovers-after s u _ cu (eval-RunReverts any_level true u))
          λ v cv. unwind_loop-RunCovers n s (lower_brace_level v) (Covers-lower_brace_level cv)

covers_revert :
    {A : Type 0} (s : State) (r : Run A) → (IsReady s → RunCovers s r) → RunReverts whole s r
unfolding RunCovers RunReverts
covers_revert s (ok a t) h = λ ready. Undoes-Covers (h ready)
covers_revert s (err e t) h = λ ready. Undoes-Covers (h ready)
covers_revert s crash h = tt
covers_revert s no_fuel h = tt

-- Returning from several brace levels with arguments, which lowers the brace level without tokens
-- of its own, is taken back by the tokens it pushes, whether it succeeds or fails; traps are left
-- out.
pub brace_return-RunReverts :
    (keep count : ℕ) (s : State) → RunReverts whole s (brace_return keep count s)
unfolding brace_return
brace_return-RunReverts keep count s =
    RunReverts-after whole s t _ (save_numbers-Reverts count [] s) (
      >>-RunReverts whole t (unwind_loop rounds (set_brace_level level t))
        (λ u. ok tt (push_numbers ns u))
        (covers_revert t _
          λ ready. unwind_loop-RunCovers rounds t _ (Covers-set_brace_level level t ready))
        λ u. RunReverts-ok whole tt u _ (push_numbers-Reverts ns u))
  where
    ns : List ℕ
    ns = (save_numbers count [] s).0

    t : State
    t = (save_numbers count [] s).1

    level : ℕ
    level = t.vars.brace_level

    rounds : ℕ
    rounds = level - keep
