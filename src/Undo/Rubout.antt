-- ===== src/Undo/Rubout.antt =====
-- src/undo.c: what popping the undo stack gives back.
use sciteco.Prelude.{ℕ, zero, suc, ◌+◌, ◌≤◌, ◌≡◌, refl, ◌∙◌, true, List, [], ◌∷◌, arith, length}
use sciteco.Undo.{Undo, pad, push_top, push_size, run_chain, pop_loop, pop}

module _ {ℓ} {T : Type ℓ} where
  length-pad :
      (fuel pc : ℕ) (hs : List (List T))
      → length hs ≤ suc pc
      → suc pc ≤ length hs + fuel
      → length (pad fuel pc hs) ≡ suc pc
  unfolding pad
  length-pad zero pc hs h k = omega arith
  length-pad (suc fuel) pc hs h k = ground (arith, length-pad fuel pc ([] ∷ hs))

  length-push_top : (t : T) (hs : List (List T)) → length (push_top t hs) ≡ length hs
  unfolding push_top
  length-push_top t [] = refl
  length-push_top t (_ ∷ _) = refl

  -- With undo enabled and no token beyond the program counter, the stack has one chain per key up
  -- to the program counter after a push, so the assertion in teco_undo_push_size() holds.
  pub length-push_size :
      (t : T) (pc : ℕ) (u : Undo T)
      → u.enabled ≡ true
      → length u.heads ≤ suc pc
      → length (push_size t pc u).heads ≡ suc pc
  unfolding push_size
  length-push_size t pc u on h =
      ground (arith, length-push_top t (pad (suc pc) pc u.heads), length-pad (suc pc) pc u.heads)

  pub enabled-push_size : (t : T) (pc : ℕ) (u : Undo T) → (push_size t pc u).enabled ≡ u.enabled
  unfolding push_size
  enabled-push_size t pc u = ground arith

module _ {T A : Type 0} (act : T → A → A) where
  -- Nothing is popped from a stack that ends at or below the position.
  pop_loop_short :
      (k : ℕ) (hs : List (List T)) (a : A) → length hs ≤ k → pop_loop act k hs a ≡ (hs, a)
  unfolding pop_loop
  pop_loop_short k [] a h = refl
  pop_loop_short k (top ∷ rest) a h = ground arith

  -- Empty chains change nothing.
  state-pop_loop-pad :
      (fuel k pc : ℕ) (hs : List (List T)) (a : A)
      → k ≤ pc
      → (pop_loop act k (pad fuel pc hs) a).1 ≡ (pop_loop act k hs a).1
  unfolding pad pop_loop
  state-pop_loop-pad zero k pc hs a h = refl
  state-pop_loop-pad (suc fuel) k pc hs a h =
      ground (arith, state-pop_loop-pad fuel k pc ([] ∷ hs) a, pop_loop_short k hs a)

  -- With the stack padded to `pc`, popping to or below `pc` runs a pushed token first.
  state-pop_loop-push_top :
      (t : T) (k pc : ℕ) (hs : List (List T)) (a : A)
      → k ≤ pc
      → length hs ≡ suc pc
      → (pop_loop act k (push_top t hs) a).1 ≡ (pop_loop act k hs (act t a)).1
  unfolding push_top pop_loop run_chain
  state-pop_loop-push_top t k pc [] a h e = absurd (omega arith)
  state-pop_loop-push_top t k pc (top ∷ rest) a h e = ground arith

  -- With undo enabled and no token beyond the program counter, popping to or below the position of
  -- a push first runs the pushed token, and then does what it would have done without the push.
  pub state-pop-push_size :
      (t : T) (k pc : ℕ) (u : Undo T) (a : A)
      → u.enabled ≡ true
      → length u.heads ≤ suc pc
      → k ≤ pc
      → (pop act k (push_size t pc u) a).1 ≡ (pop act k u (act t a)).1
  unfolding pop push_size
  state-pop-push_size t k pc u a on h p = rw on (
      state-pop_loop-push_top t k pc (pad (suc pc) pc u.heads) a p
        (length-pad (suc pc) pc u.heads h (omega arith))
      ∙ state-pop_loop-pad (suc pc) k pc u.heads (act t a) p)

  pub pop_short : (k : ℕ) (u : Undo T) (a : A) → length u.heads ≤ k → pop act k u a ≡ (u, a)
  unfolding pop
  pop_short k u a h = rw (pop_loop_short k u.heads a h)

  length-pop_loop : (k : ℕ) (hs : List (List T)) (a : A) → length (pop_loop act k hs a).0 ≤ k
  unfolding pop_loop
  length-pop_loop k [] a = omega arith
  length-pop_loop k (top ∷ rest) a = ground (arith, length-pop_loop k rest (run_chain act top a))

  -- No token at or above the position is left.
  pub length-pop : (k : ℕ) (u : Undo T) (a : A) → length (pop act k u a).0.heads ≤ k
  unfolding pop
  length-pop k u a = length-pop_loop k u.heads a

  pop_loop-pop_loop :
      (k j : ℕ) (hs : List (List T)) (a : A)
      → k ≤ j
      → (pop_loop act k (pop_loop act j hs a).0 (pop_loop act j hs a).1).1 ≡ (pop_loop act k hs a).1
  unfolding pop_loop
  pop_loop-pop_loop k j [] a h = refl
  pop_loop-pop_loop k j (top ∷ rest) a h =
      ground (arith, pop_loop-pop_loop k j rest (run_chain act top a))

  -- Two rubouts, the second one further down, amount to the second one.
  pub pop-pop :
      (k j : ℕ) (u : Undo T) (a : A)
      → k ≤ j
      → (pop act k (pop act j u a).0 (pop act j u a).1).1 ≡ (pop act k u a).1
  unfolding pop
  pop-pop k j u a h = pop_loop-pop_loop k j u.heads a h

  pub enabled-pop : (k : ℕ) (u : Undo T) (a : A) → (pop act k u a).0.enabled ≡ u.enabled
  unfolding pop
  enabled-pop k u a = refl
