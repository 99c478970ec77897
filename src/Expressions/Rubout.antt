-- ===== src/Expressions/Rubout.antt =====
-- src/expressions.c: the undo tokens of the operations on the stacks.
pub mod Eval
pub mod Braces
use sciteco.Prelude.{
  ℕ, zero, suc, ◌+◌, ◌-◌, ◌≤◌, ◌<◌, ◌≡◌, refl, sym, ap, ◌⊎◌, inl, inr, Bool, true, false, Option,
  none, some, List, [], ◌∷◌, arith, ltb, ltb→lt, length, get_or, erase_idx, insert_at, Bool-cases,
  Option-cases, insert_at-erase_idx, length-erase_idx_lt, if◌then◌else◌,
}
use sciteco.Undo.Reverts.{Session, change, Reverts-refl, Reverts-trans, change-Reverts}
use sciteco.Editor.{
  Operator, nil, new, brace, number, Sign, plus, Vars, Token, remove_number, insert_number,
  remove_operator, insert_operator, restore_num_sign, act, insert_val, remove_index, State, Scope,
  whole, any_level, mask, Reverts,
}
use sciteco.Expressions.Stacks.{
  Error, Run, ok, err, crash, no_fuel, ◌>>=◌, ◌>>◌, set_num_sign, peek_op, push_op, append_number,
  drop_op, drop_num, pop_op, pop_num, pop_new_loop, pop_new, push_int, is_new, is_minus,
}

module _ {A : Type 0} where
  remove_index-cons : (x : A) (xs : List A) → remove_index (length (x ∷ xs) - 1) (x ∷ xs) ≡ xs
  remove_index-cons x xs = rw top
    where
      top : length (x ∷ xs) - 1 - (length (x ∷ xs) - 1) ≡ 0
      top = omega arith

  insert_val-erase_idx :
      (i : ℕ) (d : A) (xs : List A)
      → i < length xs
      → insert_val (length xs - 1 - i) (get_or xs i d) (erase_idx i xs) ≡ xs
  insert_val-erase_idx i d xs h = rw place (insert_at-erase_idx i d xs h)
    where
      place : length (erase_idx i xs) - (length xs - 1 - i) ≡ i
      place = omega (arith, length-erase_idx_lt i xs h)

-- Each token restores its variable, whatever the brace level is.
act-restore_num_sign :
    (κ : Scope) (m : ℕ) (v : Vars) (g : Sign)
    → act (restore_num_sign v.num_sign) (mask κ m (record v { num_sign = g })) ≡ mask κ m v
unfolding act
act-restore_num_sign whole m v g = refl
act-restore_num_sign any_level m v g = refl

act-remove_operator :
    (κ : Scope) (m : ℕ) (v : Vars) (op : Operator)
    → act
        (remove_operator (length (op ∷ v.operators) - 1))
        (mask κ m (record v { operators = op ∷ v.operators }))
      ≡ mask κ m v
unfolding act
act-remove_operator whole m v op =
    ap (λ (xs : List Operator). record v { operators = xs }) (remove_index-cons op v.operators)
act-remove_operator any_level m v op =
    ap (λ (xs : List Operator). record v { operators = xs; brace_level = m })
      (remove_index-cons op v.operators)

act-remove_number :
    (κ : Scope) (m : ℕ) (v : Vars) (n : ℕ)
    → act
        (remove_number (length (n ∷ v.numbers) - 1))
        (mask κ m (record v { numbers = n ∷ v.numbers }))
      ≡ mask κ m v
unfolding act
act-remove_number whole m v n =
    ap (λ (xs : List ℕ). record v { numbers = xs }) (remove_index-cons n v.numbers)
act-remove_number any_level m v n =
    ap (λ (xs : List ℕ). record v { numbers = xs; brace_level = m }) (remove_index-cons n v.numbers)

act-insert_operator :
    (κ : Scope) (m : ℕ) (v : Vars) (i : ℕ)
    → i < length v.operators
    → act
        (insert_operator (length v.operators - 1 - i) (get_or v.operators i nil))
        (mask κ m (record v { operators = erase_idx i v.operators }))
      ≡ mask κ m v
unfolding act
act-insert_operator whole m v i h =
    ap (λ (xs : List Operator). record v { operators = xs })
      (insert_val-erase_idx i nil v.operators h)
act-insert_operator any_level m v i h =
    ap (λ (xs : List Operator). record v { operators = xs; brace_level = m })
      (insert_val-erase_idx i nil v.operators h)

act-insert_number :
    (κ : Scope) (m : ℕ) (v : Vars) (i : ℕ)
    → i < length v.numbers
    → act
        (insert_number (length v.numbers - 1 - i) (get_or v.numbers i 0))
        (mask κ m (record v { numbers = erase_idx i v.numbers }))
      ≡ mask κ m v
unfolding act
act-insert_number whole m v i h =
    ap (λ (xs : List ℕ). record v { numbers = xs }) (insert_val-erase_idx i 0 v.numbers h)
act-insert_number any_level m v i h =
    ap (λ (xs : List ℕ). record v { numbers = xs; brace_level = m })
      (insert_val-erase_idx i 0 v.numbers h)

module _ (κ : Scope) where
  -- `r` is left by code that started in `s`, and its tokens take the code back.
  unfoldable pub RunReverts : {A : Type 0} → State → Run A → Type 0
  RunReverts s (ok a t) = Reverts κ s t
  RunReverts s (err e t) = Reverts κ s t
  RunReverts s crash = Unit
  RunReverts s no_fuel = Unit

  pub RunReverts-err : (A : Type 0) (e : Error) (s : State) → RunReverts {A = A} s (err e s)
  unfolding RunReverts
  RunReverts-err A e s = Reverts-refl act (mask κ) s

  pub RunReverts-crash : (A : Type 0) (s : State) → RunReverts {A = A} s crash
  unfolding RunReverts
  RunReverts-crash A s = tt

  pub RunReverts-no_fuel : (A : Type 0) (s : State) → RunReverts {A = A} s no_fuel
  unfolding RunReverts
  RunReverts-no_fuel A s = tt

  pub RunReverts-done : (s : State) → RunReverts s (ok (tt {0}) s)
  unfolding RunReverts
  RunReverts-done s = Reverts-refl act (mask κ) s

  module _ {A : Type 0} where
    pub RunReverts-ok : (a : A) (s t : State) → Reverts κ s t → RunReverts s (ok a t)
    unfolding RunReverts
    RunReverts-ok a s t h = h

    pub RunReverts-after :
        (s t : State) (r : Run A) → Reverts κ s t → RunReverts t r → RunReverts s r
    unfolding RunReverts
    RunReverts-after s t (ok b u) h g = Reverts-trans act (mask κ) h g
    RunReverts-after s t (err e u) h g = Reverts-trans act (mask κ) h g
    RunReverts-after s t crash h g = tt
    RunReverts-after s t no_fuel h g = tt

    pub if-RunReverts :
        (s : State) (b : Bool) (x y : Run A)
        → RunReverts s x
        → RunReverts s y
        → RunReverts s (if b then x else y)
    if-RunReverts s true x y h k = h
    if-RunReverts s false x y h k = k

  pub >>=-RunReverts :
      {A B : Type 0} (s : State) (r : Run A) (f : A → State → Run B)
      → RunReverts s r
      → ((a : A) (t : State) → RunReverts t (f a t))
      → RunReverts s (r >>= f)
  unfolding RunReverts
  >>=-RunReverts s (ok a t) f h k = RunReverts-after s t (f a t) h (k a t)
  >>=-RunReverts s (err e t) f h k = h
  >>=-RunReverts s crash f h k = tt
  >>=-RunReverts s no_fuel f h k = tt

  pub >>-RunReverts :
      {B : Type 0} (s : State) (r : Run (Unit {0})) (f : State → Run B)
      → RunReverts s r
      → ((t : State) → RunReverts t (f t))
      → RunReverts s (r >> f)
  unfolding RunReverts
  >>-RunReverts s (ok a t) f h k = RunReverts-after s t (f t) h (k t)
  >>-RunReverts s (err e t) f h k = h
  >>-RunReverts s crash f h k = tt
  >>-RunReverts s no_fuel f h k = tt

  pub set_num_sign-Reverts : (g : Sign) (s : State) → Reverts κ s (set_num_sign g s)
  unfolding set_num_sign
  set_num_sign-Reverts g s =
      change-Reverts act (mask κ) _ _ s (λ m. act-restore_num_sign κ m s.vars g)

  pub push_op-Reverts : (op : Operator) (s : State) → Reverts κ s (push_op op s)
  unfolding push_op
  push_op-Reverts op s = change-Reverts act (mask κ) _ _ s (λ m. act-remove_operator κ m s.vars op)

  pub append_number-Reverts : (n : ℕ) (s : State) → Reverts κ s (append_number n s)
  unfolding append_number
  append_number-Reverts n s =
      change-Reverts act (mask κ) _ _ s (λ m. act-remove_number κ m s.vars n)

  pub drop_op-Reverts :
      (i : ℕ) (s : State) → i < length s.vars.operators → Reverts κ s (drop_op i s)
  unfolding drop_op
  drop_op-Reverts i s h =
      change-Reverts act (mask κ) _ _ s (λ m. act-insert_operator κ m s.vars i h)

  pub drop_num-Reverts :
      (i : ℕ) (s : State) → i < length s.vars.numbers → Reverts κ s (drop_num i s)
  unfolding drop_num
  drop_num-Reverts i s h = change-Reverts act (mask κ) _ _ s (λ m. act-insert_number κ m s.vars i h)

  -- The top entry, if there is one.
  pub pop_op-Reverts : (s : State) → Reverts κ s (pop_op 0 s).1
  unfolding pop_op
  pop_op-Reverts s = elim (Bool-cases (ltb 0 (length s.vars.operators))) [
    | inl some_op ↦ rw some_op (drop_op-Reverts 0 s (ltb→lt _ _ some_op))
    | inr empty ↦ rw empty (Reverts-refl act (mask κ) s)
  ]

  pub pop_num-Reverts : (s : State) → Reverts κ s (pop_num 0 s).1
  unfolding pop_num
  pop_num-Reverts s = Reverts-trans act (mask κ) (pop_op-Reverts s) (elim (Bool-cases test) [
    | inl some_num ↦ rw some_num (drop_num-Reverts 0 t (ltb→lt _ _ some_num))
    | inr empty ↦ rw empty (Reverts-refl act (mask κ) t)
  ])
    where
      t : State
      t = (pop_op 0 s).1

      test : Bool
      test = ltb 0 (length t.vars.numbers)

  pop_new_loop-Reverts : (fuel : ℕ) (s : State) → Reverts κ s (pop_new_loop fuel s)
  unfolding pop_new_loop
  pop_new_loop-Reverts zero s = Reverts-refl act (mask κ) s
  pop_new_loop-Reverts (suc fuel) s = elim (Bool-cases (is_new (peek_op 0 s))) [
    | inl more ↦
        rw (more, pop_new_loop)
          (Reverts-trans act (mask κ) (pop_op-Reverts s) (pop_new_loop-Reverts fuel (pop_op 0 s).1))
    | inr done ↦ rw (done, pop_new_loop) (Reverts-refl act (mask κ) s)
  ]

  pub pop_new-Reverts : (s : State) → Reverts κ s (pop_new s)
  unfolding pop_new
  pop_new-Reverts s = pop_new_loop-Reverts (length s.vars.operators) s

  pub push_int-Reverts : (n : ℕ) (s : State) → Reverts κ s (push_int n s)
  unfolding push_int
  push_int-Reverts n s =
      Reverts-trans act (mask κ)
        (Reverts-trans act (mask κ) (pop_new-Reverts s) (push_op-Reverts number (pop_new s)))
        (elim (Bool-cases (is_minus t.vars.num_sign)) [
          | inl neg ↦ rw neg (
              Reverts-trans act (mask κ) (set_num_sign-Reverts plus t)
                (append_number-Reverts _ (set_num_sign plus t)))
          | inr pos ↦ rw pos (append_number-Reverts n t)
        ])
    where
      t : State
      t = push_op number (pop_new s)
