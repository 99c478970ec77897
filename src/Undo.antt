-- ===== src/Undo.antt =====
-- src/undo.c: the stack of undo tokens. `A` is the editor state that the tokens act on, `T` the
-- type of tokens, and `act` the callback of a token, run with run = TRUE.
pub mod Rubout
pub mod Reverts
use sciteco.Prelude.{
  ℕ, zero, suc, Bool, true, false, List, [], ◌∷◌, ltb, leb, if◌then◌else◌, length,
}

-- teco_undo_heads: the head of a list is the last element of the GPtrArray, or of a chain of tokens
-- the most recent one.
pub record Undo {ℓ} (T : Type ℓ) : Type ℓ where
  pub enabled : Bool
  pub heads : List (List T)

module _ {ℓ} {T : Type ℓ} where
  -- while (teco_undo_heads->len <= teco_cmdline.pc) g_ptr_array_add(teco_undo_heads, NULL);
  pad : ℕ → ℕ → List (List T) → List (List T)
  pad zero pc hs = hs
  pad (suc fuel) pc hs = elim (leb (length hs) pc) [ true ↦ pad fuel pc ([] ∷ hs) | false ↦ hs ]

  -- The last element of the array gets the new token in front of its chain.
  push_top : T → List (List T) → List (List T)
  push_top t [] = []
  push_top t (top ∷ rest) = (t ∷ top) ∷ rest

  -- teco_undo_push_size() at the program counter `pc` of the command line.
  unfoldable pub push_size : T → ℕ → Undo T → Undo T
  unfolding pad push_top
  push_size t pc u =
      if u.enabled then record u { heads = push_top t (pad (suc pc) pc u.heads) } else u

  -- teco_undo_clear(): the tokens are released without being run.
  unfoldable pub clear : Undo T → Undo T
  clear u = record u { heads = [] }

module _ {ℓ κ} {T : Type ℓ} {A : Type κ} (act : T → A → A) where
  -- The inner loop of teco_undo_pop(): run one chain, most recent token first.
  run_chain : List T → A → A
  run_chain [] a = a
  run_chain (t ∷ ts) a = run_chain ts (act t a)

  pop_loop : ℕ → List (List T) → A → List (List T) × A
  unfolding run_chain
  pop_loop pc [] a = ([], a)
  pop_loop pc (top ∷ rest) a =
      if ltb pc (length (top ∷ rest)) then pop_loop pc rest (run_chain top a) else (top ∷ rest, a)

  -- teco_undo_pop(): the stack and the state that are left.
  unfoldable pub pop : ℕ → Undo T → A → Undo T × A
  unfolding pop_loop
  pop pc u a = let r = pop_loop pc u.heads a in (record u { heads = r.0 }, r.1)
