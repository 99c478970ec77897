-- ===== src/Search/Bounds.antt =====
-- src/search.c: what is stated of the result of a translation, with what is left of the pattern.
use sciteco.Prelude.{
  ℕ, ◌-◌, ◌≤◌, ◌≡◌, refl, Bool, true, false, List, [], ◌∷◌, length, if◌then◌else◌, arith,
}
use sciteco.Building.{SpecMachine}
use sciteco.Search.{
  Characters, SearchState, search_start, search_ctl, search_escape, search_not, search_ctl_e,
  search_anyq, search_many, search_alt, is_search_start, Converted, failed, no_fuel, asserts,
  converted, ctl_first,
}
use sciteco.Search.Conversion.{finish}
use sciteco.Search.Classes.{weight}

-- The states in which a round begins.
abbrev pub is_begun_in : SearchState → Bool
is_begun_in search_anyq = false
is_begun_in _ = true

-- A translation of a pattern of `n` bytes that ends, and whose assertions hold: of what is written, a
-- byte has been read.
abbrev pub IsBounded : {Q : Type 0} → ℕ → Converted Q → Type 0
IsBounded n failed = Unit {0}
IsBounded n no_fuel = ⊥
IsBounded n asserts = ⊥
IsBounded n (converted [] p m) = length p ≤ n
IsBounded n (converted (x ∷ re) p m) = length p ≤ n - 1

module _ (t : Characters) (q : SpecMachine) where
  pub weaken_bound : (n k : ℕ) (r : Converted q.Spec) → k ≤ n → IsBounded k r → IsBounded n r
  weaken_bound n k failed h b = tt
  weaken_bound n k no_fuel h b = b
  weaken_bound n k asserts h b = b
  weaken_bound n k (converted [] p m) h b = omega (arith, b)
  weaken_bound n k (converted (x ∷ re) p m) h b = omega (arith, b)

  pub shorter_bound :
      (n : ℕ) (re p : List ℕ) (m : q.Spec) → length p ≤ n - 1 → IsBounded n (converted re p m)
  shorter_bound n [] p m h = omega arith
  shorter_bound n (x ∷ re) p m h = h

  pub finish_bound :
      (s : SearchState) (n : ℕ) (p re : List ℕ) (m : q.Spec)
      → length p ≤ n - 1
      → IsBounded n (finish t q s p re m)
  unfolding finish
  finish_bound search_start n p re m h = shorter_bound n re p m h
  finish_bound search_ctl n p re m h = shorter_bound n re p m h
  finish_bound search_escape n p re m h = shorter_bound n re p m h
  finish_bound search_not n p re m h = shorter_bound n re p m h
  finish_bound search_ctl_e n p re m h = shorter_bound n re p m h
  finish_bound search_anyq n p re m h = shorter_bound n re p m h
  finish_bound search_many n p re m h = shorter_bound n re p m h
  finish_bound search_alt n p re m h = shorter_bound n _ p m h

  pub if_bound :
      (b : Bool) (n : ℕ) (x y : Converted q.Spec)
      → IsBounded n x
      → IsBounded n y
      → IsBounded n (if b then x else y)
  if_bound true n x y h l = h
  if_bound false n x y h l = l

  pub asserted_bound :
      (b : Bool) (n : ℕ) (x : Converted q.Spec)
      → b ≡ true
      → IsBounded n x
      → IsBounded n (if b then x else asserts)
  asserted_bound true n x e h = h
  asserted_bound false n x e h = absurd cc

  pub start_lem :
      (s : SearchState) → is_search_start s ≡ true → (is_begun_in s ≡ true) × (weight s ≡ 1)
  start_lem search_start h = (refl, refl)
  start_lem search_ctl h = absurd cc
  start_lem search_escape h = absurd cc
  start_lem search_not h = absurd cc
  start_lem search_ctl_e h = absurd cc
  start_lem search_anyq h = absurd cc
  start_lem search_many h = absurd cc
  start_lem search_alt h = absurd cc

  pub ctl_first_lem : (p : List ℕ) → length (ctl_first p) ≡ length p
  ctl_first_lem [] = refl
  ctl_first_lem (c ∷ cs) = refl
