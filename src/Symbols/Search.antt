-- ===== src/Symbols/Search.antt =====
-- src/symbols.c: the binary search.
use sciteco.Prelude.{
  ℕ, zero, suc, ◌+◌, ◌-◌, ◌/◌, ◌≤◌, ◌<◌, ◌≡◌, ◌≢◌, refl, sym, ◌∙◌, inl, inr, List, ltb, ltb→lt,
  length, get_or, Bool-cases, arith,
}
use sciteco.Strings.{Sign, less, equal, greater}
use sciteco.Symbols.{
  Lookup, found, missing, no_entry, SymbolList, compare_at, choose, lookup_loop, skip_of, lookup,
}

-- The names are in the order of the comparison.
pub record IsOrdered (ctx : SymbolList) (name : List ℕ) (skip : ℕ) : Type 0 where
  pub less_before :
      (i j : ℕ)
      → i ≤ j
      → j < length ctx.entries
      → compare_at ctx name skip j ≡ less
      → compare_at ctx name skip i ≡ less
  pub greater_behind :
      (i j : ℕ)
      → i ≤ j
      → j < length ctx.entries
      → compare_at ctx name skip i ≡ greater
      → compare_at ctx name skip j ≡ greater

-- An entry that compares as equal, or that there is none.
pub data Answers (ctx : SymbolList) (name : List ℕ) (skip : ℕ) : Lookup → Type 0 where
  is_found :
      (i : ℕ)
      → i < length ctx.entries
      → compare_at ctx name skip i ≡ equal
      → Answers ctx name skip (found (get_or ctx.entries i no_entry).value)
  is_missing :
      ((i : ℕ) → i < length ctx.entries → compare_at ctx name skip i ≢ equal)
      → Answers ctx name skip missing

module _ (ctx : SymbolList) (name : List ℕ) (skip : ℕ) (o : IsOrdered ctx name skip) where
  -- Everything in front of left is less, and everything from bound on greater.
  nothing-Answers :
      (left bound : ℕ)
      → bound ≤ left
      → ((i : ℕ) → i < left → compare_at ctx name skip i ≡ less)
      → ((i : ℕ) → bound ≤ i → i < length ctx.entries → compare_at ctx name skip i ≡ greater)
      → Answers ctx name skip missing
  nothing-Answers left bound le lo hi = is_missing (λ i k e. elim (Bool-cases (ltb i left)) [
    | inl p ↦ differ less (λ p. cc) (sym (lo i (ltb→lt _ _ p)) ∙ e)
    | inr p ↦ differ greater (λ p. cc) (sym (hi i (ground (arith, p, le)) k) ∙ e)
  ])
    where
      differ : (g : Sign) → g ≢ equal → g ≢ equal
      differ g h = h

  choose-Answers :
      (g : Sign) (cur : ℕ) (above below : Lookup)
      → cur < length ctx.entries
      → compare_at ctx name skip cur ≡ g
      → (g ≡ less → Answers ctx name skip above)
      → (g ≡ greater → Answers ctx name skip below)
      → Answers ctx name skip (choose g above (found (get_or ctx.entries cur no_entry).value) below)
  choose-Answers less cur above below h e a b = a refl
  choose-Answers equal cur above below h e a b = is_found cur h e
  choose-Answers greater cur above below h e a b = b refl

  loop-Answers :
      (fuel left bound : ℕ)
      → bound ≤ length ctx.entries
      → bound - left < fuel
      → ((i : ℕ) → i < left → compare_at ctx name skip i ≡ less)
      → ((i : ℕ) → bound ≤ i → i < length ctx.entries → compare_at ctx name skip i ≡ greater)
      → Answers ctx name skip (lookup_loop fuel ctx name skip left bound)
  unfolding lookup_loop
  loop-Answers zero left bound h lt lo hi = absurd (omega arith)
  loop-Answers (suc fuel) left bound h lt lo hi = elim (Bool-cases (ltb left bound)) [
    | inl more ↦
        let cur = left + (bound - 1 - left) / 2 in
        let lb : left < bound = ltb→lt _ _ more in
        let inside : cur < bound = omega (arith, lb) in
        let size : cur < length ctx.entries = omega (arith, inside, h) in
        rw (more, lookup_loop)
          (choose-Answers (compare_at ctx name skip cur) cur _ _ size refl
            (λ g.
              loop-Answers fuel (cur + 1) bound h (omega (arith, lt, lb))
                (λ i k. o.less_before i cur (omega (arith, k)) size g) hi)
            (λ g.
              loop-Answers fuel left cur (omega (arith, size)) (omega (arith, lt, lb)) lo
                (λ i k l. o.greater_behind cur i k l g)))
    | inr over ↦ rw (over, lookup_loop) (nothing-Answers left bound (ground (arith, over)) lo hi)
  ]

-- On a list in the order of the comparison, the binary search ends, and returns the value of an
-- entry that compares as equal, or -1 if there is no such entry.
pub lookup-Answers :
    (ctx : SymbolList) (name prefix : List ℕ)
    → IsOrdered ctx name (skip_of ctx name prefix)
    → Answers ctx name (skip_of ctx name prefix) (lookup ctx name prefix)
unfolding lookup
lookup-Answers ctx name prefix o =
    loop-Answers ctx name (skip_of ctx name prefix) o (suc (length ctx.entries)) 0
      (length ctx.entries) (omega arith) (omega arith) (λ i h. absurd (omega arith))
      (λ i h k. absurd (omega arith))
