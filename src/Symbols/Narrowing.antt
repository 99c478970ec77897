-- ===== src/Symbols/Narrowing.antt =====
-- src/symbols.c: the loop that narrows the prefix of the names that match.
use sciteco.Prelude.{
  both, ℕ, zero, suc, ◌+◌, ◌≤◌, ◌≡◌, refl, ap, true, none, some, List, [], ◌∷◌, ◌++◌, ltb,
  if◌then◌else◌, length, take, drop, Bool-cases, inl, inr, arith,
}
use sciteco.Strings.{Utf8, string_casediff}
use sciteco.Strings.Folding.{
  comes_first_refl, begins, common, comes_first, is_ascii, IsAsciiAware, string_casediff-common,
  common-comes_first, begins-common, begins_both-common,
}
use sciteco.Symbols.Completion.{Matches, narrow, complete_loop}

abbrev pub Every : (List ℕ → Type 0) → List (List ℕ) → Type 0
Every P [] = Unit {0}
Every P (n ∷ ns) = P n × Every P ns

-- The names that begin with the symbol
abbrev pub matching : List ℕ → List (List ℕ) → List (List ℕ)
matching symbol [] = []
matching symbol (n ∷ ns) =
    let rest = matching symbol ns in if begins symbol n then (n ∷ rest) else rest

-- ASCII names in order, without regard to case
abbrev pub AreOrdered : List (List ℕ) → Type 0
AreOrdered [] = Unit {0}
AreOrdered (n ∷ ns) = (is_ascii n ≡ true) × Every (λ m. comes_first n m ≡ true) ns × AreOrdered ns

is_ascii-drop : (n : ℕ) (s : List ℕ) → is_ascii s ≡ true → is_ascii (drop n s) ≡ true
is_ascii-drop zero s h = h
is_ascii-drop (suc n) [] h = refl
is_ascii-drop (suc n) (c ∷ s) h = is_ascii-drop n s (both (ltb c 0x80) (is_ascii s) h).1

-- Behind the symbol, the names are in the same order.
comes_first-drop :
    (symbol a b : List ℕ)
    → begins symbol a ≡ true
    → begins symbol b ≡ true
    → comes_first a b ≡ true
    → comes_first (drop (length symbol) a) (drop (length symbol) b) ≡ true
comes_first-drop [] a b h k o = o
comes_first-drop (s ∷ symbol) [] b h k o = absurd cc
comes_first-drop (s ∷ symbol) (x ∷ a) [] h k o = absurd cc
comes_first-drop (s ∷ symbol) (x ∷ a) (y ∷ b) h k o =
    ground (arith, h, k, o, comes_first-drop symbol a b)

-- What follows the symbol
pub begins-take :
    (symbol f e : List ℕ) (n : ℕ)
    → begins symbol f ≡ true
    → begins symbol e ≡ true
    → n ≤ common (drop (length symbol) f) (drop (length symbol) e)
    → begins (symbol ++ take n (drop (length symbol) f)) e ≡ true
begins-take [] f e n l k h = begins-common n f e h
begins-take (s ∷ symbol) f [] n l k h = absurd cc
begins-take (s ∷ symbol) [] (y ∷ e) n l k h = absurd cc
begins-take (s ∷ symbol) (x ∷ f) (y ∷ e) n l k h = ground (arith, h, k, l, begins-take symbol f e n)

pub begins_both-drop :
    (symbol t f e : List ℕ)
    → begins (symbol ++ t) f ≡ true
    → begins (symbol ++ t) e ≡ true
    → length t ≤ common (drop (length symbol) f) (drop (length symbol) e)
begins_both-drop [] t f e h k = begins_both-common t f e h k
begins_both-drop (s ∷ symbol) t [] e h k = absurd cc
begins_both-drop (s ∷ symbol) t (x ∷ f) [] h k = absurd cc
begins_both-drop (s ∷ symbol) t (x ∷ f) (y ∷ e) h k =
    ground (arith, h, k, begins_both-drop symbol t f e)

module _ (symbol : List ℕ) where
  -- What two names have in common behind the symbol
  abbrev pub common_behind : List ℕ → List ℕ → ℕ
  common_behind f e = common (drop (length symbol) f) (drop (length symbol) e)

  -- The length of the prefix is the least of the lengths.
  pub record Narrowed (f : List ℕ) (p n : ℕ) (ms : List (List ℕ)) (r : Matches) : Type 0 where
    pub all_listed : r.glist ≡ ms
    pub counted : r.glist_len ≡ n + length ms
    pub below : r.prefix_len ≤ p
    pub below_all : Every (λ e. r.prefix_len ≤ common_behind f e) ms
    pub greatest : (t : ℕ) → t ≤ p → Every (λ e. t ≤ common_behind f e) ms → t ≤ r.prefix_len

  narrow-le : (p d : ℕ) → d ≤ p → narrow p d ≡ d
  narrow-le p d h = ground arith

  -- A name that matches, behind another one.
  taken-Narrowed :
      (f e : List ℕ) (p n : ℕ) (ms : List (List ℕ)) (r : Matches)
      → common_behind f e ≤ p
      → Narrowed f (common_behind f e) (suc n) ms r
      → Narrowed f p n (e ∷ ms) (record r { glist = e ∷ r.glist })
  taken-Narrowed f e p n ms r h v = record {
    all_listed = ap (e ∷◌) v.all_listed;
    counted = let c = v.counted in omega (arith, c);
    below = let b = v.below in omega (arith, b, h);
    below_all = (v.below, v.below_all);
    greatest = λ t le every. v.greatest t every.0 every.1;
  }

  -- The matching names, the first one of which is compared with the other ones.
  abbrev pub IsOutcome : List (List ℕ) → Matches → Type 0
  IsOutcome [] m = m ≡ record { glist = []; glist_len = 0; prefix_len = 0 }
  IsOutcome (f ∷ ms) m =
      (r : Matches) × (m ≡ record r { glist = f ∷ r.glist })
      × Narrowed f (common_behind f f) 1 ms r
      × (begins symbol f ≡ true)
      × Every (λ e. begins symbol e ≡ true) ms

  matching-Every :
      (names : List (List ℕ)) → Every (λ e. begins symbol e ≡ true) (matching symbol names)
  matching-Every [] = tt
  matching-Every (e ∷ es) = elim (Bool-cases (begins symbol e)) [
    | inl fits ↦ rw fits (fits, matching-Every es)
    | inr fails ↦ rw fails (matching-Every es)
  ]

  module _ (u : Utf8) (g : IsAsciiAware u) where
    casediff_behind :
        (f e : List ℕ)
        → is_ascii f ≡ true
        → is_ascii e ≡ true
        → string_casediff u (drop (length symbol) f) (drop (length symbol) e) ≡ common_behind f e
    casediff_behind f e af ae =
        string_casediff-common u g (drop (length symbol) f) (drop (length symbol) e)
          (is_ascii-drop (length symbol) f af) (is_ascii-drop (length symbol) e ae)

    loop-Narrowed :
        (f k : List ℕ) (n : ℕ) (names : List (List ℕ))
        → is_ascii f ≡ true
        → begins symbol f ≡ true
        → begins symbol k ≡ true
        → comes_first f k ≡ true
        → Every (λ m. comes_first f m ≡ true) names
        → Every (λ m. comes_first k m ≡ true) names
        → AreOrdered names
        → Narrowed f
            (common_behind f k)
            n
            (matching symbol names)
            (complete_loop u symbol (some f) (common_behind f k) n names)
    unfolding complete_loop
    loop-Narrowed f k n [] af bf bk fk fs ks o = record {
      all_listed = refl;
      counted = omega arith;
      below = omega arith;
      below_all = tt;
      greatest = λ t h every. h;
    }
    loop-Narrowed f k n (e ∷ es) af bf bk fk (fe, fs) (ke, ks) (ae, later, o) =
        elim (Bool-cases (begins symbol e)) [
          | inr fails ↦ rw (fails, complete_loop) (loop-Narrowed f k n es af bf bk fk fs ks o)
          | inl fits ↦
              let len = casediff_behind f e af ae in
              let le : common_behind f e ≤ common_behind f k =
                common-comes_first (drop (length symbol) f) (drop (length symbol) k)
                  (drop (length symbol) e) (comes_first-drop symbol f k bf bk fk)
                  (comes_first-drop symbol k e bk fits ke) in
              rw (fits, complete_loop)
                (rw (len, narrow-le (common_behind f k) (common_behind f e) le)
                  (taken-Narrowed f e _ n _ _ le
                    (loop-Narrowed f e (suc n) es af bf fits fe fs later o)))
        ]

    pub loop-IsOutcome :
        (names : List (List ℕ))
        → AreOrdered names
        → IsOutcome (matching symbol names) (complete_loop u symbol none 0 0 names)
    unfolding complete_loop
    loop-IsOutcome [] o = refl
    loop-IsOutcome (e ∷ es) (ae, later, o) = elim (Bool-cases (begins symbol e)) [
      | inr fails ↦ rw (fails, complete_loop) (loop-IsOutcome es o)
      | inl fits ↦
          let len = casediff_behind e e ae ae in
          rw (fits, complete_loop)
            (rw (len) (
              complete_loop u symbol (some e) (common_behind e e) 1 es,
              refl,
              loop-Narrowed e e 1 es ae fits fits (comes_first_refl e) later later o,
              fits,
              matching-Every es,
            ))
    ]
