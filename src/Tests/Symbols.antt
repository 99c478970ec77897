-- ===== src/Tests/Symbols.antt =====
-- src/symbols.c: a small list of symbols.
use sciteco.Prelude.{ℕ, zero, suc, ◌≡◌, ◌<◌, ◌≤◌, refl, List, [], ◌∷◌, ltb, if◌then◌else◌, arith}
use sciteco.Strings.{
  Utf8, ascii_tolower, casediff_from, string_casediff, Sign, less, equal, greater,
}
use sciteco.Symbols.{SymbolList, compare_at, lookup, found}
use sciteco.Symbols.Completion.{complete_loop, auto_complete}
use sciteco.Symbols.Narrowing.{matching}
use sciteco.Symbols.Completing.{Completes, auto_complete-Completes}
use sciteco.Symbols.Search.{IsOrdered, Answers, lookup-Answers}

abbrev strncmp : List ℕ → List ℕ → ℕ → Sign
strncmp a b zero = equal
strncmp [] [] (suc n) = equal
strncmp [] (y ∷ b) (suc n) = less
strncmp (x ∷ a) [] (suc n) = greater
strncmp (x ∷ a) (y ∷ b) (suc n) =
    let rest = strncmp a b n in if ltb x y then less else if ltb y x then greater else rest

-- SCI_A and SCI_Z; the name is Z.
abbrev symbols : SymbolList
symbols = record {
  entries =
      record { name = b'S' ∷ b'_' ∷ b'A' ∷ []; value = 7 }
      ∷ record { name = b'S' ∷ b'_' ∷ b'Z' ∷ []; value = 9 }
      ∷ [];
  cmp_fnc = strncmp;
}

abbrev prefix : List ℕ
prefix = b'S' ∷ b'_' ∷ []

symbols-IsOrdered : IsOrdered symbols (b'Z' ∷ []) 2
unfolding compare_at
symbols-IsOrdered = record {
  less_before = λ i j le lt h. before i j le lt h;
  greater_behind = λ i j le lt h. behind i j le lt h;
}
  where
    before :
        (i j : ℕ)
        → i ≤ j
        → j < 2
        → compare_at symbols (b'Z' ∷ []) 2 j ≡ less
        → compare_at symbols (b'Z' ∷ []) 2 i ≡ less
    before zero j le lt h = refl
    before (suc i) zero le lt h = absurd (omega arith)
    before (suc zero) (suc zero) le lt h = h
    before (suc (suc i)) (suc zero) le lt h = absurd (omega arith)
    before (suc i) (suc (suc j)) le lt h = absurd (omega arith)

    behind :
        (i j : ℕ)
        → i ≤ j
        → j < 2
        → compare_at symbols (b'Z' ∷ []) 2 i ≡ greater
        → compare_at symbols (b'Z' ∷ []) 2 j ≡ greater
    behind zero j le lt h = absurd cc
    behind (suc zero) j le lt h = absurd cc
    behind (suc (suc i)) j le lt h = absurd (omega arith)

found_z : lookup symbols (b'Z' ∷ []) prefix ≡ found 9
unfolding lookup compare_at
found_z = refl

lookup-Answers_example : Answers symbols (b'Z' ∷ []) 2 (lookup symbols (b'Z' ∷ []) prefix)
lookup-Answers_example = lookup-Answers symbols (b'Z' ∷ []) prefix symbols-IsOrdered

-- ABCX, ABCY and AD; the symbol is ab.
abbrev names : List (List ℕ)
names =
    (b'A' ∷ b'B' ∷ b'C' ∷ b'X' ∷ []) ∷ (b'A' ∷ b'B' ∷ b'C' ∷ b'Y' ∷ []) ∷ (b'A' ∷ b'D' ∷ []) ∷ []

abbrev symbol : List ℕ
symbol = b'a' ∷ b'b' ∷ []

abbrev first_byte : List ℕ → ℕ
first_byte [] = 0
first_byte (c ∷ cs) = c

abbrev bytes : Utf8
bytes = record { utf8_more = λ c. 0; utf8_get_char = first_byte; unichar_tolower = ascii_tolower }

completed_c : (auto_complete bytes symbol names).insert ≡ b'C' ∷ []
unfolding auto_complete complete_loop string_casediff casediff_from
completed_c = refl

auto_complete-Completes_example :
    Completes symbol (matching symbol names) (auto_complete bytes symbol names)
auto_complete-Completes_example =
    auto_complete-Completes bytes symbol names
      (record { one_byte = λ c h. refl; same_char = λ c cs h. refl; same_lower = λ c h. refl })
      (refl, (refl, (refl, tt)), (refl, (refl, tt), (refl, tt, tt)))
