-- ===== src/Strings/Common.antt =====
-- src/string-utils.c: the common prefix of two strings.
use sciteco.Prelude.{
  ℕ, suc, ◌≤◌, ◌≡◌, ◌≢◌, refl, List, [], ◌∷◌, ◌==◌, arith, length, take, drop, Bool-cases, inl, inr,
}
use sciteco.Strings.{string_diff}

-- One of the strings is at its end, or their next bytes differ.
abbrev pub Differ : List ℕ → List ℕ → Type 0
Differ [] b = Unit {0}
Differ (x ∷ a) [] = Unit {0}
Differ (x ∷ a) (y ∷ b) = x ≢ y

-- Both strings begin with the same `n` bytes, and with no more.
pub record IsCommon (n : ℕ) (a b : List ℕ) : Type 0 where
  pub fits : n ≤ length a
  pub same : take n a ≡ take n b
  pub maximal : Differ (drop n a) (drop n b)

IsCommon-suc :
    (n x y : ℕ) (a b : List ℕ) → x ≡ y → IsCommon n a b → IsCommon (suc n) (x ∷ a) (y ∷ b)
IsCommon-suc n x y a b e h = record {
  fits = omega (arith, h.fits);
  same = rw (e, h.same) refl;
  maximal = h.maximal;
}

-- The length that teco_string_diff() returns is that of the longest common prefix: both strings
-- begin with the same bytes up to it, and behind it one of them ends or the next bytes differ.
pub string_diff-IsCommon : (a b : List ℕ) → IsCommon (string_diff a b) a b
unfolding string_diff
string_diff-IsCommon [] b = record { fits = omega arith; same = refl; maximal = tt }
string_diff-IsCommon (x ∷ a) [] = record { fits = omega arith; same = refl; maximal = tt }
string_diff-IsCommon (x ∷ a) (y ∷ b) = elim (Bool-cases (x == y)) [
  | inl e ↦ rw e (IsCommon-suc (string_diff a b) x y a b (ground arith) (string_diff-IsCommon a b))
  | inr ne ↦ rw ne (record { fits = omega arith; same = refl; maximal = ground arith })
]
