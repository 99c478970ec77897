-- ===== src/Strings/Comparing.antt =====
-- src/string-utils.c: the sign of comparisons.
use sciteco.Prelude.{ℕ, ◌≡◌, refl, sym, ap, ◌∙◌, List, [], ◌∷◌, arith}
use sciteco.Strings.{Sign, less, equal, greater, then_sign, byte_sign, string_cmp}

abbrev pub opposite_sign : Sign → Sign
opposite_sign less = greater
opposite_sign equal = equal
opposite_sign greater = less

opposite_then :
    (s t : Sign) → opposite_sign (then_sign s t) ≡ then_sign (opposite_sign s) (opposite_sign t)
opposite_then less t = refl
opposite_then equal t = refl
opposite_then greater t = refl

then_sign-equal : (s t : Sign) → then_sign s t ≡ equal → (s ≡ equal) × (t ≡ equal)
then_sign-equal less t e = cc
then_sign-equal equal t e = (refl, e)
then_sign-equal greater t e = cc

module _ (rank : ℕ → ℕ) where
  byte_sign-flip : (x y : ℕ) → byte_sign rank y x ≡ opposite_sign (byte_sign rank x y)
  byte_sign-flip x y = ground arith

  -- Comparing two strings the other way round gives the opposite sign.
  pub string_cmp-flip : (a b : List ℕ) → string_cmp rank b a ≡ opposite_sign (string_cmp rank a b)
  unfolding string_cmp
  string_cmp-flip [] [] = refl
  string_cmp-flip [] (y ∷ b) = refl
  string_cmp-flip (x ∷ a) [] = refl
  string_cmp-flip (x ∷ a) (y ∷ b) =
      ap (λ (s : Sign). then_sign s (string_cmp rank b a)) (byte_sign-flip x y)
      ∙ ap (then_sign (opposite_sign (byte_sign rank x y))) (string_cmp-flip a b)
      ∙ sym (opposite_then (byte_sign rank x y) (string_cmp rank a b))

  byte_sign-equal :
      (x y : ℕ) → ((x y : ℕ) → rank x ≡ rank y → x ≡ y) → byte_sign rank x y ≡ equal → x ≡ y
  byte_sign-equal x y inj e = inj x y (ground arith)

  -- Strings that compare as equal are the same, if different bytes have different values.
  pub string_cmp-equal :
      (a b : List ℕ) → ((x y : ℕ) → rank x ≡ rank y → x ≡ y) → string_cmp rank a b ≡ equal → a ≡ b
  unfolding string_cmp
  string_cmp-equal [] [] inj e = refl
  string_cmp-equal [] (y ∷ b) inj e = cc
  string_cmp-equal (x ∷ a) [] inj e = cc
  string_cmp-equal (x ∷ a) (y ∷ b) inj e =
      let both = then_sign-equal (byte_sign rank x y) (string_cmp rank a b) e in
      ap (λ (c : ℕ). c ∷ a) (byte_sign-equal x y inj both.0)
      ∙ ap (y ∷◌) (string_cmp-equal a b inj both.1)
