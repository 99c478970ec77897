-- ===== src/Strings/Folding.antt =====
-- src/string-utils.c: strings that are compared without regard to the case of ASCII letters.
use sciteco.Prelude.{
  both, ℕ, zero, suc, ◌≤◌, ◌<◌, ◌≡◌, refl, Bool, true, false, List, [], ◌∷◌, ltb, ◌==◌, ◌&&◌,
  if◌then◌else◌, length, take, arith,
}
use sciteco.Strings.{Utf8, casediff_from, string_casediff, ascii_tolower}

-- The string begins with the other one: what g_ascii_strncasecmp() compares as equal.
abbrev pub begins : List ℕ → List ℕ → Bool
begins [] e = true
begins (s ∷ ss) [] = false
begins (s ∷ ss) (x ∷ e) = (ascii_tolower s == ascii_tolower x) && begins ss e

-- The length of the longest common prefix
abbrev pub common : List ℕ → List ℕ → ℕ
common [] b = 0
common (x ∷ a) [] = 0
common (x ∷ a) (y ∷ b) =
    let rest = common a b in if ascii_tolower x == ascii_tolower y then suc rest else 0

-- The order of g_ascii_strcasecmp()
abbrev pub comes_first : List ℕ → List ℕ → Bool
comes_first [] b = true
comes_first (x ∷ a) [] = false
comes_first (x ∷ a) (y ∷ b) =
    let rest = comes_first a b in
    if ascii_tolower x == ascii_tolower y then rest else ltb (ascii_tolower x) (ascii_tolower y)

abbrev pub is_ascii : List ℕ → Bool
is_ascii [] = true
is_ascii (c ∷ cs) = ltb c 0x80 && is_ascii cs

-- What GLib does with an ASCII character.
pub record IsAsciiAware (u : Utf8) : Type 0 where
  pub one_byte : (c : ℕ) → c < 0x80 → u.utf8_more c ≡ 0
  pub same_char : (c : ℕ) (cs : List ℕ) → c < 0x80 → u.utf8_get_char (c ∷ cs) ≡ c
  pub same_lower : (c : ℕ) → c < 0x80 → u.unichar_tolower c ≡ ascii_tolower c

pub string_casediff-common :
    (u : Utf8)
    → IsAsciiAware u
    → (a b : List ℕ) → is_ascii a ≡ true
    → is_ascii b ≡ true
    → string_casediff u a b ≡ common a b
unfolding string_casediff casediff_from
string_casediff-common u g [] [] h k = refl
string_casediff-common u g (x ∷ a) [] h k = refl
string_casediff-common u g [] (y ∷ b) h k = refl
string_casediff-common u g (x ∷ a) (y ∷ b) h k =
    let (xs, later) = both (ltb x 0x80) (is_ascii a) h in
    let (ys, others) = both (ltb y 0x80) (is_ascii b) k in
    let x_lt : x < 0x80 = ground (arith, xs) in
    let y_lt : y < 0x80 = ground (arith, ys) in
    rw
      (
        g.one_byte y y_lt,
        g.same_char x a x_lt,
        g.same_char y b y_lt,
        g.same_lower x x_lt,
        g.same_lower y y_lt,
        string_casediff-common u g a b later others,
      )
      refl

-- Further down a list in order, less is common with the first string.
pub common-comes_first :
    (f a b : List ℕ) → comes_first f a ≡ true → comes_first a b ≡ true → common f b ≤ common f a
common-comes_first [] a b h k = omega arith
common-comes_first (x ∷ f) [] b h k = absurd cc
common-comes_first (x ∷ f) (y ∷ a) [] h k = absurd cc
common-comes_first (x ∷ f) (y ∷ a) (z ∷ b) h k = ground (arith, h, k, common-comes_first f a b)

pub begins-common : (n : ℕ) (f e : List ℕ) → n ≤ common f e → begins (take n f) e ≡ true
begins-common zero f e h = refl
begins-common (suc n) [] e h = absurd (omega arith)
begins-common (suc n) (x ∷ f) [] h = absurd (omega arith)
begins-common (suc n) (x ∷ f) (y ∷ e) h = ground (arith, h, begins-common n f e)

pub begins_both-common :
    (t f e : List ℕ) → begins t f ≡ true → begins t e ≡ true → length t ≤ common f e
begins_both-common [] f e h k = omega arith
begins_both-common (s ∷ t) [] e h k = absurd cc
begins_both-common (s ∷ t) (x ∷ f) [] h k = absurd cc
begins_both-common (s ∷ t) (x ∷ f) (y ∷ e) h k = ground (arith, h, k, begins_both-common t f e)

pub comes_first_refl : (a : List ℕ) → comes_first a a ≡ true
comes_first_refl [] = refl
comes_first_refl (x ∷ a) = ground (arith, comes_first_refl a)
