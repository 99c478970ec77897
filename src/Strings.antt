-- ===== src/Strings.antt =====
-- src/string-utils.c: comparing and searching strings, which are lists of bytes. `rank` is the value
-- of a byte as a gchar, which is signed on some platforms: only its order is used.
pub mod Common
pub mod Comparing
pub mod Folding
pub mod Separators
use Prim.Native.Nat.{bit_or}
use sciteco.Prelude.{
  ℕ, zero, suc, ◌+◌, ◌-◌, Bool, true, false, Option, none, some, List, [], ◌∷◌, ◌++◌, ltb, leb,
  ◌==◌, ◌&&◌, if◌then◌else◌, get_or, length, drop,
}

-- The loop of teco_string_diff(), on the bytes from the index on.
unfoldable pub string_diff : List ℕ → List ℕ → ℕ
string_diff [] b = 0
string_diff (x ∷ a) [] = 0
string_diff (x ∷ a) (y ∷ b) = let rest = string_diff a b in if x == y then suc rest else 0

-- GLib's functions: the bytes of a character behind its first one, the character at the beginning of
-- a string, and its lower case.
pub record Utf8 : Type 0 where
  pub utf8_more : ℕ → ℕ
  pub utf8_get_char : List ℕ → ℕ
  pub unichar_tolower : ℕ → ℕ

-- teco_string_casediff(), with the number of bytes of the right character that are left to skip. The
-- last character may end behind the string.
unfoldable pub casediff_from : Utf8 → ℕ → List ℕ → List ℕ → ℕ
casediff_from u zero a [] = 0
casediff_from u zero [] (y ∷ b) = 0
casediff_from u zero (x ∷ a) (y ∷ b) =
    let rest = casediff_from u (u.utf8_more y) a b in
    if u.unichar_tolower (u.utf8_get_char (x ∷ a)) == u.unichar_tolower (u.utf8_get_char (y ∷ b))
    then suc rest
    else 0
casediff_from u (suc n) a [] = suc n
casediff_from u (suc n) a (y ∷ b) = suc (casediff_from u n (drop 1 a) b)

unfoldable pub string_casediff : Utf8 → List ℕ → List ℕ → ℕ
unfolding casediff_from
string_casediff u a b = casediff_from u 0 a b

-- The sign of the result of teco_string_cmp()
pub data Sign : Type 0 where
  less equal greater : Sign

-- The first bytes that differ decide.
abbrev pub then_sign : Sign → Sign → Sign
then_sign less rest = less
then_sign equal rest = rest
then_sign greater rest = greater

module _ (rank : ℕ → ℕ) where
  -- The sign of (gint)a->data[i] - (gint)b[i]
  abbrev pub byte_sign : ℕ → ℕ → Sign
  byte_sign x y =
      if ltb (rank x) (rank y) then less else if ltb (rank y) (rank x) then greater else equal

  -- The loop of teco_string_cmp(), on the bytes from the index on.
  unfoldable pub string_cmp : List ℕ → List ℕ → Sign
  string_cmp [] [] = equal
  string_cmp [] (y ∷ b) = less
  string_cmp (x ∷ a) [] = greater
  string_cmp (x ∷ a) (y ∷ b) = let rest = string_cmp a b in then_sign (byte_sign x y) rest

-- g_ascii_tolower()
abbrev pub ascii_tolower : ℕ → ℕ
ascii_tolower c = if leb b'A' c && leb c b'Z' then c + 32 else c

-- teco_string_casecmp()
unfoldable pub string_casecmp : (ℕ → ℕ) → List ℕ → List ℕ → Sign
unfolding string_cmp
string_casecmp rank a b = string_cmp (λ c. rank (ascii_tolower c)) a b

-- TECO_IS_CTL() and TECO_CTL_ECHO() of src/sciteco.h
abbrev pub is_ctl : ℕ → Bool
is_ctl c = ltb c 0x20

-- teco_string_echo(), without the null byte
unfoldable pub string_echo : List ℕ → List ℕ
string_echo [] = []
string_echo (c ∷ cs) = (if is_ctl c then b'^' ∷ bit_or c 0x40 ∷ [] else c ∷ []) ++ string_echo cs

-- The loop of teco_string_rindex(), below the index `n`; none stands for -1.
unfoldable pub rindex_loop : ℕ → ℕ → List ℕ → Option ℕ
rindex_loop zero chr str = none
rindex_loop (suc i) chr str =
    let rest = rindex_loop i chr str in if get_or str i 0 == chr then some i else rest

unfoldable pub string_rindex : List ℕ → ℕ → Option ℕ
unfolding rindex_loop
string_rindex str chr = rindex_loop (length str) chr str

-- The string behind an index, or all of it.
abbrev pub cut : List ℕ → Option ℕ → List ℕ
cut ret none = ret
cut ret (some i) = drop (suc i) ret

-- One round of teco_string_last_occurrence(): the string behind the last `chr`.
unfoldable pub cut_at : ℕ → List ℕ → List ℕ
unfolding string_rindex
cut_at chr ret = cut ret (string_rindex ret chr)

unfoldable pub occurrence_loop : List ℕ → List ℕ → List ℕ
unfolding cut_at
occurrence_loop [] ret = cut_at 0 ret
occurrence_loop (c ∷ chars) ret = occurrence_loop chars (cut_at c ret)

-- teco_string_last_occurrence(), with none for NULL
unfoldable pub last_occurrence : List ℕ → List ℕ → Option (List ℕ)
unfolding occurrence_loop
last_occurrence [] chars = none
last_occurrence (x ∷ str) chars = some (occurrence_loop chars (x ∷ str))
