-- ===== src/Tests/Strings.antt =====
-- Strings of src/string-utils.c on concrete bytes.
use sciteco.Prelude.{ℕ, ◌≡◌, refl, some, List, [], ◌∷◌}
use sciteco.Strings.{equal, string_diff, string_cmp, string_echo, last_occurrence}
use sciteco.Strings.Common.{IsCommon, string_diff-IsCommon}
use sciteco.Strings.Separators.{LacksAll, Cuts, last_occurrence-Cuts}

abbrev abc : List ℕ
abc = b'a' ∷ b'b' ∷ b'c' ∷ []

abbrev abd : List ℕ
abd = b'a' ∷ b'b' ∷ b'd' ∷ []

-- a/b/c behind the last slash
last_part : last_occurrence (b'a' ∷ b'/' ∷ b'b' ∷ b'/' ∷ b'c' ∷ []) (b'/' ∷ []) ≡ some (b'c' ∷ [])
unfolding last_occurrence
last_part = refl

echoed : string_echo (1 ∷ b'x' ∷ []) ≡ b'^' ∷ b'A' ∷ b'x' ∷ []
unfolding string_echo
echoed = refl

string_diff-IsCommon_example : IsCommon (string_diff abc abd) abc abd
string_diff-IsCommon_example = string_diff-IsCommon abc abd

same_cmp : string_cmp (λ c. c) abc abc ≡ equal
unfolding string_cmp
same_cmp = refl

last_occurrence-Cuts_example :
    (rest : List ℕ) × (last_occurrence abc (b'b' ∷ []) ≡ some rest)
    × LacksAll (b'b' ∷ []) rest
    × Cuts (b'b' ∷ []) abc rest
last_occurrence-Cuts_example = last_occurrence-Cuts b'a' (b'b' ∷ b'c' ∷ []) (b'b' ∷ [])
