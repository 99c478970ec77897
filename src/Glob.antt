-- ===== src/Glob.antt =====
-- src/glob.c: escaping of glob patterns, and their translation to the text of a regular expression.
-- A pattern is the bytes of a C string before its null byte.
pub mod Escaping
use sciteco.Prelude.{
  ℕ, zero, suc, ◌+◌, Bool, true, false, List, [], ◌∷◌, ◌++◌, ◌==◌, ◌||◌, ◌&&◌, not, if◌then◌else◌,
}

-- case '*': case '?': case '['
abbrev pub is_special : ℕ → Bool
is_special c = if c == b'*' then true else if c == b'?' then true else c == b'['

-- The size that teco_globber_escape_pattern() allocates, the null byte included.
unfoldable pub escaped_len : List ℕ → ℕ
escaped_len [] = 1
escaped_len (c ∷ cs) = (if is_special c then 3 else 1) + escaped_len cs

-- teco_globber_escape_pattern()
unfoldable pub escape_pattern : List ℕ → List ℕ
escape_pattern [] = []
escape_pattern (c ∷ cs) =
    (if is_special c then b'[' ∷ c ∷ b']' ∷ [] else c ∷ []) ++ escape_pattern cs

-- The states of teco_globber_compile_pattern().
pub data State : Type 0 where
  wildcard class_start class_negate class : State

abbrev pub is_start : State → Bool
is_start class_start = true
is_start _ = false

abbrev pub is_class : State → Bool
is_class class = true
is_class _ = false

-- strchr(pattern, ']') != NULL
abbrev pub has_close : List ℕ → Bool
has_close [] = false
has_close (c ∷ cs) = if c == b']' then true else has_close cs

-- The characters of case '\\' to case '{', which PCRE gives a meaning.
abbrev pub is_meta : ℕ → Bool
is_meta c =
    (c == b'\\')
    || (c == b'^')
    || (c == b'$')
    || (c == b'.')
    || (c == b'|')
    || (c == b'(')
    || (c == b')')
    || (c == b'+')
    || (c == b'{')

abbrev escaped : ℕ → List ℕ
escaped c = b'\\' ∷ c ∷ []

-- Outside of a character class: what is written for `c`, and the next state.
unfoldable pub outside : ℕ → List ℕ → List ℕ × State
outside c cs =
    if c == b'*'
    then (b'.' ∷ b'*' ∷ [], wildcard)
    else if c == b'?'
    then (b'.' ∷ [], wildcard)
    else if c == b'['
    then (if has_close (c ∷ cs) then (b'[' ∷ [], class_start) else (escaped c, wildcard))
    else if is_meta c
    then (escaped c, wildcard)
    else (c ∷ [], wildcard)

-- Within a character class.
unfoldable pub inside : State → ℕ → List ℕ × State
inside s c =
    if c == b'!' && not (is_start s)
    then (b'!' ∷ [], class)
    else if (c == b'!') || (c == b'^')
    then (b'^' ∷ [], if is_start s then class_negate else class)
    else if c == b']'
    then (if is_class s then (b']' ∷ [], wildcard) else (escaped c, class))
    else if (c == b'\\') || (c == b'[')
    then (escaped c, class)
    else (c ∷ [], class)

unfoldable pub step : State → ℕ → List ℕ → List ℕ × State
unfolding outside inside
step wildcard c cs = outside c cs
step s c cs = inside s c

unfoldable pub compile_loop : State → List ℕ → List ℕ
unfolding step
compile_loop s [] = []
compile_loop s (c ∷ cs) = (step s c cs).0 ++ compile_loop (step s c cs).1 cs

-- The text that teco_globber_compile_pattern() gives to g_regex_new().
unfoldable pub compile_pattern : List ℕ → List ℕ
unfolding compile_loop
compile_pattern p = compile_loop wildcard p ++ (b'$' ∷ [])
