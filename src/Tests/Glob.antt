-- ===== src/Tests/Glob.antt =====
-- Glob patterns of src/glob.c on concrete bytes.
use sciteco.Prelude.{ℕ, ◌+◌, ◌*◌, ◌≤◌, ◌≡◌, refl, List, [], ◌∷◌, ◌++◌, length}
use sciteco.Glob.{escaped_len, escape_pattern, compile_pattern}
use sciteco.Glob.Escaping.{
  length-escape_pattern, length-compile_pattern, literals, compile_pattern-escape_pattern,
}

-- a[*.c
abbrev odd_name : List ℕ
odd_name = b'a' ∷ b'[' ∷ b'*' ∷ b'.' ∷ b'c' ∷ []

-- [!a]? and the pattern [], whose class is never closed in the regular expression
compiled :
    compile_pattern (b'[' ∷ b'!' ∷ b'a' ∷ b']' ∷ b'?' ∷ [])
    ≡ b'[' ∷ b'^' ∷ b'a' ∷ b']' ∷ b'.' ∷ b'$' ∷ []
unfolding compile_pattern
compiled = refl

unclosed : compile_pattern (b'[' ∷ b']' ∷ []) ≡ b'[' ∷ b'\\' ∷ b']' ∷ b'$' ∷ []
unfolding compile_pattern
unclosed = refl

length-escape_pattern_example : length (escape_pattern odd_name) + 1 ≡ escaped_len odd_name
length-escape_pattern_example = length-escape_pattern odd_name

length-compile_pattern_example : length (compile_pattern odd_name) + 1 ≤ length odd_name * 2 + 1 + 1
length-compile_pattern_example = length-compile_pattern odd_name

compile_pattern-escape_pattern_example :
    compile_pattern (escape_pattern odd_name) ≡ literals odd_name ++ (b'$' ∷ [])
compile_pattern-escape_pattern_example = compile_pattern-escape_pattern odd_name
