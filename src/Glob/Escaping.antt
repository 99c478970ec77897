-- ===== src/Glob/Escaping.antt =====
-- src/glob.c: the sizes of the buffers, and escaped patterns as regular expressions.
use sciteco.Prelude.{
  ℕ, ◌+◌, ◌*◌, ◌≤◌, ◌≡◌, refl, ap, ◌∙◌, true, false, List, [], ◌∷◌, ◌++◌, ◌==◌, if◌then◌else◌,
  arith, length, length-append, Bool-cases, ◌⊎◌, inl, inr,
}
use sciteco.Glob.{
  is_special, escaped_len, escape_pattern, State, wildcard, class_start, class_negate, class,
  is_meta, outside, inside, step, compile_loop, compile_pattern,
}

-- The escaped pattern and its null byte have exactly the size that is allocated for them.
pub length-escape_pattern : (p : List ℕ) → length (escape_pattern p) + 1 ≡ escaped_len p
unfolding escape_pattern escaped_len
length-escape_pattern [] = refl
length-escape_pattern (c ∷ cs) = elim (Bool-cases (is_special c)) [
  | inl special ↦ rw special (omega (arith, length-escape_pattern cs))
  | inr plain ↦ rw plain (omega (arith, length-escape_pattern cs))
]

-- At most two characters are written for one.
length-outside : (c : ℕ) (cs : List ℕ) → length (outside c cs).0 ≤ 2
unfolding outside
length-outside c cs = ground arith

length-inside : (s : State) (c : ℕ) → length (inside s c).0 ≤ 2
unfolding inside
length-inside s c = ground arith

length-step : (s : State) (c : ℕ) (cs : List ℕ) → length (step s c cs).0 ≤ 2
unfolding step
length-step wildcard c cs = length-outside c cs
length-step class_start c cs = length-inside class_start c
length-step class_negate c cs = length-inside class_negate c
length-step class c cs = length-inside class c

length-compile_loop : (s : State) (p : List ℕ) → length (compile_loop s p) ≤ length p * 2
unfolding compile_loop
length-compile_loop s [] = omega arith
length-compile_loop s (c ∷ cs) = omega (
  arith,
  length-append (step s c cs).0 (compile_loop (step s c cs).1 cs),
  length-step s c cs,
  length-compile_loop (step s c cs).1 cs,
)

-- The regular expression that a pattern is translated to, with its null byte, fits the buffer of
-- strlen(pattern)*2 + 1 + 1 bytes.
pub length-compile_pattern : (p : List ℕ) → length (compile_pattern p) + 1 ≤ length p * 2 + 1 + 1
unfolding compile_pattern
length-compile_pattern p =
    omega
      (arith, length-append (compile_loop wildcard p) (b'$' ∷ []), length-compile_loop wildcard p)

-- The regular expression that matches one character only.
abbrev pub literal : ℕ → List ℕ
literal c =
    if is_special c
    then (if c == b'[' then b'[' ∷ b'\\' ∷ b'[' ∷ b']' ∷ [] else b'[' ∷ c ∷ b']' ∷ [])
    else if is_meta c
    then b'\\' ∷ c ∷ []
    else c ∷ []

abbrev pub literals : List ℕ → List ℕ
literals [] = []
literals (c ∷ cs) = literal c ++ literals cs

special-cases : (c : ℕ) → is_special c ≡ true → (c ≡ b'*') ⊎ ((c ≡ b'?') ⊎ (c ≡ b'['))
special-cases c h = ground arith

-- A special character in its own class.
compile_loop-special :
    (c : ℕ) (rest : List ℕ)
    → is_special c ≡ true
    → compile_loop wildcard (b'[' ∷ c ∷ b']' ∷ rest) ≡ literal c ++ compile_loop wildcard rest
unfolding compile_loop
compile_loop-special c rest h = elim (special-cases c h) [
  | inl star ↦ rw star refl
  | inr (inl mark) ↦ rw mark refl
  | inr (inr bracket) ↦ rw bracket refl
]

outside-plain :
    (c : ℕ) (cs : List ℕ)
    → is_special c ≡ false
    → outside c cs ≡ ((if is_meta c then b'\\' ∷ c ∷ [] else c ∷ []), wildcard)
unfolding outside
outside-plain c cs h = ground arith

compile_loop-plain :
    (c : ℕ) (cs : List ℕ)
    → is_special c ≡ false
    → compile_loop wildcard (c ∷ cs) ≡ literal c ++ compile_loop wildcard cs
unfolding compile_loop
compile_loop-plain c cs h = rw (outside-plain c cs h, h) refl

escape_pattern-special :
    (c : ℕ) (cs : List ℕ)
    → is_special c ≡ true
    → escape_pattern (c ∷ cs) ≡ b'[' ∷ c ∷ b']' ∷ escape_pattern cs
unfolding escape_pattern
escape_pattern-special c cs h = rw h refl

escape_pattern-plain :
    (c : ℕ) (cs : List ℕ) → is_special c ≡ false → escape_pattern (c ∷ cs) ≡ c ∷ escape_pattern cs
unfolding escape_pattern
escape_pattern-plain c cs h = rw h refl

compile_loop-escape_pattern : (p : List ℕ) → compile_loop wildcard (escape_pattern p) ≡ literals p
unfolding compile_loop escape_pattern
compile_loop-escape_pattern [] = refl
compile_loop-escape_pattern (c ∷ cs) = elim (Bool-cases (is_special c)) [
  | inl special ↦
      ap (compile_loop wildcard) (escape_pattern-special c cs special)
      ∙ compile_loop-special c (escape_pattern cs) special
      ∙ ap (literal c ++◌) (compile_loop-escape_pattern cs)
  | inr plain ↦
      ap (compile_loop wildcard) (escape_pattern-plain c cs plain)
      ∙ compile_loop-plain c (escape_pattern cs) plain
      ∙ ap (literal c ++◌) (compile_loop-escape_pattern cs)
]

-- Escaped and then compiled, a pattern becomes the regular expression of its characters one by one,
-- up to the end of the text: none of them keeps a meaning as a wildcard or as a metacharacter.
pub compile_pattern-escape_pattern :
    (p : List ℕ) → compile_pattern (escape_pattern p) ≡ literals p ++ (b'$' ∷ [])
unfolding compile_pattern
compile_pattern-escape_pattern p =
    ap (λ (t : List ℕ). t ++ (b'$' ∷ [])) (compile_loop-escape_pattern p)
