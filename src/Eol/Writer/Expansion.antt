-- ===== src/Eol/Writer/Expansion.antt =====
-- src/eol.c: what the writer is to write for a text, and the blocks that it leaves untouched.
use sciteco.Prelude.{
  drop-all, append_assoc, ℕ, zero, suc, ◌≤◌, ◌<◌, ◌≡◌, refl, ap, ◌∙◌, true, false, List, [], ◌∷◌,
  ◌++◌, arith, ◌==◌, if◌then◌else◌, length-append, ltb, ltb→lt, length, drop, Bool-cases, inl, inr,
}

-- The text behind a byte, with this sequence for every line end.
unfoldable pub expand : List ℕ → ℕ → List ℕ → List ℕ
expand seq last [] = []
expand seq last (c ∷ cs) =
    let rest = expand seq c cs in
    if c == b'\n'
    then (if last == b'\r' then rest else seq ++ rest)
    else if c == b'\r'
    then seq ++ rest
    else c ∷ rest

pub expand_skipped :
    (seq : List ℕ) (last : ℕ) (c : ℕ) (cs : List ℕ)
    → (c == b'\n') ≡ true
    → (last == b'\r') ≡ true
    → expand seq last (c ∷ cs) ≡ expand seq c cs
unfolding expand
expand_skipped seq last c cs e d = rw (e, d) refl

pub expand_feed :
    (seq : List ℕ) (last c : ℕ) (cs : List ℕ)
    → (c == b'\n') ≡ true
    → (last == b'\r') ≡ false
    → expand seq last (c ∷ cs) ≡ seq ++ expand seq c cs
unfolding expand
expand_feed seq last c cs e d = rw (e, d) refl

pub expand_return :
    (seq : List ℕ) (last c : ℕ) (cs : List ℕ)
    → (c == b'\n') ≡ false
    → (c == b'\r') ≡ true
    → expand seq last (c ∷ cs) ≡ seq ++ expand seq c cs
unfolding expand
expand_return seq last c cs e d = rw (e, d) refl

-- The text from a byte within the block on is the rest of the block, and then what follows.
unfoldable pub EndsIn : List ℕ → List ℕ → ℕ → Type 0
EndsIn seq block last =
    (k l : ℕ) (ys : List ℕ)
    → k < length block
    → expand seq l (drop k block ++ ys) ≡ drop k block ++ expand seq last ys

pub nothing-EndsIn : (seq : List ℕ) (last : ℕ) → EndsIn seq [] last
unfolding EndsIn
nothing-EndsIn seq last k l ys h = absurd (omega arith)

pub expand_plain :
    (seq : List ℕ) (l c : ℕ) (ys : List ℕ)
    → (c == b'\n') ≡ false
    → (c == b'\r') ≡ false
    → expand seq l (c ∷ ys) ≡ c ∷ expand seq c ys
unfolding expand
expand_plain seq l c ys p q = rw (p, q) refl

drop_snoc :
    (k : ℕ) (block : List ℕ) (c : ℕ) (ys : List ℕ)
    → k ≤ length block
    → drop k (block ++ c ∷ []) ++ ys ≡ drop k block ++ (c ∷ ys)
drop_snoc zero block c ys h = append_assoc block (c ∷ []) ys
drop_snoc (suc k) [] c ys h = absurd (omega arith)
drop_snoc (suc k) (b ∷ block) c ys h = drop_snoc k block c ys (omega arith)

pub snoc-EndsIn :
    (seq block : List ℕ) (last c : ℕ)
    → (c == b'\n') ≡ false
    → (c == b'\r') ≡ false
    → EndsIn seq block last
    → EndsIn seq (block ++ c ∷ []) c
unfolding EndsIn
snoc-EndsIn seq block last c p q h k l ys lt =
    let le : k ≤ length block = omega (arith, lt, length-append block (c ∷ [])) in
    rw (drop_snoc k block c ys le, drop_snoc k block c (expand seq c ys) le)
      (elim (Bool-cases (ltb k (length block))) [
        | inl e ↦
            h k l (c ∷ ys) (ltb→lt _ _ e) ∙ ap (drop k block ++◌) (expand_plain seq last c ys p q)
        | inr e ↦ rw (drop-all k block (ground (arith, e))) (expand_plain seq l c ys p q)
      ])

-- A block is open only when no carriage return is before it.
unfoldable pub Opened : List ℕ → ℕ → Type 0
Opened block last = (last == b'\r') ≡ true → block ≡ []
