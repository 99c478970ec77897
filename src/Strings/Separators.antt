-- ===== src/Strings/Separators.antt =====
-- src/string-utils.c: the part of a string behind the last of some separators.
use sciteco.Prelude.{
  append_assoc, append_nil, ℕ, zero, suc, ◌≤◌, ◌<◌, ◌≡◌, refl, sym, ap, ◌∙◌, Bool, true, false,
  Option, none, some, List, [], ◌∷◌, ◌++◌, ◌==◌, arith, length, drop, take, ◌⊎◌, get_or, Bool-cases,
  Option-cases, inl, inr, if◌then◌else◌,
}
use sciteco.Strings.{rindex_loop, string_rindex, cut, cut_at, occurrence_loop, last_occurrence}

-- The string contains the byte.
abbrev pub has : ℕ → List ℕ → Bool
has c [] = false
has c (x ∷ xs) = if x == c then true else has c xs

has-drop : (c n : ℕ) (xs : List ℕ) → has c xs ≡ false → has c (drop n xs) ≡ false
has-drop c zero xs h = h
has-drop c (suc n) [] h = refl
has-drop c (suc n) (x ∷ xs) h = has-drop c n xs (ground arith)

-- One byte further back.
has-drop_step :
    (c n : ℕ) (xs : List ℕ)
    → (get_or xs n 0 == c) ≡ false
    → has c (drop (suc n) xs) ≡ false
    → has c (drop n xs) ≡ false
has-drop_step c zero [] e h = refl
has-drop_step c zero (x ∷ xs) e h = rw (e, h) refl
has-drop_step c (suc n) [] e h = refl
has-drop_step c (suc n) (x ∷ xs) e h = has-drop_step c n xs e h

has-drop-length : (c : ℕ) (xs : List ℕ) → has c (drop (length xs) xs) ≡ false
has-drop-length c [] = refl
has-drop-length c (x ∷ xs) = has-drop-length c xs

has-rindex_loop :
    (n c : ℕ) (str : List ℕ)
    → has c (drop n str) ≡ false
    → has c (cut str (rindex_loop n c str)) ≡ false
unfolding rindex_loop
has-rindex_loop zero c str h = h
has-rindex_loop (suc n) c str h = elim (Bool-cases (get_or str n 0 == c)) [
  | inl found ↦ rw found h
  | inr other ↦ rw other (has-rindex_loop n c str (has-drop_step c n str other h))
]

cut_at-cut : (c : ℕ) (str : List ℕ) → cut_at c str ≡ cut str (string_rindex str c)
unfolding cut_at
cut_at-cut c str = refl

has-cut_at : (c : ℕ) (str : List ℕ) → has c (cut_at c str) ≡ false
unfolding string_rindex
has-cut_at c str =
    rw (cut_at-cut c str) (has-rindex_loop (length str) c str (has-drop-length c str))

-- What has been cut off is at the front.
cut_at-drop : (c : ℕ) (str : List ℕ) → (n : ℕ) × (cut_at c str ≡ drop n str)
cut_at-drop c str = elim (Option-cases (string_rindex str c)) [
  | inl e ↦ (0, cut_at-cut c str ∙ rw e refl)
  | inr (i, e) ↦ (suc i, cut_at-cut c str ∙ rw e refl)
]

has-cut_at_other : (c d : ℕ) (str : List ℕ) → has c str ≡ false → has c (cut_at d str) ≡ false
has-cut_at_other c d str h = let (n, e) = cut_at-drop d str in rw e (has-drop c n str h)

has-occurrence_loop_other :
    (c : ℕ) (chars str : List ℕ) → has c str ≡ false → has c (occurrence_loop chars str) ≡ false
unfolding occurrence_loop
has-occurrence_loop_other c [] str h = has-cut_at_other c 0 str h
has-occurrence_loop_other c (d ∷ chars) str h =
    has-occurrence_loop_other c chars (cut_at d str) (has-cut_at_other c d str h)

-- None of the bytes is in the string.
abbrev pub LacksAll : List ℕ → List ℕ → Type 0
LacksAll [] str = has 0 str ≡ false
LacksAll (c ∷ chars) str = (has c str ≡ false) × LacksAll chars str

LacksAll-occurrence_loop : (chars str : List ℕ) → LacksAll chars (occurrence_loop chars str)
unfolding occurrence_loop
LacksAll-occurrence_loop [] str = has-cut_at 0 str
LacksAll-occurrence_loop (c ∷ chars) str = (
  has-occurrence_loop_other c chars (cut_at c str) (has-cut_at c str),
  LacksAll-occurrence_loop chars (cut_at c str),
)

-- One of the characters of the set, or the null byte.
abbrev pub IsSeparator : ℕ → List ℕ → Type 0
IsSeparator c chars = (c ≡ 0) ⊎ (has c chars ≡ true)

-- What stands in front of the part that is returned: nothing, or something with a separator at
-- its end.
pub record Cuts (chars str rest : List ℕ) : Type 0 where
  pub front : List ℕ
  pub whole : front ++ rest ≡ str
  pub edge : (front ≡ []) ⊎ ((p : List ℕ) × (c : ℕ) × IsSeparator c chars × (front ≡ p ++ (c ∷ [])))

-- The byte at the index that is returned.
rindex_loop-get :
    (n c : ℕ) (str : List ℕ) (i : ℕ)
    → rindex_loop n c str ≡ some i
    → n ≤ length str
    → (i < length str) × (get_or str i 0 ≡ c)
unfolding rindex_loop
rindex_loop-get zero c str i e h = cc
rindex_loop-get (suc n) c str i e h = elim (Bool-cases (get_or str n 0 == c)) [
  | inl found ↦ ground (arith, found)
  | inr other ↦ rindex_loop-get n c str i (ground (arith, other)) (omega (arith, h))
]

split_at :
    (i : ℕ) (str : List ℕ)
    → i < length str
    → (take i str ++ (get_or str i 0 ∷ [])) ++ drop (suc i) str ≡ str
split_at i [] h = absurd (omega (arith, h))
split_at zero (x ∷ xs) h = refl
split_at (suc i) (x ∷ xs) h = ap (x ∷◌) (split_at i xs (omega (arith, h)))

cut-Cuts :
    (c : ℕ) (chars str : List ℕ) (o : Option ℕ)
    → IsSeparator c chars
    → string_rindex str c ≡ o
    → Cuts chars str (cut str o)
unfolding string_rindex
cut-Cuts c chars str none m e = record { front = []; whole = refl; edge = inl refl }
cut-Cuts c chars str (some i) m e =
    let (h, k) = rindex_loop-get (length str) c str i e (omega arith) in
    record {
      front = take i str ++ (c ∷ []);
      whole =
          ap (λ (d : ℕ). (take i str ++ (d ∷ [])) ++ drop (suc i) str) (sym k) ∙ split_at i str h;
      edge = inr (take i str, c, m, refl);
    }

cut_at-Cuts : (c : ℕ) (chars str : List ℕ) → IsSeparator c chars → Cuts chars str (cut_at c str)
unfolding cut_at
cut_at-Cuts c chars str m = cut-Cuts c chars str (string_rindex str c) m refl

Cuts-trans :
    (chars str middle rest : List ℕ)
    → Cuts chars str middle
    → Cuts chars middle rest
    → Cuts chars str rest
Cuts-trans chars str middle rest f g = record {
  front = f.front ++ g.front;
  whole = append_assoc f.front g.front rest ∙ ap (f.front ++◌) g.whole ∙ f.whole;
  edge = elim g.edge [
    | inl e ↦ elim f.edge [
      | inl d ↦ inl (rw (d, e) refl)
      | inr (p, c, m, d) ↦ inr (p, c, m, ap (f.front ++◌) e ∙ append_nil f.front ∙ d)
    ]
    | inr (p, c, m, e) ↦
        inr (f.front ++ p, c, m, ap (f.front ++◌) e ∙ sym (append_assoc f.front p (c ∷ [])))
  ];
}

occurrence_loop-Cuts :
    (all chars str : List ℕ)
    → ((c : ℕ) → has c chars ≡ true → has c all ≡ true)
    → Cuts all str (occurrence_loop chars str)
unfolding occurrence_loop
occurrence_loop-Cuts all [] str h = cut_at-Cuts 0 all str (inl refl)
occurrence_loop-Cuts all (c ∷ chars) str h =
    Cuts-trans all str (cut_at c str) _ (cut_at-Cuts c all str (inr (h c (ground arith))))
      (occurrence_loop-Cuts all chars (cut_at c str) (λ d e. h d (ground (arith, e))))

-- For every string that is not empty, the part is returned that contains none of the characters of
-- the set, nor the null byte, and in front of which there is nothing, or one of them.
pub last_occurrence-Cuts :
    (x : ℕ) (str chars : List ℕ)
    → (rest : List ℕ) × (last_occurrence (x ∷ str) chars ≡ some rest)
      × LacksAll chars rest
      × Cuts chars (x ∷ str) rest
unfolding last_occurrence
last_occurrence-Cuts x str chars = (
  occurrence_loop chars (x ∷ str),
  refl,
  LacksAll-occurrence_loop chars (x ∷ str),
  occurrence_loop-Cuts chars chars (x ∷ str) (λ c h. h),
)
