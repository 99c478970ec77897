-- ===== src/Goto/Labels.antt =====
-- src/goto-commands.c: the labels of a computed go-to.
use sciteco.Prelude.{
  ℕ, zero, suc, ◌≡◌, refl, Bool, true, false, none, some, List, [], ◌∷◌, ◌++◌, get_or, ◌==◌, ◌||◌,
  Bool-cases, inl, inr, arith,
}
use sciteco.Goto.{next_label, select}

-- The labels, separated by commas.
abbrev pub commas : List (List ℕ) → List ℕ
commas [] = []
commas (l ∷ []) = l
commas (l ∷ (m ∷ ls)) = l ++ (b',' ∷ commas (m ∷ ls))

abbrev has_comma : List ℕ → Bool
has_comma [] = false
has_comma (c ∷ cs) = let rest = has_comma cs in (c == b',') || rest

-- A comma stands in none of the labels.
abbrev pub any_comma : List (List ℕ) → Bool
any_comma [] = false
any_comma (l ∷ ls) = has_comma l || any_comma ls

no_comma :
    (c : ℕ) (cs : List ℕ)
    → has_comma (c ∷ cs) ≡ false
    → ((c == b',') ≡ false) × (has_comma cs ≡ false)
no_comma c cs h = elim (Bool-cases (c == b',')) [
  | inl e ↦ absurd (ground (arith, h, e))
  | inr e ↦ (e, ground (arith, h, e))
]

next_label_last : (l : List ℕ) → has_comma l ≡ false → next_label l ≡ (l, none)
next_label_last [] h = refl
next_label_last (c ∷ cs) h = let (e, k) = no_comma c cs h in rw (e, next_label_last cs k) refl

next_label_comma :
    (l rest : List ℕ) → has_comma l ≡ false → next_label (l ++ (b',' ∷ rest)) ≡ (l, some rest)
next_label_comma [] rest h = refl
next_label_comma (c ∷ cs) rest h =
    let (e, k) = no_comma c cs h in rw (e, next_label_comma cs rest k) refl

either : (a b : Bool) → (a || b) ≡ false → (a ≡ false) × (b ≡ false)
either true b h = absurd cc
either false b h = (refl, h)

-- Of labels without a comma that are separated by commas, a computed go-to selects the one with the
-- number of its argument, from 0 on, and an empty one behind the last.
pub select-commas :
    (ls : List (List ℕ)) (value : ℕ)
    → any_comma ls ≡ false
    → select value (commas ls) ≡ get_or ls value []
unfolding select
select-commas [] zero h = refl
select-commas [] (suc value) h = refl
select-commas (l ∷ []) zero h =
    let (e, k) = either (has_comma l) false h in rw (next_label_last l e, select) refl
select-commas (l ∷ []) (suc value) h =
    let (e, k) = either (has_comma l) false h in rw (next_label_last l e, select) refl
select-commas (l ∷ (m ∷ ls)) zero h =
    let (e, k) = either (has_comma l) (any_comma (m ∷ ls)) h in
    rw (next_label_comma l (commas (m ∷ ls)) e, select) refl
select-commas (l ∷ (m ∷ ls)) (suc value) h =
    let (e, k) = either (has_comma l) (any_comma (m ∷ ls)) h in
    rw (next_label_comma l (commas (m ∷ ls)) e, select) (select-commas (m ∷ ls) value k)
