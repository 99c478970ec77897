-- ===== src/Eol/Normal.antt =====
-- Line ends of a text, whatever their style: what reading is to do with them.
use sciteco.Prelude.{
  none, some, inl, inr, Bool-cases, ℕ, ◌≡◌, refl, Bool, true, false, List, [], ◌∷◌, if◌then◌else◌,
  ◌==◌,
}
use sciteco.Eol.{Style, same_style, crlf, cr, lf, Seen, observe}

-- The text with every line end as a line feed, when the byte before was a carriage return or not.
abbrev pub normal_after : Bool → List ℕ → List ℕ
normal_after after [] = []
normal_after after (c ∷ cs) =
    let skipped = normal_after false cs in
    let returned = normal_after true cs in
    if c == b'\n'
    then (if after then skipped else b'\n' ∷ skipped)
    else if c == b'\r'
    then b'\n' ∷ returned
    else c ∷ skipped

-- The line ends of the text in their order; a carriage return at the end of the text is one.
abbrev pub ends_after : Bool → List ℕ → List Style
ends_after after [] = if after then cr ∷ [] else []
ends_after after (c ∷ cs) =
    let behind = ends_after false cs in
    let pending = ends_after true cs in
    if c == b'\n'
    then (if after then crlf else lf) ∷ behind
    else if c == b'\r'
    then (if after then cr ∷ pending else pending)
    else if after
    then cr ∷ behind
    else behind

abbrev pub observe_all : List Style → Seen → Seen
observe_all [] seen = seen
observe_all (s ∷ ss) seen = observe_all ss (observe s seen)

-- Some line end of the list has another style.
abbrev pub any_other : Style → List Style → Bool
any_other s [] = false
any_other s (t ∷ ts) = if same_style s t then any_other s ts else true

-- The first line end gives the style; there is an inconsistency if another one differs from it.
abbrev pub marks : List Style → Seen
marks [] = record { eol_style = none; eol_style_inconsistent = false }
marks (s ∷ ss) = record { eol_style = some s; eol_style_inconsistent = any_other s ss }

observe_all-inconsistent :
    (s : Style) (ss : List Style)
    → observe_all ss (record { eol_style = some s; eol_style_inconsistent = true })
      ≡ record { eol_style = some s; eol_style_inconsistent = true }
unfolding observe
observe_all-inconsistent s [] = refl
observe_all-inconsistent s (t ∷ ts) = elim (Bool-cases (same_style s t)) [
  | inl same ↦ rw (same, observe) (observe_all-inconsistent s ts)
  | inr other ↦ rw (other, observe) (observe_all-inconsistent s ts)
]

observe_all-consistent :
    (s : Style) (ss : List Style)
    → observe_all ss (record { eol_style = some s; eol_style_inconsistent = false })
      ≡ record { eol_style = some s; eol_style_inconsistent = any_other s ss }
unfolding observe
observe_all-consistent s [] = refl
observe_all-consistent s (t ∷ ts) = elim (Bool-cases (same_style s t)) [
  | inl same ↦ rw (same, observe) (observe_all-consistent s ts)
  | inr other ↦ rw (other, observe) (observe_all-inconsistent s ts)
]

pub observe_all-marks :
    (ss : List Style)
    → observe_all ss (record { eol_style = none; eol_style_inconsistent = false }) ≡ marks ss
unfolding observe
observe_all-marks [] = refl
observe_all-marks (s ∷ ss) = observe_all-consistent s ss
