-- ===== src/Goto/Jumps.antt =====
-- src/goto-commands.c and src/goto.c: where a go-to arrives.
use mathlib.Core.Option.{some-injective}
use sciteco.Prelude.{
  subst, ℕ, ◌≡◌, refl, sym, ap, ◌∙◌, Bool, true, false, Option, none, some, List, [], ◌∷◌, ◌++◌,
  length, ltb, ◌<◌, ◌==◌, ◌&&◌, Bool-cases, Option-cases, inl, inr, arith, if◌then◌else◌, lt→ltb,
}
use sciteco.Editor.{normal, parse_only_goto}
use sciteco.Parser.{is_normal}
use sciteco.Goto.{Frame, same_label, table_find, label_end, go}

-- The definitions of labels that follow, up to the one at which normal execution is resumed.
abbrev pub define : ℕ → List ℕ → Frame → Frame
define pc name f = label_end (record f { goto_label = name; macro_pc = pc })

unfoldable pub reach : List (List ℕ × ℕ) → Frame → Frame
reach [] f = f
reach ((name, pc) ∷ ds) f =
    let rest = reach ds (define pc name f) in if is_normal f.mode then f else rest

same_label-equal : (a b : List ℕ) → same_label a b ≡ true → a ≡ b
same_label-equal [] [] h = refl
same_label-equal [] (y ∷ b) h = absurd cc
same_label-equal (x ∷ a) [] h = absurd cc
same_label-equal (x ∷ a) (y ∷ b) h = elim (Bool-cases (x == y)) [
  | inl e ↦
      let xy : x ≡ y = ground (arith, e) in
      let rest : same_label a b ≡ true = ground (arith, h, e) in
      ap (λ c. c ∷ a) xy ∙ ap (y ∷◌) (same_label-equal a b rest)
  | inr e ↦ absurd (ground (arith, h, e))
]

pub same_label_refl : (a : List ℕ) → same_label a a ≡ true
same_label_refl [] = refl
same_label_refl (x ∷ a) = let e : (x == x) ≡ true = ground arith in rw e (same_label_refl a)

reach-normal : (ds : List (List ℕ × ℕ)) (f : Frame) → f.mode ≡ normal → reach ds f ≡ f
unfolding reach
reach-normal [] f h = refl
reach-normal ((name, pc) ∷ ds) f h = rw h refl

table_find-append :
    (a b : List (List ℕ × ℕ)) (name : List ℕ)
    → table_find (a ++ b) name
      ≡ elim (table_find a name) [ none ↦ table_find b name | some pc ↦ some pc ]
table_find-append [] b name = refl
table_find-append ((label, pc) ∷ a) b name = elim (Bool-cases (same_label label name)) [
  | inl e ↦ rw e refl
  | inr e ↦ rw e (table_find-append a b name)
]

-- What a frame looks like that skips to a label that it does not know yet.
record Skips (label : List ℕ) (f : Frame) : Type 0 where
  pub in_mode : f.mode ≡ parse_only_goto
  pub skips_to : f.skip_label ≡ label
  pub unknown : table_find f.goto_table label ≡ none

-- Normal execution behind the label.
pub record Arrives (pc : ℕ) (f : Frame) : Type 0 where
  pub at_pc : f.macro_pc ≡ pc
  pub is_executed : f.mode ≡ normal

define-Arrives :
    (pc : ℕ) (name : List ℕ) (f : Frame)
    → 0 < length name
    → Skips name f
    → Arrives pc (define pc name f)
unfolding label_end
define-Arrives pc name f h k =
    rw (k.unknown, label_end)
      (rw (k.skips_to, label_end)
        (rw (lt→ltb 0 (length name) h, label_end)
          (rw (same_label_refl name, label_end) (record { at_pc = refl; is_executed = refl }))))

and_false : (a b : Bool) → b ≡ false → (a && b) ≡ false
and_false true b h = h
and_false false b h = refl

define-Skips :
    (pc : ℕ) (name label : List ℕ) (f : Frame)
    → same_label name label ≡ false
    → Skips label f
    → Skips label (define pc name f)
unfolding label_end
define-Skips pc name label f h k = elim (Option-cases (table_find f.goto_table name)) [
  | inl new ↦
      let other : same_label name f.skip_label ≡ false = ap (same_label name) k.skips_to ∙ h in
      rw (new, label_end)
        (rw (and_false (ltb 0 (length f.skip_label)) _ other, label_end)
          (record { in_mode = k.in_mode; skips_to = k.skips_to; unknown = rw h k.unknown }))
  | inr (p, known) ↦
      rw (known, label_end)
        (record { in_mode = k.in_mode; skips_to = k.skips_to; unknown = k.unknown })
]

reach_behind :
    (ds : List (List ℕ × ℕ)) (name : List ℕ) (pc : ℕ) (f : Frame)
    → f.mode ≡ parse_only_goto
    → reach ds (define pc name f) ≡ reach ((name, pc) ∷ ds) f
unfolding reach
reach_behind ds name pc f h =
    sym (ap (λ m. if is_normal m then f else reach ds (define pc name f)) h)

reach-Arrives :
    (ds : List (List ℕ × ℕ)) (label : List ℕ) (pc : ℕ) (f : Frame)
    → 0 < length label
    → Skips label f
    → table_find ds label ≡ some pc
    → Arrives pc (reach ds f)
unfolding reach
reach-Arrives [] label pc f h k = λ e. absurd cc
reach-Arrives ((name, p) ∷ ds) label pc f h k = elim (Bool-cases (same_label name label)) [
  | inl here ↦ λ e.
      let same : name ≡ label = same_label-equal name label here in
      let at : p ≡ pc =
        some-injective _ _ (ap (λ b. if b then some p else table_find ds label) (sym here) ∙ e) in
      let a = define-Arrives p name f (rw same h) (rw same k) in
      subst (Arrives pc)
        (sym (reach-normal ds (define p name f) a.is_executed) ∙ reach_behind ds name p f k.in_mode)
        (record { at_pc = a.at_pc ∙ at; is_executed = a.is_executed })
  | inr there ↦ λ e. subst (Arrives pc) (reach_behind ds name p f k.in_mode) (
      reach-Arrives ds label pc (define p name f) h (define-Skips p name label f there k)
        (ap (λ b. if b then some p else table_find ds label) (sym there) ∙ e))
]

-- What a go-to leaves: a frame that arrives, or an error.
unfoldable pub GoArrives : List (List ℕ × ℕ) → ℕ → Option Frame → Type 0
GoArrives ds pc none = ⊥
GoArrives ds pc (some f) = Arrives pc (reach ds f)

-- A go-to that is executed in normal mode, with a table of labels that is not complete, gives no
-- error, and arrives in normal mode at the definition of its label: the first one in the table and
-- the definitions that follow, whether it is known already or skipped to.
pub go-GoArrives :
    (ds : List (List ℕ × ℕ)) (label : List ℕ) (pc : ℕ) (colon : Bool) (f : Frame)
    → 0 < length label
    → f.mode ≡ normal
    → f.complete ≡ false
    → table_find (f.goto_table ++ ds) label ≡ some pc
    → GoArrives ds pc (go label colon f)
unfolding go GoArrives
go-GoArrives ds label pc colon f h n c e =
    let found_of : Option ℕ → Option ℕ =
      λ o. elim o [ none ↦ table_find ds label | some p ↦ some p ] in
    elim (Option-cases (table_find f.goto_table label)) [
      | inl new ↦
          let later : table_find ds label ≡ some pc =
            ap found_of (sym new) ∙ sym (table_find-append f.goto_table ds label) ∙ e in
          rw (new, go)
            (rw (c, go)
              (reach-Arrives ds label pc _ h
                (record { in_mode = refl; skips_to = refl; unknown = new }) later))
      | inr (p, known) ↦
          let at : p ≡ pc =
            some-injective _ _
              (ap found_of (sym known) ∙ sym (table_find-append f.goto_table ds label) ∙ e) in
          rw (known, go)
            (rw (reach-normal ds (record f { macro_pc = p }) n)
              (record { at_pc = at; is_executed = n }))
    ]
