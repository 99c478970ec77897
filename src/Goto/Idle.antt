-- ===== src/Goto/Idle.antt =====
-- src/goto-commands.c: when a label is skipped to.
use sciteco.Prelude.{
  ℕ, ◌≡◌, refl, Bool, true, false, not, Option, List, length, ltb, ◌==◌, ◌&&◌, ◌||◌, Option-cases,
  inl, inr, if◌then◌else◌,
}
use sciteco.Parser.{is_normal}
use sciteco.TecoInt.{is_negative}
use sciteco.Goto.{
  Frame, LabelState, same_label, table_find, label_end, label_input, select, go, goto_done,
}
use sciteco.Goto.Undoing.{Event, in_label, go_to, left, happen}

-- In normal mode, no label is skipped to.
abbrev pub is_idle : Frame → Bool
is_idle f = not (is_normal f.mode) || (length f.skip_label == 0)

if_idle :
    (b : Bool) (f g : Frame)
    → is_idle f ≡ true
    → is_idle g ≡ true
    → is_idle (if b then f else g) ≡ true
if_idle true f g h k = h
if_idle false f g h k = k

label_end-is_idle : (f : Frame) → is_idle f ≡ true → is_idle (label_end f) ≡ true
unfolding label_end
label_end-is_idle f h = elim (Option-cases (table_find f.goto_table f.goto_label)) [
  | inl new ↦
      rw (new, label_end)
        (if_idle (ltb 0 (length f.skip_label) && same_label f.goto_label f.skip_label) _ _ refl h)
  | inr (pc, known) ↦ rw (known, label_end) h
]

if_second :
    (b : Bool) (x y : LabelState × Frame)
    → is_idle x.1 ≡ true
    → is_idle y.1 ≡ true
    → is_idle (if b then x else y).1 ≡ true
if_second true x y h k = h
if_second false x y h k = k

label_input-is_idle :
    (chr : ℕ) (f : Frame) → is_idle f ≡ true → is_idle (label_input chr f).1 ≡ true
unfolding label_input
label_input-is_idle chr f h = if_second ((length f.goto_label == 0) && (chr == b'*')) _ _ h (
    if_second ((length f.goto_label == 0) && (chr == b'!')) _ _ h
      (if_second (chr == b'!') _ _ (label_end-is_idle f h) h))

if_left :
    (b : Bool) (f : Frame) (x y : Option Frame)
    → is_idle (left f x) ≡ true
    → is_idle (left f y) ≡ true
    → is_idle (left f (if b then x else y)) ≡ true
if_left true f x y h k = h
if_left false f x y h k = k

go-is_idle :
    (label : List ℕ) (colon : Bool) (f : Frame)
    → is_idle f ≡ true
    → is_idle (left f (go label colon f)) ≡ true
unfolding go left
go-is_idle label colon f h = elim (Option-cases (table_find f.goto_table label)) [
  | inr (pc, known) ↦ rw (known, go) h
  | inl new ↦ rw (new, go) (if_left (not f.complete) f _ _ refl (if_left colon f _ _ h h))
]

goto_done-is_idle :
    (str : List ℕ) (value : ℕ) (colon : Bool) (f : Frame)
    → is_idle f ≡ true
    → is_idle (left f (goto_done str value colon f)) ≡ true
unfolding goto_done left
goto_done-is_idle str value colon f h = if_left (not (is_normal f.mode)) f _ _ h (
    if_left (length str == 0) f _ _ h (
      if_left (is_negative value) f _ _ h (
        if_left (length (select value str) == 0) f _ _ h
          (go-is_idle (select value str) colon f h))))

-- That no label is skipped to in normal mode is kept by reading labels and by go-tos; so the
-- assertion in front of a skip holds.
pub happen-is_idle : (e : Event) (f : Frame) → is_idle f ≡ true → is_idle (happen e f) ≡ true
unfolding happen left
happen-is_idle (in_label pc chr) f h = label_input-is_idle chr (record f { macro_pc = pc }) h
happen-is_idle (go_to str value colon) f h = goto_done-is_idle str value colon f h
