-- ===== src/Goto.antt =====
-- src/goto.c and src/goto-commands.c: labels, the table of labels, jumps and comments. The tree of
-- src/rb3str.c is a list of its nodes; the undo tokens stand in Goto.Undoing.
pub mod Labels
pub mod Jumps
pub mod Undoing
pub mod Idle
pub mod Restoring
use sciteco.Prelude.{
  ℕ, zero, suc, Bool, true, false, not, Option, none, some, List, [], ◌∷◌, ◌++◌, ltb, ◌==◌, ◌&&◌,
  if◌then◌else◌, length,
}
use sciteco.Editor.{Mode, normal, parse_only_goto}
use sciteco.Parser.{is_normal}
use sciteco.TecoInt.{is_negative}

-- The members of teco_machine_main_t, and the globals teco_goto_skip_label and teco_goto_backup_pc,
-- with an empty label for none and none for -1.
pub record Frame : Type 0 where
  pub goto_table : List (List ℕ × ℕ)
  pub complete : Bool
  pub goto_label : List ℕ
  pub skip_label : List ℕ
  pub backup_pc : Option ℕ
  pub mode : Mode
  pub macro_pc : ℕ

-- teco_string_cmp() is zero
abbrev pub same_label : List ℕ → List ℕ → Bool
same_label [] [] = true
same_label [] (y ∷ b) = false
same_label (x ∷ a) [] = false
same_label (x ∷ a) (y ∷ b) = let rest = same_label a b in if x == y then rest else false

-- teco_goto_table_find(), with none for -1
abbrev pub table_find : List (List ℕ × ℕ) → List ℕ → Option ℕ
table_find [] name = none
table_find ((label, pc) ∷ table) name =
    let rest = table_find table name in if same_label label name then some pc else rest

-- teco_goto_table_set() of a name that is not in the table
abbrev pub table_insert : List (List ℕ × ℕ) → List ℕ → ℕ → List (List ℕ × ℕ)
table_insert table name pc = (name, pc) ∷ table

-- The label that is skipped to has been found.
abbrev resume : Frame → Frame
resume f = record f { skip_label = []; backup_pc = none; mode = normal }

abbrev add_label : Frame → Frame
add_label f = record f { goto_table = table_insert f.goto_table f.goto_label f.macro_pc }

-- The case '!' of teco_state_label_input(); a redefinition is only warned about.
unfoldable pub label_end : Frame → Frame
label_end f = elim (table_find f.goto_table f.goto_label) [
  | some pc ↦ record f { goto_label = [] }
  | none ↦
      if ltb 0 (length f.skip_label) && same_label f.goto_label f.skip_label
      then record (resume (add_label f)) { goto_label = [] }
      else record (add_label f) { goto_label = [] }
]

-- The states of labels and comments.
pub data LabelState : Type 0 where
  state_label state_blockcomment state_blockcomment_star state_eolcomment state_start : LabelState

-- teco_state_label_input()
unfoldable pub label_input : ℕ → Frame → LabelState × Frame
unfolding label_end
label_input chr f =
    if (length f.goto_label == 0) && (chr == b'*')
    then (state_blockcomment, f)
    else if (length f.goto_label == 0) && (chr == b'!')
    then (state_eolcomment, f)
    else if chr == b'!'
    then (state_start, label_end f)
    else (state_label, record f { goto_label = f.goto_label ++ (chr ∷ []) })

-- teco_state_blockcomment_star_input(), teco_state_blockcomment_input() and
-- teco_state_eolcomment_input()
unfoldable pub comment_input : LabelState → ℕ → LabelState
comment_input state_blockcomment_star chr = if chr == b'!' then state_start else state_blockcomment
comment_input state_blockcomment chr =
    if chr == b'*' then state_blockcomment_star else state_blockcomment
comment_input state_eolcomment chr = if chr == b'\n' then state_start else state_eolcomment
comment_input other chr = other

-- memchr(label.data, ',', …): the label in front of the comma, and what is behind it.
abbrev pub next_label : List ℕ → List ℕ × Option (List ℕ)
next_label [] = ([], none)
next_label (c ∷ cs) =
    let rest = next_label cs in if c == b',' then ([], some cs) else (c ∷ rest.0, rest.1)

-- The loop over the labels, for a value that is not negative: an empty label if there are too few.
-- The fuel is at least the number of labels.
unfoldable pub select : ℕ → List ℕ → List ℕ
select zero str = (next_label str).0
select (suc value) str = elim (next_label str).1 [ none ↦ [] | some rest ↦ select value rest ]

-- What teco_state_goto_done() does with the label; none is the error of a missing label.
unfoldable pub go : List ℕ → Bool → Frame → Option Frame
go label colon f = elim (table_find f.goto_table label) [
  | some pc ↦ some (record f { macro_pc = pc })
  | none ↦
      if not f.complete
      then some (record f {
        skip_label = label;
        backup_pc = if colon then some f.macro_pc else none;
        mode = parse_only_goto;
      })
      else if colon
      then some f
      else none
]

-- teco_state_goto_done(), where `value` is popped behind the test of the string, and `colon` tells
-- whether the command was colon-modified; none is an error.
unfoldable pub goto_done : List ℕ → ℕ → Bool → Frame → Option Frame
unfolding select go
goto_done str value colon f =
    if not (is_normal f.mode)
    then some f
    else if length str == 0
    then none
    else if is_negative value
    then some f
    else if length (select value str) == 0
    then some f
    else go (select value str) colon f
