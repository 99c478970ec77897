-- ===== src/Goto/Undoing.antt =====
-- src/goto.c and src/goto-commands.c: the undo tokens of labels and go-tos, in a macro that must be
-- undone.
use sciteco.Prelude.{
  ℕ, Bool, not, Option, none, some, List, [], ◌∷◌, ltb, ◌==◌, ◌&&◌, if◌then◌else◌, length, take,
}
use sciteco.Editor.{Mode}
use sciteco.Parser.{is_normal}
use sciteco.TecoInt.{is_negative}
use sciteco.Goto.{Frame, same_label, table_find, label_input, select, goto_done}

-- What a token restores or removes.
pub data GotoToken : Type 0 where
  remove_label restore_label restore_skip_label : List ℕ → GotoToken
  truncate_label truncate_skip_label : ℕ → GotoToken
  restore_backup_pc : Option ℕ → GotoToken
  restore_mode : Mode → GotoToken

-- teco_goto_table_remove(), on a table that has each label once
abbrev pub table_remove : List (List ℕ × ℕ) → List ℕ → List (List ℕ × ℕ)
table_remove [] name = []
table_remove ((label, pc) ∷ table) name =
    let rest = table_remove table name in
    if same_label label name then table else ((label, pc) ∷ rest)

-- The action of a token that is run.
unfoldable pub run_token : GotoToken → Frame → Frame
run_token (remove_label name) f = record f { goto_table = table_remove f.goto_table name }
run_token (restore_label l) f = record f { goto_label = l }
run_token (restore_skip_label l) f = record f { skip_label = l }
run_token (truncate_label n) f = record f { goto_label = take n f.goto_label }
run_token (truncate_skip_label n) f = record f { skip_label = take n f.skip_label }
run_token (restore_backup_pc pc) f = record f { backup_pc = pc }
run_token (restore_mode m) f = record f { mode = m }

-- The tokens of the case '!' of teco_state_label_input(), the last one first.
unfoldable pub label_end_tokens : Frame → List GotoToken
label_end_tokens f = elim (table_find f.goto_table f.goto_label) [
  | some pc ↦ restore_label f.goto_label ∷ []
  | none ↦
      if ltb 0 (length f.skip_label) && same_label f.goto_label f.skip_label
      then restore_label f.goto_label
        ∷ restore_mode f.mode
        ∷ restore_backup_pc f.backup_pc
        ∷ restore_skip_label f.skip_label
        ∷ remove_label f.goto_label
        ∷ []
      else restore_label f.goto_label ∷ remove_label f.goto_label ∷ []
]

-- The tokens of teco_state_label_input().
unfoldable pub label_tokens : ℕ → Frame → List GotoToken
unfolding label_end_tokens
label_tokens chr f =
    if (length f.goto_label == 0) && (chr == b'*')
    then []
    else if (length f.goto_label == 0) && (chr == b'!')
    then []
    else if chr == b'!'
    then label_end_tokens f
    else truncate_label (length f.goto_label) ∷ []

-- The tokens of a go-to: those of a skip, and none otherwise.
unfoldable pub go_tokens : List ℕ → Frame → List GotoToken
go_tokens label f = elim (table_find f.goto_table label) [
  | some pc ↦ []
  | none ↦
      if not f.complete
      then restore_mode f.mode ∷ restore_backup_pc f.backup_pc ∷ truncate_skip_label 0 ∷ []
      else []
]

-- The tokens of teco_state_goto_done().
unfoldable pub goto_done_tokens : List ℕ → ℕ → Frame → List GotoToken
unfolding select go_tokens
goto_done_tokens str value f =
    if not (is_normal f.mode)
    then []
    else if length str == 0
    then []
    else if is_negative value
    then []
    else if length (select value str) == 0
    then []
    else go_tokens (select value str) f

-- A character of a label behind some position, or a go-to.
pub data Event : Type 0 where
  in_label : ℕ → ℕ → Event
  go_to : List ℕ → ℕ → Bool → Event

-- What a go-to leaves: the frame before it, if it fails.
unfoldable pub left : Frame → Option Frame → Frame
left f none = f
left f (some g) = g

unfoldable pub happen : Event → Frame → Frame
unfolding label_input goto_done left
happen (in_label pc chr) f = (label_input chr (record f { macro_pc = pc })).1
happen (go_to str value colon) f = left f (goto_done str value colon f)

-- The tokens that an event pushes.
unfoldable pub tokens : Event → Frame → List GotoToken
unfolding label_tokens goto_done_tokens
tokens (in_label pc chr) f = label_tokens chr (record f { macro_pc = pc })
tokens (go_to str value colon) f = goto_done_tokens str value f
