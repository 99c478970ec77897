-- ===== src/Tests/Goto.antt =====
-- src/goto-commands.c: a computed go-to and a comment.
use sciteco.Prelude.{ℕ, ◌≡◌, refl, true, false, none, some, List, [], ◌∷◌, arith}
use sciteco.Editor.{normal}
use sciteco.Goto.{Frame, select, go, goto_done, comment_input, state_blockcomment}
use sciteco.Goto.Undoing.{Event, in_label, go_to, happen}
use sciteco.Goto.Idle.{is_idle, happen-is_idle}
use sciteco.Goto.Restoring.{behind, run_all, all_tokens, run_all-behind}
use sciteco.Goto.Labels.{commas, select-commas}
use sciteco.Goto.Jumps.{GoArrives, go-GoArrives}

abbrev labels : List (List ℕ)
labels = (b'a' ∷ []) ∷ [] ∷ (b'b' ∷ b'c' ∷ []) ∷ []

select-commas_example : select 2 (commas labels) ≡ (b'b' ∷ b'c' ∷ [])
select-commas_example = select-commas labels 2 refl

-- The label a is known, and the label bc follows at 20 and at 30.
abbrev frame : Frame
frame = record {
  goto_table = ((b'a' ∷ []), 5) ∷ [];
  complete = false;
  goto_label = [];
  skip_label = [];
  backup_pc = none;
  mode = normal;
  macro_pc = 10;
}

abbrev definitions : List (List ℕ × ℕ)
definitions = ((b'd' ∷ []), 15) ∷ ((b'b' ∷ b'c' ∷ []), 20) ∷ ((b'b' ∷ b'c' ∷ []), 30) ∷ []

go-GoArrives_example : GoArrives definitions 20 (go (b'b' ∷ b'c' ∷ []) false frame)
go-GoArrives_example =
    go-GoArrives definitions (b'b' ∷ b'c' ∷ []) 20 false frame (omega arith) refl refl refl

-- Two asterisks in front of the exclamation mark do not end a comment.
two_asterisks :
    comment_input (comment_input (comment_input state_blockcomment b'*') b'*') b'!'
    ≡ state_blockcomment
unfolding comment_input
two_asterisks = refl

-- The second label is empty.
no_jump : goto_done (commas labels) 1 false frame ≡ some frame
unfolding goto_done select
no_jump = refl

-- A go-to to bc, the label d behind it, and the label bc, at which normal execution is resumed.
abbrev events : List Event
events =
    go_to (b'b' ∷ b'c' ∷ []) 0 false
    ∷ in_label 14 b'd'
    ∷ in_label 15 b'!'
    ∷ in_label 18 b'b'
    ∷ in_label 19 b'c'
    ∷ in_label 20 b'!'
    ∷ []

resumed : (behind events frame).mode ≡ normal
unfolding happen
resumed = refl

run_all-behind_example :
    run_all (all_tokens events frame) (record (behind events frame) { macro_pc = 10 })
    ≡ record frame { macro_pc = 10 }
run_all-behind_example = run_all-behind events frame 10 refl

happen-is_idle_example : is_idle (happen (go_to (b'b' ∷ b'c' ∷ []) 0 false) frame) ≡ true
happen-is_idle_example = happen-is_idle (go_to (b'b' ∷ b'c' ∷ []) 0 false) frame refl
