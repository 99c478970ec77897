-- ===== src/Tests/Ring.antt =====
-- src/ring.c: commands on a ring of two buffers.
use sciteco.Prelude.{ℕ, Bool, List, ◌≡◌, refl, true, false, none, some, [], ◌∷◌}
use sciteco.Ring.{
  close_current, edit_file_name, edit_by_name, edit_by_id, Buffer, Ring, remove, close,
  edit_file_id,
}
use sciteco.Ring.Undoing.{undo, SameRing}
use sciteco.Ring.Saving.{
  get_first_dirty, ring_dirtify, save_all_dirty_buffers, ring_save_all,
  save_all_dirty_buffers-get_first_dirty,
}
use sciteco.Ring.Files.{
  Command, edit_id, edit_name, save_file, close_file, save_all, change_text, save_file_done,
  ecommand_close, ring_command, ring_commands,
}
use sciteco.Ring.Commands.{ring_commands-undone}
use sciteco.Ring.Current.{HasCurrent, ring_commands-HasCurrent}
use sciteco.Ring.Losses.{close-loses, edit_file_id-forgets}

abbrev file : Buffer
file = record { address = 5; filename = some (b'a' ∷ b'b' ∷ []); dirty = false }

abbrev unnamed : Buffer
unnamed = record { address = 7; filename = none; dirty = true }

abbrev ring : Ring
ring = record { buffers = file ∷ unnamed ∷ []; current = 5; in_qreg = none; next_address = 8 }

-- A register with the address 3 is edited.
abbrev in_register : Ring
in_register = record ring { in_qreg = some 3 }

-- A file can be written if it has a name.
abbrev writes : Buffer → List ℕ → Bool
writes b [] = false
writes b (c ∷ cs) = true

-- The first buffer is changed, saved and closed, a new file is edited, the buffer without a name is
-- saved under one, and both are closed.
abbrev commands : List Command
commands =
    change_text
    ∷ close_file true (some 1) false true true writes
    ∷ edit_name (some (b'c' ∷ [])) true false
    ∷ save_all writes
    ∷ save_file (some 1) (some (b'd' ∷ [])) writes
    ∷ close_file false none false true true writes
    ∷ close_file false none true true true writes
    ∷ edit_id 9 true
    ∷ []

ring_commands-undone_example : SameRing (undo (ring_commands (λ f. f) commands ring)) ring
ring_commands-undone_example =
    ring_commands-undone (λ f. f) commands ring
      (record { ring_IsRing = record { distinct = refl; below = refl }; no_qreg = refl })
      (tt, (refl, (tt, (tt, (tt, (refl, (refl, (tt, tt))))))))

-- Its first buffer is closed, but the hook for the next one fails; then there is no file 9.
ring_commands-HasCurrent_example :
    HasCurrent
      (ring_commands
        (λ f. f)
        (close_file false none true true false writes ∷ edit_id 9 true ∷ [])
        ring).ring
ring_commands-HasCurrent_example =
    ring_commands-HasCurrent (λ f. f)
      (close_file false none true true false writes ∷ edit_id 9 true ∷ []) ring refl

-- The ring that they leave: an unnamed buffer, which is new.
ring_after :
    (ring_commands (λ f. f) commands ring).ring.buffers
    ≡ record { address = 9; filename = none; dirty = false } ∷ []
unfolding ring_commands ring_command ecommand_close save_file_done close close_current
    edit_file_name edit_by_name edit_file_id edit_by_id ring_save_all save_all_dirty_buffers
    ring_dirtify
ring_after = refl

close-loses_example :
    ((close file true false ring).succeeds ≡ false)
    × ((undo (close file true false ring)).buffers ≡ remove 5 ring.buffers)
    × ((undo (close file true false ring)).current ≡ 5)
close-loses_example = close-loses file 7 ring refl refl

edit_file_id-forgets_example :
    ((undo (edit_file_id 2 true in_register)).in_qreg ≡ some 3)
    × ((undo (edit_file_id 2 true in_register)).current ≡ 7)
edit_file_id-forgets_example = edit_file_id-forgets 2 3 unnamed true in_register refl refl

-- The first buffer is written, and the second one, which has no name, cannot be.
abbrev to_save : List Buffer
to_save = record file { dirty = true } ∷ unnamed ∷ []

save_all_dirty_buffers-get_first_dirty_example :
    (get_first_dirty (save_all_dirty_buffers (λ f. f) (λ b f. true) to_save).buffers ≡ 2)
    × ((save_all_dirty_buffers (λ f. f) (λ b f. true) to_save).succeeds ≡ false)
save_all_dirty_buffers-get_first_dirty_example =
    save_all_dirty_buffers-get_first_dirty (λ f. f) (λ b f. true) to_save

-- A buffer is made dirty.
made_dirty : (ring_dirtify ring).0.buffers ≡ to_save
unfolding ring_dirtify
made_dirty = refl
