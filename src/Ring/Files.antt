-- ===== src/Ring/Files.antt =====
-- src/ring.c: the commands on files of the ring. Each one has its own arguments for what a file does:
-- whether it can be loaded or written, and whether its hooks succeed.
use sciteco.Prelude.{
  ℕ, Bool, true, false, not, ◌&&◌, Option, none, some, List, [], ◌∷◌, if◌then◌else◌,
}
use sciteco.Ring.{
  Buffer, Ring, RingToken, set_buffer, selected, Edited, behind_tokens, edit_file_id,
  edit_file_name, close,
}
use sciteco.Ring.Saving.{buffer_save, ring_save_all, ring_dirtify}

-- A command that fails at once.
abbrev pub refused : Ring → Edited
refused r = record { succeeds = false; ring = r; tokens = [] }

-- The ring with a buffer that has been saved
abbrev pub with_saved : Buffer → Buffer → Ring → Ring
with_saved b c r = record r { buffers = set_buffer b.address (λ d. c) r.buffers }

abbrev pub saved_edit : Ring → Buffer → Option (Buffer × List RingToken) → Edited
saved_edit r b none = refused r
saved_edit r b (some (c, ts)) = record { succeeds = true; ring = with_saved b c r; tokens = ts }

-- :EF: the buffer that has been saved is closed.
abbrev pub saved_close : Ring → Buffer → Bool → Bool → Option (Buffer × List RingToken) → Edited
saved_close r b close_hook hook none = refused r
saved_close r b close_hook hook (some (c, ts)) =
    behind_tokens ts (close c close_hook hook (with_saved b c r))

abbrev pub dirtied : Ring → Ring × List RingToken → Edited
dirtied r (changed, ts) = record { succeeds = true; ring = changed; tokens = ts }

-- EB, EW, EF with its colon and its sign, :EX, and a change of the text.
pub data Command : Type 0 where
  edit_id : ℕ → Bool → Command
  edit_name : Option (List ℕ) → Bool → Bool → Command
  save_file : Option ℕ → Option (List ℕ) → (Buffer → List ℕ → Bool) → Command
  close_file : Bool → Option ℕ → Bool → Bool → Bool → (Buffer → List ℕ → Bool) → Command
  save_all : (Buffer → List ℕ → Bool) → Command
  change_text : Command

module _ (absolute_path : List ℕ → List ℕ) where
  -- teco_state_save_file_done() behind its argument, unless a register is saved.
  unfoldable pub save_file_done :
      Option ℕ → Option (List ℕ) → (Buffer → List ℕ → Bool) → Ring → Edited
  save_file_done id name writes r = elim (selected id r) [
    | none ↦ refused r
    | some b ↦ saved_edit r b (buffer_save absolute_path writes name b)
  ]

  -- teco_state_ecommand_close(): a negative number closes a buffer that is dirty.
  unfoldable pub ecommand_close :
      Bool → Option ℕ → Bool → Bool → Bool → (Buffer → List ℕ → Bool) → Ring → Edited
  unfolding close
  ecommand_close colon id force close_hook hook writes r = elim (selected id r) [
    | none ↦ refused r
    | some b ↦
        if colon
        then saved_close r b close_hook hook (buffer_save absolute_path writes none b)
        else if not force && b.dirty
        then refused r
        else close b close_hook hook r
  ]

  unfoldable pub ring_command : Command → Ring → Edited
  unfolding edit_file_id edit_file_name save_file_done ecommand_close ring_save_all ring_dirtify
  ring_command (edit_id id hook) r = edit_file_id id hook r
  ring_command (edit_name name loads hook) r = edit_file_name name loads hook r
  ring_command (save_file id name writes) r = save_file_done id name writes r
  ring_command (close_file colon id force close_hook hook writes) r =
      ecommand_close colon id force close_hook hook writes r
  ring_command (save_all writes) r = ring_save_all absolute_path writes r
  ring_command change_text r = dirtied r (ring_dirtify r)

  -- Commands in a row: the tokens of the last one come first.
  unfoldable pub ring_commands : List Command → Ring → Edited
  unfolding ring_command
  ring_commands [] r = record { succeeds = true; ring = r; tokens = [] }
  ring_commands (c ∷ cs) r =
      let first = ring_command c r in behind_tokens first.tokens (ring_commands cs first.ring)
