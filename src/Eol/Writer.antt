-- ===== src/Eol/Writer.antt =====
-- src/eol.c: translation of line ends when text is written, teco_eol_writer_t; and its two uses, the
-- saving of a document in src/view.c and the standard input of a process in src/spawn.c. The write
-- callback is a parameter: how many bytes it takes, or none for an error.
pub mod Expansion
pub mod Kept
pub mod Conserved
pub mod Resuming
pub mod Completing
pub mod Saving
pub mod Document
pub mod RoundTrip
use sciteco.Prelude.{
  ℕ, zero, suc, ◌+◌, ◌-◌, Bool, true, false, Option, none, some, List, [], ◌∷◌, ◌++◌, ltb, ◌==◌,
  ◌&&◌, ◌||◌, if◌then◌else◌, length, take, drop,
}
use sciteco.Eol.{Style, crlf, cr, lf}

-- teco_eol_get_seq()
abbrev pub get_seq : Style → List ℕ
get_seq crlf = b'\r' ∷ b'\n' ∷ []
get_seq cr = b'\r' ∷ []
get_seq lf = b'\n' ∷ []

-- TECO_EOL_STATE_START, TECO_EOL_STATE_WRITE_LF
pub data Progress : Type 0 where
  state_start state_write_lf : Progress

-- teco_eol_writer_t
pub record Writer : Type 0 where
  pub state : Progress
  pub last_c : ℕ
  pub eol_seq : List ℕ

-- teco_eol_writer_init()
abbrev pub writer_init : Style → Writer
writer_init eol_mode = record { state = state_start; last_c = 0; eol_seq = get_seq eol_mode }

-- teco_eol_writer_write_mem(), on the string that it appends to
abbrev pub write_mem : List ℕ → List ℕ → Option (ℕ × List ℕ)
write_mem bytes str = some (length bytes, str ++ bytes)

-- What saving a document leaves: FALSE is write_error.
pub data Saved (S : Type 0) : Type 0 where
  saved : Writer → S → Saved S
  write_error : Saved S
  assertion_fails : Saved S

module _ {S : Type 0} (write : List ℕ → S → Option (ℕ × S)) where
  -- A number of bytes that are consumed, or an error.
  abbrev pub Consumed : Type 0
  Consumed = Option (ℕ × Writer × S)

  -- After the loop: the remaining block is written.
  abbrev pub write_rest : List ℕ → ℕ → Writer → S → Consumed
  write_rest block bytes_written w s = elim (write block s) [
    | none ↦ none
    | some (n, s') ↦ some (bytes_written + n, w, s')
  ]

  -- write_cb(ctx, ctx->eol_seq, ctx->eol_seq_len, error), and the rest of the loop behind it
  unfoldable pub write_seq : (ℕ → Writer → S → Consumed) → ℕ → ℕ → Writer → S → Consumed
  write_seq rest c bytes_written w s = elim (write w.eol_seq s) [
    | none ↦ none
    | some (m, s') ↦
        if m == 0
        then some (bytes_written, w, s')
        else if ltb m (length w.eol_seq)
        then some (bytes_written, record w { state = state_write_lf }, s')
        else rest (suc bytes_written) (record w { last_c = c }) s'
  ]

  -- The block in front of a line end, and the line end.
  unfoldable pub write_line : (ℕ → Writer → S → Consumed) → ℕ → List ℕ → ℕ → Writer → S → Consumed
  unfolding write_seq
  write_line rest c block bytes_written w s = elim (write block s) [
    | none ↦ none
    | some (n, s') ↦
        if ltb n (length block)
        then some (bytes_written + n, w, s')
        else write_seq rest c (bytes_written + n) w s'
  ]

  -- The loop over the bytes from i on, with those from block_start to i.
  unfoldable pub write_loop : List ℕ → List ℕ → ℕ → Writer → S → Consumed
  unfolding write_line
  write_loop [] block bytes_written w s = write_rest block bytes_written w s
  write_loop (c ∷ cs) block bytes_written w s =
      let other = write_loop cs (block ++ (c ∷ [])) bytes_written (record w { last_c = c }) s in
      let written = write_loop cs [] (suc bytes_written) (record w { last_c = c }) s in
      let line = write_line (write_loop cs []) c block bytes_written w s in
      if c == b'\n'
      then (if w.last_c == b'\r' then written else line)
      else if c == b'\r'
      then line
      else other

  -- state == TECO_EOL_STATE_WRITE_LF: the first byte of the buffer is a line end, of which the
  -- carriage return has been written.
  unfoldable pub complete_seq : List ℕ → Writer → S → Consumed
  unfolding write_loop
  complete_seq buffer w s = elim (write (b'\n' ∷ []) s) [
    | none ↦ none
    | some (m, s') ↦
        if m == 0
        then some (0, w, s')
        else write_loop (drop 1 buffer) [] 1 (record w { state = state_start }) s'
  ]

  unfoldable pub write_text : List ℕ → S → Writer → Consumed
  write_text buffer s w = elim (write buffer s) [ none ↦ none | some (n, s') ↦ some (n, w, s') ]

  -- teco_eol_writer_convert(), with `auto` for TECO_ED_AUTOEOL. The buffer is not empty.
  unfoldable pub convert : Bool → List ℕ → Writer → S → Consumed
  unfolding write_loop complete_seq write_text
  convert false buffer w s = write_text buffer s w
  convert true buffer w s = elim w.state [
    | state_start ↦ write_loop buffer [] 0 w s
    | state_write_lf ↦ complete_seq buffer w s
  ]

  -- One half of teco_view_save_to_channel()
  unfoldable pub save_part : Bool → List ℕ → Writer → S → Saved S
  unfolding convert
  save_part auto [] w s = saved w s
  save_part auto (c ∷ cs) w s = elim (convert auto (c ∷ cs) w s) [
    | none ↦ write_error
    | some (n, w', s') ↦ if n == length (c ∷ cs) then saved w' s' else assertion_fails
  ]

  -- teco_view_save_to_channel(): the document in front of the gap and behind it.
  unfoldable pub save_to_channel : Bool → Style → List ℕ → ℕ → S → Saved S
  unfolding save_part
  save_to_channel auto eol_mode document gap s =
      elim (save_part auto (take gap document) (writer_init eol_mode) s) [
        | saved w s' ↦ save_part auto (drop gap document) w s'
        | write_error ↦ write_error
        | assertion_fails ↦ assertion_fails
      ]
