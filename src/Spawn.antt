-- ===== src/Spawn.antt =====
-- src/spawn.c: the standard input of a process that is run on a range of the buffer.
pub mod Owed
pub mod Input
use sciteco.Prelude.{
  ℕ, ◌+◌, ◌-◌, Bool, Option, none, some, List, ltb, ◌==◌, ◌&&◌, [], ◌∷◌, if◌then◌else◌, take, drop,
}
use sciteco.Eol.Writer.{Writer, convert}

-- The members of teco_spawn_ctx that the callback uses: the rest of the range, and the writer.
pub record SpawnCtx : Type 0 where
  pub start : ℕ
  pub to : ℕ
  pub stdin_writer : Writer

-- What holds when the callback is dispatched: whether another callback has set teco_spawn_ctx.error,
-- whether the condition has G_IO_OUT, and where the gap is.
pub record Dispatch : Type 0 where
  pub has_error : Bool
  pub writable : Bool
  pub gap : ℕ

-- G_SOURCE_CONTINUE; G_SOURCE_REMOVE with the channel shut down; G_SOURCE_REMOVE because of an
-- error that has been set before; and with an error of the writer, which quits the main loop
pub data Watch (S : Type 0) : Type 0 where
  continue_ : SpawnCtx → S → Watch S
  remove : S → Watch S
  error_before : S → Watch S
  write_error : Watch S

module _ {S : Type 0} (write : List ℕ → S → Option (ℕ × S)) where
  unfoldable pub after_write : SpawnCtx → ℕ → Writer → S → Watch S
  after_write ctx bytes_written w s =
      let start = ctx.start + bytes_written in
      if start == ctx.to
      then remove s
      else continue_ (record { start = start; to = ctx.to; stdin_writer = w }) s

  -- What teco_spawn_stdin_watch_cb() writes of the document with its gap
  unfoldable pub feed_stdin : Bool → List ℕ → ℕ → SpawnCtx → S → Watch S
  unfolding after_write
  feed_stdin auto document gap ctx s =
      let convert_len =
        if ltb ctx.start gap && ltb gap ctx.to then gap - ctx.start else ctx.to - ctx.start in
      elim (convert write auto (take convert_len (drop ctx.start document)) ctx.stdin_writer s) [
        | none ↦ write_error
        | some (bytes_written, w, s') ↦ after_write ctx bytes_written w s'
      ]

  -- teco_spawn_stdin_watch_cb()
  unfoldable pub stdin_watch_cb : Bool → List ℕ → Dispatch → SpawnCtx → S → Watch S
  unfolding feed_stdin
  stdin_watch_cb auto document d ctx s =
      if d.has_error
      then error_before s
      else if d.writable
      then feed_stdin auto document d.gap ctx s
      else remove s

  -- The main loop dispatches the callback again and again.
  unfoldable pub dispatch : Bool → List ℕ → List Dispatch → SpawnCtx → S → Watch S
  unfolding stdin_watch_cb
  dispatch auto document [] ctx s = continue_ ctx s
  dispatch auto document (d ∷ ds) ctx s = elim (stdin_watch_cb auto document d ctx s) [
    | continue_ ctx' s' ↦ dispatch auto document ds ctx' s'
    | remove s' ↦ remove s'
    | error_before s' ↦ error_before s'
    | write_error ↦ write_error
  ]
