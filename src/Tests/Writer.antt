-- ===== src/Tests/Writer.antt =====
-- src/eol.c, src/view.c and src/spawn.c: texts written.
use mathlib.Core.Option.{some-injective}
use sciteco.Prelude.{
  sym, ap, ◌∙◌, arith, ◌≤◌, ℕ, ◌≡◌, refl, true, false, Option, some, List, [], ◌∷◌, ◌++◌, ltb,
  if◌then◌else◌, length, take,
}
use sciteco.Eol.{crlf, cr, convert_all}
use sciteco.Eol.Writer.{
  Writer, state_start, state_write_lf, write_mem, writer_init, convert, saved, save_to_channel,
}
use sciteco.Eol.Normal.{normal_after, ends_after, any_other, marks}
use sciteco.Eol.Reading.{Reads, pieces, contents}
use sciteco.Eol.Writer.Expansion.{expand}
use sciteco.Eol.Writer.Kept.{TakesFirst}
use sciteco.Eol.Writer.Document.{translated, save_to_channel-expand}
use sciteco.Eol.Writer.RoundTrip.{write_mem-AppendsAll, save_to_channel-Reads}
use sciteco.Spawn.{Dispatch, remove, error_before, dispatch}
use sciteco.Spawn.Owed.{no_crlf, all_writable}
use sciteco.Spawn.Input.{spawn_init, dispatch-received}

abbrev lines : List ℕ
lines = b'a' ∷ b'\n' ∷ b'\r' ∷ b'\n' ∷ b'b' ∷ []

-- A pipe takes what there is room for, and is empty again before each call.
abbrev pipe : ℕ → List ℕ → List ℕ → Option (ℕ × List ℕ)
pipe room bytes received =
    let n = if ltb (length bytes) room then length bytes else room in
    some (n, received ++ take n bytes)

-- CRLF torn apart in front of a line feed: it is written twice.
torn_twice :
    convert
      (pipe 9)
      true
      (b'\r' ∷ b'\n' ∷ [])
      (record (writer_init crlf) { state = state_write_lf })
      (b'\r' ∷ [])
    ≡ some (
      2,
      record { state = state_start; last_c = b'\n'; eol_seq = b'\r' ∷ b'\n' ∷ [] },
      b'\r' ∷ b'\n' ∷ b'\r' ∷ b'\n' ∷ [],
    )
unfolding convert
torn_twice = refl

-- The gap is within the CRLF of the document.
save_to_channel-expand_example :
    (w : Writer) × (str : List ℕ) × (save_to_channel write_mem true cr lines 3 [] ≡ saved w str)
    × (str ≡ [] ++ expand (b'\r' ∷ []) 0 lines)
unfolding translated
save_to_channel-expand_example =
    save_to_channel-expand write_mem (λ str. str) true cr lines 3 [] write_mem-AppendsAll

-- The file is read in two pieces.
abbrev file : List (List ℕ)
file = (b'a' ∷ b'\r' ∷ []) ∷ (b'\n' ∷ b'\r' ∷ b'\n' ∷ b'b' ∷ []) ∷ []

save_to_channel-Reads_example :
    Reads
      (normal_after false lines)
      (marks (ends_after false (contents file)))
      (convert_all true (pieces file))
    × (any_other crlf (ends_after false (contents file)) ≡ false)
unfolding save_to_channel
save_to_channel-Reads_example =
    save_to_channel-Reads crlf lines 3
      (record { state = state_start; last_c = b'b'; eol_seq = b'\r' ∷ b'\n' ∷ [] }) file refl

pipe-TakesFirst : TakesFirst (pipe 1) (λ str. str)
unfolding TakesFirst
pipe-TakesFirst bytes s n s' e =
    let both = some-injective _ _ e in
    let m = if ltb (length bytes) 1 then length bytes else 1 in
    let en : m ≡ n = ap (λ p. p.0) both in
    let le : m ≤ length bytes = ground arith in
    (omega (arith, en, le), sym (ap (λ p. p.1) both) ∙ ap (λ k. s ++ take k bytes) en)

-- Bytes of the range, with both kinds of line ends; and a dispatch of the callback.
abbrev range : List ℕ
range = b'a' ∷ b'\n' ∷ b'b' ∷ b'\r' ∷ []

abbrev ready : ℕ → Dispatch
ready gap = record { has_error = false; writable = true; gap = gap }

-- One byte at a time: the CRLF of the first line end is torn apart, and so is that of the second,
-- whose line feed the third call writes.
dispatch-received_example :
    (rest : List ℕ) × ((b'a' ∷ b'\r' ∷ b'\n' ∷ b'b' ∷ b'\r' ∷ b'\n' ∷ []) ++ rest
      ≡ [] ++ expand (b'\r' ∷ b'\n' ∷ []) 0 range)
    × (true ≡ true → rest ≡ [])
unfolding dispatch convert all_writable no_crlf
dispatch-received_example =
    dispatch-received (pipe 1) (λ str. str) crlf range
      (ready 0 ∷ ready 0 ∷ ready 3 ∷ ready 3 ∷ ready 0 ∷ []) 0 4 []
      (b'a' ∷ b'\r' ∷ b'\n' ∷ b'b' ∷ b'\r' ∷ b'\n' ∷ []) pipe-TakesFirst (λ _. refl) refl

-- The process closes its standard input within the first line end.
closed_early :
    dispatch
      (pipe 1)
      true
      range
      (ready 0 ∷ record (ready 0) { writable = false } ∷ [])
      (spawn_init 0 4 crlf)
      []
    ≡ remove (b'a' ∷ b'\r' ∷ [])
unfolding dispatch convert
closed_early = refl

-- Another callback has set the error.
failed_before :
    dispatch
      (pipe 1)
      true
      range
      (record (ready 0) { has_error = true } ∷ [])
      (spawn_init 0 4 crlf)
      []
    ≡ error_before []
unfolding dispatch
failed_before = refl
