-- ===== src/Tests/Eol.antt =====
-- Texts with line ends of several styles, read by src/eol.c.
use sciteco.Prelude.{ℕ, ◌≡◌, refl, false, true, some, List, [], ◌∷◌}
use sciteco.Eol.{crlf, convert_all}
use sciteco.Eol.Normal.{normal_after, ends_after, marks}
use sciteco.Eol.Reading.{Reads, pieces, contents}
use sciteco.Eol.Translation.{convert_all-Reads}

-- a CR | LF b CR c, in two pieces that tear the first line end apart
abbrev torn : List (List ℕ)
torn = (b'a' ∷ b'\r' ∷ []) ∷ (b'\n' ∷ b'b' ∷ b'\r' ∷ b'c' ∷ []) ∷ []

torn-normal : normal_after false (contents torn) ≡ b'a' ∷ b'\n' ∷ b'b' ∷ b'\n' ∷ b'c' ∷ []
torn-normal = refl

torn-marks :
    marks (ends_after false (contents torn))
    ≡ record { eol_style = some crlf; eol_style_inconsistent = true }
torn-marks = refl

convert_all-Reads_example :
    Reads
      (normal_after false (contents torn))
      (marks (ends_after false (contents torn)))
      (convert_all true (pieces torn))
convert_all-Reads_example = convert_all-Reads torn
