-- ===== src/Eol/Writer/RoundTrip.antt =====
-- src/eol.c: what has been written is read.
use sciteco.Prelude.{
  subst, ℕ, ◌≡◌, refl, sym, ap, ◌∙◌, Bool, true, false, List, [], ◌∷◌, ◌++◌, arith, ◌==◌,
}
use sciteco.Eol.{Style, crlf, cr, lf, convert_all}
use sciteco.Eol.Normal.{normal_after, ends_after, any_other, marks}
use sciteco.Eol.Reading.{Reads, pieces, contents}
use sciteco.Eol.Translation.{convert_all-Reads}
use sciteco.Eol.Writer.{
  Writer, get_seq, write_mem, Saved, saved, write_error, assertion_fails, save_to_channel,
}
use sciteco.Eol.Writer.Expansion.{expand}
use sciteco.Eol.Writer.Document.{AppendsAll, translated, save_to_channel-expand}

-- A carriage return may be in front of what is written only if a line feed never is written.
abbrev Fits : Style → Bool → Type 0
Fits cr after = after ≡ after
Fits crlf after = after ≡ false
Fits lf after = after ≡ false

fits : (style : Style) → Fits style false
fits crlf = refl
fits cr = refl
fits lf = refl

normal_after-expand :
    (style : Style) (after : Bool) (last : ℕ) (text : List ℕ)
    → Fits style after
    → normal_after after (expand (get_seq style) last text) ≡ normal_after (last == b'\r') text
unfolding expand
normal_after-expand style after last [] h = refl
normal_after-expand crlf after last (c ∷ cs) h =
    ground (arith, h, normal_after-expand crlf false c cs refl)
normal_after-expand cr after last (c ∷ cs) h = ground (
  arith,
  normal_after-expand cr true c cs refl,
  normal_after-expand cr false c cs refl,
  normal_after-expand cr after c cs refl,
)
normal_after-expand lf after last (c ∷ cs) h =
    ground (arith, h, normal_after-expand lf false c cs refl)

any_other-expand :
    (style : Style) (after : Bool) (last : ℕ) (text : List ℕ)
    → Fits style after
    → any_other style (ends_after after (expand (get_seq style) last text)) ≡ false
unfolding expand
any_other-expand crlf after last [] h = rw h refl
any_other-expand lf after last [] h = rw h refl
any_other-expand cr after last [] h = ground arith
any_other-expand crlf after last (c ∷ cs) h =
    ground (arith, h, any_other-expand crlf false c cs refl)
any_other-expand cr after last (c ∷ cs) h = ground (
  arith,
  any_other-expand cr true c cs refl,
  any_other-expand cr false c cs refl,
  any_other-expand cr after c cs refl,
)
any_other-expand lf after last (c ∷ cs) h = ground (arith, h, any_other-expand lf false c cs refl)

str_of : Saved (List ℕ) → List ℕ
str_of (saved w str) = str
str_of write_error = []
str_of assertion_fails = []

pub write_mem-AppendsAll : AppendsAll write_mem (λ str. str)
unfolding AppendsAll
write_mem-AppendsAll bytes str = (str ++ bytes, refl, refl)

-- With translation on in both directions, a document that has been saved in some style of line
-- ends, wherever its gap is, is read back as the document with every line end as one line feed,
-- however the file comes in pieces, and no line end of another style is noticed.
pub save_to_channel-Reads :
    (eol_mode : Style) (document : List ℕ) (gap : ℕ) (w : Writer) (css : List (List ℕ))
    → save_to_channel write_mem true eol_mode document gap [] ≡ saved w (contents css)
    → Reads
        (normal_after false document)
        (marks (ends_after false (contents css)))
        (convert_all true (pieces css))
      × (any_other eol_mode (ends_after false (contents css)) ≡ false)
unfolding str_of translated
save_to_channel-Reads eol_mode document gap w css e =
    let (w', str, e', written) =
      save_to_channel-expand write_mem (λ str. str) true eol_mode document gap []
        write_mem-AppendsAll in
    let same : contents css ≡ expand (get_seq eol_mode) 0 document =
      ap str_of (sym e ∙ e') ∙ written in
    (
      subst
          (λ (xs : List ℕ).
            Reads xs (marks (ends_after false (contents css))) (convert_all true (pieces css)))
          (ap (normal_after false) same
            ∙ normal_after-expand eol_mode false 0 document (fits eol_mode))
          (convert_all-Reads css),
      ap (λ (xs : List ℕ). any_other eol_mode (ends_after false xs)) same
          ∙ any_other-expand eol_mode false 0 document (fits eol_mode),
    )
