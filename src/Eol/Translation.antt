-- ===== src/Eol/Translation.antt =====
-- src/eol.c: teco_eol_reader_convert_all() as a whole.
use sciteco.Prelude.{
  length-drop, drop-all, ℕ, zero, suc, ◌+◌, ◌-◌, ◌≤◌, ◌≡◌, refl, sym, ◌∙◌, true, false, Option,
  List, [], ◌∷◌, arith, length, drop, leb, Bool-cases, inl, inr, leb→le, subst,
}
use sciteco.Eol.{
  Seen, is_return, Reader, reader_init, return_block, skip_block, convert, Whole, convert_loop,
  calls, convert_all,
}
use sciteco.Eol.Normal.{normal_after, ends_after, marks, observe_all-marks}
use sciteco.Eol.Reading.{
  pieces, contents, rest, behind_block, Reads, Finishes, Finishes-block, Finishes-eof, due,
  calls-pos, length-rest, skip_block-Skips, convert-eof, convert-refill, convert-more,
}

-- The step from one call to the rest of them.
Going : ℕ → Type 0
Going fuel =
    (str : List ℕ) (css : List (List ℕ)) (r : Reader)
    → r.source ≡ pieces css
    → due r css ≤ fuel
    → Finishes str (rest r) css r.last_char r.seen (convert_loop fuel true str r)

-- The call returns the next block of a reader.
block-Going :
    (fuel : ℕ) (str : List ℕ) (css : List (List ℕ)) (r s : Reader)
    → Going fuel
    → convert true r ≡ return_block s
    → s.source ≡ pieces css
    → (length (drop s.offset s.buffer) - 1) + calls (pieces css) ≤ fuel
    → Finishes str
        (drop s.offset s.buffer)
        css
        s.last_char
        s.seen
        (convert_loop (suc fuel) true str r)
unfolding Going convert_loop return_block
block-Going fuel str css r s ih e k h =
    rw (e, convert_loop)
      (Finishes-block str css s _ (ih _ css (behind_block s) k (omega (arith, h, length-rest s))))

-- The buffer is used up.
empty-Going :
    (fuel : ℕ) (str : List ℕ) (css : List (List ℕ)) (r s : Reader)
    → Going fuel
    → skip_block r ≡ s
    → leb (length s.buffer) s.offset ≡ true
    → s.source ≡ pieces css
    → calls (pieces css) ≤ suc fuel
    → Finishes str [] css s.last_char s.seen (convert_loop (suc fuel) true str r)
unfolding convert_loop
empty-Going fuel str [] r s ih e h k n =
    rw (convert-eof r s e h k, convert_loop) (Finishes-eof str s)
empty-Going fuel str (c ∷ css) r s ih e h k n =
    block-Going fuel str css r (record s { offset = 0; buffer = c; source = pieces css }) ih
      (convert-refill r s e c (pieces css) h k) refl (omega (arith, n))

more-Going :
    (fuel : ℕ) (str : List ℕ) (css : List (List ℕ)) (r s : Reader)
    → Going fuel
    → skip_block r ≡ s
    → s.source ≡ pieces css
    → length (drop s.offset s.buffer) + calls (pieces css) ≤ suc fuel
    → Finishes str
        (drop s.offset s.buffer)
        css
        s.last_char
        s.seen
        (convert_loop (suc fuel) true str r)
more-Going fuel str css r s ih e k h = elim (Bool-cases (leb (length s.buffer) s.offset)) [
  | inl done ↦
      rw (drop-all s.offset s.buffer (leb→le _ _ done))
        (empty-Going fuel str css r s ih e done k (omega (arith, h)))
  | inr more ↦
      block-Going fuel str css r s ih (convert-more r s e more) k
        (ground (arith, h, length-drop s.offset s.buffer))
]

Finishes-along :
    (str zs zs' : List ℕ) (css : List (List ℕ)) (last last' : Option ℕ) (seen seen' : Seen)
    (w : Whole)
    → zs ≡ zs'
    → is_return last ≡ is_return last'
    → seen ≡ seen'
    → Finishes str zs css last seen w
    → Finishes str zs' css last' seen' w
Finishes-along str zs zs' css last last' seen seen' w a b c h = rw (sym a, sym b, sym c) h

every-Going : (fuel : ℕ) → Going fuel
unfolding Going
every-Going zero str css r e h = absurd (omega (arith, h, calls-pos css))
every-Going (suc fuel) str css r e h =
    let k = skip_block-Skips r in
    Finishes-along str (drop (skip_block r).offset (skip_block r).buffer) (rest r) css
      (skip_block r).last_char r.last_char (skip_block r).seen r.seen _ k.is_rest k.same_after
      k.same_seen
      (more-Going fuel str css r (skip_block r) (every-Going fuel) refl (k.same_source ∙ e)
        (rw k.is_rest h))

-- With translation on, a text that can be read to its end is returned with every line end as one
-- line feed, however the file comes in pieces; the style is that of the first line end, and it is
-- inconsistent if another line end has another style. The calls that are counted are enough.
pub convert_all-Reads :
    (css : List (List ℕ))
    → Reads
        (normal_after false (contents css))
        (marks (ends_after false (contents css)))
        (convert_all true (pieces css))
unfolding convert_all Going
convert_all-Reads css =
    subst
      (λ (seen : Seen).
        Reads (normal_after false (contents css)) seen (convert_all true (pieces css)))
      (observe_all-marks (ends_after false (contents css)))
      (every-Going (calls (pieces css)) [] css (reader_init (pieces css)) refl (omega arith))
