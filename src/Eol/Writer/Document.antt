-- ===== src/Eol/Writer/Document.antt =====
-- src/view.c: teco_view_save_to_channel(), on a sink that takes all it is given.
use mathlib.Core.Option.{some-injective}
use sciteco.Prelude.{
  subst, ℕ, ◌<◌, ◌≡◌, refl, sym, ap, ◌∙◌, Bool, true, false, Option, some, List, [], ◌∷◌, ◌++◌,
  arith, ◌==◌, length, take, drop, append_assoc, append_nil, take-drop, drop-all, take-all,
}
use sciteco.Eol.{Style, crlf, cr, lf}
use sciteco.Eol.Writer.{
  Writer, state_start, get_seq, writer_init, write_loop, write_text, convert, saved, save_part,
  save_to_channel,
}
use sciteco.Eol.Writer.Expansion.{expand, Opened}
use sciteco.Eol.Writer.Kept.{Completes, TakesFirst, Kept, Conserves, whole-Kept, get_seq-Completes}
use sciteco.Eol.Writer.Resuming.{convert-Conserves}
use sciteco.Eol.Writer.Saving.{TakesAll, AllConsumed, write_loop-AllConsumed}

module _ {S : Type 0} (write : List ℕ → S → Option (ℕ × S)) (out : S → List ℕ) where
  -- A sink that appends all bytes of every call.
  unfoldable pub AppendsAll : Type 0
  AppendsAll =
      (bytes : List ℕ) (s : S)
      → (s' : S) × (write bytes s ≡ some (length bytes, s')) × (out s' ≡ out s ++ bytes)

  all-TakesAll : AppendsAll → TakesAll write
  unfolding AppendsAll TakesAll
  all-TakesAll all bytes s = let (s', e, o) = all bytes s in (s', e)

  all-TakesFirst : AppendsAll → TakesFirst write out
  unfolding AppendsAll TakesFirst
  all-TakesFirst all bytes s n s' e =
      let (s1, e1, o) = all bytes s in
      let both = some-injective _ _ (sym e1 ∙ e) in
      let en : length bytes ≡ n = ap (λ p. p.0) both in
      (
        omega (arith, en),
        ap out (sym (ap (λ p. p.1) both))
            ∙ o
            ∙ ap (out s ++◌) (sym (take-all n bytes (omega (arith, en)))),
      )

  module _ (seq : List ℕ) (pos : 0 < length seq) (cut : Completes seq) (all : AppendsAll) where
    -- What a part of the document leaves.
    Written : List ℕ → Writer → S → Type 0
    Written text w s =
        (w' : Writer) × (s' : S) × (save_part write true text w s ≡ saved w' s')
        × (w'.state ≡ state_start)
        × (w'.eol_seq ≡ seq)
        × ((more : List ℕ)
            → out s' ++ expand seq w'.last_c more ≡ out s ++ expand seq w.last_c (text ++ more))

    convert-AllConsumed :
        (text : List ℕ) (w : Writer) (s : S)
        → w.state ≡ state_start
        → w.eol_seq ≡ seq
        → AllConsumed write (length text) (convert write true text w s)
    unfolding convert AllConsumed Opened
    convert-AllConsumed text w s st sq =
        rw (st, convert)
          (subst (λ n. AllConsumed write n (write_loop write text [] 0 w s)) (omega arith)
            (write_loop-AllConsumed write (all-TakesAll all) text [] 0 w s
              (subst (λ xs. 0 < length xs) (sym sq) pos) (λ _. refl)))

    save_part-Written :
        (text : List ℕ) (w : Writer) (s : S)
        → w.state ≡ state_start
        → w.eol_seq ≡ seq
        → Written text w s
    unfolding save_part Written AllConsumed
    save_part-Written [] w s st sq = (w, s, refl, st, sq, λ more. refl)
    save_part-Written (c ∷ cs) w s st sq =
        let (w', s', e) = convert-AllConsumed (c ∷ cs) w s st sq in
        let k : Kept write out seq (λ more. out s ++ expand seq w.last_c ((c ∷ cs) ++ more))
            (c ∷ cs) 0 (length (c ∷ cs)) w' s' =
          whole-Kept write out seq _ (c ∷ cs) w' s' (
            subst (Conserves write out seq _ (c ∷ cs) 0) e
              (convert-Conserves write out seq (all-TakesFirst all) cut (c ∷ cs) w s st sq)) in
        let n : k.consumed ≡ length (c ∷ cs) = omega (arith, k.counted) in
        let same : (length (c ∷ cs) == length (c ∷ cs)) ≡ true = ground arith in
        (
          w',
          s',
          rw (e, save_part) (rw (same, save_part) refl),
          k.same_state,
          k.same_seq,
          λ more.
              ap (λ xs. out s' ++ expand seq w'.last_c (xs ++ more))
                (sym (drop-all k.consumed (c ∷ cs) (omega (arith, n))))
              ∙ k.conserved more,
        )

pub get_seq-pos : (eol_mode : Style) → 0 < length (get_seq eol_mode)
get_seq-pos crlf = omega arith
get_seq-pos cr = omega arith
get_seq-pos lf = omega arith

-- The document in the style of its line ends if translation is on, and as it is otherwise.
unfoldable pub translated : Bool → Style → List ℕ → List ℕ
translated true eol_mode document = expand (get_seq eol_mode) 0 document
translated false eol_mode document = document

save_translated :
    {S : Type 0} (write : List ℕ → S → Option (ℕ × S)) (out : S → List ℕ) (eol_mode : Style)
    (document : List ℕ) (gap : ℕ) (s : S)
    → AppendsAll write out
    → (w : Writer) × (s' : S) × (save_to_channel write true eol_mode document gap s ≡ saved w s')
      × (out s' ≡ out s ++ expand (get_seq eol_mode) 0 document)
unfolding save_to_channel Written expand
save_translated write out eol_mode document gap s all =
    let seq = get_seq eol_mode in
    let pos = get_seq-pos eol_mode in
    let cut = get_seq-Completes eol_mode in
    let (w1, s1, e1, st1, sq1, k1) =
      save_part-Written write out seq pos cut all (take gap document) (writer_init eol_mode) s refl
        refl in
    let (w2, s2, e2, st2, sq2, k2) =
      save_part-Written write out seq pos cut all (drop gap document) w1 s1 st1 sq1 in
    (
      w2,
      s2,
      rw (e1, save_to_channel) e2,
      sym (append_nil (out s2))
          ∙ k2 []
          ∙ k1 (drop gap document ++ [])
          ∙ ap (λ xs. out s ++ expand seq 0 xs)
              (sym (append_assoc (take gap document) (drop gap document) [])
                ∙ append_nil _
                ∙ take-drop gap document),
    )

save_plain :
    {S : Type 0} (write : List ℕ → S → Option (ℕ × S)) (out : S → List ℕ) (text : List ℕ)
    (w : Writer) (s : S)
    → AppendsAll write out
    → (s' : S) × (save_part write false text w s ≡ saved w s') × (out s' ≡ out s ++ text)
unfolding AppendsAll save_part convert write_text
save_plain write out [] w s all = (s, refl, sym (append_nil (out s)))
save_plain write out (c ∷ cs) w s all =
    let (s', e, o) = all (c ∷ cs) s in
    let same : (length (c ∷ cs) == length (c ∷ cs)) ≡ true = ground arith in
    (s', rw (e, save_part) (rw (same, save_part) refl), o)

-- On a sink that appends all it is given, saving a document succeeds and its assertions hold,
-- wherever its gap is, even within a CRLF. With translation on, what is written is the document
-- with every line end in the style of the document, and otherwise the document as it is.
pub save_to_channel-expand :
    {S : Type 0} (write : List ℕ → S → Option (ℕ × S)) (out : S → List ℕ) (auto : Bool)
    (eol_mode : Style) (document : List ℕ) (gap : ℕ) (s : S)
    → AppendsAll write out
    → (w : Writer) × (s' : S) × (save_to_channel write auto eol_mode document gap s ≡ saved w s')
      × (out s' ≡ out s ++ translated auto eol_mode document)
unfolding translated save_to_channel
save_to_channel-expand write out true eol_mode document gap s all =
    save_translated write out eol_mode document gap s all
save_to_channel-expand write out false eol_mode document gap s all =
    let w = writer_init eol_mode in
    let (s1, e1, o1) = save_plain write out (take gap document) w s all in
    let (s2, e2, o2) = save_plain write out (drop gap document) w s1 all in
    (
      w,
      s2,
      rw (e1, save_to_channel) e2,
      o2
          ∙ ap (◌++ drop gap document) o1
          ∙ append_assoc (out s) (take gap document) (drop gap document)
          ∙ ap (out s ++◌) (take-drop gap document),
    )
