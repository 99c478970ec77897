-- ===== src/Eol/Writer/Completing.antt =====
-- src/eol.c: a call of teco_eol_writer_convert() that completes a CRLF torn apart before.
use sciteco.Prelude.{
  subst, ℕ, ◌≡◌, refl, sym, ap, ◌∙◌, true, Option, List, [], ◌∷◌, ◌++◌, arith, ◌==◌, ◌⊎◌, take,
  some, append_nil, Bool-cases, Option-cases, inl, inr, append_assoc,
}
use sciteco.Eol.Writer.{Writer, state_start, state_write_lf, complete_seq, write_loop, convert}
use sciteco.Eol.Writer.Expansion.{expand, Opened, nothing-EndsIn}
use sciteco.Eol.Writer.Kept.{Completes, TakesFirst, Conserves, shift-Conserves, target-Conserves}
use sciteco.Eol.Writer.Resuming.{write_loop-Conserves}

module _ {S : Type 0} (write : List ℕ → S → Option (ℕ × S)) (out : S → List ℕ) (seq : List ℕ)
    (sink : TakesFirst write out) (cut : Completes seq) where
  -- A call that is to complete a CRLF writes nothing, or the line feed and goes on behind the line
  -- end in front.
  complete_seq-Conserves :
      (c : ℕ) (cs : List ℕ) (w : Writer) (s : S)
      → w.eol_seq ≡ seq
      → ((s' : S) × (complete_seq write (c ∷ cs) w s ≡ some (0, w, s')) × (out s' ≡ out s))
        ⊎ Conserves write out seq
            (λ more. out s ++ (b'\n' ∷ expand seq w.last_c (cs ++ more)))
            (c ∷ cs)
            0
            (complete_seq write (c ∷ cs) w s)
  unfolding complete_seq Opened TakesFirst
  complete_seq-Conserves c cs w s sq = elim (Option-cases (write (b'\n' ∷ []) s)) [
    | inl e ↦ rw (e, Conserves) (inr tt)
    | inr ((m, s'), e) ↦
        let (le, eq) = sink (b'\n' ∷ []) s m s' e in
        elim (Bool-cases (m == 0)) [
          | inl z ↦
              let m0 : m ≡ 0 = ground arith in
              rw (e, complete_seq)
                (rw (z, complete_seq)
                  (inl (
                    s',
                    refl,
                    eq ∙ ap (λ n. out s ++ take n (b'\n' ∷ [])) m0 ∙ append_nil (out s),
                  )))
          | inr z ↦
              let m1 : m ≡ 1 = ground (arith, le) in
              let w1 = record w { state = state_start } in
              rw (e, complete_seq)
                (rw (z, complete_seq)
                  (inr (
                    target-Conserves write out seq _ _ (c ∷ cs) 0 _
                      (λ more.
                        ap (◌++ expand seq w.last_c (cs ++ more))
                          (eq ∙ ap (λ n. out s ++ take n (b'\n' ∷ [])) m1)
                        ∙ append_assoc (out s) (b'\n' ∷ []) _)
                      (shift-Conserves write out seq _ (c ∷ []) cs 0 1 _ (omega arith) (
                        write_loop-Conserves write out seq sink cut cs [] 1 w1 s'
                          (nothing-EndsIn seq w.last_c) (λ _. refl) refl sq)))))
        ]
  ]

  convert_torn :
      (buffer : List ℕ) (w : Writer) (s : S)
      → w.state ≡ state_write_lf
      → convert write true buffer w s ≡ complete_seq write buffer w s
  unfolding convert
  convert_torn buffer w s st =
      ap
        (λ p. elim p [
          | state_start ↦ write_loop write buffer [] 0 w s
          | state_write_lf ↦ complete_seq write buffer w s
        ])
        st

  pub torn-Conserves :
      (c : ℕ) (cs : List ℕ) (w : Writer) (s : S)
      → w.state ≡ state_write_lf
      → w.eol_seq ≡ seq
      → ((s' : S) × (convert write true (c ∷ cs) w s ≡ some (0, w, s')) × (out s' ≡ out s))
        ⊎ Conserves write out seq
            (λ more. out s ++ (b'\n' ∷ expand seq w.last_c (cs ++ more)))
            (c ∷ cs)
            0
            (convert write true (c ∷ cs) w s)
  torn-Conserves c cs w s st sq =
      subst
        (λ r.
          ((s' : S) × (r ≡ some (0, w, s')) × (out s' ≡ out s))
          ⊎ Conserves write out seq (λ more. out s ++ (b'\n' ∷ expand seq w.last_c (cs ++ more)))
              (c ∷ cs) 0 r)
        (sym (convert_torn (c ∷ cs) w s st)) (complete_seq-Conserves c cs w s sq)
