-- ===== src/Eol/Writer/Resuming.antt =====
-- src/eol.c: a call of teco_eol_writer_convert() as a whole.
use sciteco.Prelude.{
  subst, ℕ, suc, ◌+◌, ◌≡◌, refl, sym, ap, ◌∙◌, true, false, Option, List, [], ◌∷◌, ◌++◌, arith,
  ◌==◌, length, Bool-cases, Option-cases, inl, inr, append_assoc, ltb, take-all,
}
use sciteco.Eol.Writer.{Writer, state_start, Consumed, write_line, write_loop, convert}
use sciteco.Eol.Writer.Expansion.{
  expand, expand_skipped, expand_feed, expand_return, expand_plain, EndsIn, Opened, snoc-EndsIn,
  nothing-EndsIn,
}
use sciteco.Eol.Writer.Kept.{
  Mark, Completes, TakesFirst, Conserves, shift-Conserves, target-Conserves,
}
use sciteco.Eol.Writer.Conserved.{block-Kept, write_rest-Conserves, write_seq-Conserves}

module _ {S : Type 0} (write : List ℕ → S → Option (ℕ × S)) (out : S → List ℕ) (seq : List ℕ)
    (sink : TakesFirst write out) (cut : Completes seq) where
  write_line-Conserves :
      (rest : ℕ → Writer → S → Consumed write) (c : ℕ) (block cs : List ℕ) (before : ℕ) (w : Writer)
      (s : S)
      → EndsIn seq block w.last_c
      → w.state ≡ state_start
      → w.eol_seq ≡ seq
      → Mark w.last_c c
      → ((more : List ℕ)
          → expand seq w.last_c (c ∷ (cs ++ more)) ≡ seq ++ expand seq c (cs ++ more))
      → ((n : ℕ) (s' : S)
          → Conserves write out seq
              (λ more. out s' ++ expand seq c (cs ++ more))
              cs
              n
              (rest n (record w { last_c = c }) s'))
      → Conserves write out seq
          (λ more. out s ++ (block ++ expand seq w.last_c (c ∷ (cs ++ more))))
          (block ++ (c ∷ cs))
          before
          (write_line write rest c block before w s)
  unfolding write_line TakesFirst
  write_line-Conserves rest c block cs before w s ends st sq mark eol k =
      elim (Option-cases (write block s)) [
        | inl e ↦ rw (e, Conserves) tt
        | inr ((n, s'), e) ↦ elim (Bool-cases (ltb n (length block))) [
          | inl l ↦
              rw (e, Conserves)
                (rw (l, Conserves)
                  (inl (
                    block-Kept write out seq sink cut block (c ∷ cs) before n w s s' ends st sq e)))
          | inr l ↦
              let (le, eq) = sink block s n s' e in
              let nl : n ≡ length block = ground (arith, le, l) in
              rw (e, Conserves)
                (rw (l, Conserves)
                  (target-Conserves write out seq _ _ (block ++ (c ∷ cs)) before _
                    (λ more.
                      ap (◌++ expand seq w.last_c (c ∷ (cs ++ more)))
                        (eq ∙ ap (out s ++◌) (take-all n block (omega (arith, nl))))
                      ∙ append_assoc (out s) block _)
                    (shift-Conserves write out seq _ block (c ∷ cs) before (before + n) _
                      (omega (arith, nl))
                      (write_seq-Conserves write out seq sink cut rest c cs (before + n) w s' st sq
                        mark eol (k (suc (before + n)))))))
        ]
      ]

  -- A byte that is no line end is added to the block.
  plain-Conserves :
      (c : ℕ) (cs block : List ℕ) (before last : ℕ) (s : S) (r : Consumed write)
      → (c == b'\n') ≡ false
      → (c == b'\r') ≡ false
      → Conserves write out seq
          (λ more. out s ++ ((block ++ (c ∷ [])) ++ expand seq c (cs ++ more)))
          ((block ++ (c ∷ [])) ++ cs)
          before
          r
      → Conserves write out seq
          (λ more. out s ++ (block ++ expand seq last (c ∷ (cs ++ more))))
          (block ++ (c ∷ cs))
          before
          r
  plain-Conserves c cs block before last s r p q h =
      let t : List ℕ → List ℕ =
        λ more. out s ++ ((block ++ (c ∷ [])) ++ expand seq c (cs ++ more)) in
      target-Conserves write out seq _ _ (block ++ (c ∷ cs)) before r
        (λ more. ap (out s ++◌) (
          append_assoc block (c ∷ []) _
          ∙ ap (block ++◌) (sym (expand_plain seq last c (cs ++ more) p q))))
        (subst (λ xs. Conserves write out seq t xs before r) (append_assoc block (c ∷ []) cs) h)

  -- A line feed behind a carriage return has been written with it.
  skipped-Conserves :
      (c : ℕ) (cs block : List ℕ) (before last : ℕ) (s : S) (r : Consumed write)
      → (c == b'\n') ≡ true
      → (last == b'\r') ≡ true
      → block ≡ []
      → Conserves write out seq (λ more. out s ++ expand seq c (cs ++ more)) cs (suc before) r
      → Conserves write out seq
          (λ more. out s ++ (block ++ expand seq last (c ∷ (cs ++ more))))
          (block ++ (c ∷ cs))
          before
          r
  skipped-Conserves c cs block before last s r p q o h =
      subst
        (λ xs.
          Conserves write out seq (λ more. out s ++ (xs ++ expand seq last (c ∷ (cs ++ more))))
            (xs ++ (c ∷ cs)) before r)
        (sym o)
        (target-Conserves write out seq _ _ (c ∷ cs) before r
          (λ more. ap (out s ++◌) (sym (expand_skipped seq last c (cs ++ more) p q)))
          (shift-Conserves write out seq _ (c ∷ []) cs before (suc before) r (omega arith) h))

  pub write_loop-Conserves :
      (cs block : List ℕ) (before : ℕ) (w : Writer) (s : S)
      → EndsIn seq block w.last_c
      → Opened block w.last_c
      → w.state ≡ state_start
      → w.eol_seq ≡ seq
      → Conserves write out seq
          (λ more. out s ++ (block ++ expand seq w.last_c (cs ++ more)))
          (block ++ cs)
          before
          (write_loop write cs block before w s)
  unfolding write_loop Opened
  write_loop-Conserves [] block before w s ends o st sq =
      write_rest-Conserves write out seq sink cut block before w s ends st sq
  write_loop-Conserves (c ∷ cs) block before w s ends o st sq =
      let fresh = nothing-EndsIn seq c in
      let line = write_line-Conserves (write_loop write cs []) c block cs before w s ends st sq in
      let behind = λ (n : ℕ) (s' : S).
        write_loop-Conserves cs [] n (record w { last_c = c }) s' fresh (λ _. refl) st sq in
      elim (Bool-cases (c == b'\n')) [
        | inl feed ↦ elim (Bool-cases (w.last_c == b'\r')) [
          | inl skipped ↦
              rw (feed, write_loop)
                (rw (skipped, write_loop)
                  (skipped-Conserves c cs block before w.last_c s _ feed skipped (o skipped)
                    (behind (suc before) s)))
          | inr ended ↦
              rw (feed, write_loop)
                (rw (ended, write_loop)
                  (line (inr (feed, ended))
                    (λ more. expand_feed seq w.last_c c (cs ++ more) feed ended) behind))
        ]
        | inr other ↦ elim (Bool-cases (c == b'\r')) [
          | inl return_ ↦
              rw (other, write_loop)
                (rw (return_, write_loop)
                  (line (inl return_)
                    (λ more. expand_return seq w.last_c c (cs ++ more) other return_) behind))
          | inr plain ↦
              rw (other, write_loop)
                (rw (plain, write_loop)
                  (plain-Conserves c cs block before w.last_c s _ other plain (
                    write_loop-Conserves cs (block ++ (c ∷ [])) before (record w { last_c = c }) s
                      (snoc-EndsIn seq block w.last_c c other plain ends) (λ r. absurd cc) st sq)))
        ]
      ]

  -- A call.
  pub convert-Conserves :
      (buffer : List ℕ) (w : Writer) (s : S)
      → w.state ≡ state_start
      → w.eol_seq ≡ seq
      → Conserves write out seq
          (λ more. out s ++ expand seq w.last_c (buffer ++ more))
          buffer
          0
          (convert write true buffer w s)
  unfolding convert Opened
  convert-Conserves buffer w s st sq =
      rw (st, convert)
        (write_loop-Conserves buffer [] 0 w s (nothing-EndsIn seq w.last_c) (λ _. refl) st sq)
