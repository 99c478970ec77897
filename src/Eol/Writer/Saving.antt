-- ===== src/Eol/Writer/Saving.antt =====
-- src/eol.c and src/view.c: writing to a sink that takes all it is given, such as
-- teco_eol_writer_write_mem().
use sciteco.Prelude.{
  subst, ℕ, suc, ◌+◌, ◌<◌, ◌≡◌, refl, ap, ◌∙◌, false, Option, some, List, [], ◌∷◌, ◌++◌,
  length-append, arith, ◌==◌, length, Bool-cases, inl, inr, append_assoc, append_nil, ltb, le→ltb,
}
use sciteco.Eol.Writer.{Writer, Consumed, write_rest, write_line, write_seq, write_loop}
use sciteco.Eol.Writer.Expansion.{Opened}

module _ {S : Type 0} (write : List ℕ → S → Option (ℕ × S)) where
  unfoldable pub TakesAll : Type 0
  TakesAll = (bytes : List ℕ) (s : S) → (s' : S) × (write bytes s ≡ some (length bytes, s'))

  unfoldable pub AllConsumed : ℕ → Consumed write → Type 0
  AllConsumed n r = (w : Writer) × (s : S) × (r ≡ some (n, w, s))

  module _ (all : TakesAll) where
    write_line-AllConsumed :
        (rest : ℕ → Writer → S → Consumed write) (c : ℕ) (block cs : List ℕ) (before : ℕ)
        (w : Writer) (s : S)
        → 0 < length w.eol_seq
        → ((n : ℕ) (s' : S) → AllConsumed (n + length cs) (rest n (record w { last_c = c }) s'))
        → AllConsumed
            (before + length (block ++ (c ∷ cs)))
            (write_line write rest c block before w s)
    unfolding write_line write_seq TakesAll AllConsumed
    write_line-AllConsumed rest c block cs before w s h k =
        let (s1, e1) = all block s in
        let (s2, e2) = all w.eol_seq s1 in
        let (w', s', e) = k (suc (before + length block)) s2 in
        let len : suc (before + length block) + length cs ≡ before + length (block ++ (c ∷ cs)) =
          omega (arith, length-append block (c ∷ cs)) in
        let nz : (length w.eol_seq == 0) ≡ false = ground (arith, h) in
        let whole_block : ltb (length block) (length block) ≡ false = le→ltb _ _ (omega arith) in
        let whole_seq : ltb (length w.eol_seq) (length w.eol_seq) ≡ false =
          le→ltb _ _ (omega arith) in
        (
          w',
          s',
          rw (e1, write_line)
              (rw (whole_block, write_line)
                (rw (e2, write_seq)
                  (rw (nz, write_seq)
                    (rw (whole_seq, write_seq) (e ∙ ap (λ n. some (n, w', s')) len))))),
        )

    write_rest-AllConsumed :
        (block : List ℕ) (before : ℕ) (w : Writer) (s : S)
        → AllConsumed (before + length block) (write_rest write block before w s)
    unfolding AllConsumed TakesAll
    write_rest-AllConsumed block before w s =
        let (s1, e1) = all block s in (w, s1, rw (e1, write_rest) refl)

    pub write_loop-AllConsumed :
        (cs block : List ℕ) (before : ℕ) (w : Writer) (s : S)
        → 0 < length w.eol_seq
        → Opened block w.last_c
        → AllConsumed (before + length (block ++ cs)) (write_loop write cs block before w s)
    unfolding write_loop AllConsumed Opened TakesAll
    write_loop-AllConsumed [] block before w s h o =
        rw (append_nil block) (write_rest-AllConsumed block before w s)
    write_loop-AllConsumed (c ∷ cs) block before w s h o =
        let w1 = record w { last_c = c } in
        let line =
          write_line-AllConsumed (write_loop write cs []) c block cs before w s h
            (λ (n : ℕ) (s' : S). write_loop-AllConsumed cs [] n w1 s' h (λ _. refl)) in
        elim (Bool-cases (c == b'\n')) [
          | inl feed ↦ elim (Bool-cases (w.last_c == b'\r')) [
            | inl skipped ↦
                rw (feed, write_loop)
                  (rw (skipped, write_loop)
                    (subst (λ n. AllConsumed n (write_loop write cs [] (suc before) w1 s))
                      (omega (arith, length-append block (c ∷ cs), ap length (o skipped)))
                      (write_loop-AllConsumed cs [] (suc before) w1 s h (λ _. refl))))
            | inr ended ↦ rw (feed, write_loop) (rw (ended, write_loop) line)
          ]
          | inr other ↦ elim (Bool-cases (c == b'\r')) [
            | inl return_ ↦ rw (other, write_loop) (rw (return_, write_loop) line)
            | inr plain ↦
                rw (other, write_loop)
                  (rw (plain, write_loop)
                    (subst
                      (λ xs.
                        AllConsumed (before + length xs)
                          (write_loop write cs (block ++ (c ∷ [])) before w1 s))
                      (append_assoc block (c ∷ []) cs)
                      (write_loop-AllConsumed cs (block ++ (c ∷ [])) before w1 s h
                        (λ r. absurd cc))))
          ]
        ]
