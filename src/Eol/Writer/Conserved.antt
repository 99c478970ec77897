-- ===== src/Eol/Writer/Conserved.antt =====
-- src/eol.c: what has been written, and what the rest of the buffer will expand to, through the loop
-- of teco_eol_writer_convert().
use sciteco.Prelude.{
  ℕ, suc, ◌+◌, ◌≤◌, ◌<◌, ◌≡◌, refl, sym, ap, ◌∙◌, true, false, Option, some, List, [], ◌∷◌, ◌++◌,
  length-append, arith, ◌==◌, ◌⊎◌, length, take, drop, Bool-cases, Option-cases, inl, inr,
  append_assoc, take-drop, take-all, append_nil, drop_within, drop-all, ltb, ltb→lt,
}
use sciteco.Eol.Writer.{Writer, state_start, Consumed, write_rest, write_seq}
use sciteco.Eol.Writer.Expansion.{expand, EndsIn}
use sciteco.Eol.Writer.Kept.{
  Mark, Completes, TakesFirst, Kept, Conserves, shift-Conserves, target-Conserves,
}

module _ {S : Type 0} (write : List ℕ → S → Option (ℕ × S)) (out : S → List ℕ) where
  block_left :
      (seq block : List ℕ) (last n : ℕ) (more : List ℕ)
      → EndsIn seq block last
      → n ≤ length block
      → expand seq last (drop n block ++ more) ≡ drop n block ++ expand seq last more
  unfolding EndsIn
  block_left seq block last n more h le = elim (Bool-cases (ltb n (length block))) [
    | inl e ↦ h n last more (ltb→lt _ _ e)
    | inr e ↦ rw (drop-all n block (ground (arith, e))) refl
  ]

  -- Some bytes of a block have been written, and the others follow.
  block_split :
      (written block rest : List ℕ) (n : ℕ)
      → (written ++ take n block) ++ (drop n block ++ rest) ≡ written ++ (block ++ rest)
  block_split written block rest n =
      append_assoc written (take n block) (drop n block ++ rest)
      ∙ ap (written ++◌) (
          sym (append_assoc (take n block) (drop n block) rest) ∙ ap (◌++ rest) (take-drop n block))

  module _ (seq : List ℕ) (sink : TakesFirst write out) (cut : Completes seq) where
    -- Part of the block is written, or all of it at the end of the buffer.
    pub block-Kept :
        (block behind : List ℕ) (before n : ℕ) (w : Writer) (s s' : S)
        → EndsIn seq block w.last_c
        → w.state ≡ state_start
        → w.eol_seq ≡ seq
        → write block s ≡ some (n, s')
        → Kept write out seq
            (λ more. out s ++ (block ++ expand seq w.last_c (behind ++ more)))
            (block ++ behind)
            before
            (before + n)
            w
            s'
    unfolding TakesFirst
    block-Kept block behind before n w s s' ends st sq e =
        let (le, eq) = sink block s n s' e in
        record {
          consumed = n;
          counted = refl;
          bounded = omega (arith, le, length-append block behind);
          same_state = st;
          same_seq = sq;
          conserved = λ more.
              rw
                (
                  eq,
                  drop_within n block behind le,
                  append_assoc (drop n block) behind more,
                  block_left seq block w.last_c n (behind ++ more) ends le,
                )
                (block_split (out s) block (expand seq w.last_c (behind ++ more)) n);
        }

    pub write_rest-Conserves :
        (block : List ℕ) (before : ℕ) (w : Writer) (s : S)
        → EndsIn seq block w.last_c
        → w.state ≡ state_start
        → w.eol_seq ≡ seq
        → Conserves write out seq
            (λ more. out s ++ (block ++ expand seq w.last_c more))
            (block ++ [])
            before
            (write_rest write block before w s)
    write_rest-Conserves block before w s ends st sq = elim (Option-cases (write block s)) [
      | inl e ↦ rw (e, Conserves) tt
      | inr ((n, s'), e) ↦
          rw (e, Conserves) (inl (block-Kept block [] before n w s s' ends st sq e))
    ]

    -- Nothing of the sequence is written, or a part that a line feed completes, or all of it.
    write_seq-cases :
        (m : ℕ) (s s' : S)
        → write seq s ≡ some (m, s')
        → ((m == 0) ≡ true) × (out s' ≡ out s)
          ⊎ ((m == 0) ≡ false)
            × (((ltb m (length seq) ≡ true)
                  × (1 < length seq)
                  × (out s' ++ (b'\n' ∷ []) ≡ out s ++ seq))
                ⊎ (ltb m (length seq) ≡ false) × (out s' ≡ out s ++ seq))
    unfolding TakesFirst Completes
    write_seq-cases m s s' e =
        let (le, eq) = sink seq s m s' e in
        elim (Bool-cases (m == 0)) [
          | inl z ↦
              let m0 : m ≡ 0 = ground arith in
              inl (z, eq ∙ ap (λ n. out s ++ take n seq) m0 ∙ append_nil (out s))
          | inr z ↦ inr (
            z,
            elim (Bool-cases (ltb m (length seq))) [
              | inl less ↦
                  let some_m : 0 < m = ground arith in
                  let less_m : m < length seq = ltb→lt _ _ less in
                  inl (
                    less,
                    omega (arith, some_m, less_m),
                    ap (◌++ (b'\n' ∷ [])) eq
                        ∙ append_assoc (out s) (take m seq) (b'\n' ∷ [])
                        ∙ ap (out s ++◌) (cut m some_m less_m),
                  )
              | inr all ↦
                  let ml : length seq ≤ m = ground (arith, all) in
                  inr (all, eq ∙ ap (out s ++◌) (take-all m seq ml))
            ],
          )
        ]

    -- The line end in front of the rest, when nothing in front of it is left to write.
    pub write_seq-Conserves :
        (rest : ℕ → Writer → S → Consumed write) (c : ℕ) (cs : List ℕ) (before : ℕ) (w : Writer)
        (s : S)
        → w.state ≡ state_start
        → w.eol_seq ≡ seq
        → Mark w.last_c c
        → ((more : List ℕ)
            → expand seq w.last_c (c ∷ (cs ++ more)) ≡ seq ++ expand seq c (cs ++ more))
        → ((s' : S)
            → Conserves write out seq
                (λ more. out s' ++ expand seq c (cs ++ more))
                cs
                (suc before)
                (rest (suc before) (record w { last_c = c }) s'))
        → Conserves write out seq
            (λ more. out s ++ expand seq w.last_c (c ∷ (cs ++ more)))
            (c ∷ cs)
            before
            (write_seq write rest c before w s)
    unfolding write_seq
    write_seq-Conserves rest c cs before w s st sq mark ends k = elim (Option-cases (write seq s)) [
      | inl e ↦ rw (sq, write_seq) (rw (e, Conserves) tt)
      | inr ((m, s'), e) ↦ elim (write_seq-cases m s s' e) [
        | inl (z, eq) ↦
            rw (sq, write_seq)
              (rw (e, Conserves)
                (rw (z, Conserves)
                  (inl (record {
                    consumed = 0;
                    counted = omega arith;
                    bounded = omega arith;
                    same_state = st;
                    same_seq = sq;
                    conserved = λ more. ap (◌++ expand seq w.last_c (c ∷ (cs ++ more))) eq;
                  }))))
        | inr (z, inl (lt, long, eq)) ↦
            rw (sq, write_seq)
              (rw (e, Conserves)
                (rw (z, Conserves)
                  (rw (ap (λ q. ltb m (length q)) sq ∙ lt, Conserves)
                    (inr (record {
                      consumed = 0;
                      c = c;
                      cs = cs;
                      counted = omega arith;
                      below = omega arith;
                      left = refl;
                      mark = mark;
                      long = long;
                      torn_state = refl;
                      same_seq = sq;
                      conserved = λ more.
                          sym (append_assoc (out s') (b'\n' ∷ []) (expand seq c (cs ++ more)))
                          ∙ ap (◌++ expand seq c (cs ++ more)) eq
                          ∙ append_assoc (out s) seq _
                          ∙ ap (out s ++◌) (sym (ends more));
                    })))))
        | inr (z, inr (lt, eq)) ↦
            rw (sq, write_seq)
              (rw (e, Conserves)
                (rw (z, Conserves)
                  (rw (ap (λ q. ltb m (length q)) sq ∙ lt, Conserves)
                    (target-Conserves write out seq _ _ (c ∷ cs) before _
                      (λ more.
                        ap (◌++ expand seq c (cs ++ more)) eq
                        ∙ append_assoc (out s) seq _
                        ∙ ap (out s ++◌) (sym (ends more)))
                      (shift-Conserves write out seq _ (c ∷ []) cs before (suc before) _
                        (omega arith) (k s'))))))
      ]
    ]
