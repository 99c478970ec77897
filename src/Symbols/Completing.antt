-- ===== src/Symbols/Completing.antt =====
-- src/symbols.c: what a completion inserts.
use sciteco.Prelude.{
  ℕ, zero, suc, ◌≤◌, ◌<◌, ◌≡◌, refl, sym, ap, subst, ◌∙◌, true, false, none, List, [], ◌∷◌, ◌++◌,
  ltb, ◌==◌, ◌&&◌, if◌then◌else◌, length, length-take, take, drop, arith,
}
use sciteco.Strings.{Utf8}
use sciteco.Strings.Folding.{begins, common, IsAsciiAware}
use sciteco.Symbols.Completion.{Matches, complete_loop, Completion, completed, auto_complete}
use sciteco.Symbols.Narrowing.{
  Every, matching, AreOrdered, begins-take, begins_both-drop, common_behind, Narrowed, IsOutcome,
  loop-IsOutcome,
}

-- The inserted text is the longest that all the names have behind the symbol; there is a popup if
-- it is empty and several names match.
pub record Completes (symbol : List ℕ) (ms : List (List ℕ)) (c : Completion) : Type 0 where
  pub common_to_all : Every (λ n. begins (symbol ++ c.insert) n ≡ true) ms
  pub longest :
      (t : List ℕ)
      → 0 < length ms
      → Every (λ n. begins (symbol ++ t) n ≡ true) ms
      → length t ≤ length c.insert
  pub is_unambiguous : c.unambiguous ≡ (length ms == 1)
  pub shown : c.popup ≡ (if (length c.insert == 0) && ltb 1 (length ms) then ms else [])

module _ (symbol : List ℕ) where
  common_fits : (a b : List ℕ) → common a b ≤ length a
  common_fits [] b = omega arith
  common_fits (x ∷ a) [] = omega arith
  common_fits (x ∷ a) (y ∷ b) = ground (arith, common_fits a b)

  insert_taken : (p : ℕ) (s : List ℕ) → (if ltb 0 p then take p s else []) ≡ take p s
  insert_taken zero s = refl
  insert_taken (suc p) s = let h : ltb 0 (suc p) ≡ true = ground arith in rw h refl

  Every-begins :
      (f : List ℕ) (n : ℕ) (es : List (List ℕ))
      → begins symbol f ≡ true
      → Every (λ e. begins symbol e ≡ true) es
      → Every (λ e. n ≤ common_behind symbol f e) es
      → Every (λ e. begins (symbol ++ take n (drop (length symbol) f)) e ≡ true) es
  Every-begins f n [] bf bs h = tt
  Every-begins f n (e ∷ es) bf (be, bs) (he, h) =
      (begins-take symbol f e n bf be he, Every-begins f n es bf bs h)

  Every-common :
      (f t : List ℕ) (es : List (List ℕ))
      → begins (symbol ++ t) f ≡ true
      → Every (λ e. begins (symbol ++ t) e ≡ true) es
      → Every (λ e. length t ≤ common_behind symbol f e) es
  Every-common f t [] bf h = tt
  Every-common f t (e ∷ es) bf (be, h) =
      (begins_both-drop symbol t f e bf be, Every-common f t es bf h)

  -- The prefix is as long as what is inserted.
  insert_length :
      (f : List ℕ) (n : ℕ) (ms : List (List ℕ)) (r : Matches)
      → Narrowed symbol f (common_behind symbol f f) n ms r
      → length (take r.prefix_len (drop (length symbol) f)) ≡ r.prefix_len
  insert_length f n ms r v =
      let fits = common_fits (drop (length symbol) f) (drop (length symbol) f) in
      let le = v.below in
      length-take r.prefix_len (drop (length symbol) f) (omega (arith, fits, le))

  shown_or_not :
      (p : ℕ) (ms : List (List ℕ))
      → (if ltb 0 p then [] else if ltb 1 (length ms) then ms else [])
        ≡ (if (p == 0) && ltb 1 (length ms) then ms else [])
  shown_or_not zero ms = refl
  shown_or_not (suc p) ms =
      let h : ltb 0 (suc p) ≡ true = ground arith in
      let k : (suc p == 0) ≡ false = ground arith in rw (h, k) refl

  some-Completes :
      (f : List ℕ) (ms : List (List ℕ)) (r : Matches)
      → Narrowed symbol f (common_behind symbol f f) 1 ms r
      → begins symbol f ≡ true
      → Every (λ e. begins symbol e ≡ true) ms
      → Completes symbol (f ∷ ms) (record {
        insert = take r.prefix_len (drop (length symbol) f);
        popup = if ltb 0 r.prefix_len then [] else if ltb 1 r.glist_len then (f ∷ r.glist) else [];
        unambiguous = r.glist_len == 1;
      })
  some-Completes f ms r v bf bs =
      let counted : r.glist_len ≡ suc (length ms) = let c = v.counted in omega (arith, c) in
      record {
        common_to_all = (
          begins-take symbol f f r.prefix_len bf bf v.below,
          Every-begins f r.prefix_len ms bf bs v.below_all,
        );
        longest = λ t some_match all.
            let le =
              v.greatest (length t) (begins_both-drop symbol t f f all.0 all.0)
                (Every-common f t ms all.0 all.1) in
            subst (λ n. length t ≤ n) (sym (insert_length f 1 ms r v)) le;
        is_unambiguous = ap (λ n. n == 1) counted;
        shown =
            subst
              (λ l.
                (if ltb 0 r.prefix_len then [] else if ltb 1 r.glist_len then (f ∷ r.glist) else [])
                ≡ (if (l == 0) && ltb 1 (length (f ∷ ms)) then (f ∷ ms) else []))
              (sym (insert_length f 1 ms r v))
              (ap (λ n. if ltb 0 r.prefix_len then [] else if ltb 1 n then (f ∷ r.glist) else [])
                  counted
                ∙ ap
                    (λ gs.
                      if ltb 0 r.prefix_len
                      then []
                      else if ltb 1 (suc (length ms))
                      then (f ∷ gs)
                      else [])
                    v.all_listed
                ∙ shown_or_not r.prefix_len (f ∷ ms));
      }

  outcome-Completes :
      (ms : List (List ℕ)) (m : Matches)
      → IsOutcome symbol ms m
      → Completes symbol ms (completed symbol m)
  outcome-Completes [] m e =
      subst (λ x. Completes symbol [] (completed symbol x)) (sym e)
        (record {
          common_to_all = tt;
          longest = λ t h all. absurd (omega arith);
          is_unambiguous = refl;
          shown = refl;
        })
  outcome-Completes (f ∷ ms) m (r, is_r, v, bf, bs) =
      subst (λ x. Completes symbol (f ∷ ms) (completed symbol x)) (sym is_r)
        (subst
          (λ i. Completes symbol (f ∷ ms) (record {
            insert = i;
            popup =
                if ltb 0 r.prefix_len then [] else if ltb 1 r.glist_len then (f ∷ r.glist) else [];
            unambiguous = r.glist_len == 1;
          }))
          (sym (insert_taken r.prefix_len (drop (length symbol) f)))
          (some-Completes f ms r v bf bs))

-- On a list of ASCII names in order, without regard to case, the completion of a symbol inserts the
-- longest text that all the names that begin with the symbol have behind it; it is unambiguous if
-- there is exactly one such name, and the names are shown if there are several and nothing is
-- inserted. It is assumed that GLib reads ASCII bytes as characters and lowers them as in ASCII.
pub auto_complete-Completes :
    (u : Utf8) (symbol : List ℕ) (names : List (List ℕ))
    → IsAsciiAware u
    → AreOrdered names
    → Completes symbol (matching symbol names) (auto_complete u symbol names)
unfolding auto_complete
auto_complete-Completes u symbol names g o =
    outcome-Completes symbol (matching symbol names) (complete_loop u symbol none 0 0 names)
      (loop-IsOutcome symbol u g names o)
