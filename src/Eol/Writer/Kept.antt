-- ===== src/Eol/Writer/Kept.antt =====
-- src/eol.c: what a call of teco_eol_writer_convert() leaves: what has been written, and what the rest
-- of the buffer will expand to.
use sciteco.Prelude.{
  subst, ℕ, ◌+◌, ◌≤◌, ◌<◌, ◌≡◌, refl, ◌∙◌, true, false, Option, none, some, List, [], ◌∷◌, ◌++◌,
  length-append, arith, ◌==◌, ◌⊎◌, length, take, drop, inl, inr, drop-append,
}
use sciteco.Eol.{Style, crlf, cr, lf}
use sciteco.Eol.Writer.{Writer, state_start, state_write_lf, get_seq, Consumed}
use sciteco.Eol.Writer.Expansion.{expand}

-- A byte that is written as a line end behind another byte.
abbrev pub Mark : ℕ → ℕ → Type 0
Mark last c = ((c == b'\r') ≡ true) ⊎ ((c == b'\n') ≡ true) × ((last == b'\r') ≡ false)

-- What is left of a sequence that is written only in part is a line feed.
unfoldable pub Completes : List ℕ → Type 0
Completes seq = (m : ℕ) → 0 < m → m < length seq → take m seq ++ (b'\n' ∷ []) ≡ seq

pub get_seq-Completes : (eol_mode : Style) → Completes (get_seq eol_mode)
unfolding Completes
get_seq-Completes crlf m h k =
    subst (λ n. take n (get_seq crlf) ++ (b'\n' ∷ []) ≡ get_seq crlf) {x = 1} (omega (arith, h, k))
      refl
get_seq-Completes cr m h k = absurd (omega (arith, h, k))
get_seq-Completes lf m h k = absurd (omega (arith, h, k))

module _ {S : Type 0} (write : List ℕ → S → Option (ℕ × S)) (out : S → List ℕ) where
  -- A call takes the first bytes of what it is given: any number of them, or none.
  unfoldable pub TakesFirst : Type 0
  TakesFirst =
      (bytes : List ℕ) (s : S) (n : ℕ) (s' : S)
      → write bytes s ≡ some (n, s')
      → (n ≤ length bytes) × (out s' ≡ out s ++ take n bytes)

  -- Of these bytes some are consumed. What has been written by then, and the expansion of the others,
  -- is the target.
  pub record Kept (seq : List ℕ) (target : List ℕ → List ℕ) (bytes : List ℕ) (before n : ℕ)
      (w : Writer) (s : S) : Type 0 where
    pub consumed : ℕ
    pub counted : n ≡ before + consumed
    pub bounded : consumed ≤ length bytes
    pub same_state : w.state ≡ state_start
    pub same_seq : w.eol_seq ≡ seq
    pub conserved :
        (more : List ℕ) → out s ++ expand seq w.last_c (drop consumed bytes ++ more) ≡ target more

  -- Only the carriage return of a CRLF is written, for a line end that is not consumed yet.
  pub record Torn (seq : List ℕ) (target : List ℕ → List ℕ) (bytes : List ℕ) (before n : ℕ)
      (w : Writer) (s : S) : Type 0 where
    pub consumed : ℕ
    pub c : ℕ
    pub cs : List ℕ
    pub counted : n ≡ before + consumed
    pub below : consumed < length bytes
    pub left : drop consumed bytes ≡ c ∷ cs
    pub mark : Mark w.last_c c
    pub long : 1 < length seq
    pub torn_state : w.state ≡ state_write_lf
    pub same_seq : w.eol_seq ≡ seq
    pub conserved : (more : List ℕ) → out s ++ (b'\n' ∷ expand seq c (cs ++ more)) ≡ target more

  abbrev pub Conserves : List ℕ → (List ℕ → List ℕ) → List ℕ → ℕ → Consumed write → Type 0
  Conserves seq target bytes before none = Unit
  Conserves seq target bytes before (some (n, w, s)) =
      Kept seq target bytes before n w s ⊎ Torn seq target bytes before n w s

  pub shift-Conserves :
      (seq : List ℕ) (target : List ℕ → List ℕ) (xs bytes : List ℕ) (before behind : ℕ)
      (r : Consumed write)
      → behind ≡ before + length xs
      → Conserves seq target bytes behind r
      → Conserves seq target (xs ++ bytes) before r
  shift-Conserves seq target xs bytes before behind none e h = h
  shift-Conserves seq target xs bytes before behind (some (n, w, s)) e (inl h) = inl (record {
    consumed = length xs + h.consumed;
    counted = omega (arith, h.counted, e);
    bounded = omega (arith, h.bounded, length-append xs bytes);
    same_state = h.same_state;
    same_seq = h.same_seq;
    conserved = λ more. rw (drop-append xs bytes h.consumed) (h.conserved more);
  })
  shift-Conserves seq target xs bytes before behind (some (n, w, s)) e (inr h) = inr (record {
    consumed = length xs + h.consumed;
    c = h.c;
    cs = h.cs;
    counted = omega (arith, h.counted, e);
    below = omega (arith, h.below, length-append xs bytes);
    left = drop-append xs bytes h.consumed ∙ h.left;
    mark = h.mark;
    long = h.long;
    torn_state = h.torn_state;
    same_seq = h.same_seq;
    conserved = h.conserved;
  })

  pub target-Conserves :
      (seq : List ℕ) (t t' : List ℕ → List ℕ) (bytes : List ℕ) (before : ℕ) (r : Consumed write)
      → ((more : List ℕ) → t more ≡ t' more)
      → Conserves seq t bytes before r
      → Conserves seq t' bytes before r
  target-Conserves seq t t' bytes before none e h = h
  target-Conserves seq t t' bytes before (some (n, w, s)) e (inl h) = inl (record {
    consumed = h.consumed;
    counted = h.counted;
    bounded = h.bounded;
    same_state = h.same_state;
    same_seq = h.same_seq;
    conserved = λ more. h.conserved more ∙ e more;
  })
  target-Conserves seq t t' bytes before (some (n, w, s)) e (inr h) = inr (record {
    consumed = h.consumed;
    c = h.c;
    cs = h.cs;
    counted = h.counted;
    below = h.below;
    left = h.left;
    mark = h.mark;
    long = h.long;
    torn_state = h.torn_state;
    same_seq = h.same_seq;
    conserved = λ more. h.conserved more ∙ e more;
  })

  -- When all is consumed, nothing is torn.
  pub whole-Kept :
      (seq : List ℕ) (target : List ℕ → List ℕ) (bytes : List ℕ) (w : Writer) (s : S)
      → Conserves seq target bytes 0 (some (length bytes, w, s))
      → Kept seq target bytes 0 (length bytes) w s
  whole-Kept seq target bytes w s (inl h) = h
  whole-Kept seq target bytes w s (inr h) = absurd (omega (arith, h.counted, h.below))
