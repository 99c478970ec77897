-- ===== src/Eol/Blocks.antt =====
-- src/eol.c: one block of the loop of teco_eol_reader_convert() against what the text requires.
use sciteco.Prelude.{
  ℕ, suc, ◌-◌, ◌≤◌, ◌≡◌, refl, ap, ◌∙◌, inl, inr, Bool, true, false, Option, none, some, List, [],
  ◌∷◌, ◌++◌, if◌then◌else◌, ◌==◌, arith, length, drop, Bool-cases,
}
use sciteco.Eol.{Style, crlf, cr, lf, Seen, observe, observe_if, is_return, Block, scan, with_byte}
use sciteco.Eol.Normal.{normal_after, ends_after, observe_all}

-- The bytes behind the block, without the line feed that has ended it.
abbrev pub behind : List ℕ → Block → List ℕ
behind xs b = elim b.last_char [
  | none ↦ drop (suc (length b.data_)) xs
  | some c ↦ drop (length b.data_) xs
]

-- A block of the text and what lies behind it agree with the whole.
pub record Splits (xs ys : List ℕ) (last : Option ℕ) (seen : Seen) (b : Block) : Type 0 where
  pub bytes :
      normal_after (is_return last) (xs ++ ys)
      ≡ b.data_ ++ normal_after (is_return b.last_char) (behind xs b ++ ys)
  pub ends :
      observe_all (ends_after (is_return last) (xs ++ ys)) seen
      ≡ observe_all (ends_after (is_return b.last_char) (behind xs b ++ ys)) b.seen

behind-with_byte :
    (c d : ℕ) (cs : List ℕ) (b : Block) → behind (c ∷ cs) (with_byte d b) ≡ behind cs b
behind-with_byte c d cs b = go b.data_ b.last_char b.seen
  where
    go :
        (data_ : List ℕ) (last : Option ℕ) (seen : Seen)
        → behind (c ∷ cs) (with_byte d (record { data_ = data_; last_char = last; seen = seen }))
          ≡ behind cs (record { data_ = data_; last_char = last; seen = seen })
    go data_ none seen = refl
    go data_ (some l) seen = refl

-- A byte in front of a block, where the text gives the byte `d`.
Splits-with_byte :
    (c d : ℕ) (cs ys : List ℕ) (last last' : Option ℕ) (seen seen' : Seen) (b : Block)
    → normal_after (is_return last) (c ∷ (cs ++ ys)) ≡ d ∷ normal_after (is_return last') (cs ++ ys)
    → observe_all (ends_after (is_return last) (c ∷ (cs ++ ys))) seen
      ≡ observe_all (ends_after (is_return last') (cs ++ ys)) seen'
    → Splits cs ys last' seen' b
    → Splits (c ∷ cs) ys last seen (with_byte d b)
Splits-with_byte c d cs ys last last' seen seen' b e f h = record {
  bytes = rw (behind-with_byte c d cs b) (e ∙ ap (d ∷◌) h.bytes);
  ends = rw (behind-with_byte c d cs b) (f ∙ h.ends);
}

pub observe_all-if :
    (after : Bool) (ss : List Style) (seen : Seen)
    → observe_all (if after then cr ∷ ss else ss) seen ≡ observe_all ss (observe_if after cr seen)
unfolding observe_if
observe_all-if true ss seen = refl
observe_all-if false ss seen = refl

-- The three kinds of bytes in the text.
module _ (c : ℕ) (zs : List ℕ) (after : Bool) (seen : Seen) where
  normal-line_feed :
      (c == b'\n') ≡ true → after ≡ false → normal_after after (c ∷ zs) ≡ c ∷ normal_after false zs
  normal-line_feed e k = ground arith

  ends-line_feed :
      (c == b'\n') ≡ true
      → after ≡ false
      → observe_all (ends_after after (c ∷ zs)) seen
        ≡ observe_all (ends_after false zs) (observe lf seen)
  ends-line_feed e k = rw (e, k) refl

  normal-return :
      (c == b'\n') ≡ false
      → (c == b'\r') ≡ true
      → normal_after after (c ∷ zs) ≡ b'\n' ∷ normal_after true zs
  normal-return e k = rw (e, k) refl

  ends-return :
      (c == b'\n') ≡ false
      → (c == b'\r') ≡ true
      → observe_all (ends_after after (c ∷ zs)) seen
        ≡ observe_all (ends_after true zs) (observe_if after cr seen)
  ends-return e k = rw (e, k) (observe_all-if after (ends_after true zs) seen)

  normal-other :
      (c == b'\n') ≡ false
      → (c == b'\r') ≡ false
      → normal_after after (c ∷ zs) ≡ c ∷ normal_after (c == b'\r') zs
  normal-other e k = rw (e, k) refl

  ends-other :
      (c == b'\n') ≡ false
      → (c == b'\r') ≡ false
      → observe_all (ends_after after (c ∷ zs)) seen
        ≡ observe_all (ends_after (c == b'\r') zs) (observe_if after cr seen)
  ends-other e k = rw (e, k) (observe_all-if after (ends_after false zs) seen)

-- A line feed behind a carriage return ends the block, and is left out of what lies behind it.
Splits-stop :
    (c : ℕ) (cs ys : List ℕ) (last : Option ℕ) (seen : Seen)
    → (c == b'\n') ≡ true
    → is_return last ≡ true
    → Splits
        (c ∷ cs)
        ys
        last
        seen
        (record { data_ = []; last_char = none; seen = observe crlf seen })
Splits-stop c cs ys last seen e k = record { bytes = rw (e, k) refl; ends = rw (e, k) refl }

pub scan-Splits :
    (xs ys : List ℕ) (last : Option ℕ) (seen : Seen) → Splits xs ys last seen (scan xs last seen)
unfolding scan
scan-Splits [] ys none seen = record { bytes = refl; ends = refl }
scan-Splits [] ys (some l) seen = record { bytes = refl; ends = refl }
scan-Splits (c ∷ cs) ys last seen = elim (Bool-cases (c == b'\n')) [
  | inl feed ↦ elim (Bool-cases (is_return last)) [
    | inl after ↦ rw (feed, after) (Splits-stop c cs ys last seen feed after)
    | inr clear ↦
        rw (feed, clear)
          (Splits-with_byte c c cs ys last (some b'\n') seen (observe lf seen) _
            (normal-line_feed c (cs ++ ys) (is_return last) seen feed clear)
            (ends-line_feed c (cs ++ ys) (is_return last) seen feed clear)
            (scan-Splits cs ys (some b'\n') (observe lf seen)))
  ]
  | inr no_feed ↦ elim (Bool-cases (c == b'\r')) [
    | inl return_ ↦
        rw (no_feed, return_)
          (Splits-with_byte c b'\n' cs ys last (some b'\r') seen
            (observe_if (is_return last) cr seen) _
            (normal-return c (cs ++ ys) (is_return last) seen no_feed return_)
            (ends-return c (cs ++ ys) (is_return last) seen no_feed return_)
            (scan-Splits cs ys (some b'\r') (observe_if (is_return last) cr seen)))
    | inr other ↦
        rw (no_feed, other)
          (Splits-with_byte c c cs ys last (some c) seen (observe_if (is_return last) cr seen) _
            (normal-other c (cs ++ ys) (is_return last) seen no_feed other)
            (ends-other c (cs ++ ys) (is_return last) seen no_feed other)
            (scan-Splits cs ys (some c) (observe_if (is_return last) cr seen)))
  ]
]

-- A block makes progress: of a text that is not empty, a shorter one lies behind it.
pub length-behind_lt :
    (xs : List ℕ) (last : Option ℕ) (seen : Seen)
    → length (behind xs (scan xs last seen)) ≤ length xs - 1
unfolding scan
length-behind_lt [] none seen = omega arith
length-behind_lt [] (some l) seen = omega arith
length-behind_lt (c ∷ cs) last seen = elim (Bool-cases (c == b'\n')) [
  | inl feed ↦ elim (Bool-cases (is_return last)) [
    | inl after ↦ rw (feed, after) (omega arith)
    | inr clear ↦
        rw (feed, clear, behind-with_byte c c cs)
          (omega (arith, length-behind_lt cs (some b'\n') (observe lf seen)))
  ]
  | inr no_feed ↦ elim (Bool-cases (c == b'\r')) [
    | inl return_ ↦
        rw (no_feed, return_, behind-with_byte c b'\n' cs)
          (omega (arith, length-behind_lt cs (some b'\r') (observe_if (is_return last) cr seen)))
    | inr other ↦
        rw (no_feed, other, behind-with_byte c c cs)
          (omega (arith, length-behind_lt cs (some c) (observe_if (is_return last) cr seen)))
  ]
]
