-- ===== src/Eol/Reading.antt =====
-- src/eol.c: what the reader still has to deliver, and single calls of teco_eol_reader_convert().
use sciteco.Prelude.{
  append_nil, append_assoc, ℕ, zero, suc, ◌+◌, ◌-◌, ◌≤◌, ◌<◌, ◌≡◌, refl, sym, ap, ◌∙◌, true, false,
  Option, none, some, List, [], ◌∷◌, ◌++◌, arith, length, drop, leb, inl, inr, Option-cases,
}
use native.Mathlib.Numerals.{unary_clauses}
use sciteco.Eol.{
  cr, Seen, observe_if, is_return, Block, scan, Read, piece, Reader, eof, return_block, refill,
  skip_block, convert, Whole, text, calls,
}
use sciteco.Eol.Normal.{normal_after, ends_after, observe_all}
use sciteco.Eol.Blocks.{behind, Splits, scan-Splits, length-behind_lt, observe_all-if}

-- What a file delivers that can be read to its end.
abbrev pub pieces : List (List ℕ) → List Read
pieces [] = []
pieces (c ∷ cs) = piece c ∷ pieces cs

abbrev pub contents : List (List ℕ) → List ℕ
contents [] = []
contents (c ∷ cs) = c ++ contents cs

drop-add : (m n : ℕ) (xs : List ℕ) → drop (m + n) xs ≡ drop n (drop m xs)
drop-add zero n xs = ap (λ (k : ℕ). drop k xs) (omega arith)
drop-add (suc m) zero [] = simp unary_clauses refl
drop-add (suc m) (suc n) [] = simp unary_clauses refl
drop-add (suc m) n (x ∷ xs) = ap (λ (k : ℕ). drop k (x ∷ xs)) suc_add ∙ drop-add m n xs
  where
    suc_add : suc m + n ≡ suc (m + n)
    suc_add = omega arith

-- The bytes of the buffer that the next call of teco_eol_reader_convert() is to translate.
abbrev pub rest : Reader → List ℕ
rest r = elim r.last_char [
  | none ↦ drop (r.offset + suc r.block_len) r.buffer
  | some c ↦ drop (r.offset + r.block_len) r.buffer
]

-- The reader after a block.
abbrev pub behind_block : Reader → Reader
behind_block s =
    let b = scan (drop s.offset s.buffer) s.last_char s.seen in
    record s { block_len = length b.data_; last_char = b.last_char; seen = b.seen }

rest-behind_block :
    (s : Reader)
    → rest (behind_block s)
      ≡ behind (drop s.offset s.buffer) (scan (drop s.offset s.buffer) s.last_char s.seen)
rest-behind_block s = go b.data_ b.last_char b.seen
  where
    b : Block
    b = scan (drop s.offset s.buffer) s.last_char s.seen

    go :
        (data_ : List ℕ) (last : Option ℕ) (seen : Seen)
        → rest (record s { block_len = length data_; last_char = last; seen = seen })
          ≡ behind
              (drop s.offset s.buffer)
              (record { data_ = data_; last_char = last; seen = seen })
    go data_ none seen = drop-add s.offset (suc (length data_)) s.buffer
    go data_ (some l) seen = drop-add s.offset (length data_) s.buffer

-- The whole text is read: its bytes and what is known of its line ends.
pub record Reads (bytes : List ℕ) (seen : Seen) (w : Whole) : Type 0 where
  pub reader : Reader
  pub result : w ≡ text bytes reader
  pub marks : reader.seen ≡ seen

-- What remains to be read behind `str`, when the reader holds `zs` and the file delivers `css`.
abbrev pub Finishes : List ℕ → List ℕ → List (List ℕ) → Option ℕ → Seen → Whole → Type 0
Finishes str zs css last seen w =
    Reads (str ++ normal_after (is_return last) (zs ++ contents css))
      (observe_all (ends_after (is_return last) (zs ++ contents css)) seen) w

-- A block is returned and added to the string, and the rest is read.
pub Finishes-block :
    (str : List ℕ) (css : List (List ℕ)) (s : Reader) (w : Whole)
    → (let b = scan (drop s.offset s.buffer) s.last_char s.seen in
        Finishes (str ++ b.data_) (rest (behind_block s)) css b.last_char b.seen w)
    → Finishes str (drop s.offset s.buffer) css s.last_char s.seen w
Finishes-block str css s w h = record {
  reader = h.reader;
  result = h.result ∙ ap (λ (t : List ℕ). text t h.reader) bytes;
  marks = h.marks ∙ marks;
}
  where
    b : Block
    b = scan (drop s.offset s.buffer) s.last_char s.seen

    split : Splits (drop s.offset s.buffer) (contents css) s.last_char s.seen b
    split = scan-Splits (drop s.offset s.buffer) (contents css) s.last_char s.seen

    bytes :
        (str ++ b.data_)
          ++ normal_after (is_return b.last_char) (rest (behind_block s) ++ contents css)
        ≡ str ++ normal_after (is_return s.last_char) (drop s.offset s.buffer ++ contents css)
    bytes = rw (rest-behind_block s) (append_assoc str b.data_ _ ∙ ap (str ++◌) (sym split.bytes))

    marks :
        observe_all
          (ends_after (is_return b.last_char) (rest (behind_block s) ++ contents css))
          b.seen
        ≡ observe_all
            (ends_after (is_return s.last_char) (drop s.offset s.buffer ++ contents css))
            s.seen
    marks = rw (rest-behind_block s) (sym split.ends)

-- At the end of the file a carriage return still counts.
pub Finishes-eof :
    (str : List ℕ) (s : Reader)
    → Finishes str [] [] s.last_char s.seen (
        text str (record s {
          offset = 0;
          buffer = [];
          seen = observe_if (is_return s.last_char) cr s.seen;
        }))
Finishes-eof str s = record {
  reader = r;
  result = ap (λ (t : List ℕ). text t r) (sym (append_nil str));
  marks = sym (observe_all-if (is_return s.last_char) [] s.seen);
}
  where
    r : Reader
    r = record s { offset = 0; buffer = []; seen = observe_if (is_return s.last_char) cr s.seen }

-- How many calls are enough for the rest of the buffer and of the file.
abbrev pub due : Reader → List (List ℕ) → ℕ
due r css = length (rest r) + calls (pieces css)

pub calls-pos : (css : List (List ℕ)) → 0 < calls (pieces css)
calls-pos [] = omega arith
calls-pos (c ∷ css) = omega arith

pub length-rest :
    (s : Reader) → length (rest (behind_block s)) ≤ length (drop s.offset s.buffer) - 1
length-rest s =
    rw (rest-behind_block s) (length-behind_lt (drop s.offset s.buffer) s.last_char s.seen)

-- The reader with its block skipped holds the rest.
pub record Skips (r s : Reader) : Type 0 where
  pub is_rest : drop s.offset s.buffer ≡ rest r
  pub same_after : is_return s.last_char ≡ is_return r.last_char
  pub same_seen : s.seen ≡ r.seen
  pub same_source : s.source ≡ r.source

pub skip_block-Skips : (r : Reader) → Skips r (skip_block r)
unfolding skip_block
skip_block-Skips r = elim (Option-cases r.last_char) [
  | inl e ↦ record {
    is_rest = rw e refl;
    same_after = rw e refl;
    same_seen = rw e refl;
    same_source = rw e refl;
  }
  | inr (c, e) ↦ record {
    is_rest = rw e refl;
    same_after = rw e refl;
    same_seen = rw e refl;
    same_source = rw e refl;
  }
]

-- The three ways of a call to go on.
module _ (r : Reader) (s : Reader) (e : skip_block r ≡ s) where
  pub convert-eof :
      leb (length s.buffer) s.offset ≡ true
      → s.source ≡ []
      → convert true r
        ≡ eof (record s {
          offset = 0;
          buffer = [];
          seen = observe_if (is_return s.last_char) cr s.seen;
        })
  unfolding convert refill
  convert-eof h k = rw (e, h, k) refl

  pub convert-refill :
      (c : List ℕ) (source : List Read)
      → leb (length s.buffer) s.offset ≡ true
      → s.source ≡ piece c ∷ source
      → convert true r ≡ return_block (record s { offset = 0; buffer = c; source = source })
  unfolding convert refill
  convert-refill c source h k = rw (e, h, k) refl

  pub convert-more : leb (length s.buffer) s.offset ≡ false → convert true r ≡ return_block s
  unfolding convert
  convert-more h = rw (e, h) refl
