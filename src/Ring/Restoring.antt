-- ===== src/Ring/Restoring.antt =====
-- src/ring.c: running the undo tokens of saving all buffers.
use sciteco.Prelude.{
  both, ℕ, ◌≡◌, refl, sym, ap, subst, ◌∙◌, Bool, true, false, not, Option, none, some, List, [],
  ◌∷◌, ◌++◌, ◌==◌, ◌&&◌, if◌then◌else◌, Bool-cases, inl, inr, arith,
}
use mathlib.Core.Option.{some-injective}
use sciteco.Ring.{
  Buffer, Ring, RingToken, undo_new, undo_close, undo_current, undo_qreg, undo_dirty, undo_filename,
  set_buffer, run_undo,
}
use sciteco.Ring.Queue.{is_absent, are_distinct}
use sciteco.Ring.Undoing.{undo, undone, undone-append, undone-SameRing, SameRing, transitive}
use sciteco.Ring.Saving.{Saved, save_as, save_dirty, save_all_dirty_buffers, ring_save_all}

-- The token sets a field of another buffer.
abbrev is_other : ℕ → RingToken → Bool
is_other a (undo_new n) = false
is_other a (undo_close b n) = false
is_other a (undo_current n) = false
is_other a (undo_qreg q) = false
is_other a (undo_dirty n v) = not (n == a)
is_other a (undo_filename n f) = not (n == a)

abbrev are_others : ℕ → List RingToken → Bool
are_others a [] = true
are_others a (t ∷ ts) = is_other a t && are_others a ts

others-append :
    (a : ℕ) (ts us : List RingToken)
    → are_others a ts ≡ true
    → are_others a us ≡ true
    → are_others a (ts ++ us) ≡ true
others-append a [] us h k = k
others-append a (t ∷ ts) us h k =
    let (x, later) = both (is_other a t) (are_others a ts) h in rw x (others-append a ts us later k)

abbrev with_buffers : Ring → List Buffer → Ring
with_buffers r bs = record r { buffers = bs }

abbrev in_front : Buffer → Ring → Ring
in_front b r = record r { buffers = b ∷ r.buffers }

set_other :
    (a : ℕ) (f : Buffer → Buffer) (b : Buffer) (bs : List Buffer)
    → not (a == b.address) ≡ true
    → set_buffer a f (b ∷ bs) ≡ b ∷ set_buffer a f bs
set_other a f b bs h = let k : (b.address == a) ≡ false = ground (arith, h) in rw k refl

-- Such tokens leave the first buffer alone.
undone-in_front :
    (ts : List RingToken) (b : Buffer) (r : Ring)
    → are_others b.address ts ≡ true
    → undone ts (in_front b r) ≡ in_front b (undone ts r)
unfolding undone run_undo
undone-in_front [] b r h = refl
undone-in_front (undo_new n ∷ ts) b r h = absurd cc
undone-in_front (undo_close c n ∷ ts) b r h = absurd cc
undone-in_front (undo_current n ∷ ts) b r h = absurd cc
undone-in_front (undo_qreg q ∷ ts) b r h = absurd cc
undone-in_front (undo_dirty n v ∷ ts) b r h =
    let (x, later) = both (not (n == b.address)) (are_others b.address ts) h in
    ap (λ bs. undone ts (with_buffers r bs))
      (set_other n (λ c. record c { dirty = v }) b r.buffers x)
    ∙ undone-in_front ts b (with_buffers r (set_buffer n (λ c. record c { dirty = v }) r.buffers))
        later
undone-in_front (undo_filename n f ∷ ts) b r h =
    let (x, later) = both (not (n == b.address)) (are_others b.address ts) h in
    ap (λ bs. undone ts (with_buffers r bs))
      (set_other n (λ c. record c { filename = f }) b r.buffers x)
    ∙ undone-in_front ts b
        (with_buffers r (set_buffer n (λ c. record c { filename = f }) r.buffers)) later

module _ (absolute_path : List ℕ → List ℕ) (writes : Buffer → List ℕ → Bool) where
  -- What saving a buffer gives: the same address, and tokens that restore it.
  record Restores (b c : Buffer) (ts : List RingToken) : Type 0 where
    others : (a : ℕ) → not (b.address == a) ≡ true → are_others a ts ≡ true
    same_address : c.address ≡ b.address
    restored : (r : Ring) → SameRing (undone ts (in_front c r)) (in_front b r)

  save_as-Restores :
      (b : Buffer) (f : Option (List ℕ)) (c : Buffer) (ts : List RingToken)
      → save_as absolute_path writes b f ≡ some (c, ts)
      → Restores b c ts
  unfolding undone run_undo
  save_as-Restores b none c ts e = absurd cc
  save_as-Restores b (some file) c ts e = elim (Bool-cases (writes b file)) [
    | inr k ↦ absurd (ground (arith, e, k))
    | inl k ↦
        let x =
          some-injective _ _ (ap (λ t. if t then some (after, tokens) else none) (sym k) ∙ e) in
        subst (λ p. Restores b p.0 p.1) x direct
  ]
    where
      after : Buffer
      after = record b { dirty = false; filename = some (absolute_path file) }

      tokens : List RingToken
      tokens = undo_filename b.address b.filename ∷ undo_dirty b.address b.dirty ∷ []

      direct : Restores b after tokens
      direct = record {
        others = λ a h. rw h refl;
        same_address = refl;
        restored = λ r.
            let k : (b.address == b.address) ≡ true = ground arith in
            rw k (rw k (record { same_buffers = refl; same_current = refl; same_qreg = refl }));
      }

  all_others :
      (a : ℕ) (bs : List Buffer)
      → is_absent a bs ≡ true
      → are_others a (save_all_dirty_buffers absolute_path writes bs).tokens ≡ true
  unfolding save_all_dirty_buffers
  all_others a [] h = refl
  all_others a (b ∷ bs) h =
      let (x, later) = both (not (b.address == a)) (is_absent a bs) h in
      by_saving b.dirty (save_as absolute_path writes b b.filename) refl x (all_others a bs later)
    where
      by_saving :
          (d : Bool) (o : Option (Buffer × List RingToken))
          → save_as absolute_path writes b b.filename ≡ o
          → not (b.address == a) ≡ true
          → are_others a (save_all_dirty_buffers absolute_path writes bs).tokens ≡ true
          → are_others a
              (save_dirty b bs (save_all_dirty_buffers absolute_path writes bs) d o).tokens
            ≡ true
      by_saving false o e x k = k
      by_saving true none e x k = refl
      by_saving true (some (c, ts)) e x k =
          let back = save_as-Restores b b.filename c ts e in
          others-append a _ ts k (back.others a x)

  in_front-SameRing :
      (b : Buffer) (r s : Ring) → SameRing r s → SameRing (in_front b r) (in_front b s)
  in_front-SameRing b r s h = record {
    same_buffers = ap (b ∷◌) h.same_buffers;
    same_current = h.same_current;
    same_qreg = h.same_qreg;
  }

  step :
      (b : Buffer) (bs : List Buffer) (rest : Saved) (r : Ring) (d : Bool)
      (o : Option (Buffer × List RingToken))
      → save_as absolute_path writes b b.filename ≡ o
      → are_others b.address rest.tokens ≡ true
      → SameRing (undone rest.tokens (with_buffers r rest.buffers)) (with_buffers r bs)
      → SameRing
          (undone
            (save_dirty b bs rest d o).tokens
            (with_buffers r (save_dirty b bs rest d o).buffers))
          (with_buffers r (b ∷ bs))
  unfolding undone
  step b bs rest r false o e others h =
      subst (λ x. SameRing x (with_buffers r (b ∷ bs)))
        (sym (undone-in_front rest.tokens b (with_buffers r rest.buffers) others))
        (in_front-SameRing b _ _ h)
  step b bs rest r true none e others h = record {
    same_buffers = refl;
    same_current = refl;
    same_qreg = refl;
  }
  step b bs rest r true (some (c, ts)) e others h =
      let back = save_as-Restores b b.filename c ts e in
      let past = subst (λ a. are_others a rest.tokens ≡ true) (sym back.same_address) others in
      let front : SameRing (undone rest.tokens (with_buffers r (c ∷ rest.buffers)))
          (in_front c (with_buffers r bs)) =
        subst (λ x. SameRing x (in_front c (with_buffers r bs)))
          (sym (undone-in_front rest.tokens c (with_buffers r rest.buffers) past))
          (in_front-SameRing c _ _ h) in
      subst (λ x. SameRing x (with_buffers r (b ∷ bs)))
        (sym (undone-append rest.tokens ts (with_buffers r (c ∷ rest.buffers))))
        (transitive _ _ _ (undone-SameRing ts _ _ front) (back.restored (with_buffers r bs)))

  saved-undone :
      (bs : List Buffer) (r : Ring)
      → are_distinct bs ≡ true
      → SameRing
          (undone
            (save_all_dirty_buffers absolute_path writes bs).tokens
            (with_buffers r (save_all_dirty_buffers absolute_path writes bs).buffers))
          (with_buffers r bs)
  unfolding save_all_dirty_buffers undone
  saved-undone [] r d = record { same_buffers = refl; same_current = refl; same_qreg = refl }
  saved-undone (b ∷ bs) r d =
      let (x, later) = both (is_absent b.address bs) (are_distinct bs) d in
      step b bs (save_all_dirty_buffers absolute_path writes bs) r b.dirty
        (save_as absolute_path writes b b.filename) refl (all_others b.address bs x)
        (saved-undone bs r later)

  -- Saving all dirty buffers, whether it succeeds or fails at one of them, is taken back by its
  -- undo tokens, run from the last one on: every buffer has its name and its dirty flag again. It
  -- is assumed that every buffer has an address of its own.
  pub ring_save_all-undone :
      (r : Ring)
      → are_distinct r.buffers ≡ true
      → SameRing (undo (ring_save_all absolute_path writes r)) r
  unfolding ring_save_all undo
  ring_save_all-undone r d = saved-undone r.buffers r d
