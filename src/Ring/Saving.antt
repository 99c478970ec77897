-- ===== src/Ring/Saving.antt =====
-- src/ring.c: the dirty flag of buffers, and saving them. Whether the file of a buffer can be written
-- is an argument, and so is the absolute path of a file. The files themselves are left out.
use sciteco.Prelude.{
  ℕ, suc, ◌≡◌, refl, sym, ap, subst, ◌∙◌, Bool, true, false, not, Option, none, some, List, [], ◌∷◌,
  ◌++◌, ◌==◌, ◌&&◌, if◌then◌else◌, Bool-cases, inl, inr, arith,
}
use mathlib.Core.Option.{some-injective}
use sciteco.Ring.{Buffer, Ring, Edited, RingToken, undo_dirty, undo_filename, set_buffer, selected}

-- What saving leaves: whether it succeeds, the buffers, and the tokens, the last one first.
pub record Saved : Type 0 where
  pub succeeds : Bool
  pub buffers : List Buffer
  pub tokens : List RingToken

-- teco_ring_get_first_dirty(): the number of the first buffer that is dirty, or 0
abbrev pub first_dirty_from : ℕ → List Buffer → ℕ
first_dirty_from id [] = 0
first_dirty_from id (b ∷ bs) =
    let rest = first_dirty_from (suc id) bs in if b.dirty then id else rest

abbrev pub get_first_dirty : List Buffer → ℕ
get_first_dirty bs = first_dirty_from 1 bs

-- teco_ring_dirtify(), unless a register is edited
abbrev pub dirtify_buffer : Ring → Option Buffer → Ring × List RingToken
dirtify_buffer r none = (r, [])
dirtify_buffer r (some b) = if b.dirty then (r, []) else (
  record r { buffers = set_buffer b.address (λ c. record c { dirty = true }) r.buffers },
  undo_dirty b.address b.dirty ∷ [],
)

unfoldable pub ring_dirtify : Ring → Ring × List RingToken
ring_dirtify r = dirtify_buffer r (selected none r)

-- The name that teco_buffer_save() writes to, and whether it can be written
abbrev pub file_name : Option (List ℕ) → Buffer → Option (List ℕ)
file_name (some name) b = some name
file_name none b = b.filename

-- A buffer in the loop, with its dirty flag and what saving it gives
abbrev pub save_dirty :
    Buffer → List Buffer → Saved → Bool → Option (Buffer × List RingToken) → Saved
save_dirty b bs rest false o = record rest { buffers = b ∷ rest.buffers }
save_dirty b bs rest true none = record { succeeds = false; buffers = b ∷ bs; tokens = [] }
save_dirty b bs rest true (some (c, ts)) = record rest {
  buffers = c ∷ rest.buffers;
  tokens = rest.tokens ++ ts;
}

module _ (absolute_path : List ℕ → List ℕ) (writes : Buffer → List ℕ → Bool) where
  abbrev pub save_as : Buffer → Option (List ℕ) → Option (Buffer × List RingToken)
  save_as b none = none
  save_as b (some file) =
      if writes b file
      then some (
        record b { dirty = false; filename = some (absolute_path file) },
        undo_filename b.address b.filename ∷ undo_dirty b.address b.dirty ∷ [],
      )
      else none

  -- teco_buffer_save(): nothing if there is an error, which leaves the buffer as it is.
  abbrev pub buffer_save : Option (List ℕ) → Buffer → Option (Buffer × List RingToken)
  buffer_save name b = save_as b (file_name name b)

  -- teco_ring_save_all_dirty_buffers()
  unfoldable pub save_all_dirty_buffers : List Buffer → Saved
  save_all_dirty_buffers [] = record { succeeds = true; buffers = []; tokens = [] }
  save_all_dirty_buffers (b ∷ bs) =
      let rest = save_all_dirty_buffers bs in save_dirty b bs rest b.dirty (buffer_save none b)

  unfoldable pub ring_save_all : Ring → Edited
  unfolding save_all_dirty_buffers
  ring_save_all r =
      let s = save_all_dirty_buffers r.buffers in
      record { succeeds = s.succeeds; ring = record r { buffers = s.buffers }; tokens = s.tokens }

  -- A buffer that cannot be saved: without a name, or with a file that cannot be written.
  abbrev cannot_save : Buffer → Option (List ℕ) → Bool
  cannot_save b none = true
  cannot_save b (some file) = not (writes b file)

  -- The number of the first buffer that is dirty and cannot be saved, or 0
  abbrev pub first_unsavable : ℕ → List Buffer → ℕ
  first_unsavable id [] = 0
  first_unsavable id (b ∷ bs) =
      let rest = first_unsavable (suc id) bs in
      if b.dirty && cannot_save b b.filename then id else rest

  save_as-none : (b : Buffer) (f : Option (List ℕ)) → save_as b f ≡ none → cannot_save b f ≡ true
  save_as-none b none e = refl
  save_as-none b (some file) e = elim (Bool-cases (writes b file)) [
    | inl k ↦ absurd (ground (arith, e, k))
    | inr k ↦ rw k refl
  ]

  save_as-some :
      (b : Buffer) (f : Option (List ℕ)) (c : Buffer) (ts : List RingToken)
      → save_as b f ≡ some (c, ts)
      → (cannot_save b f ≡ false) × (c.dirty ≡ false)
  save_as-some b none c ts e = absurd cc
  save_as-some b (some file) c ts e = elim (Bool-cases (writes b file)) [
    | inl k ↦
        let x = some-injective _ _ (
          ap
            (λ t.
              if t
              then some (
                record b { dirty = false; filename = some (absolute_path file) },
                undo_filename b.address b.filename ∷ undo_dirty b.address b.dirty ∷ [],
              )
              else none)
            (sym k)
          ∙ e) in
        rw k (refl, sym (ap (λ p. p.0.dirty) x))
    | inr k ↦ absurd (ground (arith, e, k))
  ]

  step :
      (b : Buffer) (bs : List Buffer) (id : ℕ) (rest : Saved) (d : Bool)
      (o : Option (Buffer × List RingToken))
      → b.dirty ≡ d
      → save_as b b.filename ≡ o
      → first_dirty_from (suc (suc id)) rest.buffers ≡ first_unsavable (suc (suc id)) bs
      → rest.succeeds ≡ (first_unsavable (suc (suc id)) bs == 0)
      → (first_dirty_from (suc id) (save_dirty b bs rest d o).buffers
          ≡ first_unsavable (suc id) (b ∷ bs))
        × ((save_dirty b bs rest d o).succeeds ≡ (first_unsavable (suc id) (b ∷ bs) == 0))
  step b bs id rest false o k e h s = (
    subst
        (λ t.
          (if t then suc id else first_dirty_from (suc (suc id)) rest.buffers)
          ≡ (if t && cannot_save b b.filename then suc id else first_unsavable (suc (suc id)) bs))
        (sym k) h,
    subst
        (λ t. rest.succeeds ≡ (
          (if t && cannot_save b b.filename then suc id else first_unsavable (suc (suc id)) bs)
          == 0))
        (sym k) s,
  )
  step b bs id rest true none k e h s =
      let u = save_as-none b b.filename e in
      let z : (b.dirty && cannot_save b b.filename) ≡ true =
        ap (λ t. t && cannot_save b b.filename) k ∙ u in
      (
        ap (λ t. if t then suc id else first_dirty_from (suc (suc id)) bs) k
            ∙ ap (λ t. if t then suc id else first_unsavable (suc (suc id)) bs) (sym z),
        subst (λ t. false ≡ ((if t then suc id else first_unsavable (suc (suc id)) bs) == 0))
            (sym z) (ground arith),
      )
  step b bs id rest true (some (c, ts)) k e h s =
      let (u, clean) = save_as-some b b.filename c ts e in
      let z : (b.dirty && cannot_save b b.filename) ≡ false =
        ap (λ t. t && cannot_save b b.filename) k ∙ u in
      (
        ap (λ t. if t then suc id else first_dirty_from (suc (suc id)) rest.buffers) clean
            ∙ h
            ∙ ap (λ t. if t then suc id else first_unsavable (suc (suc id)) bs) (sym z),
        subst
            (λ t. rest.succeeds ≡ ((if t then suc id else first_unsavable (suc (suc id)) bs) == 0))
            (sym z) s,
      )

  saves_from :
      (id : ℕ) (bs : List Buffer)
      → (first_dirty_from (suc id) (save_all_dirty_buffers bs).buffers
          ≡ first_unsavable (suc id) bs)
        × ((save_all_dirty_buffers bs).succeeds ≡ (first_unsavable (suc id) bs == 0))
  unfolding save_all_dirty_buffers
  saves_from id [] = (refl, refl)
  saves_from id (b ∷ bs) =
      let (h, s) = saves_from (suc id) bs in
      step b bs id (save_all_dirty_buffers bs) b.dirty (save_as b b.filename) refl refl h s

  -- After saving all dirty buffers, the first one that is dirty is the first of those that were
  -- dirty and are without a name or cannot be written to their file; saving succeeds if and only if
  -- there is none.
  pub save_all_dirty_buffers-get_first_dirty :
      (bs : List Buffer)
      → (get_first_dirty (save_all_dirty_buffers bs).buffers ≡ first_unsavable 1 bs)
        × ((save_all_dirty_buffers bs).succeeds ≡ (first_unsavable 1 bs == 0))
  save_all_dirty_buffers-get_first_dirty bs = saves_from 0 bs
