-- ===== src/Ring/Keeping.antt =====
-- src/ring.c: the commands on files keep what the ring is assumed to be.
use sciteco.Prelude.{
  ℕ, ◌≡◌, refl, sym, subst, ap, ◌∙◌, Bool, true, false, not, ◌&&◌, Option, none, some, List, [],
  ◌∷◌, if◌then◌else◌, Bool-cases, Option-cases, inl, inr, arith,
}
use mathlib.Core.Option.{some-injective}
use sciteco.Ring.{
  Buffer, Ring, RingToken, undo_dirty, undo_filename, find_by_id, edit_by_id, edit_file_id,
  edit_file_name, close, selected,
}
use sciteco.Ring.Setting.{SameAddresses, same_addresses, set_buffer-SameAddresses}
use sciteco.Ring.Saving.{
  save_as, save_dirty, save_all_dirty_buffers, ring_save_all, ring_dirtify, buffer_save,
}
use sciteco.Ring.Files.{
  refused, with_saved, saved_edit, saved_close, Command, edit_id, edit_name, save_file, close_file,
  save_all, change_text, save_file_done, ecommand_close, ring_command,
}
use sciteco.Ring.Ready.{IsReady, same_ready, edit_by_name-IsReady, close-IsReady}

module _ (absolute_path : List ℕ → List ℕ) where
  -- What is left of a buffer that is saved, and its tokens.
  pub record Sets (b c : Buffer) (ts : List RingToken) : Type 0 where
    pub same_address : c.address ≡ b.address
    pub two_tokens : ts ≡ undo_filename b.address b.filename ∷ undo_dirty b.address b.dirty ∷ []
    pub back : record c { filename = b.filename; dirty = b.dirty } ≡ b

  pub save_as-Sets :
      (writes : Buffer → List ℕ → Bool) (b : Buffer) (f : Option (List ℕ)) (c : Buffer)
      (ts : List RingToken)
      → save_as absolute_path writes b f ≡ some (c, ts)
      → Sets b c ts
  save_as-Sets writes b none c ts e = absurd cc
  save_as-Sets writes b (some file) c ts e = elim (Bool-cases (writes b file)) [
    | inr k ↦ absurd (ground (arith, e, k))
    | inl k ↦
        let x =
          some-injective _ _ (ap (λ t. if t then some (after, tokens) else none) (sym k) ∙ e) in
        subst (λ p. Sets b p.0 p.1) x
          (record { same_address = refl; two_tokens = refl; back = refl })
  ]
    where
      after : Buffer
      after = record b { dirty = false; filename = some (absolute_path file) }

      tokens : List RingToken
      tokens = undo_filename b.address b.filename ∷ undo_dirty b.address b.dirty ∷ []

  pub with_saved-IsReady :
      (b c : Buffer) (r : Ring) → c.address ≡ b.address → IsReady r → IsReady (with_saved b c r)
  with_saved-IsReady b c r e v =
      same_ready r _ (set_buffer-SameAddresses b.address (λ d. c) r.buffers (λ d h. e)) v

  pub saves-SameAddresses :
      (writes : Buffer → List ℕ → Bool) (bs : List Buffer)
      → SameAddresses bs (save_all_dirty_buffers absolute_path writes bs).buffers
  unfolding save_all_dirty_buffers
  saves-SameAddresses writes [] = tt
  saves-SameAddresses writes (b ∷ bs) =
      by_saving b.dirty (save_as absolute_path writes b b.filename) refl
        (saves-SameAddresses writes bs)
    where
      by_saving :
          (d : Bool) (o : Option (Buffer × List RingToken))
          → save_as absolute_path writes b b.filename ≡ o
          → SameAddresses bs (save_all_dirty_buffers absolute_path writes bs).buffers
          → SameAddresses
              (b ∷ bs)
              (save_dirty b bs (save_all_dirty_buffers absolute_path writes bs) d o).buffers
      by_saving false o e rest = (refl, rest)
      by_saving true none e rest = (refl, same_addresses bs)
      by_saving true (some (c, ts)) e rest =
          let s = save_as-Sets writes b b.filename c ts e in (sym s.same_address, rest)

  saved_edit-IsReady :
      (b : Buffer) (r : Ring) (o : Option (Buffer × List RingToken))
      → ((c : Buffer) (ts : List RingToken) → o ≡ some (c, ts) → Sets b c ts)
      → IsReady r
      → IsReady (saved_edit r b o).ring
  saved_edit-IsReady b r none h v = v
  saved_edit-IsReady b r (some (c, ts)) h v =
      let s = h c ts refl in with_saved-IsReady b c r s.same_address v

  saved_close-IsReady :
      (b : Buffer) (close_hook hook : Bool) (r : Ring) (o : Option (Buffer × List RingToken))
      → ((c : Buffer) (ts : List RingToken) → o ≡ some (c, ts) → Sets b c ts)
      → IsReady r
      → IsReady (saved_close r b close_hook hook o).ring
  saved_close-IsReady b close_hook hook r none h v = v
  saved_close-IsReady b close_hook hook r (some (c, ts)) h v =
      let s = h c ts refl in
      close-IsReady c close_hook hook (with_saved b c r) (with_saved-IsReady b c r s.same_address v)

  dirtify-IsReady : (r : Ring) → IsReady r → IsReady (ring_dirtify r).0
  unfolding ring_dirtify
  dirtify-IsReady r v = elim (Option-cases (selected none r)) [
    | inl e ↦ rw (e, ring_dirtify) v
    | inr (b, e) ↦
        rw (e, ring_dirtify)
          (elim (Bool-cases b.dirty) [
            | inl k ↦ rw k v
            | inr k ↦
                rw k (same_ready r _ (set_buffer-SameAddresses b.address _ r.buffers (λ d h. h)) v)
          ])
  ]

  pub ring_command-IsReady :
      (c : Command) (r : Ring) → IsReady r → IsReady (ring_command absolute_path c r).ring
  unfolding ring_command ecommand_close save_file_done edit_file_id edit_by_id edit_file_name
      ring_save_all
  ring_command-IsReady (edit_id id hook) r v = elim (Option-cases (find_by_id id r.buffers)) [
    | inl e ↦ rw (e, edit_by_id) v
    | inr (b, e) ↦
        rw (e, edit_by_id)
          (record {
            ring_IsRing = record { distinct = v.ring_IsRing.distinct; below = v.ring_IsRing.below };
            no_qreg = refl;
          })
  ]
  ring_command-IsReady (edit_name name loads hook) r v =
      edit_by_name-IsReady name loads hook r v.ring_IsRing
  ring_command-IsReady (save_file id name writes) r v = elim (Option-cases (selected id r)) [
    | inl e ↦ rw (e, save_file_done) v
    | inr (b, e) ↦
        rw (e, save_file_done)
          (saved_edit-IsReady b r (buffer_save absolute_path writes name b)
            (λ c ts. save_as-Sets writes b _ c ts) v)
  ]
  ring_command-IsReady (close_file colon id force close_hook hook writes) r v =
      elim (Option-cases (selected id r)) [
        | inl e ↦ rw (e, ecommand_close) v
        | inr (b, e) ↦ rw (e, ecommand_close) (by_colon b colon)
      ]
    where
      by_colon :
          (b : Buffer) (colon : Bool)
          → IsReady
              (if colon
                then saved_close r b close_hook hook (buffer_save absolute_path writes none b)
                else if not force && b.dirty
                then refused r
                else close b close_hook hook r).ring
      by_colon b true =
          saved_close-IsReady b close_hook hook r (buffer_save absolute_path writes none b)
            (λ c ts. save_as-Sets writes b _ c ts) v
      by_colon b false = elim (Bool-cases (not force && b.dirty)) [
        | inl k ↦ rw k v
        | inr k ↦ rw k (close-IsReady b close_hook hook r v)
      ]
  ring_command-IsReady (save_all writes) r v =
      same_ready r _ (saves-SameAddresses writes r.buffers) v
  ring_command-IsReady change_text r v = dirtify-IsReady r v
