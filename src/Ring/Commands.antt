-- ===== src/Ring/Commands.antt =====
-- src/ring.c: the commands on the ring and their undo.
use sciteco.Prelude.{
  ℕ, ◌≡◌, refl, sym, subst, ◌∙◌, Bool, true, false, not, ◌&&◌, Option, none, some, List, [], ◌∷◌,
  ◌==◌, if◌then◌else◌, Bool-cases, Option-cases, inl, inr,
}
use sciteco.Ring.{Buffer, Ring, RingToken, find_by_address, undo_dirty, close, selected, set_buffer}
use sciteco.Ring.Undoing.{
  undone-append, undone-SameRing, transitive, IsRing, undo, undone, SameRing, edit_file_id-undone,
  edit_file_name-undone, other-undone, close_current-undone,
}
use sciteco.Ring.Setting.{find_by_address-set_buffer, set_buffer-set_buffer, set_back}
use sciteco.Ring.Saving.{buffer_save, ring_dirtify}
use sciteco.Ring.Restoring.{ring_save_all-undone}
use sciteco.Ring.Files.{
  refused, with_saved, saved_edit, saved_close, Command, dirtied, edit_id, edit_name, save_file,
  close_file, save_all, change_text, save_file_done, ecommand_close, ring_command, ring_commands,
}
use sciteco.Ring.Ready.{IsReady, selected-IsFound}
use sciteco.Ring.Keeping.{Sets, save_as-Sets, with_saved-IsReady, ring_command-IsReady}

-- If a buffer is closed, the hook for the one in its place succeeds.
abbrev pub IsHooked : Command → Type 0
IsHooked (edit_id id hook) = Unit {0}
IsHooked (edit_name name loads hook) = Unit {0}
IsHooked (save_file id name writes) = Unit {0}
IsHooked (close_file colon id force close_hook hook writes) = hook ≡ true
IsHooked (save_all writes) = Unit {0}
IsHooked change_text = Unit {0}

abbrev pub AllHooked : List Command → Type 0
AllHooked [] = Unit {0}
AllHooked (c ∷ cs) = IsHooked c × AllHooked cs

-- Closing a buffer of the ring, if the hooks succeed.
close-undone :
    (b : Buffer) (r : Ring)
    → IsRing r
    → find_by_address b.address r.buffers ≡ some b
    → SameRing (undo (close b true true r)) r
unfolding close
close-undone b r v f = elim (Bool-cases (b.address == r.current)) [
  | inl k ↦ rw k (close_current-undone b r v f)
  | inr k ↦ rw k (other-undone b r v f)
]

same : (r : Ring) → SameRing r r
same r = record { same_buffers = refl; same_current = refl; same_qreg = refl }

-- Closing a buffer whose hook may fail.
hooked-undone :
    (close_hook : Bool) (b : Buffer) (r : Ring)
    → IsRing r
    → find_by_address b.address r.buffers ≡ some b
    → SameRing (undo (close b close_hook true r)) r
unfolding close undo undone
hooked-undone true b r v f = close-undone b r v f
hooked-undone false b r v f = elim (Bool-cases (b.address == r.current)) [
  | inl k ↦ rw k (same r)
  | inr k ↦ rw k (other-undone b r v f)
]

-- The text of a buffer is changed, which makes it dirty.
dirtify-undone :
    (absolute_path : List ℕ → List ℕ) (r : Ring)
    → IsReady r
    → SameRing (undo (ring_command absolute_path change_text r)) r
unfolding ring_command ring_dirtify undo undone
dirtify-undone absolute_path r v = elim (Option-cases (selected none r)) [
  | inl e ↦ rw (e, ring_dirtify) (same r)
  | inr (b, e) ↦ rw (e, ring_dirtify) (by_flag b (selected-IsFound none b r v e) b.dirty refl)
]
  where
    by_flag :
        (b : Buffer)
        → find_by_address b.address r.buffers ≡ some b
        → (d : Bool) → b.dirty ≡ d
        → SameRing
            (undo (
              dirtied r (
                if d then (r, []) else (
                  record r {
                    buffers = set_buffer b.address (λ c. record c { dirty = true }) r.buffers;
                  },
                  undo_dirty b.address b.dirty ∷ [],
                ))))
            r
    by_flag b f true e = same r
    by_flag b f false e = record {
      same_buffers = set_back b.address b _ _ r.buffers f refl refl;
      same_current = refl;
      same_qreg = refl;
    }

module _ (absolute_path : List ℕ → List ℕ) where
  with_saved-undone :
      (b c : Buffer) (ts : List RingToken) (r : Ring)
      → find_by_address b.address r.buffers ≡ some b
      → Sets absolute_path b c ts
      → SameRing (undone ts (with_saved b c r)) r
  unfolding undone
  with_saved-undone b c ts r f s =
      subst (λ us. SameRing (undone us (with_saved b c r)) r) (sym s.two_tokens)
        (record {
          same_buffers =
              set_buffer-set_buffer b.address _ _ (set_buffer b.address (λ d. c) r.buffers)
                (λ d. refl)
              ∙ set_back b.address b (λ d. c) _ r.buffers f s.same_address s.back;
          same_current = refl;
          same_qreg = refl;
        })

  saved_edit-undone :
      (b : Buffer) (r : Ring) (o : Option (Buffer × List RingToken))
      → ((c : Buffer) (ts : List RingToken) → o ≡ some (c, ts) → Sets absolute_path b c ts)
      → find_by_address b.address r.buffers ≡ some b
      → SameRing (undo (saved_edit r b o)) r
  unfolding undo undone
  saved_edit-undone b r none h f = same r
  saved_edit-undone b r (some (c, ts)) h f = with_saved-undone b c ts r f (h c ts refl)

  saved_close-undone :
      (b : Buffer) (close_hook : Bool) (r : Ring) (o : Option (Buffer × List RingToken))
      → ((c : Buffer) (ts : List RingToken) → o ≡ some (c, ts) → Sets absolute_path b c ts)
      → find_by_address b.address r.buffers ≡ some b
      → IsReady r
      → SameRing (undo (saved_close r b close_hook true o)) r
  unfolding undo
  saved_close-undone b close_hook r none h f v = same r
  saved_close-undone b close_hook r (some (c, ts)) h f v =
      let s = h c ts refl in
      let w = with_saved-IsReady absolute_path b c r s.same_address v in
      let found : find_by_address c.address (with_saved b c r).buffers ≡ some c =
        subst (λ a. find_by_address a (with_saved b c r).buffers ≡ some c) (sym s.same_address)
          (find_by_address-set_buffer b.address b c r.buffers f s.same_address) in
      let closed = close c close_hook true (with_saved b c r) in
      subst (λ x. SameRing x r) (sym (undone-append closed.tokens ts closed.ring))
        (transitive _ _ _
          (undone-SameRing ts _ _
            (hooked-undone close_hook c (with_saved b c r) w.ring_IsRing found))
          (with_saved-undone b c ts r f s))

  ring_command-undone :
      (c : Command) (r : Ring)
      → IsReady r
      → IsHooked c
      → SameRing (undo (ring_command absolute_path c r)) r
  unfolding ring_command ecommand_close save_file_done undo undone
  ring_command-undone (edit_id id hook) r v h = edit_file_id-undone id hook r v.no_qreg
  ring_command-undone (edit_name name loads hook) r v h =
      edit_file_name-undone name loads hook r v.ring_IsRing v.no_qreg
  ring_command-undone (save_file id name writes) r v h = elim (Option-cases (selected id r)) [
    | inl e ↦ rw (e, save_file_done) (same r)
    | inr (b, e) ↦
        rw (e, save_file_done)
          (saved_edit-undone b r (buffer_save absolute_path writes name b)
            (λ c ts. save_as-Sets absolute_path writes b _ c ts) (selected-IsFound id b r v e))
  ]
  ring_command-undone (close_file colon id force close_hook true writes) r v h =
      elim (Option-cases (selected id r)) [
        | inl e ↦ rw (e, ecommand_close) (same r)
        | inr (b, e) ↦ rw (e, ecommand_close) (by_colon b (selected-IsFound id b r v e) colon)
      ]
    where
      by_colon :
          (b : Buffer)
          → find_by_address b.address r.buffers ≡ some b
          → (colon : Bool)
          → SameRing
              (undo (
                if colon
                then saved_close r b close_hook true (buffer_save absolute_path writes none b)
                else if not force && b.dirty
                then refused r
                else close b close_hook true r))
              r
      by_colon b f true =
          saved_close-undone b close_hook r (buffer_save absolute_path writes none b)
            (λ c ts. save_as-Sets absolute_path writes b _ c ts) f v
      by_colon b f false = elim (Bool-cases (not force && b.dirty)) [
        | inl k ↦ rw k (same r)
        | inr k ↦ rw k (hooked-undone close_hook b r v.ring_IsRing f)
      ]
  ring_command-undone (close_file colon id force close_hook false writes) r v h = absurd cc
  ring_command-undone (save_all writes) r v h =
      ring_save_all-undone absolute_path writes r v.ring_IsRing.distinct
  ring_command-undone change_text r v h = dirtify-undone absolute_path r v

  -- Commands on the ring, whichever and how many, that are executed while no register is edited are
  -- taken back by their undo tokens, run from the last one on: the ring has the same buffers in the
  -- same order, with their names and their dirty flags, and the same current one, and no register
  -- is edited. The commands edit a buffer or a file, save a buffer or all dirty ones, close a
  -- buffer, saving it or not, and make the current buffer dirty. Among them may be ones that fail,
  -- for a number that is not in use, for a buffer that is dirty or has no name, in loading or in
  -- writing a file, in the hook of editing a buffer or in the one of closing it; it is assumed that
  -- the hook that is called when another buffer takes the place of a closed one succeeds, and that
  -- every buffer has an address of its own, below the one of the next buffer.
  pub ring_commands-undone :
      (cs : List Command) (r : Ring)
      → IsReady r
      → AllHooked cs
      → SameRing (undo (ring_commands absolute_path cs r)) r
  unfolding ring_commands undo
  ring_commands-undone [] r v h = same r
  ring_commands-undone (c ∷ cs) r v h =
      let first = ring_command absolute_path c r in
      let later = ring_commands absolute_path cs first.ring in
      let back =
        ring_commands-undone cs first.ring (ring_command-IsReady absolute_path c r v) h.1 in
      subst (λ x. SameRing x r) (sym (undone-append later.tokens first.tokens later.ring))
        (transitive _ _ _ (undone-SameRing first.tokens _ _ back) (ring_command-undone c r v h.0))
