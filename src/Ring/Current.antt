-- ===== src/Ring/Current.antt =====
-- src/ring.c: teco_ring_current is a buffer of the ring.
use sciteco.Prelude.{
  ℕ, ◌≡◌, refl, Bool, true, false, not, ◌&&◌, Option, none, some, List, [], ◌∷◌, ◌==◌,
  if◌then◌else◌, Bool-cases, Option-cases, inl, inr, arith,
}
use sciteco.Ring.{
  Buffer, Ring, RingToken, find_by_name, find_by_id, remove, buffer_next, prev_of, edit_by_name,
  edit_by_id, edit_file_id, edit_file_name, close_current, close, selected,
}
use sciteco.Ring.Present.{
  is_present, find_by_name-is_present, find_by_id-is_present, is_present-append, is_present-remove,
  buffer_next-is_present, prev_of-is_present, is_present-SameAddresses,
}
use sciteco.Ring.Setting.{set_buffer-SameAddresses}
use sciteco.Ring.Saving.{buffer_save, ring_dirtify, ring_save_all}
use sciteco.Ring.Files.{
  refused, with_saved, saved_edit, saved_close, Command, edit_id, edit_name, save_file, close_file,
  save_all, change_text, save_file_done, ecommand_close, ring_command, ring_commands,
}
use sciteco.Ring.Keeping.{Sets, save_as-Sets, saves-SameAddresses}

abbrev pub HasCurrent : Ring → Type 0
HasCurrent r = is_present r.current r.buffers ≡ true

edit_by_name-HasCurrent :
    (name : Option (List ℕ)) (loads hook : Bool) (r : Ring)
    → HasCurrent (edit_by_name name loads hook r).ring
unfolding edit_by_name
edit_by_name-HasCurrent name loads hook r = elim (Option-cases (find_by_name name r.buffers)) [
  | inl e ↦
      rw (e, edit_by_name)
        (is_present-append
          (record {
            address = r.next_address;
            filename = if loads then name else none;
            dirty = false;
          })
          r.buffers)
  | inr (b, e) ↦ rw (e, edit_by_name) (find_by_name-is_present name b r.buffers e)
]

close_current-HasCurrent :
    (b : Buffer) (hook : Bool) (r : Ring) → HasCurrent (close_current b hook r).ring
unfolding close_current
close_current-HasCurrent b hook r = elim (Option-cases (buffer_next b.address r.buffers)) [
  | inr (n, e) ↦ rw e (buffer_next-is_present b.address n r.buffers e)
  | inl e ↦ rw e (elim (Option-cases (prev_of none b.address r.buffers)) [
    | inl x ↦
        rw x (
          edit_by_name-HasCurrent none true hook
            (record r { buffers = remove b.address r.buffers }))
    | inr (p, x) ↦ rw x (elim (prev_of-is_present none b.address p r.buffers x) [
      | inl first ↦ absurd cc
      | inr still ↦ still
    ])
  ])
]

close-HasCurrent :
    (b : Buffer) (close_hook hook : Bool) (r : Ring)
    → HasCurrent r
    → HasCurrent (close b close_hook hook r).ring
unfolding close
close-HasCurrent b close_hook hook r v = elim (Bool-cases (b.address == r.current)) [
  | inl k ↦ rw k (by_hook close_hook)
  | inr k ↦
      let other : (r.current == b.address) ≡ false = ground (arith, k) in
      rw k (is_present-remove r.current b.address r.buffers other v)
]
  where
    by_hook :
        (close_hook : Bool)
        → HasCurrent
            (if close_hook
              then close_current b hook r
              else record { succeeds = false; ring = r; tokens = [] }).ring
    by_hook true = close_current-HasCurrent b hook r
    by_hook false = v

module _ (absolute_path : List ℕ → List ℕ) where
  with_saved-HasCurrent :
      (b c : Buffer) (r : Ring)
      → c.address ≡ b.address
      → HasCurrent r
      → HasCurrent (with_saved b c r)
  with_saved-HasCurrent b c r e v =
      is_present-SameAddresses r.current r.buffers _
        (set_buffer-SameAddresses b.address (λ d. c) r.buffers (λ d h. e)) v

  saved_edit-HasCurrent :
      (b : Buffer) (r : Ring) (o : Option (Buffer × List RingToken))
      → ((c : Buffer) (ts : List RingToken) → o ≡ some (c, ts) → Sets absolute_path b c ts)
      → HasCurrent r
      → HasCurrent (saved_edit r b o).ring
  saved_edit-HasCurrent b r none h v = v
  saved_edit-HasCurrent b r (some (c, ts)) h v =
      let s = h c ts refl in with_saved-HasCurrent b c r s.same_address v

  saved_close-HasCurrent :
      (b : Buffer) (close_hook hook : Bool) (r : Ring) (o : Option (Buffer × List RingToken))
      → ((c : Buffer) (ts : List RingToken) → o ≡ some (c, ts) → Sets absolute_path b c ts)
      → HasCurrent r
      → HasCurrent (saved_close r b close_hook hook o).ring
  saved_close-HasCurrent b close_hook hook r none h v = v
  saved_close-HasCurrent b close_hook hook r (some (c, ts)) h v =
      let s = h c ts refl in
      close-HasCurrent c close_hook hook (with_saved b c r)
        (with_saved-HasCurrent b c r s.same_address v)

  dirtify-HasCurrent : (r : Ring) → HasCurrent r → HasCurrent (ring_dirtify r).0
  unfolding ring_dirtify
  dirtify-HasCurrent r v = elim (Option-cases (selected none r)) [
    | inl e ↦ rw (e, ring_dirtify) v
    | inr (b, e) ↦
        rw (e, ring_dirtify)
          (elim (Bool-cases b.dirty) [
            | inl k ↦ rw k v
            | inr k ↦ rw k (
                is_present-SameAddresses r.current r.buffers _
                  (set_buffer-SameAddresses b.address _ r.buffers (λ d h. h)) v)
          ])
  ]

  -- EF, with whatever its hooks return.
  ecommand_close-HasCurrent :
      (colon : Bool) (id : Option ℕ) (force close_hook hook : Bool)
      (writes : Buffer → List ℕ → Bool) (r : Ring)
      → HasCurrent r
      → HasCurrent (ecommand_close absolute_path colon id force close_hook hook writes r).ring
  unfolding ecommand_close
  ecommand_close-HasCurrent colon id force close_hook hook writes r v =
      elim (Option-cases (selected id r)) [
        | inl e ↦ rw (e, ecommand_close) v
        | inr (b, e) ↦ rw (e, ecommand_close) (by_colon b colon)
      ]
    where
      by_colon :
          (b : Buffer) (colon : Bool)
          → HasCurrent
              (if colon
                then saved_close r b close_hook hook (buffer_save absolute_path writes none b)
                else if not force && b.dirty
                then refused r
                else close b close_hook hook r).ring
      by_colon b true =
          saved_close-HasCurrent b close_hook hook r (buffer_save absolute_path writes none b)
            (λ c ts. save_as-Sets absolute_path writes b _ c ts) v
      by_colon b false = elim (Bool-cases (not force && b.dirty)) [
        | inl k ↦ rw k v
        | inr k ↦ rw k (close-HasCurrent b close_hook hook r v)
      ]

  ring_command-HasCurrent :
      (c : Command) (r : Ring) → HasCurrent r → HasCurrent (ring_command absolute_path c r).ring
  unfolding ring_command save_file_done edit_file_id edit_by_id edit_file_name ring_save_all
  ring_command-HasCurrent (edit_id id hook) r v = elim (Option-cases (find_by_id id r.buffers)) [
    | inl e ↦ rw (e, edit_by_id) v
    | inr (b, e) ↦ rw (e, edit_by_id) (find_by_id-is_present id b r.buffers e)
  ]
  ring_command-HasCurrent (edit_name name loads hook) r v =
      edit_by_name-HasCurrent name loads hook r
  ring_command-HasCurrent (save_file id name writes) r v = elim (Option-cases (selected id r)) [
    | inl e ↦ rw (e, save_file_done) v
    | inr (b, e) ↦
        rw (e, save_file_done)
          (saved_edit-HasCurrent b r (buffer_save absolute_path writes name b)
            (λ c ts. save_as-Sets absolute_path writes b _ c ts) v)
  ]
  ring_command-HasCurrent (close_file colon id force close_hook hook writes) r v =
      ecommand_close-HasCurrent colon id force close_hook hook writes r v
  ring_command-HasCurrent (save_all writes) r v =
      is_present-SameAddresses r.current r.buffers _
        (saves-SameAddresses absolute_path writes r.buffers) v
  ring_command-HasCurrent change_text r v = dirtify-HasCurrent r v

  -- That the current buffer is one of the ring is kept by all commands on the ring, whichever and
  -- how many, and whether their files and hooks succeed or fail.
  pub ring_commands-HasCurrent :
      (cs : List Command) (r : Ring)
      → HasCurrent r
      → HasCurrent (ring_commands absolute_path cs r).ring
  unfolding ring_commands
  ring_commands-HasCurrent [] r v = v
  ring_commands-HasCurrent (c ∷ cs) r v =
      ring_commands-HasCurrent cs (ring_command absolute_path c r).ring
        (ring_command-HasCurrent c r v)
