-- ===== src/Ring/Undoing.antt =====
-- src/ring.c: running the undo tokens of the commands on the ring.
use sciteco.Prelude.{
  ℕ, ◌≡◌, refl, sym, ap, ◌∙◌, Bool, true, Option, none, some, List, [], ◌∷◌, ◌++◌, Option-cases,
  inl, inr,
}
use sciteco.Ring.Queue.{
  are_distinct, are_below, remove-append, insert_before-remove, remove-insert_before, absent-remove,
  below-absent,
}
use sciteco.Ring.{
  Buffer, Ring, RingToken, undo_new, undo_close, undo_current, undo_qreg, undo_dirty, undo_filename,
  set_buffer, find_by_name, find_by_id, remove, insert_before, buffer_next, prev_of,
  find_by_address, run_undo, undo_edit, current_doc_undo_edit, Edited, edit_by_name, edit_by_id,
  behind_tokens, edit_file_id, edit_file_name, hand_over, close_current,
}

-- Every buffer has an address of its own, and the next one is above them.
pub record IsRing (r : Ring) : Type 0 where
  pub distinct : are_distinct r.buffers ≡ true
  pub below : are_below r.next_address r.buffers ≡ true

-- Running the tokens, the last one first.
unfoldable pub undone : List RingToken → Ring → Ring
unfolding run_undo
undone [] r = r
undone (t ∷ ts) r = undone ts (run_undo t r)

unfoldable pub undo : Edited → Ring
unfolding undone
undo e = undone e.tokens e.ring

-- All but the address of the next buffer.
pub record SameRing (r s : Ring) : Type 0 where
  pub same_buffers : r.buffers ≡ s.buffers
  pub same_current : r.current ≡ s.current
  pub same_qreg : r.in_qreg ≡ s.in_qreg

pub transitive : (r s t : Ring) → SameRing r s → SameRing s t → SameRing r t
transitive r s t a b = record {
  same_buffers = a.same_buffers ∙ b.same_buffers;
  same_current = a.same_current ∙ b.same_current;
  same_qreg = a.same_qreg ∙ b.same_qreg;
}

pub undone-append :
    (ts us : List RingToken) (r : Ring) → undone (ts ++ us) r ≡ undone us (undone ts r)
unfolding undone
undone-append [] us r = refl
undone-append (t ∷ ts) us r = undone-append ts us (run_undo t r)

run_undo-SameRing :
    (t : RingToken) (r s : Ring) → SameRing r s → SameRing (run_undo t r) (run_undo t s)
unfolding run_undo
run_undo-SameRing (undo_new a) r s e = record {
  same_buffers = ap (remove a) e.same_buffers;
  same_current = e.same_current;
  same_qreg = e.same_qreg;
}
run_undo-SameRing (undo_close b next) r s e = record {
  same_buffers = ap (insert_before next b) e.same_buffers;
  same_current = e.same_current;
  same_qreg = e.same_qreg;
}
run_undo-SameRing (undo_current a) r s e = record {
  same_buffers = e.same_buffers;
  same_current = refl;
  same_qreg = e.same_qreg;
}
run_undo-SameRing (undo_qreg q) r s e = record {
  same_buffers = e.same_buffers;
  same_current = e.same_current;
  same_qreg = refl;
}
run_undo-SameRing (undo_dirty a v) r s e = record {
  same_buffers = ap (set_buffer a (λ b. record b { dirty = v })) e.same_buffers;
  same_current = e.same_current;
  same_qreg = e.same_qreg;
}
run_undo-SameRing (undo_filename a name) r s e = record {
  same_buffers = ap (set_buffer a (λ b. record b { filename = name })) e.same_buffers;
  same_current = e.same_current;
  same_qreg = e.same_qreg;
}

pub undone-SameRing :
    (ts : List RingToken) (r s : Ring) → SameRing r s → SameRing (undone ts r) (undone ts s)
unfolding undone
undone-SameRing [] r s e = e
undone-SameRing (t ∷ ts) r s e =
    undone-SameRing ts (run_undo t r) (run_undo t s) (run_undo-SameRing t r s e)

-- EB of a buffer by its number, in a buffer: taken back, whether it succeeds or not.
pub edit_file_id-undone :
    (id : ℕ) (hook : Bool) (r : Ring)
    → r.in_qreg ≡ none
    → SameRing (undo (edit_file_id id hook r)) r
unfolding edit_file_id current_doc_undo_edit edit_by_id undo undone
edit_file_id-undone id hook r h = elim (Option-cases (find_by_id id r.buffers)) [
  | inl e ↦
      rw (e, edit_by_id)
        (rw (h, current_doc_undo_edit)
          (record { same_buffers = refl; same_current = refl; same_qreg = h }))
  | inr (b, e) ↦
      rw (e, edit_by_id)
        (rw (h, current_doc_undo_edit)
          (record { same_buffers = refl; same_current = refl; same_qreg = h }))
]

-- EB of a file, in a buffer.
pub edit_file_name-undone :
    (name : Option (List ℕ)) (loads hook : Bool) (r : Ring)
    → IsRing r
    → r.in_qreg ≡ none
    → SameRing (undo (edit_file_name name loads hook r)) r
unfolding edit_file_name current_doc_undo_edit edit_by_name undo undone
edit_file_name-undone name loads hook r v h = elim (Option-cases (find_by_name name r.buffers)) [
  | inl e ↦
      rw (e, edit_by_name)
        (rw (h, current_doc_undo_edit)
          (record {
            same_buffers =
                remove-append r.buffers _ (below-absent r.next_address r.buffers v.below);
            same_current = refl;
            same_qreg = h;
          }))
  | inr (b, e) ↦
      rw (e, edit_by_name)
        (rw (h, current_doc_undo_edit)
          (record { same_buffers = refl; same_current = refl; same_qreg = h }))
]

-- Closing a buffer that is not the current one.
pub other-undone :
    (b : Buffer) (r : Ring)
    → IsRing r
    → find_by_address b.address r.buffers ≡ some b
    → SameRing
        (undo (record {
          succeeds = true;
          ring = record r { buffers = remove b.address r.buffers };
          tokens = undo_close b (buffer_next b.address r.buffers) ∷ [];
        }))
        r
unfolding undo undone
other-undone b r v f = record {
  same_buffers = insert_before-remove b r.buffers f v.distinct;
  same_current = refl;
  same_qreg = refl;
}

-- Closing the current buffer, with another one in the ring or without.
module _ (b : Buffer) (r : Ring) (v : IsRing r)
    (f : find_by_address b.address r.buffers ≡ some b) where
  abbrev left : Ring
  left = record r { buffers = remove b.address r.buffers }

  put_back :
      (next : Option ℕ)
      → buffer_next b.address r.buffers ≡ next
      → insert_before next b left.buffers ≡ r.buffers
  put_back next e =
      ap (λ n. insert_before n b left.buffers) (sym e)
      ∙ insert_before-remove b r.buffers f v.distinct

  new-undone :
      buffer_next b.address r.buffers ≡ none
      → SameRing
          (undo (
            hand_over
              (undo_close b none)
              (behind_tokens (undo_edit r) (edit_by_name none true true left))))
          r
  unfolding edit_by_name undo undone
  new-undone e = elim (Option-cases (find_by_name none left.buffers)) [
    | inl k ↦
        rw (k, edit_by_name)
          (record {
            same_buffers =
                remove-insert_before r.next_address b _ left.buffers refl (
                  absent-remove r.next_address b.address r.buffers
                    (below-absent r.next_address r.buffers v.below))
                ∙ put_back none e;
            same_current = refl;
            same_qreg = refl;
          })
    | inr (c, k) ↦
        rw (k, edit_by_name)
          (record { same_buffers = put_back none e; same_current = refl; same_qreg = refl })
  ]

  pub close_current-undone : SameRing (undo (close_current b true r)) r
  unfolding close_current undo undone
  close_current-undone = by_next (buffer_next b.address r.buffers) refl
    where
      by_prev :
          (prev : Option ℕ)
          → buffer_next b.address r.buffers ≡ none
          → SameRing
              (undo (
                hand_over (undo_close b none) (elim prev [
                  | some p ↦ record {
                    succeeds = true;
                    ring = record left { current = p };
                    tokens = undo_edit r;
                  }
                  | none ↦ behind_tokens (undo_edit r) (edit_by_name none true true left)
                ])))
              r
      by_prev none e = new-undone e
      by_prev (some p) e = record {
        same_buffers = put_back none e;
        same_current = refl;
        same_qreg = refl;
      }

      by_next :
          (next : Option ℕ)
          → buffer_next b.address r.buffers ≡ next
          → SameRing
              (undo (
                hand_over (undo_close b next) (elim next [
                  | some n ↦ record {
                    succeeds = true;
                    ring = record left { current = n };
                    tokens = undo_edit r;
                  }
                  | none ↦ elim (prev_of none b.address r.buffers) [
                    | some p ↦ record {
                      succeeds = true;
                      ring = record left { current = p };
                      tokens = undo_edit r;
                    }
                    | none ↦ behind_tokens (undo_edit r) (edit_by_name none true true left)
                  ]
                ])))
              r
      by_next none e = by_prev (prev_of none b.address r.buffers) e
      by_next (some n) e = record {
        same_buffers = put_back (some n) e;
        same_current = refl;
        same_qreg = refl;
      }
