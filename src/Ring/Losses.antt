-- ===== src/Ring/Losses.antt =====
-- src/ring.c: what undoing does not restore.
use sciteco.Prelude.{ℕ, ◌≡◌, refl, sym, Bool, true, false, some, ◌==◌, arith}
use sciteco.Ring.{
  Buffer, Ring, find_by_id, remove, buffer_next, current_doc_undo_edit, edit_by_id, edit_file_id,
  close_current, close,
}
use sciteco.Ring.Undoing.{undo, undone}

-- If the current buffer is closed while another one follows it, and the hook of that one fails, the
-- command fails, and running its undo tokens leaves the closed buffer out of the ring, but current.
pub close-loses :
    (b : Buffer) (n : ℕ) (r : Ring)
    → b.address ≡ r.current
    → buffer_next b.address r.buffers ≡ some n
    → ((close b true false r).succeeds ≡ false)
      × ((undo (close b true false r)).buffers ≡ remove b.address r.buffers)
      × ((undo (close b true false r)).current ≡ b.address)
unfolding close close_current undo undone
close-loses b n r h e =
    let k : (b.address == r.current) ≡ true = ground (arith, h) in rw k (rw e (refl, refl, sym h))

-- If a buffer is edited by its number while a register is edited, running the undo tokens returns
-- to the register, and leaves the edited buffer as the current one of the ring.
pub edit_file_id-forgets :
    (id q : ℕ) (b : Buffer) (hook : Bool) (r : Ring)
    → r.in_qreg ≡ some q
    → find_by_id id r.buffers ≡ some b
    → ((undo (edit_file_id id hook r)).in_qreg ≡ some q)
      × ((undo (edit_file_id id hook r)).current ≡ b.address)
unfolding edit_file_id current_doc_undo_edit edit_by_id undo undone
edit_file_id-forgets id q b hook r h e =
    rw (h, current_doc_undo_edit) (rw (e, edit_by_id) (refl, refl))
