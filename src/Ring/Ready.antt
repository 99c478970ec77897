-- ===== src/Ring/Ready.antt =====
-- src/ring.c: what editing and closing keep, that addresses are right and no register is edited.
use sciteco.Prelude.{
  ℕ, ◌≡◌, refl, sym, subst, ap, ◌∙◌, Bool, true, false, Option, none, some, List, [], ◌==◌,
  if◌then◌else◌, Bool-cases, Option-cases, inl, inr,
}
use sciteco.Ring.{
  Buffer, Ring, find_by_name, find_by_address, remove, buffer_next, prev_of, add_buffer,
  edit_by_name, close_current, close, selected,
}
use sciteco.Ring.Queue.{
  below-append, below-remove, distinct-append, distinct-remove, find_by_id-address,
  find_by_address-same,
}
use sciteco.Ring.Undoing.{IsRing}
use sciteco.Ring.Setting.{SameAddresses, distinct_same, below_same}

-- No register is edited, and the addresses are right.
pub record IsReady (r : Ring) : Type 0 where
  pub ring_IsRing : IsRing r
  pub no_qreg : r.in_qreg ≡ none

-- The buffer to be closed is one of the ring.
pub selected-IsFound :
    (id : Option ℕ) (b : Buffer) (r : Ring)
    → IsReady r
    → selected id r ≡ some b
    → find_by_address b.address r.buffers ≡ some b
selected-IsFound (some id) b r v e = find_by_id-address id b r.buffers v.ring_IsRing.distinct e
selected-IsFound none b r v e =
    let found : find_by_address r.current r.buffers ≡ some b =
      ap (λ q. elim q [ some x ↦ none | none ↦ find_by_address r.current r.buffers ])
        (sym v.no_qreg)
      ∙ e in
    subst (λ a. find_by_address a r.buffers ≡ some b)
      (sym (find_by_address-same r.current b r.buffers found)) found

pub same_ready :
    (r : Ring) (bs : List Buffer)
    → SameAddresses r.buffers bs
    → IsReady r
    → IsReady (record r { buffers = bs })
same_ready r bs s v = record {
  ring_IsRing = record {
    distinct = distinct_same r.buffers bs s v.ring_IsRing.distinct;
    below = below_same r.next_address r.buffers bs s v.ring_IsRing.below;
  };
  no_qreg = v.no_qreg;
}

-- What follows a command is about a ring of the same kind.
added :
    (name : Option (List ℕ)) (loads : Bool) (r : Ring)
    → IsRing r
    → IsReady (add_buffer name loads r)
added name loads r v = record {
  ring_IsRing = record {
    distinct = distinct-append r.next_address r.buffers _ refl v.below v.distinct;
    below = below-append r.next_address r.buffers _ refl v.below;
  };
  no_qreg = refl;
}

pub edit_by_name-IsReady :
    (name : Option (List ℕ)) (loads hook : Bool) (r : Ring)
    → IsRing r
    → IsReady (edit_by_name name loads hook r).ring
unfolding edit_by_name
edit_by_name-IsReady name loads hook r v = elim (Option-cases (find_by_name name r.buffers)) [
  | inl e ↦ rw (e, edit_by_name) (added name loads r v)
  | inr (b, e) ↦
      rw (e, edit_by_name)
        (record { ring_IsRing = record { distinct = v.distinct; below = v.below }; no_qreg = refl })
]

removed : (a : ℕ) (r : Ring) → IsRing r → IsRing (record r { buffers = remove a r.buffers })
removed a r v = record {
  distinct = distinct-remove a r.buffers v.distinct;
  below = below-remove r.next_address a r.buffers v.below;
}

pub close-IsReady :
    (b : Buffer) (close_hook hook : Bool) (r : Ring)
    → IsReady r
    → IsReady (close b close_hook hook r).ring
unfolding close close_current
close-IsReady b close_hook hook r v = elim (Bool-cases (b.address == r.current)) [
  | inl k ↦ rw k (by_hook close_hook)
  | inr k ↦ rw k (record { ring_IsRing = removed b.address r v.ring_IsRing; no_qreg = v.no_qreg })
]
  where
    moved : (a : ℕ) → IsReady (record r { buffers = remove b.address r.buffers; current = a })
    moved a =
        let w = removed b.address r v.ring_IsRing in
        record {
          ring_IsRing = record { distinct = w.distinct; below = w.below };
          no_qreg = v.no_qreg;
        }

    by_hook :
        (close_hook : Bool)
        → IsReady
            (if close_hook
              then close_current b hook r
              else record { succeeds = false; ring = r; tokens = [] }).ring
    by_hook false = v
    by_hook true = elim (Option-cases (buffer_next b.address r.buffers)) [
      | inl e ↦ rw e (elim (Option-cases (prev_of none b.address r.buffers)) [
        | inl x ↦ rw x (edit_by_name-IsReady none true hook _ (removed b.address r v.ring_IsRing))
        | inr (p, x) ↦ rw x (moved p)
      ])
      | inr (n, e) ↦ rw e (moved n)
    ]
