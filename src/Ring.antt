-- ===== src/Ring.antt =====
-- src/ring.c and src/ring.h: the ring of buffers, its commands and their undo tokens. The queue of
-- src/list.h is a list, and a buffer is known by its address; its text is kept by Scintilla. Whether
-- a file is loaded and whether a hook succeeds are arguments, and hooks leave the ring alone.
pub mod Queue
pub mod Files
pub mod Setting
pub mod Undoing
pub mod Ready
pub mod Keeping
pub mod Present
pub mod Current
pub mod Commands
pub mod Losses
pub mod Saving
pub mod Restoring
use sciteco.Prelude.{
  ℕ, zero, suc, ◌+◌, ◌-◌, Bool, true, false, not, Option, none, some, List, [], ◌∷◌, ◌++◌, ◌==◌,
  ◌&&◌, ◌||◌, if◌then◌else◌,
}
use sciteco.Goto.{same_label}

-- teco_buffer_t
pub record Buffer : Type 0 where
  pub address : ℕ
  pub filename : Option (List ℕ)
  pub dirty : Bool

-- teco_ring_head, teco_ring_current and teco_qreg_current, and the address of the next buffer.
pub record Ring : Type 0 where
  pub buffers : List Buffer
  pub current : ℕ
  pub in_qreg : Option ℕ
  pub next_address : ℕ

-- What a token takes back. A buffer that is out of the ring keeps the pointer to the next one.
pub data RingToken : Type 0 where
  undo_new : ℕ → RingToken
  undo_close : Buffer → Option ℕ → RingToken
  undo_current : ℕ → RingToken
  undo_qreg : Option ℕ → RingToken
  undo_dirty : ℕ → Bool → RingToken
  undo_filename : ℕ → Option (List ℕ) → RingToken

abbrev pub same_name : Option (List ℕ) → Option (List ℕ) → Bool
same_name none none = true
same_name none (some b) = false
same_name (some a) none = false
same_name (some a) (some b) = same_label a b

-- teco_ring_find_by_name(), on an absolute path
abbrev pub find_by_name : Option (List ℕ) → List Buffer → Option Buffer
find_by_name name [] = none
find_by_name name (b ∷ bs) =
    let rest = find_by_name name bs in if same_name b.filename name then some b else rest

-- teco_ring_find_by_id(): the buffers count from 1 on.
abbrev pub find_by_id : ℕ → List Buffer → Option Buffer
find_by_id id [] = none
find_by_id id (b ∷ bs) =
    let rest = find_by_id (id - 1) bs in if id == 0 then none else if id == 1 then some b else rest

-- teco_ring_get_id(), which takes a buffer of the ring
abbrev pub get_id : ℕ → List Buffer → ℕ
get_id a [] = 1
get_id a (b ∷ bs) = let rest = get_id a bs in if b.address == a then 1 else suc rest

-- teco_tailq_remove()
abbrev pub remove : ℕ → List Buffer → List Buffer
remove a [] = []
remove a (b ∷ bs) = let rest = remove a bs in if b.address == a then bs else (b ∷ rest)

-- teco_tailq_insert_before(), and teco_tailq_insert_tail() without a next buffer
abbrev pub insert_before : Option ℕ → Buffer → List Buffer → List Buffer
insert_before next b [] = b ∷ []
insert_before none b (c ∷ cs) = c ∷ insert_before none b cs
insert_before (some n) b (c ∷ cs) =
    let rest = insert_before (some n) b cs in if c.address == n then (b ∷ c ∷ cs) else (c ∷ rest)

abbrev pub first_address : List Buffer → Option ℕ
first_address [] = none
first_address (b ∷ bs) = some b.address

-- teco_buffer_next() and teco_buffer_prev(): the neighbours of a buffer
abbrev pub buffer_next : ℕ → List Buffer → Option ℕ
buffer_next a [] = none
buffer_next a (b ∷ bs) =
    let rest = buffer_next a bs in if b.address == a then first_address bs else rest

abbrev pub prev_of : Option ℕ → ℕ → List Buffer → Option ℕ
prev_of last a [] = none
prev_of last a (b ∷ bs) =
    let rest = prev_of (some b.address) a bs in if b.address == a then last else rest

abbrev pub find_by_address : ℕ → List Buffer → Option Buffer
find_by_address a [] = none
find_by_address a (b ∷ bs) =
    let rest = find_by_address a bs in if b.address == a then some b else rest

-- A field of a buffer is set.
abbrev pub set_buffer : ℕ → (Buffer → Buffer) → List Buffer → List Buffer
set_buffer a f [] = []
set_buffer a f (b ∷ bs) =
    let rest = set_buffer a f bs in if b.address == a then (f b ∷ bs) else (b ∷ rest)

-- The actions of the tokens; a buffer that is new is removed, and its memory given back.
unfoldable pub run_undo : RingToken → Ring → Ring
run_undo (undo_new a) r = record r { buffers = remove a r.buffers }
run_undo (undo_close b next) r = record r { buffers = insert_before next b r.buffers }
run_undo (undo_current a) r = record r { current = a }
run_undo (undo_qreg q) r = record r { in_qreg = q }
run_undo (undo_dirty a v) r = record r {
  buffers = set_buffer a (λ b. record b { dirty = v }) r.buffers;
}
run_undo (undo_filename a name) r = record r {
  buffers = set_buffer a (λ b. record b { filename = name }) r.buffers;
}

-- The tokens of teco_ring_undo_edit(), the last one first.
abbrev pub undo_edit : Ring → List RingToken
undo_edit r = undo_current r.current ∷ undo_qreg r.in_qreg ∷ []

-- The tokens of teco_current_doc_undo_edit()
unfoldable pub current_doc_undo_edit : Ring → List RingToken
current_doc_undo_edit r = elim (r.in_qreg) [ none ↦ undo_edit r | some q ↦ undo_qreg (some q) ∷ [] ]

-- What a command leaves: whether it succeeds, the ring, and its tokens, the last one first.
pub record Edited : Type 0 where
  pub succeeds : Bool
  pub ring : Ring
  pub tokens : List RingToken

-- A buffer is added at the end, with its name unless the file cannot be loaded.
abbrev pub add_buffer : Option (List ℕ) → Bool → Ring → Ring
add_buffer name loads r = record {
  buffers =
      r.buffers
      ++ (record {
        address = r.next_address;
        filename = if loads then name else none;
        dirty = false;
      }
          ∷ []);
  current = r.next_address;
  in_qreg = none;
  next_address = suc r.next_address;
}

-- teco_ring_edit_by_name(), for the absolute path of the file
unfoldable pub edit_by_name : Option (List ℕ) → Bool → Bool → Ring → Edited
edit_by_name name loads hook r = elim (find_by_name name r.buffers) [
  | some b ↦ record {
    succeeds = hook;
    ring = record r { current = b.address; in_qreg = none };
    tokens = [];
  }
  | none ↦ record {
    succeeds = loads && hook;
    ring = add_buffer name loads r;
    tokens = undo_new r.next_address ∷ [];
  }
]

-- teco_ring_edit_by_id()
unfoldable pub edit_by_id : ℕ → Bool → Ring → Edited
edit_by_id id hook r = elim (find_by_id id r.buffers) [
  | none ↦ record { succeeds = false; ring = r; tokens = [] }
  | some b ↦ record {
    succeeds = hook;
    ring = record r { current = b.address; in_qreg = none };
    tokens = [];
  }
]

-- The tokens of a command that follow some others.
abbrev pub behind_tokens : List RingToken → Edited → Edited
behind_tokens ts e = record e { tokens = e.tokens ++ ts }

-- EB: teco_state_edit_file_initial() for an id, and teco_state_edit_file_done() for a file
unfoldable pub edit_file_id : ℕ → Bool → Ring → Edited
unfolding current_doc_undo_edit edit_by_id
edit_file_id id hook r = behind_tokens (current_doc_undo_edit r) (edit_by_id id hook r)

unfoldable pub edit_file_name : Option (List ℕ) → Bool → Bool → Ring → Edited
unfolding current_doc_undo_edit edit_by_name
edit_file_name name loads hook r =
    behind_tokens (current_doc_undo_edit r) (edit_by_name name loads hook r)

-- The end of teco_ring_close(): the buffer is left to its token, unless there has been an error.
abbrev pub hand_over : RingToken → Edited → Edited
hand_over t e = record e { tokens = if e.succeeds then t ∷ e.tokens else e.tokens }

-- teco_ring_close() of the current buffer, behind its hook
unfoldable pub close_current : Buffer → Bool → Ring → Edited
unfolding edit_by_name
close_current b hook r =
    let next = buffer_next b.address r.buffers in
    let left : Ring = record r { buffers = remove b.address r.buffers } in
    hand_over (undo_close b next) (elim next [
      | some n ↦ record {
        succeeds = hook;
        ring = record left { current = n };
        tokens = undo_edit r;
      }
      | none ↦ elim (prev_of none b.address r.buffers) [
        | some p ↦ record {
          succeeds = hook;
          ring = record left { current = p };
          tokens = undo_edit r;
        }
        | none ↦ behind_tokens (undo_edit r) (edit_by_name none true hook left)
      ]
    ])

-- teco_ring_close()
unfoldable pub close : Buffer → Bool → Bool → Ring → Edited
unfolding close_current
close b close_hook hook r =
    if b.address == r.current
    then if close_hook
      then close_current b hook r
      else record { succeeds = false; ring = r; tokens = [] }
    else record {
      succeeds = true;
      ring = record r { buffers = remove b.address r.buffers };
      tokens = undo_close b (buffer_next b.address r.buffers) ∷ [];
    }

-- The buffer that EF closes: the one with the number, or the current one unless a register is edited.
abbrev pub selected : Option ℕ → Ring → Option Buffer
selected (some id) r = find_by_id id r.buffers
selected none r = elim (r.in_qreg) [ some q ↦ none | none ↦ find_by_address r.current r.buffers ]
