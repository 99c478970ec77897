-- ===== src/Ring/Queue.antt =====
-- src/list.h, src/ring.c: the lemmas on the queue of buffers.
use sciteco.Prelude.{
  both, ℕ, zero, suc, ◌-◌, ◌≡◌, refl, sym, ap, ◌∙◌, Bool, true, false, not, Option, none, some,
  List, [], ◌∷◌, ◌++◌, ltb, ◌==◌, ◌&&◌, if◌then◌else◌, Bool-cases, inl, inr, arith,
}
use mathlib.Core.Option.{some-injective}
use sciteco.Ring.{
  Buffer, find_by_id, remove, insert_before, first_address, buffer_next, find_by_address,
}

-- The address is none of a buffer of the list.
abbrev pub is_absent : ℕ → List Buffer → Bool
is_absent a [] = true
is_absent a (b ∷ bs) = not (b.address == a) && is_absent a bs

abbrev pub are_distinct : List Buffer → Bool
are_distinct [] = true
are_distinct (b ∷ bs) = is_absent b.address bs && are_distinct bs

-- The addresses are all below the given one.
abbrev pub are_below : ℕ → List Buffer → Bool
are_below n [] = true
are_below n (b ∷ bs) = ltb b.address n && are_below n bs

pub remove-append :
    (bs : List Buffer) (b : Buffer)
    → is_absent b.address bs ≡ true
    → remove b.address (bs ++ (b ∷ [])) ≡ bs
remove-append [] b h = let e : (b.address == b.address) ≡ true = ground arith in rw e refl
remove-append (c ∷ bs) b h =
    let (n, later) = both (not (c.address == b.address)) (is_absent b.address bs) h in
    let e : (c.address == b.address) ≡ false = ground (arith, n) in
    rw e (ap (c ∷◌) (remove-append bs b later))

-- A neighbour is a buffer of the list.
next_absent :
    (a c n : ℕ) (bs : List Buffer)
    → is_absent c bs ≡ true
    → buffer_next a bs ≡ some n
    → (c == n) ≡ false
next_absent a c n [] h e = absurd cc
next_absent a c n (b ∷ []) h e = elim (Bool-cases (b.address == a)) [
  | inl k ↦ absurd (ground (arith, e, k))
  | inr k ↦ absurd (ground (arith, e, k))
]
next_absent a c n (b ∷ (d ∷ bs)) h e =
    let (x, later) = both (not (b.address == c)) (is_absent c (d ∷ bs)) h in
    elim (Bool-cases (b.address == a)) [
      | inl k ↦
          let eq : d.address ≡ n =
            some-injective _ _
              (ap (λ t. if t then some d.address else buffer_next a (d ∷ bs)) (sym k) ∙ e) in
          ground (arith, eq, later)
      | inr k ↦
          next_absent a c n (d ∷ bs) later
            (ap (λ t. if t then some d.address else buffer_next a (d ∷ bs)) (sym k) ∙ e)
    ]

-- A buffer that has been removed is put back to its place.
pub insert_before-remove :
    (b : Buffer) (bs : List Buffer)
    → find_by_address b.address bs ≡ some b
    → are_distinct bs ≡ true
    → insert_before (buffer_next b.address bs) b (remove b.address bs) ≡ bs
insert_before-remove b [] h d = absurd cc
insert_before-remove b (c ∷ cs) h d =
    let (alone, later) = both (is_absent c.address cs) (are_distinct cs) d in
    elim (Bool-cases (c.address == b.address)) [
      | inl k ↦
          let eq : c ≡ b =
            some-injective _ _
              (ap (λ t. if t then some c else find_by_address b.address cs) (sym k) ∙ h) in
          rw (k) (front cs ∙ ap (λ x. x ∷ cs) (sym eq))
      | inr k ↦
          let found : find_by_address b.address cs ≡ some b =
            ap (λ t. if t then some c else find_by_address b.address cs) (sym k) ∙ h in
          let rest = insert_before-remove b cs found later in
          rw (k) (
            behind c cs (buffer_next b.address cs)
              (λ n e. next_absent b.address c.address n cs alone e) rest)
    ]
  where
    front : (cs : List Buffer) → insert_before (first_address cs) b cs ≡ b ∷ cs
    front [] = refl
    front (d ∷ ds) = let e : (d.address == d.address) ≡ true = ground arith in rw e refl

    behind :
        (c : Buffer) (cs : List Buffer) (next : Option ℕ)
        → ((n : ℕ) → next ≡ some n → (c.address == n) ≡ false)
        → insert_before next b (remove b.address cs) ≡ cs
        → insert_before next b (c ∷ remove b.address cs) ≡ c ∷ cs
    behind c cs none h e = ap (c ∷◌) e
    behind c cs (some n) h e = rw (h n refl) (ap (c ∷◌) e)

pub remove-insert_before :
    (n : ℕ) (b c : Buffer) (bs : List Buffer)
    → c.address ≡ n
    → is_absent n bs ≡ true
    → remove n (insert_before none b (bs ++ (c ∷ []))) ≡ insert_before none b bs
remove-insert_before n b c [] e h = let k : (c.address == n) ≡ true = ground (arith, e) in rw k refl
remove-insert_before n b c (d ∷ bs) e h =
    let (x, later) = both (not (d.address == n)) (is_absent n bs) h in
    let k : (d.address == n) ≡ false = ground (arith, x) in
    rw k (ap (d ∷◌) (remove-insert_before n b c bs e later))

pub absent-remove :
    (n a : ℕ) (bs : List Buffer) → is_absent n bs ≡ true → is_absent n (remove a bs) ≡ true
absent-remove n a [] h = refl
absent-remove n a (b ∷ bs) h =
    let (x, later) = both (not (b.address == n)) (is_absent n bs) h in
    elim (Bool-cases (b.address == a)) [
      | inl k ↦ rw k later
      | inr k ↦ rw k (rw x (absent-remove n a bs later))
    ]

pub below-absent : (n : ℕ) (bs : List Buffer) → are_below n bs ≡ true → is_absent n bs ≡ true
below-absent n [] h = refl
below-absent n (b ∷ bs) h =
    let (x, later) = both (ltb b.address n) (are_below n bs) h in
    let k : (b.address == n) ≡ false = ground (arith, x) in rw k (below-absent n bs later)

pub below-remove :
    (n a : ℕ) (bs : List Buffer) → are_below n bs ≡ true → are_below n (remove a bs) ≡ true
below-remove n a [] h = refl
below-remove n a (b ∷ bs) h =
    let (x, later) = both (ltb b.address n) (are_below n bs) h in
    elim (Bool-cases (b.address == a)) [
      | inl k ↦ rw k later
      | inr k ↦ rw k (rw x (below-remove n a bs later))
    ]

pub below-append :
    (n : ℕ) (bs : List Buffer) (b : Buffer)
    → b.address ≡ n
    → are_below n bs ≡ true
    → are_below (suc n) (bs ++ (b ∷ [])) ≡ true
below-append n [] b e h = let k : ltb b.address (suc n) ≡ true = ground (arith, e) in rw k refl
below-append n (c ∷ bs) b e h =
    let (x, later) = both (ltb c.address n) (are_below n bs) h in
    let k : ltb c.address (suc n) ≡ true = ground (arith, x) in rw k (below-append n bs b e later)

pub distinct-remove :
    (a : ℕ) (bs : List Buffer) → are_distinct bs ≡ true → are_distinct (remove a bs) ≡ true
distinct-remove a [] h = refl
distinct-remove a (b ∷ bs) h =
    let (x, later) = both (is_absent b.address bs) (are_distinct bs) h in
    elim (Bool-cases (b.address == a)) [
      | inl k ↦ rw k later
      | inr k ↦ rw k (rw (absent-remove b.address a bs x) (distinct-remove a bs later))
    ]

absent-append :
    (a : ℕ) (bs : List Buffer) (b : Buffer)
    → (b.address == a) ≡ false
    → is_absent a bs ≡ true
    → is_absent a (bs ++ (b ∷ [])) ≡ true
absent-append a [] b e h = rw e refl
absent-append a (c ∷ bs) b e h =
    let (x, later) = both (not (c.address == a)) (is_absent a bs) h in
    rw x (absent-append a bs b e later)

pub distinct-append :
    (n : ℕ) (bs : List Buffer) (b : Buffer)
    → b.address ≡ n
    → are_below n bs ≡ true
    → are_distinct bs ≡ true
    → are_distinct (bs ++ (b ∷ [])) ≡ true
distinct-append n [] b e h d = refl
distinct-append n (c ∷ bs) b e h d =
    let (x, later) = both (ltb c.address n) (are_below n bs) h in
    let (alone, others) = both (is_absent c.address bs) (are_distinct bs) d in
    let k : (b.address == c.address) ≡ false = ground (arith, x, e) in
    rw (absent-append c.address bs b k alone) (distinct-append n bs b e later others)

find_by_id-later :
    (i : ℕ) (c : Buffer) (bs : List Buffer)
    → find_by_id (suc (suc i)) (c ∷ bs) ≡ find_by_id (suc i) bs
find_by_id-later i c bs =
    let z : (suc (suc i) == 0) ≡ false = ground arith in
    let o : (suc (suc i) == 1) ≡ false = ground arith in
    let d : suc (suc i) - 1 ≡ suc i = omega arith in rw z (rw o (rw d refl))

-- A buffer that is found by its number is found by its address.
found-absent :
    (a id : ℕ) (b : Buffer) (bs : List Buffer)
    → is_absent a bs ≡ true
    → find_by_id id bs ≡ some b
    → (a == b.address) ≡ false
found-absent a id b [] h f = absurd cc
found-absent a zero b (c ∷ bs) h f = absurd cc
found-absent a (suc zero) b (c ∷ bs) h f =
    let (x, later) = both (not (c.address == a)) (is_absent a bs) h in
    let e : c ≡ b = some-injective _ _ f in
    let k : c.address ≡ b.address = ap (λ d. d.address) e in ground (arith, x, k)
found-absent a (suc (suc i)) b (c ∷ bs) h f =
    let (x, later) = both (not (c.address == a)) (is_absent a bs) h in
    found-absent a (suc i) b bs later (sym (find_by_id-later i c bs) ∙ f)

pub find_by_id-address :
    (id : ℕ) (b : Buffer) (bs : List Buffer)
    → are_distinct bs ≡ true
    → find_by_id id bs ≡ some b
    → find_by_address b.address bs ≡ some b
find_by_id-address id b [] d f = absurd cc
find_by_id-address zero b (c ∷ bs) d f = absurd cc
find_by_id-address (suc zero) b (c ∷ bs) d f =
    let e : c ≡ b = some-injective _ _ f in
    let k : (c.address == b.address) ≡ true =
      let same : c.address ≡ b.address = ap (λ x. x.address) e in ground (arith, same) in
    rw k (ap some e)
find_by_id-address (suc (suc i)) b (c ∷ bs) d f =
    let (alone, later) = both (is_absent c.address bs) (are_distinct bs) d in
    let rest = sym (find_by_id-later i c bs) ∙ f in
    rw (found-absent c.address (suc i) b bs alone rest) (find_by_id-address (suc i) b bs later rest)

pub find_by_address-same :
    (a : ℕ) (b : Buffer) (bs : List Buffer) → find_by_address a bs ≡ some b → b.address ≡ a
find_by_address-same a b [] f = absurd cc
find_by_address-same a b (c ∷ bs) f = elim (Bool-cases (c.address == a)) [
  | inl k ↦
      let e : c ≡ b =
        some-injective _ _ (ap (λ t. if t then some c else find_by_address a bs) (sym k) ∙ f) in
      let x : c.address ≡ b.address = ap (λ d. d.address) e in ground (arith, k, x)
  | inr k ↦
      find_by_address-same a b bs (ap (λ t. if t then some c else find_by_address a bs) (sym k) ∙ f)
]
