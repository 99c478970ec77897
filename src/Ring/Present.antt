-- ===== src/Ring/Present.antt =====
-- src/ring.c: the buffers that are still in the ring.
use sciteco.Prelude.{
  ℕ, ◌≡◌, ◌⊎◌, refl, sym, ap, ◌∙◌, Bool, true, false, Option, none, some, List, [], ◌∷◌, ◌++◌, ◌==◌,
  ◌-◌, if◌then◌else◌, Bool-cases, inl, inr, arith,
}
use mathlib.Core.Option.{some-injective}
use sciteco.Ring.{
  Buffer, same_name, find_by_name, find_by_id, remove, first_address, buffer_next, prev_of,
}
use sciteco.Ring.Setting.{SameAddresses}

-- The address is one of a buffer of the list.
abbrev pub is_present : ℕ → List Buffer → Bool
is_present a [] = false
is_present a (b ∷ bs) = let rest = is_present a bs in if b.address == a then true else rest

present_behind :
    (a : ℕ) (b : Buffer) (bs : List Buffer) → is_present a bs ≡ true → is_present a (b ∷ bs) ≡ true
present_behind a b bs h = ground (arith, h)

present_first :
    (a : ℕ) (b : Buffer) (bs : List Buffer) → b.address ≡ a → is_present a (b ∷ bs) ≡ true
present_first a b bs e = let k : (b.address == a) ≡ true = ground (arith, e) in rw k refl

pub find_by_name-is_present :
    (name : Option (List ℕ)) (b : Buffer) (bs : List Buffer)
    → find_by_name name bs ≡ some b
    → is_present b.address bs ≡ true
find_by_name-is_present name b [] f = absurd cc
find_by_name-is_present name b (c ∷ bs) f = elim (Bool-cases (same_name c.filename name)) [
  | inl k ↦
      let e : c ≡ b =
        some-injective _ _ (ap (λ t. if t then some c else find_by_name name bs) (sym k) ∙ f) in
      present_first b.address c bs (ap (λ x. x.address) e)
  | inr k ↦ present_behind b.address c bs (
      find_by_name-is_present name b bs
        (ap (λ t. if t then some c else find_by_name name bs) (sym k) ∙ f))
]

pub find_by_id-is_present :
    (id : ℕ) (b : Buffer) (bs : List Buffer)
    → find_by_id id bs ≡ some b
    → is_present b.address bs ≡ true
find_by_id-is_present id b [] f = absurd cc
find_by_id-is_present id b (c ∷ bs) f = elim (Bool-cases (id == 0)) [
  | inl z ↦ absurd (ground (arith, f, z))
  | inr z ↦
      let g =
        ap (λ t. if t then none else if id == 1 then some c else find_by_id (id - 1) bs) (sym z)
        ∙ f in
      elim (Bool-cases (id == 1)) [
        | inl k ↦
            let e : c ≡ b =
              some-injective _ _
                (ap (λ t. if t then some c else find_by_id (id - 1) bs) (sym k) ∙ g) in
            present_first b.address c bs (ap (λ x. x.address) e)
        | inr k ↦ present_behind b.address c bs (
            find_by_id-is_present (id - 1) b bs
              (ap (λ t. if t then some c else find_by_id (id - 1) bs) (sym k) ∙ g))
      ]
]

pub is_present-append :
    (b : Buffer) (bs : List Buffer) → is_present b.address (bs ++ (b ∷ [])) ≡ true
is_present-append b [] = present_first b.address b [] refl
is_present-append b (c ∷ bs) = present_behind b.address c _ (is_present-append b bs)

pub is_present-remove :
    (a c : ℕ) (bs : List Buffer)
    → (a == c) ≡ false
    → is_present a bs ≡ true
    → is_present a (remove c bs) ≡ true
is_present-remove a c [] n h = absurd cc
is_present-remove a c (b ∷ bs) n h = ground (arith, n, h, is_present-remove a c bs)

-- The neighbours of a buffer are still there when it has been removed.
pub buffer_next-is_present :
    (a n : ℕ) (bs : List Buffer) → buffer_next a bs ≡ some n → is_present n (remove a bs) ≡ true
buffer_next-is_present a n [] h = absurd cc
buffer_next-is_present a n (b ∷ bs) h = elim (Bool-cases (b.address == a)) [
  | inl k ↦ rw k (first bs (ap (λ t. if t then first_address bs else buffer_next a bs) (sym k) ∙ h))
  | inr k ↦ rw k (
      present_behind n b _ (
        buffer_next-is_present a n bs
          (ap (λ t. if t then first_address bs else buffer_next a bs) (sym k) ∙ h)))
]
  where
    first : (bs : List Buffer) → first_address bs ≡ some n → is_present n bs ≡ true
    first [] e = absurd cc
    first (c ∷ cs) e = present_first n c cs (some-injective _ _ e)

pub prev_of-is_present :
    (last : Option ℕ) (a p : ℕ) (bs : List Buffer)
    → prev_of last a bs ≡ some p
    → (last ≡ some p) ⊎ (is_present p (remove a bs) ≡ true)
prev_of-is_present last a p [] h = absurd cc
prev_of-is_present last a p (b ∷ bs) h = elim (Bool-cases (b.address == a)) [
  | inl k ↦ inl (ap (λ t. if t then last else prev_of (some b.address) a bs) (sym k) ∙ h)
  | inr k ↦ inr (
      rw k
        (elim (prev_of-is_present (some b.address) a p bs
          (ap (λ t. if t then last else prev_of (some b.address) a bs) (sym k) ∙ h)) [
            | inl e ↦ present_first p b _ (some-injective _ _ e)
            | inr later ↦ present_behind p b _ later
          ]))
]

pub is_present-SameAddresses :
    (a : ℕ) (bs cs : List Buffer)
    → SameAddresses bs cs
    → is_present a bs ≡ true
    → is_present a cs ≡ true
is_present-SameAddresses a [] cs s h = absurd cc
is_present-SameAddresses a (b ∷ bs) [] s h = absurd s
is_present-SameAddresses a (b ∷ bs) (c ∷ cs) (e, s) h =
    ground (arith, e, h, is_present-SameAddresses a bs cs s)
