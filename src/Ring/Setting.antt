-- ===== src/Ring/Setting.antt =====
-- src/ring.c: the lemmas on setting fields of a buffer of the queue.
use sciteco.Prelude.{
  both, ℕ, ◌≡◌, refl, sym, ap, ◌∙◌, true, some, List, [], ◌∷◌, ltb, ◌==◌, if◌then◌else◌, Bool-cases,
  inl, inr, arith,
}
use mathlib.Core.Option.{some-injective}
use sciteco.Ring.{Buffer, set_buffer, find_by_address}
use sciteco.Ring.Queue.{is_absent, are_distinct, are_below}

-- The same addresses in the same order.
abbrev pub SameAddresses : List Buffer → List Buffer → Type 0
SameAddresses [] [] = Unit {0}
SameAddresses [] (c ∷ cs) = ⊥
SameAddresses (b ∷ bs) [] = ⊥
SameAddresses (b ∷ bs) (c ∷ cs) = (b.address ≡ c.address) × SameAddresses bs cs

pub same_addresses : (bs : List Buffer) → SameAddresses bs bs
same_addresses [] = tt
same_addresses (b ∷ bs) = (refl, same_addresses bs)

absent_same :
    (a : ℕ) (bs cs : List Buffer)
    → SameAddresses bs cs
    → is_absent a bs ≡ true
    → is_absent a cs ≡ true
absent_same a [] [] s h = refl
absent_same a [] (c ∷ cs) s h = absurd s
absent_same a (b ∷ bs) [] s h = absurd s
absent_same a (b ∷ bs) (c ∷ cs) (e, s) h = ground (arith, e, h, absent_same a bs cs s)

pub distinct_same :
    (bs cs : List Buffer) → SameAddresses bs cs → are_distinct bs ≡ true → are_distinct cs ≡ true
distinct_same [] [] s h = refl
distinct_same [] (c ∷ cs) s h = absurd s
distinct_same (b ∷ bs) [] s h = absurd s
distinct_same (b ∷ bs) (c ∷ cs) (e, s) h =
    let (x, later) = both (is_absent b.address bs) (are_distinct bs) h in
    let k : is_absent c.address cs ≡ true =
      ap (λ a. is_absent a cs) (sym e) ∙ absent_same b.address bs cs s x in
    rw k (distinct_same bs cs s later)

pub below_same :
    (n : ℕ) (bs cs : List Buffer)
    → SameAddresses bs cs
    → are_below n bs ≡ true
    → are_below n cs ≡ true
below_same n [] [] s h = refl
below_same n [] (c ∷ cs) s h = absurd s
below_same n (b ∷ bs) [] s h = absurd s
below_same n (b ∷ bs) (c ∷ cs) (e, s) h =
    let (x, later) = both (ltb b.address n) (are_below n bs) h in
    let k : ltb c.address n ≡ true = ground (arith, x, e) in rw k (below_same n bs cs s later)

pub set_buffer-SameAddresses :
    (a : ℕ) (f : Buffer → Buffer) (bs : List Buffer)
    → ((b : Buffer) → b.address ≡ a → (f b).address ≡ a)
    → SameAddresses bs (set_buffer a f bs)
set_buffer-SameAddresses a f [] h = tt
set_buffer-SameAddresses a f (b ∷ bs) h = elim (Bool-cases (b.address == a)) [
  | inl k ↦ let e : b.address ≡ a = ground (arith, k) in rw k (e ∙ sym (h b e), same_addresses bs)
  | inr k ↦ rw k (refl, set_buffer-SameAddresses a f bs h)
]

pub find_by_address-set_buffer :
    (a : ℕ) (b c : Buffer) (bs : List Buffer)
    → find_by_address a bs ≡ some b
    → c.address ≡ a
    → find_by_address a (set_buffer a (λ d. c) bs) ≡ some c
find_by_address-set_buffer a b c [] f e = absurd cc
find_by_address-set_buffer a b c (d ∷ bs) f e = elim (Bool-cases (d.address == a)) [
  | inl k ↦ let h : (c.address == a) ≡ true = ground (arith, e) in rw k (rw h refl)
  | inr k ↦ rw k (
      rw k (
        find_by_address-set_buffer a b c bs
          (ap (λ t. if t then some d else find_by_address a bs) (sym k) ∙ f) e))
]

pub set_buffer-set_buffer :
    (a : ℕ) (f g : Buffer → Buffer) (bs : List Buffer)
    → ((b : Buffer) → (f b).address ≡ b.address)
    → set_buffer a g (set_buffer a f bs) ≡ set_buffer a (λ b. g (f b)) bs
set_buffer-set_buffer a f g [] h = refl
set_buffer-set_buffer a f g (b ∷ bs) h = elim (Bool-cases (b.address == a)) [
  | inl k ↦ let e : ((f b).address == a) ≡ true = ap (λ n. n == a) (h b) ∙ k in rw k (rw e refl)
  | inr k ↦ rw k (rw k (ap (b ∷◌) (set_buffer-set_buffer a f g bs h)))
]

-- A buffer is set, and then set back.
pub set_back :
    (a : ℕ) (b : Buffer) (f g : Buffer → Buffer) (bs : List Buffer)
    → find_by_address a bs ≡ some b
    → (f b).address ≡ a
    → g (f b) ≡ b
    → set_buffer a g (set_buffer a f bs) ≡ bs
set_back a b f g [] h e back = absurd cc
set_back a b f g (d ∷ bs) h e back = elim (Bool-cases (d.address == a)) [
  | inl k ↦
      let same : d ≡ b =
        some-injective _ _ (ap (λ t. if t then some d else find_by_address a bs) (sym k) ∙ h) in
      let l : ((f d).address == a) ≡ true =
        let x : (f d).address ≡ a = ap (λ x. (f x).address) same ∙ e in ground (arith, x) in
      rw k (rw l (ap (λ x. x ∷ bs) (ap (λ x. g (f x)) same ∙ back ∙ sym same)))
  | inr k ↦ rw k (
      rw k (
        ap (d ∷◌) (
          set_back a b f g bs (ap (λ t. if t then some d else find_by_address a bs) (sym k) ∙ h) e
            back)))
]
