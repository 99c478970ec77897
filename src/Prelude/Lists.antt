-- ===== src/Prelude/Lists.antt =====
-- Lists measured and indexed by native numbers, under the library's names.
use Prim.Native.Nat.{ℕ, zero, suc, ◌+◌, ◌-◌, ◌≤◌, ◌<◌}
use mathlib.Core.Path.{◌≡◌, refl, sym, ap, ◌∙◌}
use mathlib.Core.List.{List, [], ◌∷◌, ◌++◌}
use mathlib.Core.Option.{Option, none, some}
use native.Mathlib.Omega.{arith}

module _ {ℓ} {A : Type ℓ} where
  abbrev pub length : List A → ℕ
  length [] = 0
  length (x ∷ xs) = suc (length xs)

  abbrev pub get_elem? : List A → ℕ → Option A
  get_elem? [] i = none
  get_elem? (x ∷ xs) zero = some x
  get_elem? (x ∷ xs) (suc i) = get_elem? xs i

  abbrev pub get_or : List A → ℕ → A → A
  get_or [] i d = d
  get_or (x ∷ xs) zero d = x
  get_or (x ∷ xs) (suc i) d = get_or xs i d

  abbrev pub take : ℕ → List A → List A
  take zero xs = []
  take (suc n) [] = []
  take (suc n) (x ∷ xs) = x ∷ take n xs

  abbrev pub drop : ℕ → List A → List A
  drop zero xs = xs
  drop (suc n) [] = []
  drop (suc n) (x ∷ xs) = drop n xs

  -- An index past the end inserts at the end, and erases nothing.
  abbrev pub insert_at : ℕ → A → List A → List A
  insert_at zero y xs = y ∷ xs
  insert_at (suc i) y [] = y ∷ []
  insert_at (suc i) y (x ∷ xs) = x ∷ insert_at i y xs

  abbrev pub erase_idx : ℕ → List A → List A
  erase_idx i [] = []
  erase_idx zero (x ∷ xs) = xs
  erase_idx (suc i) (x ∷ xs) = x ∷ erase_idx i xs

  pub length-append : (xs ys : List A) → length (xs ++ ys) ≡ length xs + length ys
  length-append [] ys = omega arith
  length-append (x ∷ xs) ys = omega (arith, length-append xs ys)

  pub length-erase_idx : (i : ℕ) (xs : List A) → length (erase_idx i xs) ≤ length xs
  length-erase_idx i [] = omega arith
  length-erase_idx zero (x ∷ xs) = omega arith
  length-erase_idx (suc i) (x ∷ xs) = omega (arith, length-erase_idx i xs)

  pub insert_at-erase_idx :
      (i : ℕ) (d : A) (xs : List A)
      → i < length xs
      → insert_at i (get_or xs i d) (erase_idx i xs) ≡ xs
  insert_at-erase_idx i d [] h = absurd (omega arith)
  insert_at-erase_idx zero d (x ∷ xs) h = refl
  insert_at-erase_idx (suc i) d (x ∷ xs) h = ap (x ∷◌) (insert_at-erase_idx i d xs (omega arith))

  pub length-erase_idx_lt :
      (i : ℕ) (xs : List A) → i < length xs → suc (length (erase_idx i xs)) ≡ length xs
  length-erase_idx_lt i [] h = absurd (omega arith)
  length-erase_idx_lt zero (x ∷ xs) h = refl
  length-erase_idx_lt (suc i) (x ∷ xs) h = ap suc (length-erase_idx_lt i xs (omega arith))

  pub append_assoc : (xs ys zs : List A) → (xs ++ ys) ++ zs ≡ xs ++ (ys ++ zs)
  append_assoc [] ys zs = refl
  append_assoc (x ∷ xs) ys zs = ap (x ∷◌) (append_assoc xs ys zs)

  pub append_nil : (xs : List A) → xs ++ [] ≡ xs
  append_nil [] = refl
  append_nil (x ∷ xs) = ap (x ∷◌) (append_nil xs)

  pub take-drop : (n : ℕ) (xs : List A) → take n xs ++ drop n xs ≡ xs
  take-drop zero xs = refl
  take-drop (suc n) [] = refl
  take-drop (suc n) (x ∷ xs) = ap (x ∷◌) (take-drop n xs)

  pub drop-all : (n : ℕ) (xs : List A) → length xs ≤ n → drop n xs ≡ []
  drop-all zero [] h = refl
  drop-all (suc n) [] h = refl
  drop-all zero (x ∷ xs) h = absurd (omega arith)
  drop-all (suc n) (x ∷ xs) h = drop-all n xs (omega arith)

  pub drop-append : (xs ys : List A) (k : ℕ) → drop (length xs + k) (xs ++ ys) ≡ drop k ys
  drop-append [] ys k = ap (λ n. drop n ys) (omega arith)
  drop-append (x ∷ xs) ys k =
      let e : suc (length xs) + k ≡ suc (length xs + k) = omega arith in
      ap (λ n. drop n (x ∷ (xs ++ ys))) e ∙ drop-append xs ys k

  pub drop_within : (n : ℕ) (xs ys : List A) → n ≤ length xs → drop n (xs ++ ys) ≡ drop n xs ++ ys
  drop_within zero xs ys h = refl
  drop_within (suc n) [] ys h = absurd (omega arith)
  drop_within (suc n) (x ∷ xs) ys h = drop_within n xs ys (omega arith)

  pub take-all : (n : ℕ) (xs : List A) → length xs ≤ n → take n xs ≡ xs
  take-all zero [] h = refl
  take-all (suc n) [] h = refl
  take-all zero (x ∷ xs) h = absurd (omega arith)
  take-all (suc n) (x ∷ xs) h = ap (x ∷◌) (take-all n xs (omega arith))

  pub take-take : (k n : ℕ) (xs : List A) → k ≤ n → take k (take n xs) ≡ take k xs
  take-take zero n xs h = refl
  take-take (suc k) zero xs h = absurd (omega arith)
  take-take (suc k) (suc n) [] h = refl
  take-take (suc k) (suc n) (x ∷ xs) h = ap (x ∷◌) (take-take k n xs (omega arith))

  drop_nil : (k : ℕ) → drop k [] ≡ []
  drop_nil zero = refl
  drop_nil (suc k) = refl

  take_nil : (k : ℕ) → take k [] ≡ []
  take_nil zero = refl
  take_nil (suc k) = refl

  pub drop-drop : (n k : ℕ) (xs : List A) → drop k (drop n xs) ≡ drop (n + k) xs
  drop-drop zero k xs = let e : k ≡ 0 + k = omega arith in ap (λ n. drop n xs) e
  drop-drop (suc n) k [] = drop_nil k ∙ sym (drop_nil (suc n + k))
  drop-drop (suc n) k (x ∷ xs) =
      let e : suc (n + k) ≡ suc n + k = omega arith in
      drop-drop n k xs ∙ ap (λ m. drop m (x ∷ xs)) e

  pub drop-take : (k n : ℕ) (xs : List A) → drop k (take n xs) ≡ take (n - k) (drop k xs)
  drop-take zero n xs = let e : n ≡ n - 0 = omega arith in ap (λ m. take m xs) e
  drop-take (suc k) zero xs =
      let e : 0 ≡ 0 - suc k = omega arith in ap (λ m. take m (drop (suc k) xs)) e
  drop-take (suc k) (suc n) [] = sym (take_nil (suc n - suc k))
  drop-take (suc k) (suc n) (x ∷ xs) =
      let e : n - k ≡ suc n - suc k = omega arith in
      drop-take k n xs ∙ ap (λ m. take m (drop k xs)) e

  pub length-drop : (n : ℕ) (xs : List A) → length (drop n xs) ≡ length xs - n
  length-drop zero xs = omega arith
  length-drop (suc n) [] = omega arith
  length-drop (suc n) (x ∷ xs) = omega (arith, length-drop n xs)

  pub length-take : (n : ℕ) (xs : List A) → n ≤ length xs → length (take n xs) ≡ n
  length-take zero xs h = refl
  length-take (suc n) [] h = absurd (omega arith)
  length-take (suc n) (x ∷ xs) h = ap suc (length-take n xs (omega arith))
