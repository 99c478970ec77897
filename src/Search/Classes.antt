-- ===== src/Search/Classes.antt =====
-- src/search.c: how many rounds a class takes, and what it leaves of the pattern.
use sciteco.Prelude.{
  ℕ, zero, suc, ◌+◌, ◌≤◌, ◌<◌, ◌≡◌, refl, Bool, true, false, Option, none, some, List, [], ◌∷◌,
  length, take, drop, ◌==◌, if◌then◌else◌, arith, length-drop,
}
use sciteco.Numbers.{ascii_toupper}
use sciteco.Building.{Register, SpecStatus, spec_error, spec_more, spec_done, SpecMachine}
use sciteco.Search.{
  Characters, SearchState, search_start, search_ctl, search_escape, search_not, search_ctl_e,
  search_anyq, search_many, search_alt, is_search_start, ClassResult, class_error, class_no_fuel,
  class_done, class_name, posix, alnum, more, class_of_register, class_round, class_loop,
  class2regexp,
}

-- A round in some state counts beside two rounds for each byte.
abbrev pub weight : SearchState → ℕ
weight search_escape = 0
weight search_start = 1
weight search_ctl = 1
weight _ = 2

-- The states in which a byte is read, and those in which a round begins.
abbrev pub is_read_in : SearchState → Bool
is_read_in search_ctl = false
is_read_in search_anyq = false
is_read_in _ = true

abbrev pub is_read : SearchState → List ℕ → Bool
is_read s [] = true
is_read s (c ∷ cs) = is_read_in s

abbrev pub is_not_ctl : SearchState → Bool
is_not_ctl search_ctl = false
is_not_ctl _ = true

-- What a class leaves of a pattern of `n` bytes.
abbrev pub ClassBound : {Q : Type 0} → ℕ → ℕ → ClassResult Q → Type 0
ClassBound n k class_error = Unit {0}
ClassBound n k class_no_fuel = ⊥
ClassBound n k (class_done [] s p m) =
    (length p + length p + weight s ≤ n + n + k) × (length p ≤ n) × (is_read s p ≡ true)
ClassBound n k (class_done (x ∷ re) s p m) = (is_search_start s ≡ true) × (length p < n)

module _ (t : Characters) (q : SpecMachine) where
  register_bound :
      (reg : Option Register) (n k : ℕ) (p : List ℕ) (m : q.Spec)
      → length p < n
      → ClassBound n k (class_of_register t q reg p m)
  unfolding class_of_register
  register_bound none n k p m h = tt
  register_bound (some reg) n k p m h = by_string reg.string
    where
      by_text : (re : List ℕ) → ClassBound n k (class_done re search_start p (q.reset m))
      by_text [] = (omega arith, omega arith, by_rest p)
        where
          by_rest : (p : List ℕ) → is_read search_start p ≡ true
          by_rest [] = refl
          by_rest (c ∷ cs) = refl
      by_text (x ∷ re) = (refl, h)

      by_string :
          (o : Option (List ℕ))
          → ClassBound n k (elim o [
            | none ↦ class_error
            | some str ↦ class_done (t.regex_escape str) search_start p (q.reset m)
          ])
      by_string none = tt
      by_string (some str) = by_text (t.regex_escape str)

  begun_read :
      (s : SearchState) (c : ℕ) (cs : List ℕ) → is_read_in s ≡ true → is_read s (c ∷ cs) ≡ true
  begun_read s c cs h = h

  start_read : (p : List ℕ) → is_read search_start p ≡ true
  start_read [] = refl
  start_read (c ∷ cs) = refl

  -- A class bound for a pattern that is shorter.
  weaken_class :
      (n m k j : ℕ) (r : ClassResult q.Spec)
      → m < n
      → m + m + j ≤ n + n + k
      → ClassBound m j r
      → ClassBound n k r
  weaken_class n m k j class_error h e b = tt
  weaken_class n m k j class_no_fuel h e b = absurd b
  weaken_class n m k j (class_done [] s p v) h e b = (omega (arith, b.0), omega (arith, b.1), b.2)
  weaken_class n m k j (class_done (x ∷ re) s p v) h e b = (b.0, omega (arith, b.1))

  if_bound :
      (b : Bool) (n k : ℕ) (x y : ClassResult q.Spec)
      → ClassBound n k x
      → ClassBound n k y
      → ClassBound n k (if b then x else y)
  if_bound true n k x y h l = h
  if_bound false n k x y h l = l

  -- A class that is written, with less than `n` bytes left.
  written_bound :
      (n k : ℕ) (re p : List ℕ) (m : q.Spec)
      → length p < n
      → 0 < k + 1
      → ClassBound n k (class_done re search_start p m)
  written_bound n k [] p m h z = (omega arith, omega arith, start_read p)
  written_bound n k (x ∷ re) p m h z = (refl, h)

  pub drop_short : (k c : ℕ) (cs : List ℕ) → length (drop k cs) < length (c ∷ cs)
  drop_short k c cs = omega (arith, length-drop k cs)

  status_bound :
      (self : SearchState → List ℕ → q.Spec → ClassResult q.Spec) (n k : ℕ) (p : List ℕ)
      (r : SpecStatus q.Spec)
      → length p < n
      → ((m : q.Spec) → ClassBound (length p) 2 (self search_anyq p m))
      → 1 < k
      → ClassBound n k (elim r [
        | spec_error ↦ class_error
        | spec_more m' ↦ self search_anyq p m'
        | spec_done reg m' ↦ class_of_register t q reg p m'
      ])
  status_bound self n k p spec_error h ih z = tt
  status_bound self n k p (spec_more m) h ih z =
      weaken_class (n) (length p) k 2 _ h (omega arith) (ih m)
  status_bound self n k p (spec_done reg m) h ih z = register_bound reg n k p m h

  round_bound :
      (self : SearchState → List ℕ → q.Spec → ClassResult q.Spec) (escape_default : Bool)
      (s : SearchState) (c : ℕ) (cs : List ℕ) (m : q.Spec)
      → ((s : SearchState) (p : List ℕ) (m : q.Spec)
          → length p ≤ length cs
          → is_not_ctl s ≡ true
          → ClassBound (length p) (weight s) (self s p m))
      → is_not_ctl s ≡ true
      → ClassBound (suc (length cs)) (weight s) (class_round t q self escape_default s c cs m)
  unfolding class_round
  round_bound self e search_start c cs m ih h =
      if_bound (c == 0x13) _ _ _ _
        (written_bound (suc (length cs)) 1 (posix (b'^' ∷ alnum)) cs m (omega arith) (omega arith))
        (if_bound (c == 5) _ _ _ _
          (weaken_class (suc (length cs)) (length cs) 1 2 _ (omega arith) (omega arith)
            (ih search_ctl_e cs m (omega arith) refl))
          (if_bound e _ _ _ _
            (written_bound (suc (length cs)) 1 (t.regex_escape (c ∷ take (more t q c) cs))
              (drop (more t q c) cs) m (drop_short (more t q c) c cs) (omega arith))
            (omega arith, omega arith, refl)))
  round_bound self e search_ctl_e c cs m ih h = by_name (class_name (ascii_toupper c))
    where
      by_name :
          (o : Option (List ℕ))
          → ClassBound (suc (length cs)) 2 (elim o [
            | some re ↦ class_done re search_start cs m
            | none ↦
                if ascii_toupper c == b'G'
                then self search_anyq cs m
                else class_done [] search_ctl_e (c ∷ cs) m
          ])
      by_name (some re) = written_bound (suc (length cs)) 2 re cs m (omega arith) (omega arith)
      by_name none =
          if_bound (ascii_toupper c == b'G') _ _ _ _
            (weaken_class (suc (length cs)) (length cs) 2 2 _ (omega arith) (omega arith)
              (ih search_anyq cs m (omega arith) refl))
            (omega arith, omega arith, refl)
  round_bound self e search_anyq c cs m ih h =
      status_bound self (suc (length cs)) 2 (drop (more t q c) cs) _ (drop_short (more t q c) c cs)
        (λ v.
          ih search_anyq (drop (more t q c) cs) v (omega (arith, drop_short (more t q c) c cs))
            refl)
        (omega arith)
  round_bound self e search_ctl c cs m ih h = absurd cc
  round_bound self e search_escape c cs m ih h = (omega arith, omega arith, refl)
  round_bound self e search_not c cs m ih h = (omega arith, omega arith, refl)
  round_bound self e search_many c cs m ih h = (omega arith, omega arith, refl)
  round_bound self e search_alt c cs m ih h = (omega arith, omega arith, refl)

  loop_bound :
      (fuel : ℕ) (escape_default : Bool) (s : SearchState) (p : List ℕ) (m : q.Spec)
      → length p ≤ fuel
      → is_not_ctl s ≡ true
      → ClassBound (length p) (weight s) (class_loop t q fuel escape_default s p m)
  unfolding class_loop
  loop_bound zero e s [] m h k = (omega arith, omega arith, refl)
  loop_bound (suc fuel) e s [] m h k = (omega arith, omega arith, refl)
  loop_bound zero e s (c ∷ cs) m h k = absurd (omega arith)
  loop_bound (suc fuel) e s (c ∷ cs) m h k =
      round_bound (class_loop t q fuel e) e s c cs m
        (λ s' p v le k'. loop_bound fuel e s' p v (omega arith) k') k

  pub class2regexp_bound :
      (escape_default : Bool) (s : SearchState) (p : List ℕ) (m : q.Spec)
      → is_not_ctl s ≡ true
      → ClassBound (length p) (weight s) (class2regexp t q escape_default s p m)
  unfolding class2regexp
  class2regexp_bound e s p m k = loop_bound (length p) e s p m (omega arith) k
