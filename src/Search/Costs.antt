-- ===== src/Search/Costs.antt =====
-- src/search.c: the rounds that the elements of a pattern take, and the fuel that they need.
use sciteco.Prelude.{
  ℕ, zero, suc, ◌+◌, ◌≤◌, ◌≡◌, refl, ap, List, [], ◌∷◌, ◌++◌, length, ltb, if◌then◌else◌, arith,
  length-append,
}
use sciteco.Search.Elements.{
  Element, quoted, plain, any_chr, spaces, no_word, class, not_chr, not_class, many, choice, Items,
  no_items, item, or, print, print_items, print_all,
}

-- The rounds that an element takes in the loop that reads it, and then the fuel that is left.
abbrev pub rounds : ℕ → ℕ → ℕ
rounds zero f = f
rounds (suc n) f = suc (rounds n f)

abbrev pub max : ℕ → ℕ → ℕ
max a b = if ltb a b then b else a

unfoldable mutual
  pub cost : Element → ℕ
  cost (quoted c cs) = 2
  cost (plain c) = 2
  cost any_chr = 1
  cost spaces = 1
  cost no_word = 1
  cost (class c) = 1
  cost (not_chr c cs) = 2
  cost (not_class c) = 2
  cost (many e) = 2
  cost (choice is) = suc (suc (items_cost is))

  pub items_cost : Items → ℕ
  items_cost no_items = 0
  items_cost (item e is) = suc (items_cost is)
  items_cost (or is) = suc (items_cost is)

-- The fuel that the elements within need.
unfoldable mutual
  unfolding cost

  pub need : Element → ℕ
  need (many e) = cost e + need e
  need (choice is) = items_need is
  need (quoted c cs) = 0
  need (plain c) = 0
  need any_chr = 0
  need spaces = 0
  need no_word = 0
  need (class c) = 0
  need (not_chr c cs) = 0
  need (not_class c) = 0

  pub items_need : Items → ℕ
  items_need no_items = 0
  items_need (item e is) = max (cost e + need e) (items_need is)
  items_need (or is) = items_need is

abbrev pub first : Element → ℕ
first (quoted c cs) = 0x11
first (plain c) = c
first any_chr = 0x18
first no_word = 0x13
first (not_chr c cs) = 0x0E
first (not_class c) = 0x0E
first _ = 5

unfoldable pub behind : Element → List ℕ
unfolding print
behind (quoted c cs) = c ∷ cs
behind (plain c) = []
behind any_chr = []
behind spaces = b'S' ∷ []
behind no_word = []
behind (class c) = c ∷ []
behind (not_chr c cs) = c ∷ cs
behind (not_class c) = 5 ∷ c ∷ []
behind (many e) = b'M' ∷ print e
behind (choice is) = b'[' ∷ (print_items is ++ (b']' ∷ []))

pub print_lem : (e : Element) → print e ≡ first e ∷ behind e
unfolding print behind
print_lem (quoted c cs) = refl
print_lem (plain c) = refl
print_lem any_chr = refl
print_lem spaces = refl
print_lem no_word = refl
print_lem (class c) = refl
print_lem (not_chr c cs) = refl
print_lem (not_class c) = refl
print_lem (many e) = refl
print_lem (choice is) = refl

pub rounds_lem : (n f : ℕ) → rounds n f ≡ n + f
rounds_lem zero f = omega arith
rounds_lem (suc n) f = omega (arith, rounds_lem n f)

pub rounds-suc : (n f : ℕ) → rounds n (suc f) ≡ suc (rounds n f)
rounds-suc zero f = refl
rounds-suc (suc n) f = ap suc (rounds-suc n f)

mutual
  unfolding cost need print print_items items_cost items_need

  -- Two rounds for each byte are enough for an element.
  cost_lem : (e : Element) → cost e + need e ≤ length (print e) + length (print e)
  cost_lem (quoted c cs) = omega arith
  cost_lem (plain c) = omega arith
  cost_lem any_chr = omega arith
  cost_lem spaces = omega arith
  cost_lem no_word = omega arith
  cost_lem (class c) = omega arith
  cost_lem (not_chr c cs) = omega arith
  cost_lem (not_class c) = omega arith
  cost_lem (many e) = omega (arith, cost_lem e)
  cost_lem (choice is) =
      omega (arith, items_cost_lem is, length-append (print_items is) (b']' ∷ []))

  items_cost_lem :
      (is : Items)
      → items_cost is + items_need is ≤ suc (length (print_items is) + length (print_items is))
  items_cost_lem no_items = omega arith
  items_cost_lem (item e is) =
      let some_byte : length (print e) ≡ suc (length (behind e)) = ap length (print_lem e) in
      ground (
        arith,
        cost_lem e,
        items_cost_lem is,
        length-append (print e) (print_items is),
        some_byte,
        items_le is,
      )
  items_cost_lem (or is) = omega (arith, items_cost_lem is)

  items_le : (is : Items) → items_cost is ≤ length (print_items is)
  items_le no_items = omega arith
  items_le (item e is) =
      let some_byte : length (print e) ≡ suc (length (behind e)) = ap length (print_lem e) in
      omega (arith, items_le is, length-append (print e) (print_items is), some_byte)
  items_le (or is) = omega (arith, items_le is)

unfoldable pub cost_all : List Element → ℕ
cost_all [] = 0
cost_all (e ∷ es) = cost e + cost_all es

unfoldable pub need_all : List Element → ℕ
need_all [] = 0
need_all (e ∷ es) = max (need e) (need_all es)

abbrev pub fuel_all : List Element → ℕ → ℕ
fuel_all [] f = f
fuel_all (e ∷ es) f = rounds (cost e) (fuel_all es f)

pub fuel_all_lem : (es : List Element) (f : ℕ) → fuel_all es f ≡ cost_all es + f
unfolding cost_all
fuel_all_lem [] f = omega arith
fuel_all_lem (e ∷ es) f = omega (arith, rounds_lem (cost e) (fuel_all es f), fuel_all_lem es f)

cost_all_le : (es : List Element) → cost_all es ≤ length (print_all es) + length (print_all es)
unfolding cost_all print
cost_all_le [] = omega arith
cost_all_le (e ∷ es) =
    omega (arith, cost_lem e, cost_all_le es, length-append (print e) (print_all es))

pub cost_all_lem :
    (es : List Element) → cost_all es + need_all es ≤ length (print_all es) + length (print_all es)
unfolding cost_all need_all print
cost_all_lem [] = omega arith
cost_all_lem (e ∷ es) =
    ground
      (arith, cost_lem e, cost_all_lem es, cost_all_le es, length-append (print e) (print_all es))
