-- ===== src/Symbols/Completion.antt =====
-- src/symbols.c: the completion of a symbol. The list of names stands for ctx->list.
use sciteco.Prelude.{
  ℕ, suc, Bool, Option, none, some, List, [], ◌∷◌, ltb, ◌==◌, ◌||◌, if◌then◌else◌, length, take,
  drop,
}
use sciteco.Strings.{Utf8, string_casediff}
use sciteco.Strings.Folding.{begins}

-- The list of the names that match, their number, and the length of the prefix.
pub record Matches : Type 0 where
  pub glist : List (List ℕ)
  pub glist_len : ℕ
  pub prefix_len : ℕ

abbrev pub narrow : ℕ → ℕ → ℕ
narrow prefix_len len = if (prefix_len == 0) || ltb len prefix_len then len else prefix_len

-- The first name of the list: a name is compared with itself if all in front of it are deleted.
abbrev pub first_of : Option (List ℕ) → List ℕ → List ℕ
first_of none entry = entry
first_of (some first) entry = first

-- The loop of teco_symbol_list_auto_complete(), with the first name that matches
unfoldable pub complete_loop : Utf8 → List ℕ → Option (List ℕ) → ℕ → ℕ → List (List ℕ) → Matches
complete_loop u symbol first prefix_len glist_len [] = record {
  glist = [];
  glist_len = glist_len;
  prefix_len = prefix_len;
}
complete_loop u symbol first prefix_len glist_len (entry ∷ entries) =
    let head = first_of first entry in
    let len = string_casediff u (drop (length symbol) head) (drop (length symbol) entry) in
    let skip = complete_loop u symbol first prefix_len glist_len entries in
    let rest = complete_loop u symbol (some head) (narrow prefix_len len) (suc glist_len) entries in
    if begins symbol entry then record rest { glist = entry ∷ rest.glist } else skip

-- What is inserted, what is shown in a popup, and whether the completion is unambiguous.
pub record Completion : Type 0 where
  pub insert : List ℕ
  pub popup : List (List ℕ)
  pub unambiguous : Bool

abbrev pub first_name : List (List ℕ) → List ℕ
first_name [] = []
first_name (name ∷ names) = name

abbrev pub completed : List ℕ → Matches → Completion
completed symbol m = record {
  insert =
      if ltb 0 m.prefix_len
      then take m.prefix_len (drop (length symbol) (first_name m.glist))
      else [];
  popup = if ltb 0 m.prefix_len then [] else if ltb 1 m.glist_len then m.glist else [];
  unambiguous = m.glist_len == 1;
}

-- teco_symbol_list_auto_complete()
unfoldable pub auto_complete : Utf8 → List ℕ → List (List ℕ) → Completion
unfolding complete_loop
auto_complete u symbol names = completed symbol (complete_loop u symbol none 0 0 names)
