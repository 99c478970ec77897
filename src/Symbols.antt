-- ===== src/Symbols.antt =====
-- src/symbols.c: the search for a symbol. The comparison of the list, strncmp() or
-- g_ascii_strncasecmp(), is a parameter.
pub mod Search
pub mod Completion
pub mod Narrowing
pub mod Completing
use sciteco.Prelude.{
  ℕ, zero, suc, ◌+◌, ◌-◌, ◌/◌, Option, none, some, List, [], ltb, if◌then◌else◌, length, drop,
  get_or,
}
use sciteco.Strings.{Sign, less, equal, greater}

-- teco_symbol_entry_t
pub record SymbolEntry : Type 0 where
  pub name : List ℕ
  pub value : ℕ

-- The result: the value, -1, or too little fuel.
pub data Lookup : Type 0 where
  found : ℕ → Lookup
  missing : Lookup
  no_fuel : Lookup

abbrev pub no_entry : SymbolEntry
no_entry = record { name = []; value = 0 }

-- teco_symbol_list_t: the entries and cmp_fnc, which compares at most a number of bytes.
pub record SymbolList : Type 0 where
  pub entries : List SymbolEntry
  pub cmp_fnc : List ℕ → List ℕ → ℕ → Sign

-- ctx->cmp_fnc(ctx->entries[cur].name + prefix_skip, name, name_len + 1)
unfoldable pub compare_at : SymbolList → List ℕ → ℕ → ℕ → Sign
compare_at ctx name prefix_skip cur =
    ctx.cmp_fnc (drop prefix_skip (get_or ctx.entries cur no_entry).name) name (length name + 1)

abbrev pub choose : {A : Type 0} → Sign → A → A → A → A
choose less x y z = x
choose equal x y z = y
choose greater x y z = z

-- The loop of teco_symbol_list_lookup(), where `bound` is right + 1, since right may be -1.
unfoldable pub lookup_loop : ℕ → SymbolList → List ℕ → ℕ → ℕ → ℕ → Lookup
lookup_loop zero ctx name prefix_skip left bound = no_fuel
lookup_loop (suc fuel) ctx name prefix_skip left bound =
    let cur = left + (bound - 1 - left) / 2 in
    let below = lookup_loop fuel ctx name prefix_skip left cur in
    let above = lookup_loop fuel ctx name prefix_skip (cur + 1) bound in
    if ltb left bound
    then choose (compare_at ctx name prefix_skip cur) above
        (found (get_or ctx.entries cur no_entry).value) below
    else missing

-- A name that begins with the prefix is compared as a whole.
abbrev pub skip_of : SymbolList → List ℕ → List ℕ → ℕ
skip_of ctx name prefix =
    choose (ctx.cmp_fnc name prefix (length prefix)) (length prefix) 0 (length prefix)

-- teco_symbol_list_lookup()
unfoldable pub lookup : SymbolList → List ℕ → List ℕ → Lookup
unfolding lookup_loop
lookup ctx name prefix =
    lookup_loop (suc (length ctx.entries)) ctx name (skip_of ctx name prefix) 0 (length ctx.entries)
