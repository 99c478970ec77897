-- ===== src/StringArg/Scanning.antt =====
-- src/parser.c: the characters of a string argument, up to its end.
use sciteco.Prelude.{ℕ, ◌≡◌, refl, ap, ◌∙◌, Bool, List, [], ◌∷◌, Option-cases, inl, inr}
use sciteco.Building.{Glib, SpecMachine}
use sciteco.StringArg.{
  StringArg, ArgStep, arg_error, arg_more, arg_end, arg_step, Command, ArgResult, failed, stays,
  leaves, on_step, expectstring_input, complete,
}

-- An error, an argument that does not end within the text, or its end and the text behind it.
pub data Scan (Q : Type 0) : Type 0 where
  scan_error : Scan Q
  scan_more : StringArg Q → Scan Q
  scan_end : StringArg Q → List ℕ → Scan Q

module _ (g : Glib) (q : SpecMachine) where
  unfoldable pub scan : Bool → Bool → List ℕ → StringArg q.Spec → Scan q.Spec
  scan building normally [] a = scan_more a
  scan building normally (chr ∷ cs) a = elim (arg_step g q building normally chr a) [
    | arg_error ↦ scan_error
    | arg_more a' ↦ scan building normally cs a'
    | arg_end a' ↦ scan_end a' cs
  ]

-- A command's argument within a text: an error, no end, or the end and the text behind it.
pub data Read (Q C : Type 0) : Type 0 where
  read_failed : Read Q C
  read_more : StringArg Q → C → Read Q C
  read_end : StringArg Q → C → List ℕ → Read Q C

module _ (g : Glib) (q : SpecMachine) {C : Type 0} (cmd : Command C) where
  unfoldable pub read : Bool → List ℕ → StringArg q.Spec → C → Read q.Spec C
  read normally [] a c = read_more a c
  read normally (chr ∷ cs) a c = elim (expectstring_input g q cmd normally chr a c) [
    | failed ↦ read_failed
    | stays a' c' ↦ read normally cs a' c'
    | leaves a' c' ↦ read_end a' c' cs
  ]

  -- What the callbacks make of the end of an argument.
  unfoldable pub at_end : ArgResult q.Spec C → List ℕ → Read q.Spec C
  at_end failed rest = read_failed
  at_end (stays a c) rest = read_more a c
  at_end (leaves a c) rest = read_end a c rest

  ended :
      (normally : Bool) (cs : List ℕ) (b : StringArg q.Spec) (c : C)
      → (elim (on_step g q cmd c (arg_end b)) [
        | failed ↦ read_failed
        | stays a' c' ↦ read normally cs a' c'
        | leaves a' c' ↦ read_end a' c' cs
      ])
        ≡ at_end (on_step g q cmd c (arg_end b)) cs
  unfolding on_step at_end
  ended normally cs b c = elim (Option-cases (complete cmd b c)) [
    | inl k ↦ rw (k, on_step) refl
    | inr (c', k) ↦ rw (k, on_step) refl
  ]

  on_arg :
      (normally : Bool) (chr : ℕ) (cs rest : List ℕ) (a a' : StringArg q.Spec) (c : C)
      (s : ArgStep q.Spec)
      → arg_step g q cmd.string_building normally chr a ≡ s
      → ((b : StringArg q.Spec)
          → scan g q cmd.string_building normally cs b ≡ scan_end a' rest
          → read normally cs b c ≡ at_end (on_step g q cmd c (arg_end a')) rest)
      → (elim s [
        | arg_error ↦ scan_error
        | arg_more b ↦ scan g q cmd.string_building normally cs b
        | arg_end b ↦ scan_end b cs
      ])
        ≡ scan_end a' rest
      → read normally (chr ∷ cs) a c ≡ at_end (on_step g q cmd c (arg_end a')) rest
  unfolding read expectstring_input
  on_arg normally chr cs rest a a' c arg_error e ih h = absurd cc
  on_arg normally chr cs rest a a' c (arg_more b) e ih h = rw (e, read) (ih b h)
  on_arg normally chr cs rest a a' c (arg_end b) e ih h =
      let same : b ≡ a' = cc in
      let behind : cs ≡ rest = cc in
      rw (e, read)
        (ended normally cs b c
          ∙ ap (λ (x : StringArg q.Spec). at_end (on_step g q cmd c (arg_end x)) cs) same
          ∙ ap (at_end (on_step g q cmd c (arg_end a'))) behind)

  -- The callbacks see the argument that the characters up to its end have made.
  pub read-scan :
      (normally : Bool) (cs rest : List ℕ) (a a' : StringArg q.Spec) (c : C)
      → scan g q cmd.string_building normally cs a ≡ scan_end a' rest
      → read normally cs a c ≡ at_end (on_step g q cmd c (arg_end a')) rest
  unfolding scan
  read-scan normally [] rest a a' c h = absurd cc
  read-scan normally (chr ∷ cs) rest a a' c h =
      on_arg normally chr cs rest a a' c _ refl (λ b k. read-scan normally cs rest b a' c k) h
