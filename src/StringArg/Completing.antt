-- ===== src/StringArg/Completing.antt =====
-- src/parser.c: text that is escaped for the command line by teco_machine_stringbuilding_escape().
use sciteco.Prelude.{
  both, ℕ, ◌+◌, ◌-◌, ◌≡◌, refl, ap, ◌∙◌, Bool, true, false, List, [], ◌∷◌, ◌++◌, length, ◌==◌, ◌&&◌,
  ◌||◌, not, if◌then◌else◌, Bool-cases, inl, inr, arith, append_assoc, length-append, append_nil,
}
use sciteco.Strings.{is_ctl}
use sciteco.Building.{
  Glib, SpecMachine, BuildState, start, escaped, mode_normal, Building, start_input, escaped_input,
  ctl_input, ctl_case, emit, fold_chr,
}
use sciteco.Building.Input.{building_input, state_input, take_step, must_escape, building_escape}
use sciteco.StringArg.{
  StringArg, arg_more, arg_end, Command, on_step, count_nesting, arg_step, collect, built,
}
use sciteco.StringArg.Scanning.{scan_end, scan, read, at_end, read-scan}

-- The characters as bytes.
abbrev pub encode : Glib → List ℕ → List ℕ
encode g [] = []
encode g (chr ∷ str) = g.unichar_to_utf8 chr ++ encode g str

-- A character that string building does not take for a construct, or that is escaped.
abbrev pub is_literal : Glib → ℕ → ℕ → Bool
is_literal g escape_char chr =
    must_escape g escape_char chr || (not (chr == b'^') && not (is_ctl chr))

abbrev pub all_literal : Glib → ℕ → List ℕ → Bool
all_literal g escape_char [] = true
all_literal g escape_char (chr ∷ str) =
    is_literal g escape_char chr && all_literal g escape_char str

-- The character that ends the argument.
abbrev pub is_terminator : Glib → ℕ → ℕ → Bool
is_terminator g escape_char chr =
    if escape_char == b'{' then chr == b'}' else g.unichar_toupper chr == escape_char

-- An argument in which `s` has been read, with the machine in a state.
abbrev pub reading : {Q : Type 0} → Building Q → BuildState → List ℕ → ℕ → ℕ → StringArg Q
reading b state s n nesting = record {
  string = s;
  insert_len = n;
  nesting = nesting;
  machine = record b { current = state; mode = mode_normal };
  modifier_at = false;
}

module _ (g : Glib) (q : SpecMachine) (b : Building q.Spec) where
  -- A character that is not escaped is appended.
  literal_step :
      (chr n : ℕ) (s : List ℕ)
      → must_escape g b.escape_char chr ≡ false
      → (chr == b'^') ≡ false
      → is_ctl chr ≡ false
      → (g.unichar_toupper b'{' == b'{') ≡ true
      → arg_step g q true true chr (reading b start s n 1)
        ≡ arg_more (
            reading b start
              (s ++ g.unichar_to_utf8 chr)
              (n + length (s ++ g.unichar_to_utf8 chr) - length s)
              1)
  unfolding arg_step count_nesting collect built building_input state_input take_step start_input
      escaped_input emit fold_chr must_escape
  literal_step chr n s m c k brace = ground arith

  quote_step :
      (n : ℕ) (s : List ℕ)
      → (g.unichar_toupper 17 == b.escape_char) ≡ false
      → arg_step g q true true 17 (reading b start s n 1)
        ≡ arg_more (reading b escaped s (n + length s - length s) 1)
  unfolding arg_step count_nesting collect built building_input state_input take_step start_input
      ctl_input ctl_case
  quote_step n s e = ground arith

  escaped_step :
      (chr n : ℕ) (s : List ℕ)
      → arg_step g q true true chr (reading b escaped s n 1)
        ≡ arg_more (
            reading b start
              (s ++ g.unichar_to_utf8 chr)
              (n + length (s ++ g.unichar_to_utf8 chr) - length s)
              1)
  unfolding arg_step count_nesting collect built building_input state_input take_step escaped_input
      emit fold_chr
  escaped_step chr n s = refl

  end_step :
      (chr n : ℕ) (s : List ℕ)
      → is_terminator g b.escape_char chr ≡ true
      → arg_step g q true true chr (reading b start s n 1) ≡ arg_end (reading b start s n 1)
  unfolding arg_step count_nesting
  end_step chr n s e = ground arith

  -- The argument behind the escaped text, whatever it counts as new.
  scan-building_escape :
      (str rest s : List ℕ) (n t : ℕ)
      → (g.unichar_toupper b'{' == b'{') ≡ true
      → (g.unichar_toupper 17 == b.escape_char) ≡ false
      → is_terminator g b.escape_char t ≡ true
      → all_literal g b.escape_char str ≡ true
      → scan g q true true
          (building_escape g b.escape_char str ++ (t ∷ rest))
          (reading b start s n 1)
        ≡ scan_end (reading b start (s ++ encode g str) (n + length (encode g str)) 1) rest
  unfolding scan building_escape
  scan-building_escape [] rest s n t brace quote e h =
      rw (end_step t n s e, scan)
        (rw append_nil (ap (λ k. scan_end (reading b start s k 1) rest) (omega arith)))
  scan-building_escape (chr ∷ str) rest s n t brace quote e h =
      let (lit, later) =
        both (is_literal g b.escape_char chr) (all_literal g b.escape_char str) h in
      let bytes : List ℕ = g.unichar_to_utf8 chr in
      elim (Bool-cases (must_escape g b.escape_char chr)) [
        | inl m ↦
            rw (m, building_escape)
              (rw (quote_step n s quote, scan)
                (rw (escaped_step chr (n + length s - length s) s, scan)
                  (scan-building_escape str rest (s ++ bytes)
                      (n + length s - length s + length (s ++ bytes) - length s) t brace quote e
                      later
                    ∙ grown s bytes (encode g str) _ n rest
                        (omega (arith, length-append s bytes)))))
        | inr m ↦
            rw (m, building_escape)
              (rw (literal_step chr n s m (caret _ _ _ m lit) (control _ _ _ m lit) brace, scan)
                (scan-building_escape str rest (s ++ bytes) (n + length (s ++ bytes) - length s) t
                    brace quote e later
                  ∙ grown s bytes (encode g str) _ n rest (omega (arith, length-append s bytes))))
      ]
    where
      caret : (a c d : Bool) → a ≡ false → (a || (not c && not d)) ≡ true → c ≡ false
      caret a c d h k = ground (arith, h, k)

      control : (a c d : Bool) → a ≡ false → (a || (not c && not d)) ≡ true → d ≡ false
      control a c d h k = ground (arith, h, k)

      grown :
          (s bytes more : List ℕ) (m n : ℕ) (rest : List ℕ)
          → m ≡ n + length bytes
          → scan_end (reading b start ((s ++ bytes) ++ more) (m + length more) 1) rest
            ≡ scan_end (reading b start (s ++ (bytes ++ more)) (n + length (bytes ++ more)) 1) rest
      grown s bytes more m n rest e =
          ap (λ x. scan_end (reading b start x (m + length more) 1) rest)
            (append_assoc s bytes more)
          ∙ ap (λ k. scan_end (reading b start (s ++ (bytes ++ more)) k 1) rest)
              (omega (arith, e, length-append bytes more))

-- Text that is escaped for the command line and typed into an empty string argument with string
-- building, in front of the character that ends the argument, is passed to the command as it was,
-- encoded in UTF-8. It is assumed that the text has no caret or control character but those that
-- are escaped, that no letter is folded, that the upper case of ^Q does not end the argument, and
-- that an opening brace is its own upper case.
pub read-building_escape :
    {C : Type 0} (g : Glib) (q : SpecMachine) (cmd : Command C) (b : Building q.Spec)
    (str rest : List ℕ) (t : ℕ) (c : C)
    → cmd.string_building ≡ true
    → (g.unichar_toupper b'{' == b'{') ≡ true
    → (g.unichar_toupper 17 == b.escape_char) ≡ false
    → is_terminator g b.escape_char t ≡ true
    → all_literal g b.escape_char str ≡ true
    → read g q cmd true
        (building_escape g b.escape_char str ++ (t ∷ rest))
        (reading b start [] 0 1)
        c
      ≡ at_end g q cmd
          (on_step g q cmd c (arg_end (reading b start (encode g str) (length (encode g str)) 1)))
          rest
read-building_escape g q cmd b str rest t c building brace quote e h =
    read-scan g q cmd true _ rest _ _ c (
      ap
        (λ f.
          scan g q f true (building_escape g b.escape_char str ++ (t ∷ rest))
            (reading b start [] 0 1))
        building
      ∙ scan-building_escape g q b str rest [] 0 t brace quote e h
      ∙ ap (λ n. scan_end (reading b start (encode g str) n 1) rest) (omega arith))
