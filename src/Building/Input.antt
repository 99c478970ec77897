-- ===== src/Building/Input.antt =====
-- src/parser.c: the states behind ^E of the string building machine, and the machine as a whole.
use sciteco.Prelude.{
  ℕ, Bool, true, false, Option, none, some, List, [], ◌∷◌, ◌++◌, length, ◌==◌, ◌||◌, ◌&&◌, not,
  if◌then◌else◌,
}
use sciteco.Numbers.{ascii_toupper, format}
use sciteco.Glob.{escape_pattern}
use sciteco.Building.{
  Glib, Register, SpecStatus, spec_error, spec_more, spec_done, SpecMachine, mode_normal,
  mode_upper, mode_lower, BuildState, start, ctl, escaped, lower, lower_ctl, upper, upper_ctl, ctle,
  ctle_num, ctle_u, ctle_code, ctle_q, ctle_quote, ctle_n, Building, Step, emit, has_null, fold_str,
  append_c, start_input, ctl_input, escaped_input, folding_input, case_ctl_input,
}

-- teco_machine_stringbuilding_append()
abbrev append_str : Glib → {Q : Type 0} → Building Q → List ℕ → List ℕ → List ℕ
append_str g b s str = s ++ fold_str g b.mode b.is_utf8 str

-- What a state does with a register in the end; none is an error.
abbrev pub Finish : Type 0 → Type 0
Finish Q = Building Q → Register → List ℕ → Option (List ℕ)

module _ (g : Glib) {Q : Type 0} where
  -- teco_state_stringbuilding_ctle_num_input()
  unfoldable pub finish_num : Finish Q
  unfolding fold_str
  finish_num b reg s = elim reg.integer [
    | none ↦ none
    | some value ↦ elim (format value b.radix) [
      | none ↦ none
      | some num ↦ some (append_str g b s num)
    ]
  ]

  -- teco_state_stringbuilding_ctle_u_input()
  unfoldable pub finish_u : Finish Q
  unfolding append_c
  finish_u b reg s = elim reg.integer [
    | none ↦ none
    | some value ↦ elim (append_c g b.mode b.is_utf8 value) [
      | none ↦ none
      | some bytes ↦ some (s ++ bytes)
    ]
  ]

  -- teco_state_stringbuilding_ctle_q_input()
  unfoldable pub finish_q : Finish Q
  unfolding fold_str
  finish_q b reg s = elim reg.string [ none ↦ none | some str ↦ some (append_str g b s str) ]

  -- teco_state_stringbuilding_ctle_quote_input()
  unfoldable pub finish_quote : Finish Q
  unfolding fold_str
  finish_quote b reg s = elim reg.string [
    | none ↦ none
    | some str ↦ if has_null str then none else some (append_str g b s (g.shell_quote str))
  ]

  -- teco_state_stringbuilding_ctle_n_input()
  unfoldable pub finish_n : Finish Q
  unfolding fold_str escape_pattern
  finish_n b reg s = elim reg.string [
    | none ↦ none
    | some str ↦ if has_null str then none else some (append_str g b s (escape_pattern str))
  ]

  -- A specification is complete; nothing is done with the register in parse-only mode.
  unfoldable pub finished : Finish Q → Building Q → Option Register → Option (List ℕ) → Step Q
  finished finish b reg none = some (start, b, none)
  finished finish b none (some s) = none
  finished finish b (some reg) (some s) = elim (finish b reg s) [
    | none ↦ none
    | some s' ↦ some (start, b, some s')
  ]

  unfoldable pub on_status :
      BuildState → Finish Q → Building Q → Option (List ℕ) → SpecStatus Q → Step Q
  unfolding finished
  on_status state finish b r spec_error = none
  on_status state finish b r (spec_more q) = some (state, record b { spec = some q }, r)
  on_status state finish b r (spec_done reg q) = finished finish (record b { spec = some q }) reg r

  -- The case '>' of teco_state_stringbuilding_ctle_code_input()
  unfoldable pub code_end : Building Q → List ℕ → Step Q
  unfolding append_c
  code_end b s =
      let (value, read, failed) = g.strtoll b.code in
      if length b.code == 0
      then none
      else if failed || not (read == length b.code)
      then none
      else elim (append_c g b.mode b.is_utf8 value) [
        | none ↦ none
        | some bytes ↦ some (start, record b { code = [] }, some (s ++ bytes))
      ]

  -- teco_state_stringbuilding_ctle_code_input()
  unfoldable pub code_input : ℕ → Building Q → Option (List ℕ) → Step Q
  unfolding code_end
  code_input chr b none = some (if chr == b'>' then start else ctle_code, b, none)
  code_input chr b (some s) =
      if chr == b'>'
      then code_end b s
      else some (ctle_code, record b { code = b.code ++ g.unichar_to_utf8 chr }, some s)

module _ (g : Glib) (q : SpecMachine) where
  -- machine_qregspec is allocated when it is needed first.
  unfoldable pub fresh_spec : Option q.Spec → q.Spec
  fresh_spec none = q.new
  fresh_spec (some s) = q.reset s

  -- teco_machine_qregspec_input() from a state; without the machine it is no valid call.
  unfoldable pub spec_input :
      BuildState → Finish q.Spec → ℕ → Building q.Spec → Option (List ℕ) → Step q.Spec
  unfolding on_status
  spec_input state finish chr b none = elim b.spec [
    | none ↦ none
    | some s ↦ on_status g state finish b none (q.input true chr s)
  ]
  spec_input state finish chr b (some str) = elim b.spec [
    | none ↦ none
    | some s ↦ on_status g state finish b (some str) (q.input false chr s)
  ]

  -- The state that teco_state_stringbuilding_ctle_input() selects.
  abbrev pub ctle_state : ℕ → Option BuildState
  ctle_state chr =
      if chr == b'\\'
      then some ctle_num
      else if chr == b'U'
      then some ctle_u
      else if chr == b'<'
      then some ctle_code
      else if chr == b'Q'
      then some ctle_q
      else if chr == b'@'
      then some ctle_quote
      else if chr == b'N'
      then some ctle_n
      else none

  -- teco_state_stringbuilding_ctle_input()
  unfoldable pub ctle_input : ℕ → Building q.Spec → Option (List ℕ) → Step q.Spec
  unfolding fresh_spec emit fold_str
  ctle_input chr b r = elim (ctle_state (ascii_toupper chr)) [
    | none ↦ some (start, b, emit (fold_str g b.mode b.is_utf8 (5 ∷ g.unichar_to_utf8 chr)) r)
    | some next ↦ some (next, record b { spec = some (fresh_spec b.spec) }, r)
  ]

  -- The input callbacks of the states.
  unfoldable pub state_input : BuildState → ℕ → Building q.Spec → Option (List ℕ) → Step q.Spec
  unfolding start_input ctl_input escaped_input folding_input case_ctl_input ctle_input code_input
      spec_input finish_num finish_u finish_q finish_quote finish_n
  state_input start = start_input g
  state_input ctl = ctl_input g
  state_input escaped = escaped_input g
  state_input lower = folding_input g b'V' mode_lower lower_ctl
  state_input lower_ctl = case_ctl_input g b'V' mode_lower
  state_input upper = folding_input g b'W' mode_upper upper_ctl
  state_input upper_ctl = case_ctl_input g b'W' mode_upper
  state_input ctle = ctle_input
  state_input ctle_num = spec_input ctle_num (finish_num g)
  state_input ctle_u = spec_input ctle_u (finish_u g)
  state_input ctle_code = code_input g
  state_input ctle_q = spec_input ctle_q (finish_q g)
  state_input ctle_quote = spec_input ctle_quote (finish_quote g)
  state_input ctle_n = spec_input ctle_n (finish_n g)

  -- teco_machine_input(): the next state becomes the current one.
  unfoldable pub take_step : Step q.Spec → Option (Building q.Spec × Option (List ℕ))
  take_step none = none
  take_step (some (next, b, r)) = some (record b { current = next }, r)

  -- teco_machine_stringbuilding_input()
  unfoldable pub building_input :
      ℕ → Building q.Spec → Option (List ℕ) → Option (Building q.Spec × Option (List ℕ))
  unfolding state_input take_step
  building_input chr b r = take_step (state_input b.current chr b r)

  unfoldable pub reset_spec : Option q.Spec → Option q.Spec
  reset_spec none = none
  reset_spec (some s) = some (q.reset s)

  -- teco_machine_stringbuilding_reset()
  unfoldable pub building_reset : Building q.Spec → Building q.Spec
  unfolding reset_spec
  building_reset b = record b { current = start; mode = mode_normal; spec = reset_spec b.spec }

-- The test of teco_machine_stringbuilding_escape().
unfoldable pub must_escape : Glib → ℕ → ℕ → Bool
must_escape g escape_char chr =
    (g.unichar_toupper chr == escape_char)
    || ((escape_char == b'[') && (chr == b']'))
    || ((escape_char == b'{') && (chr == b'}'))

-- teco_machine_stringbuilding_escape(), on characters
unfoldable pub building_escape : Glib → ℕ → List ℕ → List ℕ
unfolding must_escape
building_escape g escape_char [] = []
building_escape g escape_char (chr ∷ str) =
    (if must_escape g escape_char chr then 17 ∷ chr ∷ [] else chr ∷ [])
    ++ building_escape g escape_char str
