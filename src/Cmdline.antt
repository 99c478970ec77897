-- ===== src/Cmdline.antt =====
-- src/cmdline.c: the command line, its execution character by character, and rubout. `K` is the type
-- of the keys and `step` one step of the machine that executes them.
pub mod Keys
pub mod OneKey
pub mod Sessions
use sciteco.Prelude.{
  ℕ, suc, ◌+◌, ◌-◌, ◌≤◌, ◌≡◌, Bool, true, false, Option, none, some, List, [], ◌∷◌, ◌++◌, arith,
  ltb, leb, ◌&&◌, if◌then◌else◌, length, take, drop,
}
use sciteco.Undo.{Undo, pop}
use sciteco.Undo
use sciteco.Expressions.Eval
use sciteco.Undo.Reverts.{Session}
use sciteco.Editor.{Vars, Token, act, State, whole, ParserState, state_start}
use sciteco.Expressions.Stacks.{Error, macro_return, Run, ok, err, crash, no_fuel, ◌>>◌}
use sciteco.Expressions.Rubout.{RunReverts}

-- The machine of src/parser.c as the command line sees it: a step, which pushes undo tokens for all
-- that it changes, and whether it has set TECO_ED_EXIT, which is no variable of the model.
pub record Machine (K : Type 0) : Type 0 where
  pub step : K → State → Run (Unit {0})
  pub wants_exit : State → Bool
  pub same : K → K → Bool
  pub taken_back : (c : K) (s : State) → RunReverts whole s (step c s)

-- teco_cmdline.str and teco_cmdline.effective_len: the keys behind the effective length are rubbed
-- out, but can be inserted again. teco_last_cmdline is the one that has been terminated last.
pub record Typed (K : Type 0) : Type 0 where
  pub str : List K
  pub effective_len : ℕ
  pub last_cmdline : List K

-- What teco_cmdline_keypress() leaves: TRUE, the error TECO_ERROR_QUIT, or a trap of the processor.
pub data Pressed (K : Type 0) : Type 0 where
  pressed : Typed K → State → Pressed K
  quits : Pressed K
  traps : Pressed K

-- teco_undo_pop() on the editor.
unfoldable pub rubout : ℕ → State → State
rubout k s = let r = pop act k s.undo s.vars in record s { undo = r.0; vars = r.1 }

-- teco_cmdline.pc++
unfoldable pub advance : State → State
advance s = record s { pc = suc s.pc }

-- teco_cmdline.pc = teco_cmdline.effective_len
unfoldable pub seek : ℕ → State → State
seek n s = record s { pc = n }

-- g_error_matches() with TECO_ERROR_RETURN
abbrev pub is_macro_return : Error → Bool
is_macro_return (macro_return n) = true
is_macro_return _ = false

-- Whether a run ends with a return
abbrev pub is_returning : Run (Unit {0}) → Bool
is_returning (ok _ s) = false
is_returning (err e s) = is_macro_return e
is_returning crash = false
is_returning no_fuel = false

abbrev pub is_state_start : ParserState → Bool
is_state_start state_start = true
is_state_start _ = false

-- teco_undo_clear(), teco_expressions_clear(), and the loop stack emptied; the table of labels is
-- cleared, too, which is no variable of the model.
unfoldable pub terminated : State → State
unfolding Eval.clear Undo.clear
terminated s =
    let c = Eval.clear s in
    record c { vars = record v { loop_stack = [] }; undo = Undo.clear c.undo }
  where
    v : Vars
    v = (Eval.clear s).vars

module _ {K : Type 0} (m : Machine K) where
  -- The loop of teco_cmdline_insert() over the keys between the program counter and the effective
  -- length. An error leaves the loop.
  unfoldable pub insert_loop : List K → State → Run (Unit {0})
  unfolding advance
  insert_loop [] s = ok tt s
  insert_loop (c ∷ cs) s = m.step c s >> λ t. insert_loop cs (advance t)

  -- !teco_string_cmp() of strings of which the first is not longer
  pub starts_with : List K → List K → Bool
  starts_with [] text = true
  starts_with (c ∷ cs) [] = false
  starts_with (c ∷ cs) (d ∷ text) = if m.same c d then starts_with cs text else false

  -- Inserting text that has just been rubbed out keeps the rest of it.
  unfoldable pub insert_text : List K → Typed K → Typed K
  unfolding starts_with
  insert_text data_ t =
      if leb (length data_) (length t.str - t.effective_len)
        && starts_with data_ (drop t.effective_len t.str)
      then record t { effective_len = t.effective_len + length data_ }
      else record t {
        str = take t.effective_len t.str ++ data_;
        effective_len = t.effective_len + length data_;
      }

  -- The termination of the command line by a return: undo and the stacks are cleared.
  unfoldable pub terminate : Typed K → State → Pressed K
  unfolding terminated
  terminate t s =
      if is_state_start s.vars.current
      then if m.wants_exit s
        then quits
        else pressed (record { str = []; effective_len = 0; last_cmdline = t.str }) (terminated s)
      else traps

  abbrev pub press_next : (Typed K → State → Pressed K) → Pressed K → Pressed K
  press_next next (pressed t s) = next t s
  press_next next quits = quits
  press_next next traps = traps

  -- What teco_cmdline_keypress() does behind the insertion of a key: it goes on with the next ones,
  -- rubs out what has been typed since `start`, or, behind a return, goes on from the beginning.
  unfoldable pub settle :
      ℕ → Typed K → Run (Unit {0}) → (ℕ → Typed K → State → Pressed K) → Pressed K
  unfolding rubout terminate
  settle start t (ok _ s) next = next start t s
  settle start t (err e s) next =
      if is_macro_return e
      then press_next (next 0) (terminate t s)
      else pressed (record t { effective_len = start }) (rubout start s)
  settle start t crash next = traps
  settle start t no_fuel next = traps

  -- The run of one key at the end of the command line
  unfoldable pub insert_key : K → Typed K → State → Run (Unit {0})
  unfolding insert_loop seek
  insert_key c t s = insert_loop (c ∷ []) (seek t.effective_len s)

  abbrev pub returns : K → Typed K → State → Bool
  returns c t s = is_returning (insert_key c t s)

  -- The loop of teco_cmdline_keypress(), each key being inserted as it is.
  unfoldable pub keypress_loop : List K → ℕ → Typed K → State → Pressed K
  unfolding insert_text insert_key settle
  keypress_loop [] start t s = pressed t s
  keypress_loop (c ∷ cs) start t s =
      settle start (insert_text (c ∷ []) t) (insert_key c t s) (keypress_loop cs)

  unfoldable pub keypress : List K → Typed K → State → Pressed K
  unfolding keypress_loop
  keypress cs t s = keypress_loop cs t.effective_len t s

-- teco_cmdline_rubout()
unfoldable pub rubout_key : {K : Type 0} → Typed K → State → Typed K × State
unfolding rubout
rubout_key t s =
    if ltb 0 t.effective_len
    then (record t { effective_len = t.effective_len - 1 }, rubout (t.effective_len - 1) s)
    else (t, s)
