-- ===== src/Goto/Restoring.antt =====
-- src/goto.c and src/goto-commands.c: running the undo tokens of labels and go-tos.
use sciteco.Prelude.{
  ℕ, ◌≡◌, refl, sym, ap, ◌∙◌, Bool, true, false, not, List, [], ◌∷◌, ◌++◌, length, take, ltb, ◌==◌,
  ◌&&◌, ◌||◌, Bool-cases, Option-cases, inl, inr, arith,
}
use sciteco.Parser.{is_normal}
use sciteco.TecoInt.{is_negative}
use sciteco.Goto.{Frame, same_label, table_find, label_end, label_input, select, go, goto_done}
use sciteco.Goto.Idle.{is_idle, happen-is_idle}
use sciteco.Goto.Jumps.{same_label_refl}
use sciteco.Goto.Undoing.{
  GotoToken, run_token, label_end_tokens, label_tokens, go_tokens, goto_done_tokens, Event,
  in_label, go_to, left, happen, tokens,
}

unfoldable pub run_all : List GotoToken → Frame → Frame
unfolding run_token
run_all [] f = f
run_all (t ∷ ts) f = run_all ts (run_token t f)

abbrev at : Frame → ℕ → Frame
at f p = record f { macro_pc = p }

-- Some tokens lead from one frame to another, wherever the macro stands.
TakesBack : List GotoToken → Frame → Frame → Type 0
unfolding run_all
TakesBack ts g f = (p : ℕ) → run_all ts (at g p) ≡ at f p

label_end-TakesBack : (f : Frame) → TakesBack (label_end_tokens f) (label_end f) f
unfolding label_end label_end_tokens run_all TakesBack
label_end-TakesBack f p = elim (Option-cases (table_find f.goto_table f.goto_label)) [
  | inl new ↦
      elim (Bool-cases (ltb 0 (length f.skip_label) && same_label f.goto_label f.skip_label)) [
        | inl e ↦
            rw (new, label_end, label_end_tokens)
              (rw (e, label_end, label_end_tokens) (rw (same_label_refl f.goto_label) refl))
        | inr e ↦
            rw (new, label_end, label_end_tokens)
              (rw (e, label_end, label_end_tokens) (rw (same_label_refl f.goto_label) refl))
      ]
  | inr (pc, known) ↦ rw (known, label_end, label_end_tokens) refl
]

take_front : (xs ys : List ℕ) → take (length xs) (xs ++ ys) ≡ xs
take_front [] ys = refl
take_front (x ∷ xs) ys = ap (x ∷◌) (take_front xs ys)

label_input-TakesBack :
    (chr : ℕ) (f : Frame) → TakesBack (label_tokens chr f) (label_input chr f).1 f
unfolding label_input label_tokens run_all TakesBack
label_input-TakesBack chr f p = elim (Bool-cases ((length f.goto_label == 0) && (chr == b'*'))) [
  | inl e ↦ rw (e, label_input, label_tokens) refl
  | inr e ↦ elim (Bool-cases ((length f.goto_label == 0) && (chr == b'!'))) [
    | inl e2 ↦ rw (e, label_input, label_tokens) (rw (e2, label_input, label_tokens) refl)
    | inr e2 ↦ elim (Bool-cases (chr == b'!')) [
      | inl e3 ↦
          rw (e, label_input, label_tokens)
            (rw (e2, label_input, label_tokens)
              (rw (e3, label_input, label_tokens) (label_end-TakesBack f p)))
      | inr e3 ↦
          rw (e, label_input, label_tokens)
            (rw (e2, label_input, label_tokens)
              (rw (e3, label_input, label_tokens)
                (ap (λ l. record f { goto_label = l; macro_pc = p })
                  (take_front f.goto_label (chr ∷ [])))))
    ]
  ]
]

no_label : (l : List ℕ) → (length l == 0) ≡ true → l ≡ []
no_label [] h = refl
no_label (c ∷ l) h = absurd (ground (arith, h))

go-TakesBack :
    (label : List ℕ) (colon : Bool) (f : Frame)
    → f.skip_label ≡ []
    → TakesBack (go_tokens label f) (left f (go label colon f)) f
unfolding go go_tokens run_all TakesBack left
go-TakesBack label colon f h p = elim (Option-cases (table_find f.goto_table label)) [
  | inr (pc, known) ↦ rw (known, go, go_tokens) refl
  | inl new ↦ elim (Bool-cases f.complete) [
    | inl c ↦ elim (Bool-cases colon) [
      | inl k ↦ rw (new, go, go_tokens) (rw (c, go, go_tokens) (rw (k, go) refl))
      | inr k ↦ rw (new, go, go_tokens) (rw (c, go, go_tokens) (rw (k, go) refl))
    ]
    | inr c ↦
        rw (new, go, go_tokens)
          (rw (c, go, go_tokens)
            (ap (λ l. record f { complete = false; skip_label = l; macro_pc = p }) (sym h)))
  ]
]

goto_done-TakesBack :
    (str : List ℕ) (value : ℕ) (colon : Bool) (f : Frame)
    → is_idle f ≡ true
    → TakesBack (goto_done_tokens str value f) (left f (goto_done str value colon f)) f
unfolding goto_done goto_done_tokens run_all TakesBack left
goto_done-TakesBack str value colon f h p = elim (Bool-cases (is_normal f.mode)) [
  | inr n ↦ rw (n, goto_done, goto_done_tokens) refl
  | inl n ↦ elim (Bool-cases (length str == 0)) [
    | inl e ↦ rw (n, goto_done, goto_done_tokens) (rw (e, goto_done, goto_done_tokens) refl)
    | inr e ↦ elim (Bool-cases (is_negative value)) [
      | inl m ↦
          rw (n, goto_done, goto_done_tokens)
            (rw (e, goto_done, goto_done_tokens) (rw (m, goto_done, goto_done_tokens) refl))
      | inr m ↦ elim (Bool-cases (length (select value str) == 0)) [
        | inl k ↦
            rw (n, goto_done, goto_done_tokens)
              (rw (e, goto_done, goto_done_tokens)
                (rw (m, goto_done, goto_done_tokens) (rw (k, goto_done, goto_done_tokens) refl)))
        | inr k ↦
            let idle : (length f.skip_label == 0) ≡ true =
              ap (λ b. not b || (length f.skip_label == 0)) (sym n) ∙ h in
            rw (n, goto_done, goto_done_tokens)
              (rw (e, goto_done, goto_done_tokens)
                (rw (m, goto_done, goto_done_tokens)
                  (rw (k, goto_done, goto_done_tokens)
                    (go-TakesBack (select value str) colon f (no_label f.skip_label idle) p))))
      ]
    ]
  ]
]

happen-TakesBack :
    (e : Event) (f : Frame) → is_idle f ≡ true → TakesBack (tokens e f) (happen e f) f
unfolding happen tokens run_all TakesBack left
happen-TakesBack (in_label pc chr) f h p = label_input-TakesBack chr (at f pc) p
happen-TakesBack (go_to str value colon) f h p = goto_done-TakesBack str value colon f h p

-- The frame behind some events, and the tokens of all of them, the last one first.
abbrev pub behind : List Event → Frame → Frame
behind [] f = f
behind (e ∷ es) f = behind es (happen e f)

abbrev pub all_tokens : List Event → Frame → List GotoToken
all_tokens [] f = []
all_tokens (e ∷ es) f = all_tokens es (happen e f) ++ tokens e f

run_all-append :
    (ts us : List GotoToken) (f : Frame) → run_all (ts ++ us) f ≡ run_all us (run_all ts f)
unfolding run_all
run_all-append [] us f = refl
run_all-append (t ∷ ts) us f = run_all-append ts us (run_token t f)

all_tokens-TakesBack :
    (es : List Event) (f : Frame) → is_idle f ≡ true → TakesBack (all_tokens es f) (behind es f) f
unfolding TakesBack run_all
all_tokens-TakesBack [] f h p = refl
all_tokens-TakesBack (e ∷ es) f h p =
    run_all-append (all_tokens es (happen e f)) (tokens e f) (at (behind es (happen e f)) p)
    ∙ ap (run_all (tokens e f)) (all_tokens-TakesBack es (happen e f) (happen-is_idle e f h) p)
    ∙ happen-TakesBack e f h p

-- Whatever labels are read and whatever go-tos are executed, with failing ones among them, in a
-- macro that must be undone: running the undo tokens they have pushed, the last one first, restores
-- the table of labels, the label being read, the label that is skipped to, the position to return
-- to and the mode. It is assumed that no label is skipped to in normal mode at first.
pub run_all-behind :
    (es : List Event) (f : Frame) (p : ℕ)
    → is_idle f ≡ true
    → run_all (all_tokens es f) (record (behind es f) { macro_pc = p }) ≡ record f { macro_pc = p }
unfolding TakesBack
run_all-behind es f p h = all_tokens-TakesBack es f h p
