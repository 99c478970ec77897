-- ===== src/Spawn/Owed.antt =====
-- src/spawn.c: what a process has received on its standard input, and what is still owed to it.
use sciteco.Prelude.{
  subst, ℕ, zero, suc, ◌+◌, ◌-◌, ◌<◌, ◌≡◌, refl, sym, ap, ◌∙◌, Bool, true, false, Option, some,
  List, [], ◌∷◌, ◌++◌, arith, ◌==◌, ◌&&◌, ◌⊎◌, if◌then◌else◌, take, drop, length, drop_within,
  drop-drop, drop-take, Bool-cases, inl, inr,
}
use sciteco.Eol.{Style, crlf, cr, lf}
use sciteco.Eol.Writer.{Writer, state_start, state_write_lf, get_seq}
use sciteco.Eol.Writer.Expansion.{expand}
use sciteco.Eol.Writer.Kept.{Mark, Conserves}
use sciteco.Spawn.{
  SpawnCtx, Dispatch, Watch, continue_, remove, error_before, write_error, after_write,
}

starts_with_lf : List ℕ → Bool
starts_with_lf [] = false
starts_with_lf (c ∷ cs) = c == b'\n'

-- No CRLF is in the text.
unfoldable pub no_crlf : List ℕ → Bool
unfolding starts_with_lf
no_crlf [] = true
no_crlf (c ∷ cs) = let rest = no_crlf cs in if c == b'\r' && starts_with_lf cs then false else rest

-- The channel can be written at every dispatch.
unfoldable pub all_writable : List Dispatch → Bool
all_writable [] = true
all_writable (d ∷ ds) = d.writable && all_writable ds

no_crlf-drop : (n : ℕ) (text : List ℕ) → no_crlf text ≡ true → no_crlf (drop n text) ≡ true
unfolding no_crlf starts_with_lf
no_crlf-drop zero text h = h
no_crlf-drop (suc n) [] h = refl
no_crlf-drop (suc n) (c ∷ cs) h = no_crlf-drop n cs (ground (arith, h))

pub taken_some : (m : ℕ) (xs : List ℕ) (c : ℕ) (cs : List ℕ) → take m xs ≡ c ∷ cs → 0 < m
taken_some zero xs c cs e = absurd (omega (arith, ap length e))
taken_some (suc m) xs c cs e = omega arith

pub long-crlf : (eol_mode : Style) → 1 < length (get_seq eol_mode) → eol_mode ≡ crlf
long-crlf crlf h = refl
long-crlf cr h = absurd (omega (arith, h))
long-crlf lf h = absurd (omega (arith, h))

-- A line end that no line feed belongs to need not be remembered.
pub expand_torn :
    (seq : List ℕ) (last c : ℕ) (cs : List ℕ)
    → Mark last c
    → no_crlf (c ∷ cs) ≡ true
    → expand seq last cs ≡ expand seq c cs
unfolding expand no_crlf starts_with_lf
expand_torn seq last c [] m h = refl
expand_torn seq last c (d ∷ ds) (inl r) h = ground (arith, r, h)
expand_torn seq last c (d ∷ ds) (inr (f, r)) h = ground (arith, f, r, h)

-- The part of the range that is left.
abbrev pub remaining : List ℕ → SpawnCtx → List ℕ
remaining document ctx = take (ctx.to - ctx.start) (drop ctx.start document)

remaining_behind :
    (document : List ℕ) (ctx : SpawnCtx) (n : ℕ)
    → drop n (remaining document ctx)
      ≡ take (ctx.to - (ctx.start + n)) (drop (ctx.start + n) document)
remaining_behind document ctx n =
    let e : ctx.to - ctx.start - n ≡ ctx.to - (ctx.start + n) = omega arith in
    drop-take n (ctx.to - ctx.start) (drop ctx.start document)
    ∙ ap (λ m. take m (drop n (drop ctx.start document))) e
    ∙ ap (take (ctx.to - (ctx.start + n))) (drop-drop ctx.start n document)

module _ {S : Type 0} (write : List ℕ → S → Option (ℕ × S)) (out : S → List ℕ) (seq : List ℕ)
    (document target : List ℕ) (steady : Bool) where
  -- No CRLF is in what is left, if a sequence can be torn apart.
  abbrev pub Unpaired : List ℕ → Type 0
  Unpaired text = 1 < length seq → no_crlf text ≡ true

  -- What has been received, and what the rest of the range expands to.
  pub record Owes (ctx : SpawnCtx) (s : S) : Type 0 where
    pub in_state : ctx.stdin_writer.state ≡ state_start
    pub with_seq : ctx.stdin_writer.eol_seq ≡ seq
    pub unpaired : Unpaired (remaining document ctx)
    pub owed : out s ++ expand seq ctx.stdin_writer.last_c (remaining document ctx) ≡ target

  -- The line feed of a CRLF is owed as well.
  pub record OwesFeed (ctx : SpawnCtx) (s : S) : Type 0 where
    pub c : ℕ
    pub cs : List ℕ
    pub in_state : ctx.stdin_writer.state ≡ state_write_lf
    pub with_seq : ctx.stdin_writer.eol_seq ≡ seq
    pub unpaired : Unpaired (remaining document ctx)
    pub left : remaining document ctx ≡ c ∷ cs
    pub mark : Mark ctx.stdin_writer.last_c c
    pub long : 1 < length seq
    pub owed : out s ++ (b'\n' ∷ expand seq c cs) ≡ target

  unfoldable pub Delivers : Watch S → Type 0
  Delivers (continue_ ctx s) = Owes ctx s ⊎ OwesFeed ctx s
  Delivers (remove s) = (rest : List ℕ) × (out s ++ rest ≡ target) × (steady ≡ true → rest ≡ [])
  Delivers (error_before s) = Unit
  Delivers write_error = Unit

  -- The channel is shut down in front of what is still owed.
  pub closed_Delivers :
      (ctx : SpawnCtx) (s : S)
      → ¬ (steady ≡ true)
      → Owes ctx s ⊎ OwesFeed ctx s
      → Delivers (remove s)
  unfolding Delivers
  closed_Delivers ctx s h (inl o) =
      (expand seq ctx.stdin_writer.last_c (remaining document ctx), o.owed, λ r. absurd (h r))
  closed_Delivers ctx s h (inr o) = (b'\n' ∷ expand seq o.c o.cs, o.owed, λ r. absurd (h r))

  done_left :
      (ctx : SpawnCtx) (n : ℕ)
      → (ctx.start + n == ctx.to) ≡ true
      → drop n (remaining document ctx) ≡ []
  done_left ctx n done =
      let none_left : ctx.to - (ctx.start + n) ≡ 0 = ground (arith, done) in
      remaining_behind document ctx n ∙ ap (λ m. take m (drop (ctx.start + n) document)) none_left

  after_write-Delivers :
      (ctx : SpawnCtx) (w : Writer) (n : ℕ) (s : S)
      → w.state ≡ state_start
      → w.eol_seq ≡ seq
      → Unpaired (drop n (remaining document ctx))
      → out s ++ expand seq w.last_c (drop n (remaining document ctx)) ≡ target
      → Delivers (after_write write ctx n w s)
  unfolding after_write Delivers expand
  after_write-Delivers ctx w n s st sq unpaired owed =
      let same = remaining_behind document ctx n in
      elim (Bool-cases (ctx.start + n == ctx.to)) [
        | inl done ↦
            rw (done, after_write)
              (
                [],
                ap (λ (xs : List ℕ). out s ++ expand seq w.last_c xs) (sym (done_left ctx n done))
                    ∙ owed,
                λ _. refl,
              )
        | inr more ↦
            rw (more, after_write)
              (inl (record {
                in_state = st;
                with_seq = sq;
                unpaired = subst Unpaired same unpaired;
                owed = ap (λ (xs : List ℕ). out s ++ expand seq w.last_c xs) (sym same) ∙ owed;
              }))
      ]

  pub after_write-OwesFeed :
      (ctx : SpawnCtx) (w : Writer) (n : ℕ) (s : S) (c : ℕ) (cs : List ℕ)
      → w.state ≡ state_write_lf
      → w.eol_seq ≡ seq
      → Unpaired (drop n (remaining document ctx))
      → drop n (remaining document ctx) ≡ c ∷ cs
      → Mark w.last_c c
      → 1 < length seq
      → out s ++ (b'\n' ∷ expand seq c cs) ≡ target
      → Delivers (after_write write ctx n w s)
  unfolding after_write Delivers
  after_write-OwesFeed ctx w n s c cs st sq unpaired left mark long owed =
      let same = remaining_behind document ctx n in
      elim (Bool-cases (ctx.start + n == ctx.to)) [
        | inl done ↦ absurd (omega (arith, ap length (sym left ∙ done_left ctx n done)))
        | inr more ↦
            rw (more, after_write)
              (inr (record {
                c = c;
                cs = cs;
                in_state = st;
                with_seq = sq;
                unpaired = subst Unpaired same unpaired;
                left = sym same ∙ left;
                mark = mark;
                long = long;
                owed = owed;
              }))
      ]

  -- A part of what is left is converted.
  pub converted-Delivers :
      (ctx : SpawnCtx) (tgt : List ℕ → List ℕ) (part behind : List ℕ) (n : ℕ) (w : Writer) (s : S)
      → part ++ behind ≡ remaining document ctx
      → Unpaired (remaining document ctx)
      → tgt behind ≡ target
      → Conserves write out seq tgt part 0 (some (n, w, s))
      → Delivers (after_write write ctx n w s)
  converted-Delivers ctx tgt part behind n w s whole unpaired e (inl k) =
      let n_is : n ≡ k.consumed = omega (arith, k.counted) in
      let rest : drop k.consumed part ++ behind ≡ drop n (remaining document ctx) =
        sym (drop_within k.consumed part behind k.bounded)
        ∙ ap (drop k.consumed) whole
        ∙ ap (λ m. drop m (remaining document ctx)) (sym n_is) in
      after_write-Delivers ctx w n s k.same_state k.same_seq
        (λ h. no_crlf-drop n (remaining document ctx) (unpaired h))
        (ap (λ (xs : List ℕ). out s ++ expand seq w.last_c xs) (sym rest) ∙ k.conserved behind ∙ e)
  converted-Delivers ctx tgt part behind n w s whole unpaired e (inr k) =
      let n_is : n ≡ k.consumed = omega (arith, k.counted) in
      let rest : drop n (remaining document ctx) ≡ k.c ∷ (k.cs ++ behind) =
        ap (λ m. drop m (remaining document ctx)) n_is
        ∙ ap (drop k.consumed) (sym whole)
        ∙ drop_within k.consumed part behind (omega (arith, k.below))
        ∙ ap (◌++ behind) k.left in
      after_write-OwesFeed ctx w n s k.c (k.cs ++ behind) k.torn_state k.same_seq
        (λ h. no_crlf-drop n (remaining document ctx) (unpaired h)) rest k.mark k.long
        (k.conserved behind ∙ e)
