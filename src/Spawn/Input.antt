-- ===== src/Spawn/Input.antt =====
-- src/spawn.c: the dispatches of the callback that feeds the standard input of a process.
use sciteco.Prelude.{
  subst, ℕ, suc, ◌-◌, ◌≤◌, ◌<◌, ◌≡◌, refl, sym, ap, ◌∙◌, Bool, true, Option, some, List, [], ◌∷◌,
  ◌++◌, arith, ltb, ◌&&◌, ◌⊎◌, if◌then◌else◌, take, drop, take-drop, take-take, Bool-cases,
  Option-cases, inl, inr,
}
use sciteco.Eol.{Style, crlf}
use sciteco.Eol.Writer.{get_seq, writer_init, convert}
use sciteco.Eol.Writer.Expansion.{expand}
use sciteco.Eol.Writer.Kept.{Completes, TakesFirst, Conserves, get_seq-Completes}
use sciteco.Eol.Writer.Resuming.{convert-Conserves}
use sciteco.Eol.Writer.Completing.{torn-Conserves}
use sciteco.Spawn.Owed.{
  no_crlf, all_writable, expand_torn, taken_some, long-crlf, remaining, Owes, OwesFeed, Delivers,
  closed_Delivers, after_write-OwesFeed, converted-Delivers,
}
use sciteco.Spawn.{
  SpawnCtx, Dispatch, Watch, continue_, remove, error_before, write_error, feed_stdin,
  stdin_watch_cb, dispatch,
}

module _ {S : Type 0} (write : List ℕ → S → Option (ℕ × S)) (out : S → List ℕ) (seq : List ℕ)
    (sink : TakesFirst write out) (cut : Completes seq) (document target : List ℕ)
    (steady : Bool) where
  feed_stdin-Owes :
      (gap : ℕ) (ctx : SpawnCtx) (s : S)
      → Owes write out seq document target steady ctx s
      → Delivers write out seq document target steady (feed_stdin write true document gap ctx s)
  unfolding feed_stdin Delivers
  feed_stdin-Owes gap ctx s o =
      let len =
        if ltb ctx.start gap && ltb gap ctx.to then gap - ctx.start else ctx.to - ctx.start in
      let le : len ≤ ctx.to - ctx.start = ground arith in
      let part = take len (drop ctx.start document) in
      let behind = drop len (remaining document ctx) in
      let whole : part ++ behind ≡ remaining document ctx =
        ap (◌++ behind) (sym (take-take len (ctx.to - ctx.start) (drop ctx.start document) le))
        ∙ take-drop len (remaining document ctx) in
      let k =
        convert-Conserves write out seq sink cut part ctx.stdin_writer s o.in_state o.with_seq in
      elim (Option-cases (convert write true part ctx.stdin_writer s)) [
        | inl e ↦ rw (e, feed_stdin) tt
        | inr ((n, w, s'), e) ↦
            rw (e, feed_stdin)
              (converted-Delivers write out seq document target steady ctx _ part behind n w s'
                whole o.unpaired
                (ap (λ (xs : List ℕ). out s ++ expand seq ctx.stdin_writer.last_c xs) whole
                  ∙ o.owed)
                (subst (Conserves write out seq _ part 0) e k))
      ]

  fed_torn :
      (ctx : SpawnCtx) (s : S) (o : OwesFeed write out seq document target steady ctx s)
      (part : List ℕ) (n : ℕ)
      → part ≡ o.c ∷ take n o.cs
      → ((s' : S) × (convert write true part ctx.stdin_writer s ≡ some (0, ctx.stdin_writer, s'))
          × (out s' ≡ out s))
        ⊎ Conserves write out seq
            (λ more. out s ++ (b'\n' ∷ expand seq ctx.stdin_writer.last_c (take n o.cs ++ more)))
            (o.c ∷ take n o.cs)
            0
            (convert write true part ctx.stdin_writer s)
  fed_torn ctx s o part n is_part =
      subst
        (λ (xs : List ℕ).
          ((s' : S) × (convert write true xs ctx.stdin_writer s ≡ some (0, ctx.stdin_writer, s'))
            × (out s' ≡ out s))
          ⊎ Conserves write out seq
              (λ more. out s ++ (b'\n' ∷ expand seq ctx.stdin_writer.last_c (take n o.cs ++ more)))
              (o.c ∷ take n o.cs) 0 (convert write true xs ctx.stdin_writer s))
        (sym is_part)
        (torn-Conserves write out seq sink cut o.c (take n o.cs) ctx.stdin_writer s o.in_state
          o.with_seq)

  feed_stdin-OwesFeed :
      (gap : ℕ) (ctx : SpawnCtx) (s : S)
      → OwesFeed write out seq document target steady ctx s
      → Delivers write out seq document target steady (feed_stdin write true document gap ctx s)
  unfolding feed_stdin Delivers
  feed_stdin-OwesFeed gap ctx s o =
      let len =
        if ltb ctx.start gap && ltb gap ctx.to then gap - ctx.start else ctx.to - ctx.start in
      let le : len ≤ ctx.to - ctx.start = ground arith in
      let some_left : 0 < ctx.to - ctx.start = taken_some _ _ o.c o.cs o.left in
      let some_len : 0 < len = ground (arith, some_left) in
      let n = len - 1 in
      let is_suc : len ≡ suc n = omega (arith, some_len) in
      let last = ctx.stdin_writer.last_c in
      let is_part : take len (drop ctx.start document) ≡ o.c ∷ take n o.cs =
        sym (take-take len (ctx.to - ctx.start) (drop ctx.start document) le)
        ∙ ap (take len) o.left
        ∙ ap (λ m. take m (o.c ∷ o.cs)) is_suc in
      let whole : (o.c ∷ take n o.cs) ++ drop n o.cs ≡ remaining document ctx =
        ap (o.c ∷◌) (take-drop n o.cs) ∙ sym o.left in
      let same : expand seq last o.cs ≡ expand seq o.c o.cs =
        expand_torn seq last o.c o.cs o.mark (sym (ap no_crlf o.left) ∙ o.unpaired o.long) in
      let owed : out s ++ (b'\n' ∷ expand seq last (take n o.cs ++ drop n o.cs)) ≡ target =
        ap (λ (xs : List ℕ). out s ++ (b'\n' ∷ expand seq last xs)) (take-drop n o.cs)
        ∙ ap (λ (xs : List ℕ). out s ++ (b'\n' ∷ xs)) same
        ∙ o.owed in
      elim (fed_torn ctx s o _ n is_part) [
        | inl (s', e, eq) ↦
            rw (e, feed_stdin)
              (after_write-OwesFeed write out seq document target steady ctx ctx.stdin_writer 0 s'
                o.c o.cs o.in_state o.with_seq o.unpaired o.left o.mark o.long
                (ap (◌++ (b'\n' ∷ expand seq o.c o.cs)) eq ∙ o.owed))
        | inr k ↦
            elim (Option-cases
              (convert write true (take len (drop ctx.start document)) ctx.stdin_writer s)) [
                | inl e ↦ rw (e, feed_stdin) tt
                | inr ((n', w, s'), e) ↦
                    rw (e, feed_stdin)
                      (converted-Delivers write out seq document target steady ctx _
                        (o.c ∷ take n o.cs) (drop n o.cs) n' w s' whole o.unpaired owed
                        (subst (Conserves write out seq _ _ 0) e k))
              ]
      ]

  stdin_watch_cb-Delivers :
      (d : Dispatch) (ctx : SpawnCtx) (s : S)
      → (steady ≡ true → d.writable ≡ true)
      → Owes write out seq document target steady ctx s
        ⊎ OwesFeed write out seq document target steady ctx s
      → Delivers write out seq document target steady (stdin_watch_cb write true document d ctx s)
  unfolding stdin_watch_cb Delivers
  stdin_watch_cb-Delivers d ctx s h o = elim (Bool-cases d.has_error) [
    | inl failed ↦ rw (failed, stdin_watch_cb) tt
    | inr fine ↦ elim (Bool-cases d.writable) [
      | inl open_ ↦
          rw (fine, stdin_watch_cb)
            (rw (open_, stdin_watch_cb)
              (elim o [
                | inl o' ↦ feed_stdin-Owes d.gap ctx s o'
                | inr o' ↦ feed_stdin-OwesFeed d.gap ctx s o'
              ]))
      | inr closed ↦
          rw (fine, stdin_watch_cb)
            (rw (closed, stdin_watch_cb)
              (closed_Delivers write out seq document target steady ctx s (λ r. let a = h r in cc)
                o))
    ]
  ]

  next-Delivers :
      (ds : List Dispatch) (r : Watch S)
      → ((ctx : SpawnCtx) (s : S)
          → Owes write out seq document target steady ctx s
            ⊎ OwesFeed write out seq document target steady ctx s
          → Delivers write out seq document target steady (dispatch write true document ds ctx s))
      → Delivers write out seq document target steady r
      → Delivers write out seq document target steady (elim r [
        | continue_ ctx s ↦ dispatch write true document ds ctx s
        | remove s ↦ remove s
        | error_before s ↦ error_before s
        | write_error ↦ write_error
      ])
  unfolding Delivers
  next-Delivers ds (continue_ ctx s) k h = k ctx s h
  next-Delivers ds (remove s) k h = h
  next-Delivers ds (error_before s) k h = h
  next-Delivers ds write_error k h = h

  dispatch-Delivers :
      (ds : List Dispatch) (ctx : SpawnCtx) (s : S)
      → (steady ≡ true → all_writable ds ≡ true)
      → Owes write out seq document target steady ctx s
        ⊎ OwesFeed write out seq document target steady ctx s
      → Delivers write out seq document target steady (dispatch write true document ds ctx s)
  unfolding dispatch Delivers all_writable
  dispatch-Delivers [] ctx s h o = o
  dispatch-Delivers (d ∷ ds) ctx s h o =
      next-Delivers ds (stdin_watch_cb write true document d ctx s)
        (λ ctx' s' o'. dispatch-Delivers ds ctx' s' (λ r. let a = h r in ground (arith, a)) o')
        (stdin_watch_cb-Delivers d ctx s (λ r. let a = h r in ground (arith, a)) o)

-- The context at the start of the process.
abbrev pub spawn_init : ℕ → ℕ → Style → SpawnCtx
spawn_init from to eol_mode = record { start = from; to = to; stdin_writer = writer_init eol_mode }

-- With translation on, however many bytes each call of the write callback takes, none among them,
-- and wherever the gap is at each dispatch: when the source of the standard input is removed with
-- its channel shut down, the process has received a beginning of the range with every line end
-- translated, and all of it if the channel could be written at every dispatch. It is assumed that
-- the callback takes the first bytes of what it is given, which may tear a CRLF apart; and, if line
-- ends are written as CRLF, that the range has no CRLF itself.
pub dispatch-received :
    {S : Type 0} (write : List ℕ → S → Option (ℕ × S)) (out : S → List ℕ) (eol_mode : Style)
    (document : List ℕ) (ds : List Dispatch) (from to : ℕ) (s s' : S)
    → TakesFirst write out
    → (eol_mode ≡ crlf → no_crlf (take (to - from) (drop from document)) ≡ true)
    → dispatch write true document ds (spawn_init from to eol_mode) s ≡ remove s'
    → (rest : List ℕ) × (out s' ++ rest
        ≡ out s ++ expand (get_seq eol_mode) 0 (take (to - from) (drop from document)))
      × (all_writable ds ≡ true → rest ≡ [])
unfolding Delivers
dispatch-received write out eol_mode document ds from to s s' sink h e =
    let cut = get_seq-Completes eol_mode in
    subst (Delivers write out (get_seq eol_mode) document _ (all_writable ds)) e (
      dispatch-Delivers write out (get_seq eol_mode) sink cut document _ (all_writable ds) ds
        (spawn_init from to eol_mode) s (λ a. a)
        (inl (record {
          in_state = refl;
          with_seq = refl;
          unpaired = λ long. h (long-crlf eol_mode long);
          owed = refl;
        })))
