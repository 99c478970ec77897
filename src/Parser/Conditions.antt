-- ===== src/Parser/Conditions.antt =====
-- src/core-commands.c: conditionals.
use sciteco.Prelude.{
  ℕ, suc, ◌%◌, ◌^◌, Bool, false, not, Option, none, some, List, [], ◌∷◌, ltb, ◌==◌, ◌&&◌, ◌||◌,
  if◌then◌else◌,
}
use sciteco.Editor.{Mode, normal, parse_only_cond, parse_only_cond_force, State, state_start}
use sciteco.Expressions.Stacks.{
  Run, ok, err, ◌>>=◌, ◌>>◌, argument_expected, invalid_conditional, pop_num, args,
}
use sciteco.Expressions.Eval.{eval}
use sciteco.Commands.Loops.{set_mode}
use sciteco.Numbers.{ascii_toupper}
use sciteco.TecoInt.{is_negative}
use sciteco.Parser.{normally, set_nest_level, Context}
use sciteco.Parser.Input.{Next}

-- The conditions of teco_state_condcommand_input(), by their upper case letters.
pub data Condition : Type 0 where
  no_argument alpha symbol digit separator success failure : Condition
  zero_ positive negative nonzero alnum lower upper : Condition

abbrev conditions : List (ℕ × Condition)
conditions =
    (b'~', no_argument)
    ∷ (b'A', alpha)
    ∷ (b'C', symbol)
    ∷ (b'D', digit)
    ∷ (b'I', separator)
    ∷ (b'S', success)
    ∷ (b'T', success)
    ∷ (b'F', failure)
    ∷ (b'U', failure)
    ∷ (b'E', zero_)
    ∷ (b'=', zero_)
    ∷ (b'G', positive)
    ∷ (b'>', positive)
    ∷ (b'L', negative)
    ∷ (b'<', negative)
    ∷ (b'N', nonzero)
    ∷ (b'R', alnum)
    ∷ (b'V', lower)
    ∷ (b'W', upper)
    ∷ []

abbrev pub find_condition : ℕ → List (ℕ × Condition) → Option Condition
find_condition c [] = none
find_condition c ((d, t) ∷ ts) = if c == d then some t else find_condition c ts

unfoldable pub condition : ℕ → Option Condition
condition chr = find_condition (ascii_toupper chr) conditions

-- A character code is the value cut to 32 bits.
abbrev pub holds : Context → Condition → ℕ → State → Bool
holds ctx no_argument value s = args s == 0
holds ctx alpha value s = ctx.is_alpha (value % 2 ^ 32)
holds ctx symbol value s =
    ctx.is_alnum (value % 2 ^ 32) || (value == b'.') || (value == b'$') || (value == b'_')
holds ctx digit value s = ctx.is_digit (value % 2 ^ 32)
holds ctx separator value s = ctx.is_dir_separator value
holds ctx success value s = is_negative value
holds ctx failure value s = not (is_negative value)
holds ctx zero_ value s = value == 0
holds ctx positive value s = not (is_negative value) && ltb 0 value
holds ctx negative value s = is_negative value
holds ctx nonzero value s = not (value == 0)
holds ctx alnum value s = ctx.is_alnum (value % 2 ^ 32)
holds ctx lower value s = ctx.is_lower (value % 2 ^ 32)
holds ctx upper value s = ctx.is_upper (value % 2 ^ 32)

-- The argument, which the condition ~ does not pop.
unfoldable pub cond_value : ℕ → State → Run ℕ
cond_value chr s = eval false s >> λ t.
    if chr == b'~'
    then ok 0 t
    else if args t == 0
    then err argument_expected t
    else (let (n, u) = pop_num 0 t in ok n u)

-- switch (ctx->flags.mode)
unfoldable pub cond_begin : Mode → ℕ → State → Run ℕ
unfolding cond_value
cond_begin normal chr s = cond_value chr s
cond_begin parse_only_cond chr s = ok 0 (set_nest_level (suc s.vars.nest_level) s)
cond_begin parse_only_cond_force chr s = ok 0 (set_nest_level (suc s.vars.nest_level) s)
cond_begin _ chr s = ok 0 s

unfoldable pub cond_decide : Context → Option Condition → ℕ → ℕ → State → Run Next
cond_decide ctx none value pc s = err invalid_conditional s
cond_decide ctx (some c) value pc s =
    ok (state_start, pc)
      (if normally s && not (holds ctx c value s) then set_mode parse_only_cond s else s)

-- teco_state_condcommand_input()
unfoldable pub condcommand_input : Context → ℕ → ℕ → State → Run Next
unfolding cond_begin cond_decide
condcommand_input ctx chr pc s =
    cond_begin s.vars.flags.mode chr s >>= λ value t. cond_decide ctx (condition chr) value pc t
