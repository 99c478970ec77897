-- ===== src/Numbers.antt =====
-- src/expressions.c and src/core-commands.c: integers as text. `radix` is the value of the register
-- ^R, which src/qreg.c keeps at 2 or more.
pub mod Digits
pub mod RoundTrip
use sciteco.Prelude.{
  ℕ, zero, suc, ◌+◌, ◌-◌, ◌%◌, Bool, true, false, Option, none, some, List, [], ◌∷◌, ltb, leb, ◌==◌,
  ◌&&◌, if◌then◌else◌,
}
use sciteco.TecoInt.{minus_one, is_negative, magnitude, multiply, quotient, remainder}
use sciteco.TecoInt

-- '0' + d as a gchar, which has a sign, or a letter from 10 on; beyond 35 it is no longer one.
unfoldable pub digit_char : ℕ → ℕ
digit_char d =
    let c = (b'0' + d) % 256 in if ltb b'9' c && ltb c 128 then (c + (b'A' - b'9' - 1)) % 256 else c

-- The loop of teco_expressions_format(), which writes from the end of the buffer; none stands for
-- too little fuel.
unfoldable pub format_loop : ℕ → ℕ → ℕ → List ℕ → Option (List ℕ)
format_loop zero v radix p = none
format_loop (suc fuel) v radix p =
    let p' = digit_char (magnitude (remainder v radix)) ∷ p in
    elim (quotient v radix == 0) [
      | true ↦ some p'
      | false ↦ format_loop fuel (quotient v radix) radix p'
    ]

-- *--p = '-'
abbrev pub with_sign : ℕ → Option (List ℕ) → Option (List ℕ)
with_sign number none = none
with_sign number (some p) = some (if is_negative number then b'-' ∷ p else p)

-- teco_expressions_format(), without the null byte: 64 digits are enough for every radix.
unfoldable pub format : ℕ → ℕ → Option (List ℕ)
unfolding format_loop
format number radix = with_sign number (format_loop 64 number radix [])

-- teco_ascii_toupper() of src/string-utils.h: a lower case letter loses the bit 0x20.
abbrev pub ascii_toupper : ℕ → ℕ
ascii_toupper c = if leb b'a' c && leb c b'z' then c - 0x20 else c

abbrev pub min : ℕ → ℕ → ℕ
min a b = if ltb a b then a else b

-- The two ranges of digits in teco_state_start_backslash(); a radix below 10 has no letters.
abbrev pub digit_value : ℕ → ℕ → Option ℕ
digit_value radix c =
    if leb b'0' c && ltb c (b'0' + min radix 10)
    then some (c - b'0')
    else if leb b'A' c && ltb c (b'A' + min (radix - 10) 26)
    then some (10 + (c - b'A'))
    else none

-- SCI_GETCHARAT in front of the rest of the buffer, a null byte at its end.
abbrev pub next_byte : List ℕ → ℕ
next_byte [] = 0
next_byte (c ∷ cs) = c

-- The loop of teco_state_start_backslash() over the bytes of the buffer; at its end Scintilla
-- returns a null byte, which is no digit.
unfoldable pub read_loop : ℕ → ℕ → List ℕ → ℕ
read_loop radix v [] = v
read_loop radix v (c ∷ cs) = elim (digit_value radix (ascii_toupper c)) [
  | none ↦ v
  | some d ↦ read_loop radix (TecoInt.add (multiply v radix) d) cs
]

-- teco_state_start_backslash() without an argument: the number that is read at dot.
unfoldable pub read_number : ℕ → List ℕ → ℕ
unfolding read_loop
read_number radix [] = multiply 1 (read_loop radix 0 [])
read_number radix (c ∷ cs) =
    if c == b'-'
    then multiply minus_one (read_loop radix 0 cs)
    else multiply 1 (read_loop radix 0 (c ∷ cs))
