-- ===== src/Eol.antt =====
-- src/eol.c: translation of line ends when text is read, teco_eol_reader_t.
pub mod Normal
pub mod Blocks
pub mod Reading
pub mod Translation
pub mod Writer
use sciteco.Prelude.{
  ℕ, zero, suc, ◌+◌, Bool, true, false, Option, none, some, List, [], ◌∷◌, ◌++◌, leb, ◌==◌,
  if◌then◌else◌, length, drop,
}

-- SC_EOL_CRLF, SC_EOL_CR and SC_EOL_LF
pub data Style : Type 0 where
  crlf cr lf : Style

abbrev pub same_style : Style → Style → Bool
same_style crlf crlf = true
same_style cr cr = true
same_style lf lf = true
same_style _ _ = false

-- eol_style, with none for -1, and eol_style_inconsistent
pub record Seen : Type 0 where
  pub eol_style : Option Style
  pub eol_style_inconsistent : Bool

-- The block that sets the style, or notices that it differs from the first one.
unfoldable pub observe : Style → Seen → Seen
observe style seen = elim seen.eol_style [
  | none ↦ record { eol_style = some style; eol_style_inconsistent = seen.eol_style_inconsistent }
  | some first ↦
      if same_style first style
      then seen
      else record { eol_style = some first; eol_style_inconsistent = true }
]

-- last_char, with none for -1
abbrev pub is_return : Option ℕ → Bool
is_return none = false
is_return (some c) = c == b'\r'

unfoldable pub observe_if : Bool → Style → Seen → Seen
unfolding observe
observe_if true style seen = observe style seen
observe_if false style seen = seen

-- What the loop of teco_eol_reader_convert() leaves: the bytes of the block as they are returned,
-- whether a line feed behind a carriage return has ended it, and what has been seen.
pub record Block : Type 0 where
  pub data_ : List ℕ
  pub last_char : Option ℕ
  pub seen : Seen

abbrev pub with_byte : ℕ → Block → Block
with_byte c b = record { data_ = c ∷ b.data_; last_char = b.last_char; seen = b.seen }

-- The loop, over the bytes from the offset on. The bytes that it overwrites in the buffer are among
-- those that it returns, and are not read again.
unfoldable pub scan : List ℕ → Option ℕ → Seen → Block
unfolding observe_if observe
scan [] last seen = record { data_ = []; last_char = last; seen = seen }
scan (c ∷ cs) last seen =
    let line_feed = with_byte c (scan cs (some b'\n') (observe lf seen)) in
    let return_ = with_byte b'\n' (scan cs (some b'\r') (observe_if (is_return last) cr seen)) in
    let other = with_byte c (scan cs (some c) (observe_if (is_return last) cr seen)) in
    if c == b'\n'
    then (if is_return last
        then record { data_ = []; last_char = none; seen = observe crlf seen }
        else line_feed)
    else if c == b'\r'
    then return_
    else other

-- teco_eol_reader_t: the bytes that were read last, the block that was returned last, and what the
-- read callback will deliver: a piece of the file for each call with G_IO_STATUS_NORMAL or
-- G_IO_STATUS_AGAIN, or an error.
pub data Read : Type 0 where
  piece : List ℕ → Read
  error : Read

pub record Reader : Type 0 where
  pub buffer : List ℕ
  pub offset : ℕ
  pub block_len : ℕ
  pub last_char : Option ℕ
  pub seen : Seen
  pub source : List Read

-- teco_eol_reader_init()
abbrev pub reader_init : List Read → Reader
reader_init source = record {
  buffer = [];
  offset = 0;
  block_len = 0;
  last_char = some 0;
  seen = record { eol_style = none; eol_style_inconsistent = false };
  source = source;
}

-- G_IO_STATUS_NORMAL with the converted chunk, G_IO_STATUS_EOF, or G_IO_STATUS_ERROR.
pub data Status : Type 0 where
  normal : List ℕ → Reader → Status
  eof : Reader → Status
  failed : Status

-- The block that is returned from the buffer, if EOLs are translated.
unfoldable pub return_block : Reader → Status
unfolding scan
return_block r =
    let b = scan (drop r.offset r.buffer) r.last_char r.seen in
    normal b.data_ (record r { block_len = length b.data_; last_char = b.last_char; seen = b.seen })

-- switch (ctx->read_cb(ctx, &ctx->read_len, error))
unfoldable pub refill : Bool → Reader → List Read → Status
unfolding return_block observe_if
refill auto r [] =
    eof (record r { offset = 0; buffer = []; seen = observe_if (is_return r.last_char) cr r.seen })
refill auto r (error ∷ source) = failed
refill auto r (piece bytes ∷ source) =
    let filled = record r { offset = 0; buffer = bytes; source = source } in
    if auto then return_block filled else normal bytes (record filled { block_len = length bytes })

-- if (ctx->last_char < 0): a line feed behind a carriage return is skipped. Then the block that was
-- returned last is.
unfoldable pub skip_block : Reader → Reader
skip_block r = elim r.last_char [
  | none ↦ record r {
    block_len = suc r.block_len;
    last_char = some b'\n';
    offset = r.offset + suc r.block_len;
  }
  | some c ↦ record r { offset = r.offset + r.block_len }
]

-- teco_eol_reader_convert(), with `auto` for TECO_ED_AUTOEOL
unfoldable pub convert : Bool → Reader → Status
unfolding skip_block refill return_block
convert auto r =
    let s = skip_block r in
    if leb (length s.buffer) s.offset then refill auto s s.source else return_block s

-- teco_eol_reader_convert_all(): the whole text and the reader, an error, or too little fuel.
pub data Whole : Type 0 where
  text : List ℕ → Reader → Whole
  read_error : Whole
  no_fuel : Whole

unfoldable pub convert_loop : ℕ → Bool → List ℕ → Reader → Whole
convert_loop zero auto str r = no_fuel
convert_loop (suc fuel) auto str r = elim (convert auto r) [
  | normal bytes s ↦ convert_loop fuel auto (str ++ bytes) s
  | eof s ↦ text str s
  | failed ↦ read_error
]

-- One call for each piece and each byte is enough, and one for the end.
abbrev pub calls : List Read → ℕ
calls [] = 1
calls (piece bytes ∷ source) = suc (length bytes) + calls source
calls (error ∷ source) = 1

unfoldable pub convert_all : Bool → List Read → Whole
unfolding convert_loop
convert_all auto source = convert_loop (calls source) auto [] (reader_init source)
