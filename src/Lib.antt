-- ===== src/Lib.antt =====
-- SciTECO (src/): an interactive text editor programmed in the TECO language. Every key that is
-- typed is executed at once, and rubbing out a key takes its effects back. This library models
-- the part of the C code that this rests on, the evaluation of expressions, the parser with its
-- loops, labels and strings, search patterns, the ring of buffers, and the text that is read
-- and written.
--
-- Undo (src/undo.c) is the stack of undo tokens: one chain of tokens for each key of the
-- command line. push_size is teco_undo_push_size(), pop is teco_undo_pop(). Undo.Reverts
-- describes code that changes variables under such tokens. Editor is the record of the global
-- variables that the modelled code shares, with the tokens that restore them (the macros of
-- src/undo.h and src/expressions.h).
--
-- TecoInt is the integer type of the language, a 64-bit word. Expressions (src/expressions.c)
-- are the stacks of numbers and operators: Stacks pushes and pops, Calc applies one operator,
-- Eval resolves operators by precedence and handles braces and arguments. Each function is
-- named as in C without the prefix teco_expressions_. An error returned through a GError is a
-- value of the type Run, which also tells a trap of the processor and a loop that ran out of
-- fuel. Commands (src/core-commands.c) are the commands that build expressions; Commands.Loops
-- are the loop commands < > and ;.
--
-- Parser (src/parser.c, src/core-commands.c) is the main machine: its tables of transitions,
-- the input of the start state, of conditionals, of F and of control commands, and main_step,
-- the loop of teco_machine_main_step(), whose fuel is the number of characters that it
-- executes. What the commands on the text and on registers do, and the states of commands with
-- a string or a register argument, are fields of the record Context. Positions in a macro count
-- characters, where the C code counts bytes.
--
-- Cmdline (src/cmdline.c) is the command line: keys are inserted and executed one at a time, an
-- error rubs out what the key string has inserted, a return terminates the command line and
-- clears the undo tokens and the stacks, and the rubout key removes the last key. settle is
-- what teco_cmdline_keypress() does behind each key. It works on any machine whose steps are
-- taken back by their tokens (the record Machine); Commands.Keys is the machine of the commands
-- of expressions. A key here is a whole command, or one character of it; the UTF-8 encoding of
-- the command line is left aside.
--
-- Eol (src/eol.c) is the reader that translates line ends: convert is
-- teco_eol_reader_convert(), which returns one block at a time, convert_all is
-- teco_eol_reader_convert_all(). The file is a list of the pieces that its reads deliver.
-- Eol.Writer is the writer, teco_eol_writer_convert(), whose write callback is a parameter;
-- save_to_channel is teco_view_save_to_channel() (src/view.c), and Spawn is the feeding of the
-- standard input of a process (src/spawn.c), which calls the writer at every dispatch until all
-- is written, the channel can no longer be written or there is an error. Normal says what the
-- translated text and the style of its line ends are. Eol.Writer.Kept is what a call of the
-- writer leaves, with a CRLF that is torn apart, and Spawn.Owed what a process is still to
-- receive.
--
-- Numbers (src/expressions.c, src/core-commands.c) are the two directions of the backslash
-- command: format is teco_expressions_format(), read_number is the reading in
-- teco_state_start_backslash(). The text is a list of bytes; a number has at most 64 digits,
-- which is the fuel of format_loop.
--
-- Glob (src/glob.c) is the escaping of file name patterns and their translation to the text of
-- a regular expression; GLib compiles and matches that text.
--
-- Strings (src/string-utils.c) are the comparison and the common prefix of strings, their echo,
-- and the part behind the last of some separators.
--
-- Symbols (src/symbols.c) is the search for a symbol in a sorted list, and its completion:
-- Symbols.Completion has the loop, Symbols.Narrowing and Symbols.Completing what it inserts.
--
-- Building (src/parser.c) is the string building machine: building_input is
-- teco_machine_stringbuilding_input(), building_escape is teco_machine_stringbuilding_escape().
-- It works over the record SpecMachine, a machine for names of registers; QregSpec (src/qreg.c)
-- is this machine over a string building machine of its own, and nested ties the two to any
-- depth. StringArg (src/parser.c) is the string argument of a command,
-- teco_state_expectstring_input(), with the callbacks of the command as parameters. Characters
-- here are code points, strings are bytes, and the functions of GLib on them are the record
-- Glib.
--
-- Search (src/search.c) is the translation of search patterns to regular expressions:
-- class2regexp is teco_class2regexp(), pattern2regexp is teco_pattern2regexp(). Search.Elements
-- are the elements of patterns, with how they are written and the regular expressions that they
-- stand for.
--
-- Ring (src/ring.c, src/ring.h, src/list.h) is the ring of buffers: a list of buffers with
-- addresses, the operations on it, and the tokens that take them back. Ring.Saving has the
-- dirty flag and saving, and Ring.Files the commands EB, EW and EF on files. Ring.Queue and
-- Ring.Setting have the lemmas on the list; Ring.Undoing, Ring.Restoring and Ring.Commands run
-- the tokens, Ring.Ready and Ring.Keeping are what the commands keep, Ring.Present and
-- Ring.Current that the current buffer is in the ring, and Ring.Losses what undoing does not
-- restore. Each operation ends with a value of Edited: whether it succeeds, the ring, and the
-- tokens.
--
-- Goto (src/goto.c, src/goto-commands.c) is the table of labels, the input of labels and
-- comments, and the go-to command behind its string argument. Goto.Undoing has the undo tokens
-- of these. Goto.Jumps follows the definitions of labels behind a go-to.
--
-- Fuel: the loops of push_calc and eval get the length of the operator stack, since every
-- calculation takes two entries off it; the power operator gets 64 rounds, one for each bit of
-- the exponent; undo pads its stack up to the program counter; the brace levels to leave are
-- counted; reading a text takes at most one call for each piece and each byte and one for the
-- end; a pattern takes at most two rounds for each byte and two more; a search takes at most
-- one step for each entry, and one more.
--
-- Not modelled: Scintilla, GLib and the user interfaces; the vendored libraries below contrib;
-- the tables and the text of registers, the search over buffers, the views of buffers, and the
-- replacement of the command line by a macro. The radix of digits is an argument, since it is
-- the value of a register. The allocation of memory always succeeds.
pub mod Prelude
pub mod Undo
pub mod TecoInt
pub mod Editor
pub mod Expressions
pub mod Commands
pub mod Cmdline
pub mod Numbers
pub mod Parser
pub mod Eol
pub mod Spawn
pub mod Glob
pub mod Strings
pub mod Symbols
pub mod Building
pub mod StringArg
pub mod QregSpec
pub mod Search
pub mod Ring
pub mod Goto
pub mod Tests
