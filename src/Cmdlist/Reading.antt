-- ===== src/Cmdlist/Reading.antt =====
-- `ReadAllCommands` of parser/parser.go ends.
use a_kerno.Common.{
  ℕ, zero, suc, ◌<◌, ◌≤◌, ◌≢◌, refl, Bytes, List, [], ◌∷◌, ◌++◌, Option, none, some, length, arith,
  Result, ok, err,
}
use a_kerno.Cmdlist.{
  Value, Command, ParseError, Line, classify, parse_lines, parse_command, prepend, read_rounds,
  read_all_commands,
}

-- The lines that are left are fewer.
abbrev Shortens : ℕ → Result ParseError (Command × List Bytes) → Type 0
Shortens n (err e) = Unit
Shortens n (ok (cmd, rest)) = length rest < n

Shortens-le :
    (m n : ℕ) (r : Result ParseError (Command × List Bytes)) → m ≤ n → Shortens m r → Shortens n r
Shortens-le m n (err e) h s = tt
Shortens-le m n (ok (cmd, rest)) h s = omega (arith, h, s)

-- What is left after one line that is classified.
parse_lines-Shortens :
    (stack : List Value) (lines : List Bytes) → Shortens (length lines) (parse_lines stack lines)
unfolding parse_lines
parse_lines-Shortens stack [] = tt
parse_lines-Shortens stack (line ∷ lines) =
    at_line (classify line) (λ st. parse_lines-Shortens st lines)
  where
    at_line :
        (l : Line)
        → ((st : List Value) → Shortens (length lines) (parse_lines st lines))
        → Shortens (suc (length lines)) (elim l [
          | Line.skipped ↦ parse_lines stack lines
          | Line.verb name ↦ ok (record { name = name; args = stack }, lines)
          | Line.value v ↦ parse_lines (stack ++ v ∷ []) lines
          | Line.bad s ↦ err (ParseError.cannot_parse_value s)
        ])
    at_line Line.skipped ih =
        Shortens-le (length lines) (suc (length lines)) (parse_lines stack lines) (omega arith)
          (ih stack)
    at_line (Line.verb name) ih = omega arith
    at_line (Line.value v) ih =
        Shortens-le (length lines) (suc (length lines)) (parse_lines (stack ++ v ∷ []) lines)
          (omega arith) (ih (stack ++ v ∷ []))
    at_line (Line.bad s) ih = tt

prepend-ne-none :
    (cmd : Command) (r : Option (Result ParseError (List Command)))
    → r ≢ none
    → prepend cmd r ≢ none
prepend-ne-none cmd none h e = h refl
prepend-ne-none cmd (some (err failure)) h e = absurd (ground (arith, e))
prepend-ne-none cmd (some (ok cmds)) h e = absurd (ground (arith, e))

read_rounds-ne-none :
    (fuel : ℕ) (lines : List Bytes) → length lines < fuel → read_rounds fuel lines ≢ none
unfolding read_rounds parse_command
read_rounds-ne-none zero lines h = absurd (omega (arith, h))
read_rounds-ne-none (suc fuel) lines h =
    at_command (parse_lines [] lines) (parse_lines-Shortens [] lines)
      (λ rest fewer. read_rounds-ne-none fuel rest fewer)
  where
    at_command :
        (r : Result ParseError (Command × List Bytes))
        → Shortens (length lines) r
        → ((rest : List Bytes) → length rest < fuel → read_rounds fuel rest ≢ none)
        → elim r [
          | err ParseError.eof ↦ some (ok [])
          | err (ParseError.cannot_parse_value s) ↦ some (err (ParseError.cannot_parse_value s))
          | ok (cmd, rest) ↦ prepend cmd (read_rounds fuel rest)
        ]
          ≢ none
    at_command (err ParseError.eof) short ih e = absurd (ground (arith, e))
    at_command (err (ParseError.cannot_parse_value s)) short ih e = absurd (ground (arith, e))
    at_command (ok (cmd, rest)) short ih e =
        prepend-ne-none cmd (read_rounds fuel rest) (ih rest (omega (arith, h, short))) e

-- ReadAllCommands ends on every input: it returns all commands, or the error of a line.
pub read_all_commands-ne-none : (lines : List Bytes) → read_all_commands lines ≢ none
unfolding read_all_commands
read_all_commands-ne-none lines = read_rounds-ne-none (suc (length lines)) lines (omega arith)
