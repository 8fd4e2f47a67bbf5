-- ===== src/Cmdlist/Stack.antt =====
-- `ParseCommand` of parser/parser.go as a stack machine: values before a verb are its arguments.
use a_kerno.Common.{
  ◌≡◌, refl, sym, ap, ◌∙◌, Bytes, List, [], ◌∷◌, ◌++◌, append_assoc, append-nil, ok, err,
}
use a_kerno.Cmdlist.{Value, ParseError, Line, classify, parse_lines, parse_command}

-- Lines that are values, empty or comments, and the values that they push.
pub data Pushes : List Bytes → List Value → Type 0 where
  done : Pushes [] []
  skips :
      {line : Bytes} {lines : List Bytes} {values : List Value}
      → classify line ≡ Line.skipped
      → Pushes lines values
      → Pushes (line ∷ lines) values
  pushes :
      {line : Bytes} {lines : List Bytes} {v : Value} {values : List Value}
      → classify line ≡ Line.value v
      → Pushes lines values
      → Pushes (line ∷ lines) (v ∷ values)

parse_lines-Pushes :
    {pre : List Bytes} {values : List Value} (stack : List Value) (rest : List Bytes)
    → Pushes pre values
    → parse_lines stack (pre ++ rest) ≡ parse_lines (stack ++ values) rest
unfolding parse_lines
parse_lines-Pushes stack rest Pushes.done = rw (append-nil stack) refl
parse_lines-Pushes stack rest (Pushes.skips h p) =
    rw (h, parse_lines) (parse_lines-Pushes stack rest p)
parse_lines-Pushes stack rest (Pushes.pushes {v} {values} h p) =
    rw (h, parse_lines)
      (parse_lines-Pushes (stack ++ v ∷ []) rest p
        ∙ ap (λ s. parse_lines s rest) (append_assoc stack (v ∷ []) values))

-- After lines that push values, a verb line ends the command: those values, in their order, are its
-- arguments, and the lines after the verb are left for the next one.
pub parse_command-verb :
    (pre rest : List Bytes) (values : List Value) (line name : Bytes)
    → Pushes pre values
    → classify line ≡ Line.verb name
    → parse_command (pre ++ line ∷ rest) ≡ ok (record { name = name; args = values }, rest)
unfolding parse_command parse_lines
parse_command-verb pre rest values line name p h =
    parse_lines-Pushes [] (line ∷ rest) p ∙ rw (h, parse_lines) refl

-- After lines that push values, a line that is none of them makes the command fail with that line.
pub parse_command-bad :
    (pre rest : List Bytes) (values : List Value) (line shown : Bytes)
    → Pushes pre values
    → classify line ≡ Line.bad shown
    → parse_command (pre ++ line ∷ rest) ≡ err (ParseError.cannot_parse_value shown)
unfolding parse_command parse_lines
parse_command-bad pre rest values line shown p h =
    parse_lines-Pushes [] (line ∷ rest) p ∙ rw (h, parse_lines) refl

-- A stream that ends after values with no verb gives io.EOF, whatever the values are.
pub parse_command-eof :
    (lines : List Bytes) (values : List Value)
    → Pushes lines values
    → parse_command lines ≡ err ParseError.eof
unfolding parse_command parse_lines
parse_command-eof lines values p =
    ap parse_command (sym (append-nil lines)) ∙ parse_lines-Pushes [] [] p
