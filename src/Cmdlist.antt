-- ===== src/Cmdlist.antt =====
-- parser/parser.go: the TXT01 text protocol. The stream is the list of its complete lines: what
-- stands behind the last newline comes with io.EOF, and the code drops it.
-- `strings.TrimSpace` is that of ASCII white space.
pub mod Numbers
pub mod Stack
pub mod Format
pub mod Responses
pub mod Decimal
pub mod Reading
mod Tests
unfoldable pub use Format.{
  decimal_from, decimal, code_ok, code_error, format_response, format_ok, format_error, ended,
  format_ok_with_body,
}
use a_kerno.Common.{
  ℕ, zero, suc, ◌+◌, ◌-◌, ◌*◌, ◌/◌, ◌%◌, ◌^◌, Bytes, bytes_eq, text, List, [], ◌∷◌, ◌++◌, Option,
  none, some, Bool, true, false, not, ◌&&◌, ◌||◌, ltb, leb, ◌==◌, length, take, drop, if◌then◌else◌,
  Result, ok, err,
}
use a_kerno.Common.Int.{ℤ, pos, negsuc}
use a_kerno.Text.{trim_space, has_suffix}

-- A `Value` with the field that its `Type` selects.
pub data Value : Type 0 where
  str : Bytes → Value
  int : ℤ → Value
  bool : Bool → Value

pub record Command : Type 0 where
  pub name : Bytes
  pub args : List Value

pub data ParseError : Type 0 where
  eof : ParseError
  cannot_parse_value : Bytes → ParseError

pub data HeaderError : Type 0 where
  short_header : HeaderError
  unsupported_format : Bytes → HeaderError

-- `NewParser`: the version, and the stream after the header.
unfoldable pub new_parser : Bytes → Result HeaderError (Bytes × Bytes)
new_parser stream =
    if ltb (length stream) 5
    then err HeaderError.short_header
    else if not (bytes_eq (take 3 stream) (text "TXT"))
    then err (HeaderError.unsupported_format (take 3 stream))
    else ok (take 2 (drop 3 stream), drop 5 stream)

-- The complete lines of a stream, the line at hand being `line`.
unfoldable pub split_lines : Bytes → Bytes → List Bytes
split_lines line [] = []
split_lines line (c ∷ stream) =
    let ended = line ∷ split_lines [] stream in
    let goes_on = split_lines (line ++ c ∷ []) stream in if c == b'\n' then ended else goes_on

abbrev pub verbs : List Bytes
verbs =
    text "start"
    ∷ text "stop"
    ∷ text "restart"
    ∷ text "status"
    ∷ text "list-daemons"
    ∷ text "list-features"
    ∷ text "logs"
    ∷ text "shutdown"
    ∷ text "list"
    ∷ text "reload"
    ∷ text "prog-start"
    ∷ text "prog-stop"
    ∷ text "prog-status"
    ∷ text "prog-list"
    ∷ text "help"
    ∷ text "version"
    ∷ text "quit"
    ∷ []

unfoldable pub contains : List Bytes → Bytes → Bool
contains [] line = false
contains (verb ∷ rest) line = bytes_eq verb line || contains rest line

-- `resolveCommand`: is the line a verb.
unfoldable pub resolve_command : Bytes → Bool
unfolding contains
resolve_command line = contains verbs line

abbrev is_digit : ℕ → Bool
is_digit c = leb b'0' c && leb c b'9'

-- The number that decimal digits continue, `none` at any other byte.
unfoldable pub digits : ℕ → Bytes → Option ℕ
digits n [] = some n
digits n (c ∷ cs) = let rest = digits (n * 10 + (c - b'0')) cs in if is_digit c then rest else none

unfoldable pub magnitude : Bytes → Option ℕ
unfolding digits
magnitude [] = none
magnitude (c ∷ cs) = digits 0 (c ∷ cs)

abbrev positive : Option ℕ → Option ℤ
positive none = none
positive (some n) = if ltb n (2 ^ 63) then some (pos n) else none

abbrev negative : Option ℕ → Option ℤ
negative none = none
negative (some zero) = some (pos zero)
negative (some (suc n)) = if ltb n (2 ^ 63) then some (negsuc n) else none

-- `strconv.ParseInt(line, 10, 64)`
unfoldable pub parse_int : Bytes → Option ℤ
unfolding magnitude
parse_int [] = none
parse_int (c ∷ cs) =
    if c == b'-'
    then negative (magnitude cs)
    else if c == b'+'
    then positive (magnitude cs)
    else positive (magnitude (c ∷ cs))

abbrev of_int : Option ℤ → Option Value
of_int none = none
of_int (some n) = some (Value.int n)

-- `parseValue`
unfoldable pub parse_value : Bytes → Option Value
unfolding parse_int
parse_value [] = of_int (parse_int [])
parse_value (c ∷ cs) =
    if c == b'"'
    then some (Value.str cs)
    else if bytes_eq (c ∷ cs) (text "t")
    then some (Value.bool true)
    else if bytes_eq (c ∷ cs) (text "f")
    then some (Value.bool false)
    else of_int (parse_int (c ∷ cs))

-- What the loop of `ParseCommand` makes of a trimmed line.
pub data Line : Type 0 where
  skipped : Line
  verb : Bytes → Line
  value : Value → Line
  bad : Bytes → Line

abbrev of_value : Bytes → Option Value → Line
of_value line none = Line.bad line
of_value line (some v) = Line.value v

abbrev is_comment : Bytes → Bool
is_comment [] = true
is_comment (c ∷ cs) = c == b'#'

unfoldable pub classify : Bytes → Line
unfolding trim_space resolve_command parse_value
classify raw =
    let line = trim_space raw in
    if is_comment line
    then Line.skipped
    else if resolve_command line
    then Line.verb line
    else of_value line (parse_value line)

-- The loop of `ParseCommand`: the command and the lines after it.
unfoldable pub parse_lines : List Value → List Bytes → Result ParseError (Command × List Bytes)
parse_lines stack [] = err ParseError.eof
parse_lines stack (line ∷ lines) = elim (classify line) [
  | Line.skipped ↦ parse_lines stack lines
  | Line.verb name ↦ ok (record { name = name; args = stack }, lines)
  | Line.value v ↦ parse_lines (stack ++ v ∷ []) lines
  | Line.bad s ↦ err (ParseError.cannot_parse_value s)
]

-- `ParseCommand`
unfoldable pub parse_command : List Bytes → Result ParseError (Command × List Bytes)
unfolding parse_lines
parse_command lines = parse_lines [] lines

abbrev pub prepend :
    Command → Option (Result ParseError (List Command)) → Option (Result ParseError (List Command))
prepend cmd none = none
prepend cmd (some (err e)) = some (err e)
prepend cmd (some (ok cmds)) = some (ok (cmd ∷ cmds))

-- The loop of `ReadAllCommands`; `none` is a lack of rounds.
unfoldable pub read_rounds : ℕ → List Bytes → Option (Result ParseError (List Command))
read_rounds zero lines = none
read_rounds (suc fuel) lines = elim (parse_command lines) [
  | err ParseError.eof ↦ some (ok [])
  | err (ParseError.cannot_parse_value s) ↦ some (err (ParseError.cannot_parse_value s))
  | ok (cmd, rest) ↦ prepend cmd (read_rounds fuel rest)
]

-- `ReadAllCommands`: a command takes a line, so that one round more than there are lines is enough.
unfoldable pub read_all_commands : List Bytes → Option (Result ParseError (List Command))
unfolding read_rounds
read_all_commands lines = read_rounds (suc (length lines)) lines
