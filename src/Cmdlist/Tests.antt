-- ===== src/Cmdlist/Tests.antt =====
-- Runs of the text parser, and its theorems at concrete inputs.
use a_kerno.Common.{◌≡◌, refl, bytes_eq, text, [], ◌∷◌, true, ok, some}
use a_kerno.Common.Int.{pos, negsuc}
use a_kerno.Cmdlist.{
  Value, Line, new_parser, split_lines, classify, resolve_command, contains, parse_value, parse_int,
  magnitude, digits, parse_command, parse_lines,
}
use a_kerno.Text.{trim_space, trim_left}
use a_kerno.Cmdlist.Stack.{Pushes, parse_command-verb}

header_runs : new_parser (text "TXT01stop") ≡ ok (text "01", text "stop")
unfolding new_parser bytes_eq
header_runs = refl

session_runs :
    parse_command (split_lines [] (text "# log\n  -12 \n\"web\nt\nlogs\r\nstop\nlost"))
    ≡ ok (
      record {
        name = text "logs";
        args = Value.int (negsuc 11) ∷ Value.str (text "web") ∷ Value.bool true ∷ [];
      },
      text "stop" ∷ [],
    )
unfolding parse_command parse_lines split_lines classify trim_space trim_left resolve_command
    contains parse_value parse_int magnitude digits bytes_eq
session_runs = refl

five-Pushes : Pushes (text "5" ∷ []) (Value.int (pos 5) ∷ [])
unfolding classify trim_space trim_left resolve_command contains parse_value parse_int magnitude
    digits bytes_eq
five-Pushes = Pushes.pushes refl Pushes.done

stop_is_verb : classify (text "stop") ≡ Line.verb (text "stop")
unfolding classify trim_space trim_left resolve_command contains bytes_eq
stop_is_verb = refl

parse_int_runs : parse_int (text "+42") ≡ some (pos 42)
unfolding parse_int magnitude digits
parse_int_runs = refl

parse_command-verb_example :
    parse_command (text "5" ∷ text "stop" ∷ [])
    ≡ ok (record { name = text "stop"; args = Value.int (pos 5) ∷ [] }, [])
parse_command-verb_example =
    parse_command-verb (text "5" ∷ []) [] (Value.int (pos 5) ∷ []) (text "stop") (text "stop")
      five-Pushes stop_is_verb
