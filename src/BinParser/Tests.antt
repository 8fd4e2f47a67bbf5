-- ===== src/BinParser/Tests.antt =====
-- Runs of the BIN01 reader and writer, and the theorems at concrete inputs.
use a_kerno.Common.{◌+◌, ◌≤◌, ◌≡◌, ◌↔◌, refl, Bytes, text, [], ◌∷◌, ◌++◌, length, arith, ok, err}
use a_kerno.Common.Int.{pos}
use a_kerno.Common.Assoc.{Assoc, insert}
use a_kerno.BinParser.Types.{Value, ReadError}
use a_kerno.BinParser.Slices.{le_encode, le_decode}
use a_kerno.BinParser.Read.{
  read_frame, on_frame, parse_attr, parse_value, parse_str, read_loop, read_round, read_command,
}
use a_kerno.BinParser.Write.{
  encode_value, encode_str, encode_int, encode_attr, write_frame, write_attrs, write_data,
  write_command,
}
use a_kerno.BinParser.Attrs.{key_len, Panics, parse_attr-panic_iff}
use a_kerno.BinParser.RoundTrip.{received_attrs, read_command-write_command}
use a_kerno.BinParser.Progress.{Advances, read_command-Advances}

abbrev logs_attrs : Assoc Value
logs_attrs = (text "name", Value.str (text "web")) ∷ (text "lines", Value.int (pos 3)) ∷ []

abbrev logs_bytes : Bytes
logs_bytes =
    1
    ∷ 1
    ∷ 0
    ∷ 0
    ∷ 0
    ∷ 7
    ∷ 2
    ∷ 14
    ∷ 0
    ∷ 0
    ∷ 0
    ∷ 0
    ∷ 4
    ∷ (text "name" ++ (16 ∷ 3 ∷ 0 ∷ 0 ∷ 0 ∷ (text "web" ++ (4 ∷ 0 ∷ 0 ∷ 0 ∷ 0 ∷ []))))

write_logs : write_command 7 ((text "name", Value.str (text "web")) ∷ []) [] ≡ logs_bytes
unfolding write_command write_attrs write_frame write_data encode_attr encode_value encode_str
    le_encode
write_logs = refl

read_logs :
    read_command logs_bytes
    ≡ ok (record { code = 7; attrs = (text "name", Value.str (text "web")) ∷ []; payload = [] }, [])
unfolding read_command read_loop read_round read_frame on_frame parse_attr parse_value parse_str
    le_decode insert
read_logs = refl

truncated : read_command (1 ∷ 1 ∷ 0 ∷ []) ≡ err ReadError.unexpected_eof
unfolding read_command read_loop read_round read_frame
truncated = refl

read_command-write_command_example :
    read_command (write_command 7 logs_attrs (5 ∷ []) ++ (1 ∷ []))
    ≡ ok (record { code = 7; attrs = received_attrs logs_attrs []; payload = 5 ∷ [] }, 1 ∷ [])
unfolding encode_attr encode_value encode_str encode_int le_encode
read_command-write_command_example =
    read_command-write_command 7 logs_attrs (5 ∷ []) (1 ∷ []) (omega arith) (omega arith)

read_command-Advances_example : Advances 12 (read_command (text "not a stream"))
read_command-Advances_example = read_command-Advances (text "not a stream")

parse_attr-panic_iff_example :
    let payload : Bytes = 255 ∷ 255 ∷ 97 ∷ [] in
    Panics (parse_attr payload)
    ↔ ((65534 ≤ key_len payload) × (key_len payload + 2 ≤ length payload))
parse_attr-panic_iff_example =
    parse_attr-panic_iff (255 ∷ 255 ∷ 97 ∷ []) (omega arith) (omega arith)
