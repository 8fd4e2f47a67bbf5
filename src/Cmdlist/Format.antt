-- ===== src/Cmdlist/Format.antt =====
-- The formats of replies of parser/parser.go, which the server writes to a text client.
use a_kerno.Common.{
  ℕ, zero, suc, ◌+◌, ◌/◌, ◌%◌, Bytes, bytes_eq, text, [], ◌∷◌, ◌++◌, ltb, if◌then◌else◌,
}
use a_kerno.Common.Int.{ℤ, pos, negsuc}
use a_kerno.Text.{has_suffix}

unfoldable pub decimal_from : ℕ → ℕ → Bytes
decimal_from zero n = []
decimal_from (suc fuel) n =
    let front = decimal_from fuel (n / 10) in
    let last = b'0' + n % 10 in if ltb n 10 then last ∷ [] else front ++ last ∷ []

-- `%d` of a number, which has at most as many digits as its value plus one.
unfoldable pub decimal : ℤ → Bytes
unfolding decimal_from
decimal (pos n) = decimal_from (suc n) n
decimal (negsuc n) = b'-' ∷ decimal_from (suc (suc n)) (suc n)

abbrev pub code_ok : ℤ
code_ok = pos 20

abbrev pub code_error : ℤ
code_error = pos 50

-- `FormatResponse`
unfoldable pub format_response : ℤ → Bytes → Bytes
unfolding decimal
format_response code message = decimal code ++ (text "\n\"" ++ (message ++ text "\n"))

-- `FormatOK`
unfoldable pub format_ok : Bytes → Bytes
unfolding format_response
format_ok message = format_response code_ok message

-- `FormatError`
unfoldable pub format_error : Bytes → Bytes
unfolding format_response
format_error message = format_response code_error message

-- A block, with a newline where it does not end in one.
abbrev pub ended : Bytes → Bytes
ended block = if has_suffix (text "\n") block then block else block ++ text "\n"

-- `FormatOKWithBody`
unfoldable pub format_ok_with_body : Bytes → Bytes → Bytes
unfolding decimal
format_ok_with_body attrs body =
    decimal code_ok
    ++ (text " OK\n"
        ++ ((if bytes_eq attrs [] then [] else ended attrs)
            ++ (text "\n"
                ++ ((if bytes_eq body [] then [] else text "body:\n" ++ ended body) ++ text "\n"))))
