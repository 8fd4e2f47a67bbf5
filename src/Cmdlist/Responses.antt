-- ===== src/Cmdlist/Responses.antt =====
-- The replies of parser/parser.go, read by its own parser.
use a_kerno.Common.{
  ℕ, ◌≡◌, refl, Bytes, bytes_eq, text, [], ◌∷◌, ◌++◌, arith, ltb, length, suc, false, err,
}
use a_kerno.Cmdlist.{
  HeaderError, new_parser, decimal_from, format_ok, format_error, format_ok_with_body,
}

five_bytes :
    (a b c d e : ℕ) (rest : Bytes)
    → bytes_eq (a ∷ b ∷ c ∷ []) (text "TXT") ≡ false
    → new_parser (a ∷ b ∷ c ∷ d ∷ e ∷ rest) ≡ err (HeaderError.unsupported_format (a ∷ b ∷ c ∷ []))
unfolding new_parser
five_bytes a b c d e rest h =
    let long : ltb (suc (suc (suc (suc (suc (length rest)))))) 5 ≡ false = ground arith in
    rw (long, h, new_parser) refl

pub new_parser-format_ok :
    (message rest : Bytes)
    → new_parser (format_ok message ++ rest) ≡ err (HeaderError.unsupported_format (text "20\n"))
unfolding format_ok decimal_from bytes_eq
new_parser-format_ok [] rest = five_bytes b'2' b'0' b'\n' b'"' b'\n' rest refl
new_parser-format_ok (c ∷ message) rest =
    five_bytes b'2' b'0' b'\n' b'"' c ((message ++ text "\n") ++ rest) refl

pub new_parser-format_error :
    (message rest : Bytes)
    → new_parser (format_error message ++ rest) ≡ err (HeaderError.unsupported_format (text "50\n"))
unfolding format_error decimal_from bytes_eq
new_parser-format_error [] rest = five_bytes b'5' b'0' b'\n' b'"' b'\n' rest refl
new_parser-format_error (c ∷ message) rest =
    five_bytes b'5' b'0' b'\n' b'"' c ((message ++ text "\n") ++ rest) refl

pub new_parser-format_ok_with_body :
    (attrs body rest : Bytes)
    → new_parser (format_ok_with_body attrs body ++ rest)
      ≡ err (HeaderError.unsupported_format (text "20 "))
unfolding format_ok_with_body decimal_from bytes_eq
new_parser-format_ok_with_body attrs body rest = five_bytes b'2' b'0' b' ' b'O' b'K' _ refl
