-- ===== src/BinParser/Write.antt =====
-- internal/binparser/writer.go. A call returns the bytes that it writes, on a connection that
-- takes them all; a map is written in the order in which its entries are listed.
use a_kerno.Common.{ℕ, ◌/◌, ◌%◌, ◌^◌, Bytes, text, [], ◌∷◌, ◌++◌, Bool, ltb, length, if◌then◌else◌}
use a_kerno.Common.Int.{ℤ, uint64}
use a_kerno.Common.Assoc.{Assoc}
use a_kerno.BinParser.Types.{
  Value, frame_cmd, frame_attr, frame_data, frame_end, val_str, val_int, val_bool, val_blob,
  code_error,
}
use a_kerno.BinParser.Slices.{le_encode}

unfoldable pub encode_str : Bytes → Bytes
encode_str s = val_str ∷ (le_encode 4 (length s % 2 ^ 32) ++ s)

unfoldable pub encode_int : ℤ → Bytes
encode_int v = val_int ∷ le_encode 8 (uint64 v)

unfoldable pub encode_bool : Bool → Bytes
encode_bool v = val_bool ∷ (if v then 1 else 0) ∷ []

unfoldable pub encode_blob : Bytes → Bytes
encode_blob v = val_blob ∷ (le_encode 4 (length v % 2 ^ 32) ++ v)

unfoldable pub encode_value : Value → Bytes
encode_value (Value.str s) = encode_str s
encode_value (Value.int64 v) = encode_int v
encode_value (Value.int v) = encode_int v
encode_value (Value.bool v) = encode_bool v
encode_value (Value.blob v) = encode_blob v
encode_value (Value.other s) = encode_str s

unfoldable pub encode_attr : Bytes → Value → Bytes
encode_attr key v =
    let key_len = length key % 2 ^ 16 in key_len / 256 ∷ key_len % 256 ∷ (key ++ encode_value v)

unfoldable pub write_frame : ℕ → Bytes → Bytes
write_frame frame_type payload = frame_type ∷ (le_encode 4 (length payload % 2 ^ 32) ++ payload)

unfoldable pub write_attrs : Assoc Value → Bytes
write_attrs [] = []
write_attrs ((key, v) ∷ attrs) = write_frame frame_attr (encode_attr key v) ++ write_attrs attrs

unfoldable pub write_data : Bytes → Bytes
write_data payload = if ltb 0 (length payload) then write_frame frame_data payload else []

unfoldable pub write_command : ℕ → Assoc Value → Bytes → Bytes
write_command code attrs payload =
    write_frame frame_cmd (code ∷ [])
    ++ (write_attrs attrs ++ (write_data payload ++ write_frame frame_end []))

unfoldable pub write_response : ℕ → Bytes → Bytes
write_response resp_code message =
    write_command resp_code ((text "message", Value.str message) ∷ []) []

unfoldable pub write_error : Bytes → Bytes
write_error message = write_response code_error message
