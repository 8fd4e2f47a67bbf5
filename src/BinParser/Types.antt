-- ===== src/BinParser/Types.antt =====
-- Frames, values and errors of internal/binparser.
use a_kerno.Common.{ℕ, Bytes, [], ◌∷◌, Bool, true, false}
use a_kerno.Common.Int.{ℤ}
use a_kerno.Common.Assoc.{Assoc}

-- Frame types.
abbrev pub frame_cmd : ℕ
frame_cmd = 0x01

abbrev pub frame_attr : ℕ
frame_attr = 0x02

abbrev pub frame_data : ℕ
frame_data = 0x03

abbrev pub frame_end : ℕ
frame_end = 0x04

-- Value types.
abbrev pub val_str : ℕ
val_str = 0x10

abbrev pub val_int : ℕ
val_int = 0x11

abbrev pub val_bool : ℕ
val_bool = 0x12

abbrev pub val_blob : ℕ
val_blob = 0x13

-- Response codes.
abbrev pub code_ok : ℕ
code_ok = 20

abbrev pub code_error : ℕ
code_error = 50

-- The dynamic types that an `interface{}` attribute can have. `other` is a value of any other
-- type, given by its `%v` text.
pub data Value : Type 0 where
  str : Bytes → Value
  int64 : ℤ → Value
  int : ℤ → Value
  bool : Bool → Value
  blob : Bytes → Value
  other : Bytes → Value

-- `BinCommand`; a nil map and an empty one are both the empty list.
pub record BinCommand : Type 0 where
  pub code : ℕ
  pub attrs : Assoc Value
  pub payload : Bytes

-- `panic` is a slice expression out of range: no error value, the process ends.
pub data ValueError : Type 0 where
  str_too_short blob_too_short int_too_short bool_too_short : ℕ → ValueError
  str_exceeds blob_exceeds : ℕ → ℕ → ValueError
  unknown_value_type : ℕ → ValueError
  panic : ValueError

pub data AttrError : Type 0 where
  payload_too_short : ℕ → AttrError
  key_exceeds : ℕ → ℕ → AttrError
  no_type_tag : AttrError
  bad_value : Bytes → ValueError → AttrError
  panic : AttrError

-- `eof` is `io.EOF` itself, on which the callers test; a wrapped `io.EOF` is `read_payload`.
pub data ReadError : Type 0 where
  eof unexpected_eof : ReadError
  read_payload : ℕ → ReadError
  cmd_too_short : ℕ → ReadError
  attr_frame : AttrError → ReadError
  end_without_cmd : ReadError
  unknown_frame_type : ℕ → ReadError
  out_of_fuel : ReadError

-- A slice expression of `parseAttr` or `parseValue` is out of range: nothing recovers, and the process ends.
abbrev pub is_panic : ReadError → Bool
is_panic (ReadError.attr_frame AttrError.panic) = true
is_panic (ReadError.attr_frame (AttrError.bad_value key ValueError.panic)) = true
is_panic e = false

-- The first byte, at a place where the code has tested that there is one.
abbrev pub head_or_zero : Bytes → ℕ
head_or_zero [] = 0
head_or_zero (b ∷ bs) = b
