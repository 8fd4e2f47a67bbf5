-- ===== src/BinParser/Values.antt =====
-- `parseValue` reads what `encodeValue` writes, and its slice expressions stay in range.
use a_kerno.Common.{
  ℕ, ◌+◌, ◌%◌, ◌^◌, ◌<◌, ◌≡◌, ◌≢◌, refl, Bytes, [], ◌∷◌, ◌++◌, some, Bool, length, sym, ◌-◌, take,
  drop, arith, ok, err, length-append, if◌then◌else◌,
}
use a_kerno.Common.Int.{ℤ, IsInt64, uint64, int64-uint64, uint64-lt}
use a_kerno.BinParser.Types.{Value, ValueError}
use a_kerno.BinParser.Slices.{
  slice, le_encode, le_decode, length-le_encode, le_decode-le_encode_32, le_decode-le_encode_64,
  take-append_self, drop-append_self, take_all,
}
use a_kerno.BinParser.Read.{parse_value, parse_str, parse_blob, parse_int, parse_bool, parse_tagged}
use a_kerno.BinParser.Write.{encode_value, encode_str, encode_int, encode_bool, encode_blob}

-- What the receiver gets: an `int` arrives as `int64`, any other type as its text.
abbrev pub received : Value → Value
received (Value.int v) = Value.int64 v
received (Value.other s) = Value.str s
received v = v

-- Integers in the range of their type, and texts whose length field does not wrap.
abbrev pub Fits : Value → Type 0
Fits (Value.str s) = length s + 4 < 2 ^ 32
Fits (Value.int64 v) = IsInt64 v
Fits (Value.int v) = IsInt64 v
Fits (Value.bool v) = Unit
Fits (Value.blob v) = length v + 4 < 2 ^ 32
Fits (Value.other s) = length s + 4 < 2 ^ 32

-- A length field and the bytes after it: what the readers compute from them.
module _ (s : Bytes) (h : length s + 4 < 2 ^ 32) where
  abbrev sized : Bytes
  sized = le_encode 4 (length s % 2 ^ 32) ++ s

  len_field : le_decode (take 4 sized) ≡ length s
  len_field =
      rw (take-append_self 4 (le_encode 4 (length s % 2 ^ 32)) s (sym (length-le_encode 4 _)))
        (omega (arith, le_decode-le_encode_32 (length s % 2 ^ 32)))

  length-sized : length sized ≡ 4 + length s
  length-sized = omega (
    arith,
    length-append (le_encode 4 (length s % 2 ^ 32)) s,
    length-le_encode 4 (length s % 2 ^ 32),
  )

  body : take (length s) (drop 4 sized) ≡ s
  body =
      rw (drop-append_self 4 (le_encode 4 (length s % 2 ^ 32)) s (sym (length-le_encode 4 _)))
        (take_all (length s) s refl)

  slice-sized : slice 4 ((4 + length s) % 2 ^ 32) sized ≡ some s
  slice-sized =
      let e : (4 + length s) % 2 ^ 32 ≡ 4 + length s = omega arith in
      let e' : 4 + length s - 4 ≡ length s = omega arith in
      rw (e, length-sized, e') (ground (arith, body))

  parse_str-encode : parse_str sized ≡ ok (Value.str s)
  unfolding parse_str
  parse_str-encode = rw (len_field, slice-sized, length-sized) (ground arith)

  parse_blob-encode : parse_blob sized ≡ ok (Value.blob s)
  unfolding parse_blob
  parse_blob-encode = rw (len_field, slice-sized, length-sized) (ground arith)

parse_int-encode : (v : ℤ) → IsInt64 v → parse_int (le_encode 8 (uint64 v)) ≡ ok (Value.int64 v)
unfolding parse_int
parse_int-encode v h = rw (
  length-le_encode 8 (uint64 v),
  take_all 8 (le_encode 8 (uint64 v)) (sym (length-le_encode 8 (uint64 v))),
  le_decode-le_encode_64 (uint64 v) (uint64-lt v),
  int64-uint64 v h,
)

parse_bool-encode : (v : Bool) → parse_bool ((if v then 1 else 0) ∷ []) ≡ ok (Value.bool v)
unfolding parse_bool
parse_bool-encode v = ground arith

-- Reading back a written value gives it, at the type in which it travels.
pub parse_tagged-encode_value :
    (key : Bytes) (v : Value)
    → Fits v
    → parse_tagged key (some (encode_value v)) ≡ ok (key, received v)
unfolding parse_tagged parse_value encode_value encode_str encode_int encode_bool encode_blob
parse_tagged-encode_value key (Value.str s) h = rw (parse_str-encode s h)
parse_tagged-encode_value key (Value.int64 v) h = rw (parse_int-encode v h)
parse_tagged-encode_value key (Value.int v) h = rw (parse_int-encode v h)
parse_tagged-encode_value key (Value.bool v) h = rw (parse_bool-encode v)
parse_tagged-encode_value key (Value.blob s) h = rw (parse_blob-encode s h)
parse_tagged-encode_value key (Value.other s) h = rw (parse_str-encode s h)

-- A value inside a frame is shorter than 2 ^ 32 bytes, and then no slice expression panics.
pub parse_value-ne-panic :
    (val_type : ℕ) (payload : Bytes)
    → length payload < 2 ^ 32
    → parse_value val_type payload ≢ err ValueError.panic
unfolding parse_value parse_str parse_blob parse_int parse_bool
parse_value-ne-panic val_type payload h e = ground arith
