-- ===== src/BinParser/Attrs.antt =====
-- `parseAttr` against `encodeAttr`, and the `uint16` bound of its slice expressions.
use a_kerno.Common.{
  ℕ, ◌+◌, ◌*◌, ◌-◌, ◌/◌, ◌%◌, ◌^◌, ◌≤◌, ◌<◌, ◌≡◌, ◌≢◌, ◌↔◌, refl, Bytes, [], ◌∷◌, ◌++◌, some,
  length, take, drop, get_or, arith, ok, err, Result, sym, length-append, length-drop,
}
use mathlib.Core.Path.{subst}
use a_kerno.BinParser.Types.{Value, ValueError, AttrError}
use a_kerno.BinParser.Slices.{take-append_self, drop-append_self}
use a_kerno.BinParser.Read.{parse_tagged, parse_attr}
use a_kerno.BinParser.Write.{
  encode_value, encode_str, encode_int, encode_bool, encode_blob, encode_attr,
}
use a_kerno.BinParser.Values.{received, Fits, parse_tagged-encode_value, parse_value-ne-panic}

-- A value is written with its type tag at least.
pub length-encode_value : (v : Value) → 0 < length (encode_value v)
unfolding encode_value encode_str encode_int encode_bool encode_blob
length-encode_value (Value.str s) = omega arith
length-encode_value (Value.int64 v) = omega arith
length-encode_value (Value.int v) = omega arith
length-encode_value (Value.bool v) = omega arith
length-encode_value (Value.blob s) = omega arith
length-encode_value (Value.other s) = omega arith

-- Reading back a written attribute gives its key and its value, if the key is shorter than 65534.
pub parse_attr-encode_attr :
    (key : Bytes) (v : Value)
    → length key < 65534
    → Fits v
    → parse_attr (encode_attr key v) ≡ ok (key, received v)
unfolding parse_attr encode_attr
parse_attr-encode_attr key v h fits =
    let n = length key in
    let e : (n % 2 ^ 16) / 256 * 256 + n % 2 ^ 16 % 256 ≡ n = omega arith in
    let e' : (2 + n) % 2 ^ 16 ≡ 2 + n = omega arith in
    let taken : take n (key ++ encode_value v) ≡ key = take-append_self n key _ refl in
    let left : drop n (key ++ encode_value v) ≡ encode_value v = drop-append_self n key _ refl in
    rw (e, e')
      (ground (
        arith,
        taken,
        left,
        length-append key (encode_value v),
        length-encode_value v,
        parse_tagged-encode_value key v fits,
      ))

-- The length field of the key.
abbrev pub key_len : Bytes → ℕ
key_len payload = get_or payload 0 0 * 256 + get_or payload 1 0

-- The slice of the key is out of range exactly when the key's length field is 65534 or 65535 and as many
-- bytes are there: `2+keyLen` wraps round to 0 or 1.
parse_attr-key_panic_iff :
    (payload : Bytes)
    → key_len payload < 2 ^ 16
    → (parse_attr payload ≡ err AttrError.panic)
      ↔ ((65534 ≤ key_len payload) × (key_len payload + 2 ≤ length payload))
unfolding parse_attr
parse_attr-key_panic_iff payload b =
    (λ e. ground (arith, length-drop 2 payload), λ (lo, hi). ground arith)

parse_tagged-ne-panic :
    (key k tagged : Bytes)
    → length tagged < 2 ^ 32
    → parse_tagged key (some tagged) ≢ err (AttrError.bad_value k ValueError.panic)
unfolding parse_tagged
parse_tagged-ne-panic key k [] h e = cc
parse_tagged-ne-panic key k (tag ∷ payload) h e =
    ground (arith, parse_value-ne-panic tag payload (omega arith))

-- Of an attribute that fits into a frame, no value makes Go panic.
pub parse_attr-ne-value-panic :
    (payload key : Bytes)
    → length payload < 2 ^ 32
    → parse_attr payload ≢ err (AttrError.bad_value key ValueError.panic)
unfolding parse_attr
parse_attr-ne-value-panic payload key h e =
    let key_end = (2 + key_len payload) % 2 ^ 16 in
    ground (
      arith,
      length-drop key_end payload,
      parse_tagged-ne-panic (take (key_end - 2) (drop 2 payload)) key (drop key_end payload),
    )

-- A slice expression of `parseAttr`, or of `parseValue` under it, is out of range.
abbrev pub Panics : Result AttrError (Bytes × Value) → Type 0
Panics (err AttrError.panic) = Unit
Panics (err (AttrError.bad_value key ValueError.panic)) = Unit
Panics _ = ⊥

panic_at_key :
    (payload : Bytes) (r : Result AttrError (Bytes × Value))
    → length payload < 2 ^ 32
    → parse_attr payload ≡ r
    → Panics r
    → parse_attr payload ≡ err AttrError.panic
panic_at_key payload (err AttrError.panic) short e h = e
panic_at_key payload (err (AttrError.bad_value key ValueError.panic)) short e h =
    absurd (parse_attr-ne-value-panic payload key short e)
panic_at_key payload r short e h = absurd h

-- On the payload of a frame, parseAttr and parseValue under it make Go panic exactly when the length field of the
-- key is 65534 or 65535 and as many bytes follow.
pub parse_attr-panic_iff :
    (payload : Bytes)
    → key_len payload < 2 ^ 16
    → length payload < 2 ^ 32
    → Panics (parse_attr payload)
      ↔ ((65534 ≤ key_len payload) × (key_len payload + 2 ≤ length payload))
parse_attr-panic_iff payload b short =
    let at_key = parse_attr-key_panic_iff payload b in
    (
      λ h. at_key.0 (panic_at_key payload (parse_attr payload) short refl h),
      λ far. subst Panics (sym (at_key.1 far)) tt,
    )
