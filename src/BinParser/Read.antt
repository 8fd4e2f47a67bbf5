-- ===== src/BinParser/Read.antt =====
-- `parseValue`, `parseAttr`, `readFrame` and `ReadCommand` of internal/binparser/parser.go.
use a_kerno.Common.{
  ℕ, zero, suc, ◌+◌, ◌-◌, ◌*◌, ◌%◌, ◌^◌, Bytes, [], ◌∷◌, ◌++◌, Option, none, some, not, ltb, leb,
  ◌==◌, length, take, drop, get_or, if◌then◌else◌, Result, ok, err, ◌>>=◌, wrap,
}
use a_kerno.Common.Int
use a_kerno.Common.Assoc.{Assoc, insert}
use a_kerno.BinParser.Types.{
  Value, ValueError, AttrError, ReadError, BinCommand, head_or_zero, frame_cmd, frame_attr,
  frame_data, frame_end, val_str, val_int, val_bool, val_blob,
}
use a_kerno.BinParser.Slices.{slice, slice_from, le_decode}

abbrev of_slice : (Bytes → Value) → Option Bytes → Result ValueError Value
of_slice make none = err ValueError.panic
of_slice make (some bytes) = ok (make bytes)

-- The end of the slice, `4+strLen`, is a `uint32`.
unfoldable pub parse_str : Bytes → Result ValueError Value
parse_str payload =
    let str_len = le_decode (take 4 payload) in
    if ltb (length payload) 4
    then err (ValueError.str_too_short (length payload))
    else if ltb (length payload) (str_len + 4)
    then err (ValueError.str_exceeds str_len (length payload - 4))
    else of_slice Value.str (slice 4 ((4 + str_len) % 2 ^ 32) payload)

-- `out` has the length of the slice that is copied into it.
unfoldable pub parse_blob : Bytes → Result ValueError Value
parse_blob payload =
    let blob_len = le_decode (take 4 payload) in
    if ltb (length payload) 4
    then err (ValueError.blob_too_short (length payload))
    else if ltb (length payload) (blob_len + 4)
    then err (ValueError.blob_exceeds blob_len (length payload - 4))
    else of_slice Value.blob (slice 4 ((4 + blob_len) % 2 ^ 32) payload)

unfoldable pub parse_int : Bytes → Result ValueError Value
parse_int payload =
    if ltb (length payload) 8
    then err (ValueError.int_too_short (length payload))
    else ok (Value.int64 (Int.int64 (le_decode (take 8 payload))))

unfoldable pub parse_bool : Bytes → Result ValueError Value
parse_bool payload =
    if ltb (length payload) 1
    then err (ValueError.bool_too_short (length payload))
    else ok (Value.bool (not (head_or_zero payload == 0)))

unfoldable pub parse_value : ℕ → Bytes → Result ValueError Value
parse_value val_type payload =
    if val_type == val_str
    then parse_str payload
    else if val_type == val_int
    then parse_int payload
    else if val_type == val_bool
    then parse_bool payload
    else if val_type == val_blob
    then parse_blob payload
    else err (ValueError.unknown_value_type val_type)

-- What follows the key: a type tag, then the value.
unfoldable pub parse_tagged : Bytes → Option Bytes → Result AttrError (Bytes × Value)
parse_tagged key none = err AttrError.panic
parse_tagged key (some []) = err AttrError.no_type_tag
parse_tagged key (some (tag ∷ payload)) =
    wrap (AttrError.bad_value key) (parse_value tag payload) >>= λ v. ok (key, v)

unfoldable pub parse_after_key : Option Bytes → Option Bytes → Result AttrError (Bytes × Value)
unfolding parse_tagged
parse_after_key none tagged = err AttrError.panic
parse_after_key (some key) tagged = parse_tagged key tagged

-- `keyLen` and the slice bound `2+keyLen` are `uint16`.
unfoldable pub parse_attr : Bytes → Result AttrError (Bytes × Value)
unfolding parse_after_key
parse_attr payload =
    let key_len = get_or payload 0 0 * 256 + get_or payload 1 0 in
    let key_end = (2 + key_len) % 2 ^ 16 in
    if ltb (length payload) 3
    then err (AttrError.payload_too_short (length payload))
    else if ltb (length payload) (key_len + 2)
    then err (AttrError.key_exceeds key_len (length payload - 2))
    else parse_after_key (slice 2 key_end payload) (slice_from key_end payload)

-- `io.ReadFull` of `n` bytes: what it read, and the stream after it.
unfoldable pub read_full : ℕ → Bytes → Result ReadError (Bytes × Bytes)
read_full n stream =
    if leb n (length stream)
    then ok (take n stream, drop n stream)
    else if length stream == 0
    then err ReadError.eof
    else err ReadError.unexpected_eof

pub record Frame : Type 0 where
  pub frame_type : ℕ
  pub payload : Bytes
  pub rest : Bytes

unfoldable pub read_payload : Bytes × Bytes → Result ReadError Frame
unfolding read_full
read_payload (header, stream) =
    let frame_type = get_or header 0 0 in
    let len = le_decode (take 4 (drop 1 header)) in
    if ltb 0 len
    then (wrap (λ _. ReadError.read_payload len) (read_full len stream) >>= λ (payload, rest).
        ok (record { frame_type = frame_type; payload = payload; rest = rest }))
    else ok (record { frame_type = frame_type; payload = []; rest = stream })

unfoldable pub read_frame : Bytes → Result ReadError Frame
unfolding read_full read_payload
read_frame stream = read_full 5 stream >>= read_payload

-- The variables of the loop of `ReadCommand`.
pub record Pending : Type 0 where
  pub cmd : Option ℕ
  pub attrs : Assoc Value
  pub payload : Bytes

pub data Progress : Type 0 where
  more : Pending → Progress
  done : BinCommand → Progress

unfoldable pub finish : Option ℕ → Pending → Result ReadError Progress
finish none p = err ReadError.end_without_cmd
finish (some code) p =
    ok (Progress.done (record { code = code; attrs = p.attrs; payload = p.payload }))

-- The `switch` on the frame's type.
unfoldable pub on_frame : Pending → ℕ → Bytes → Result ReadError Progress
unfolding finish
on_frame p frame_type payload =
    if frame_type == frame_cmd
    then if ltb (length payload) 1
      then err (ReadError.cmd_too_short (length payload))
      else ok (Progress.more (record p { cmd = some (head_or_zero payload) }))
    else if frame_type == frame_attr
    then (wrap ReadError.attr_frame (parse_attr payload) >>= λ (key, v).
        ok (Progress.more (record p { attrs = insert key v p.attrs })))
    else if frame_type == frame_data
    then ok (Progress.more (record p { payload = p.payload ++ payload }))
    else if frame_type == frame_end
    then finish p.cmd p
    else err (ReadError.unknown_frame_type frame_type)

abbrev pub Loop : Type 0
Loop = Pending → Bytes → Result ReadError (BinCommand × Bytes)

abbrev pub go_on : Loop → Progress → Bytes → Result ReadError (BinCommand × Bytes)
go_on loop (Progress.more p) stream = loop p stream
go_on loop (Progress.done cmd) stream = ok (cmd, stream)

-- One round, `loop` being the rounds after it.
unfoldable pub read_round : Loop → Loop
read_round loop p stream = read_frame stream >>= λ frame.
    on_frame p frame.frame_type frame.payload >>= λ progress. go_on loop progress frame.rest

unfoldable pub read_loop : ℕ → Loop
read_loop zero p stream = err ReadError.out_of_fuel
read_loop (suc fuel) p stream = read_round (read_loop fuel) p stream

abbrev pub nothing : Pending
nothing = record { cmd = none; attrs = []; payload = [] }

-- `ReadCommand`: the command and the stream after it. A frame takes five bytes at least.
unfoldable pub read_command : Bytes → Result ReadError (BinCommand × Bytes)
read_command stream = read_loop (suc (length stream)) nothing stream
