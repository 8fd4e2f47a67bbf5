-- ===== src/BinParser/RoundTrip.antt =====
-- `ReadCommand` reads what `WriteCommand` writes, whatever the order of the attributes.
use a_kerno.Common.{
  ℕ, suc, ◌+◌, ◌-◌, ◌%◌, ◌^◌, ◌≤◌, ◌<◌, ◌≡◌, refl, sym, Bytes, [], ◌∷◌, ◌++◌, append_assoc, some,
  length, take, arith, ok, ◌>>=◌, length-append,
}
use native.Mathlib.Nat.{zero-add, suc-add}
use a_kerno.Common.Assoc.{Assoc, insert}
use a_kerno.BinParser.Types.{Value, frame_cmd, frame_attr, frame_data, frame_end}
use a_kerno.BinParser.Slices.{
  le_encode, le_decode, length-le_encode, le_decode-le_encode_32, take-append_self,
  drop-append_self, take_all,
}
use a_kerno.BinParser.Read.{
  Pending, Progress, read_full, read_frame, on_frame, go_on, read_round, read_loop, read_command,
  nothing,
}
use a_kerno.BinParser.Write.{encode_attr, write_frame, write_attrs, write_data, write_command}
use a_kerno.BinParser.Values.{received, Fits}
use a_kerno.BinParser.Attrs.{parse_attr-encode_attr}

-- `io.ReadFull` of as many bytes as `xs` has.
read_full-append : (n : ℕ) (xs ys : Bytes) → n ≡ length xs → read_full n (xs ++ ys) ≡ ok (xs, ys)
unfolding read_full
read_full-append n xs ys h =
    ground (arith, length-append xs ys, take-append_self n xs ys h, drop-append_self n xs ys h)

module _ (frame_type : ℕ) (payload rest : Bytes) (h : length payload < 2 ^ 32) where
  abbrev len_bytes : Bytes
  len_bytes = le_encode 4 (length payload % 2 ^ 32)

  len_field : le_decode (take 4 len_bytes) ≡ length payload
  len_field =
      rw (take_all 4 len_bytes (sym (length-le_encode 4 _)))
        (omega (arith, le_decode-le_encode_32 (length payload % 2 ^ 32)))

  header :
      read_full 5 (write_frame frame_type payload ++ rest)
      ≡ ok (frame_type ∷ len_bytes, payload ++ rest)
  unfolding write_frame
  header = rw append_assoc (
      read_full-append 5 (frame_type ∷ len_bytes) (payload ++ rest)
        (omega (arith, length-le_encode 4 (length payload % 2 ^ 32))))

  -- A written frame is read back, and the stream goes on after it.
  pub read_frame-write_frame :
      read_frame (write_frame frame_type payload ++ rest)
      ≡ ok (record { frame_type = frame_type; payload = payload; rest = rest })
  unfolding read_frame
  read_frame-write_frame =
      rw (header, len_field) (ground (arith, read_full-append (length payload) payload rest refl))

-- A round of the loop over a written frame.
read_loop-write_frame :
    (fuel : ℕ) (p : Pending) (frame_type : ℕ) (payload rest : Bytes)
    → length payload < 2 ^ 32
    → read_loop (suc fuel) p (write_frame frame_type payload ++ rest)
      ≡ (on_frame p frame_type payload >>= λ progress. go_on (read_loop fuel) progress rest)
unfolding read_loop read_round
read_loop-write_frame fuel p frame_type payload rest h =
    rw (read_frame-write_frame frame_type payload rest h)

-- The map that the reader builds, from `m` on.
abbrev pub received_attrs : Assoc Value → Assoc Value → Assoc Value
received_attrs [] m = m
received_attrs ((key, v) ∷ attrs) m = received_attrs attrs (insert key (received v) m)

-- Attributes that their frames can carry.
abbrev pub FitAttrs : Assoc Value → Type 0
FitAttrs [] = Unit
FitAttrs ((key, v) ∷ attrs) =
    ((length key < 65534) × Fits v × (length (encode_attr key v) < 2 ^ 32)) × FitAttrs attrs

on_frame-attr :
    (p : Pending) (key : Bytes) (v : Value)
    → length key < 65534
    → Fits v
    → on_frame p frame_attr (encode_attr key v)
      ≡ ok (Progress.more (record p { attrs = insert key (received v) p.attrs }))
unfolding on_frame
on_frame-attr p key v h fits = rw (parse_attr-encode_attr key v h fits)

read_loop-write_attrs :
    (fuel : ℕ) (attrs : Assoc Value) (p : Pending) (rest : Bytes)
    → FitAttrs attrs
    → read_loop (length attrs + fuel) p (write_attrs attrs ++ rest)
      ≡ read_loop fuel (record p { attrs = received_attrs attrs p.attrs }) rest
unfolding write_attrs
read_loop-write_attrs fuel [] p rest h = rw zero-add
read_loop-write_attrs fuel ((key, v) ∷ attrs) p rest h =
    let (short, fits, small) = h.0 in
    let p' : Pending = record p { attrs = insert key (received v) p.attrs } in
    rw (suc-add, append_assoc)
      (rw (read_loop-write_frame (length attrs + fuel) p frame_attr (encode_attr key v) _ small)
        (rw (on_frame-attr p key v short fits) (read_loop-write_attrs fuel attrs p' rest h.1)))

write_data-nil : write_data [] ≡ []
unfolding write_data
write_data-nil = refl

write_data-cons : (b : ℕ) (bs : Bytes) → write_data (b ∷ bs) ≡ write_frame frame_data (b ∷ bs)
unfolding write_data
write_data-cons b bs = ground arith

-- The DATA frame, if there are bytes for one, and the END frame.
read_loop-write_end :
    (fuel code : ℕ) (attrs : Assoc Value) (payload rest : Bytes)
    → length payload < 2 ^ 32
    → read_loop
        (suc (suc fuel))
        (record { cmd = some code; attrs = attrs; payload = [] })
        (write_data payload ++ (write_frame frame_end [] ++ rest))
      ≡ ok (record { code = code; attrs = attrs; payload = payload }, rest)
unfolding on_frame
read_loop-write_end fuel code attrs [] rest h =
    rw write_data-nil (rw (read_loop-write_frame (suc fuel) _ frame_end [] rest (omega arith)))
read_loop-write_end fuel code attrs (b ∷ bs) rest h =
    rw (write_data-cons b bs, read_loop-write_frame (suc fuel) _ frame_data (b ∷ bs) _ h)
      (rw (read_loop-write_frame fuel _ frame_end [] rest (omega arith)))

length-write_frame : (t : ℕ) (bs : Bytes) → 4 < length (write_frame t bs)
unfolding write_frame
length-write_frame t bs = omega (
  arith,
  length-append (le_encode 4 (length bs % 2 ^ 32)) bs,
  length-le_encode 4 (length bs % 2 ^ 32),
)

length-write_attrs : (attrs : Assoc Value) → length attrs ≤ length (write_attrs attrs)
unfolding write_attrs
length-write_attrs [] = omega arith
length-write_attrs ((key, v) ∷ attrs) = omega (
  arith,
  length-append (write_frame frame_attr (encode_attr key v)) (write_attrs attrs),
  length-write_frame frame_attr (encode_attr key v),
  length-write_attrs attrs,
)

pub length-write_command :
    (code : ℕ) (attrs : Assoc Value) (payload rest : Bytes)
    → length attrs + 2 ≤ length (write_command code attrs payload ++ rest)
unfolding write_command
length-write_command code attrs payload rest =
    let tail = write_data payload ++ write_frame frame_end [] in
    let front = write_frame frame_cmd (code ∷ []) in
    omega (
      arith,
      length-append (front ++ (write_attrs attrs ++ tail)) rest,
      length-append front (write_attrs attrs ++ tail),
      length-append (write_attrs attrs) tail,
      length-append (write_data payload) (write_frame frame_end []),
      length-write_frame frame_cmd (code ∷ []),
      length-write_frame frame_end [],
      length-write_attrs attrs,
    )

read_loop-write_command :
    (k code : ℕ) (attrs : Assoc Value) (payload rest : Bytes)
    → FitAttrs attrs
    → length payload < 2 ^ 32
    → read_loop
        (suc (length attrs + suc (suc k)))
        nothing
        (write_command code attrs payload ++ rest)
      ≡ ok (record { code = code; attrs = received_attrs attrs []; payload = payload }, rest)
unfolding write_command on_frame
read_loop-write_command k code attrs payload rest h small = simp append_assoc (
    rw (read_loop-write_frame _ nothing frame_cmd (code ∷ []) _ (omega arith)) (
      rw (read_loop-write_attrs (suc (suc k)) attrs (record nothing { cmd = some code }) _ h)
        (read_loop-write_end k code (received_attrs attrs []) payload rest small)))

-- `ReadCommand` on what `WriteCommand` wrote returns the code, the data and the attributes, each
-- with its last value, and leaves the stream after the command: for attributes in any order, with
-- keys shorter than 65534 bytes and frames shorter than 2 ^ 32.
pub read_command-write_command :
    (code : ℕ) (attrs : Assoc Value) (payload rest : Bytes)
    → FitAttrs attrs
    → length payload < 2 ^ 32
    → read_command (write_command code attrs payload ++ rest)
      ≡ ok (record { code = code; attrs = received_attrs attrs []; payload = payload }, rest)
unfolding read_command
read_command-write_command code attrs payload rest h small =
    let stream = write_command code attrs payload ++ rest in
    let k = length stream - (length attrs + 2) in
    let enough : suc (length stream) ≡ suc (length attrs + suc (suc k)) =
      omega (arith, length-write_command code attrs payload rest) in
    rw enough (read_loop-write_command k code attrs payload rest h small)
