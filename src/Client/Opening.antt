-- ===== src/Client/Opening.antt =====
-- `NewClient`, `NewBinaryClient`, `Close` and the choice of the protocol in the methods of client/kerno/client.go.
use a_kerno.Common.{
  ◌≡◌, ◌⊎◌, refl, sym, ◌∙◌, ap, Bytes, bytes_eq, bytes_eq_iff, text, [], ◌∷◌, ◌++◌, Bool, true,
  false, ltb, length, take, drop, take-append-drop, if◌then◌else◌, if-holds_of, Result, ok, err,
  arith, inl, inr,
}
use a_kerno.BinParser.Types.{ReadError}
use a_kerno.Client.{
  Call, Returned, TextError, empty_daemon_status, empty_program_status, call_bin, send_command,
}
use a_kerno.Text.{has_prefix}
use a_kerno.Cmdlist as Cmdlist

-- `Client`, by the protocol that it speaks; `is_open` says whether its connection is.
pub record Client : Type 0 where
  pub use_binary : Bool
  pub is_open : Bool

pub data OpenError : Type 0 where
  dial write_header write_magic : OpenError
  read_ack : OpenError
  unexpected_ack : Bytes → OpenError

-- What the system answers to the dialler and to the first write.
pub record DialEnv : Type 0 where
  pub dialled : Bool
  pub write_fails : Bool

-- What a constructor leaves: the client or the error with the rest of the stream, what it has sent, and whether the
-- connection is open.
pub record Opened : Type 0 where
  pub result : Result OpenError (Client × Bytes)
  pub sent : Bytes
  pub is_open : Bool

abbrev refused : OpenError → Bytes → Opened
refused e sent = record { result = err e; sent = sent; is_open = false }

-- `NewClient`
unfoldable pub new_client : DialEnv → Bytes → Opened
new_client env stream =
    if env.dialled
    then if env.write_fails then refused OpenError.write_header [] else record {
      result = ok (record { use_binary = false; is_open = true }, stream);
      sent = text "TXT01\n";
      is_open = true;
    }
    else refused OpenError.dial []

abbrev check_ack : Bytes → Opened
check_ack stream =
    if ltb (length stream) 4
    then refused OpenError.read_ack (text "BIN1")
    else if bytes_eq (take 4 stream) (text "BIN1")
    then record {
      result = ok (record { use_binary = true; is_open = true }, drop 4 stream);
      sent = text "BIN1";
      is_open = true;
    }
    else refused (OpenError.unexpected_ack (take 4 stream)) (text "BIN1")

-- `NewBinaryClient`, on the bytes that the server sends.
unfoldable pub new_binary_client : DialEnv → Bytes → Opened
new_binary_client env stream =
    if env.dialled
    then if env.write_fails then refused OpenError.write_magic [] else check_ack stream
    else refused OpenError.dial []

-- `Close`
unfoldable pub close : Client → Client
close c = record c { is_open = false }

-- `parseDaemonList` and its kin, by the method: none of them reads the command.
unfoldable pub text_returned_of : Call → Cmdlist.Command → Returned
text_returned_of Call.list_daemons cmd = Returned.daemons []
text_returned_of (Call.status name) cmd = Returned.daemon empty_daemon_status
text_returned_of Call.list_features cmd = Returned.features []
text_returned_of (Call.logs lines_first name lines) cmd = Returned.log_lines []
text_returned_of Call.list_programs cmd = Returned.programs []
text_returned_of (Call.program_status name) cmd = Returned.program empty_program_status
text_returned_of _ cmd = Returned.nothing

pub data CallError : Type 0 where
  bin : ReadError → CallError
  txt : TextError → CallError

abbrev pub bin_result : Result ReadError (Returned × Bytes) → Result CallError Returned
bin_result (ok (value, rest)) = ok value
bin_result (err e) = err (CallError.bin e)

abbrev pub text_result : Call → Result TextError Cmdlist.Command → Result CallError Returned
text_result call (ok cmd) = ok (text_returned_of call cmd)
text_result call (err e) = err (CallError.txt e)

-- A method of a client, on the bytes that the server sends: what it sends, and what it returns.
unfoldable pub call : Client → Call → Bytes → Bytes × Result CallError Returned
call c m stream =
    if c.use_binary
    then (let (sent, r) = call_bin m stream in (sent, bin_result r))
    else (let (sent, r) = send_command m stream in (sent, text_result m r))

-- How a binary client is opened: with one the stream begins with the acknowledgement and the connection is open; with an
-- error the connection is closed, and the system failed or the stream does not begin with it.
abbrev pub IsOpeningOf : DialEnv → Bytes → Result OpenError (Client × Bytes) → Bool → Type 0
IsOpeningOf env stream (ok (c, rest)) is_open =
    (stream ≡ text "BIN1" ++ rest) × (c.use_binary ≡ true) × (is_open ≡ true)
IsOpeningOf env stream (err e) is_open =
    (is_open ≡ false)
    × ((env.dialled ≡ false) ⊎ (env.write_fails ≡ true) ⊎ (has_prefix (text "BIN1") stream ≡ false))

abbrev pub IsOpening : DialEnv → Bytes → Opened → Type 0
IsOpening env stream o = IsOpeningOf env stream o.result o.is_open

-- The test of the acknowledgement agrees with the prefix.
take-has_prefix :
    (stream : Bytes)
    → ltb (length stream) 4 ≡ false
    → bytes_eq (take 4 stream) (text "BIN1") ≡ has_prefix (text "BIN1") stream
unfolding bytes_eq has_prefix
take-has_prefix [] long = absurd (ground (arith, long))
take-has_prefix (a ∷ []) long = absurd (ground (arith, long))
take-has_prefix (a ∷ b ∷ []) long = absurd (ground (arith, long))
take-has_prefix (a ∷ b ∷ c ∷ []) long = absurd (ground (arith, long))
take-has_prefix (a ∷ b ∷ c ∷ d ∷ stream) long = refl

short-has_prefix :
    (stream : Bytes) → ltb (length stream) 4 ≡ true → has_prefix (text "BIN1") stream ≡ false
unfolding has_prefix
short-has_prefix [] short = refl
short-has_prefix (a ∷ []) short = ground arith
short-has_prefix (a ∷ b ∷ []) short = ground arith
short-has_prefix (a ∷ b ∷ c ∷ []) short = ground arith
short-has_prefix (a ∷ b ∷ c ∷ d ∷ stream) short = absurd (ground (arith, short))

check_ack-IsOpening : (env : DialEnv) (stream : Bytes) → IsOpening env stream (check_ack stream)
check_ack-IsOpening env stream =
    let P = IsOpening env stream in
    if-holds_of P (ltb (length stream) 4) _ _
      (λ short. (refl, inr (inr (short-has_prefix stream short))))
      (λ long.
        if-holds_of P (bytes_eq (take 4 stream) (text "BIN1")) _ _
          (λ same. (
            sym (take-append-drop 4 stream)
                ∙ ap (λ front. front ++ drop 4 stream)
                    ((bytes_eq_iff (take 4 stream) (text "BIN1")).0 same),
            refl,
            refl,
          ))
          (λ differ. (refl, inr (inr (sym (take-has_prefix stream long) ∙ differ)))))

-- NewBinaryClient gives a client exactly when the socket can be dialled and written to and the server's bytes begin with
-- BIN1, which it then has taken; with an error it has closed the connection.
pub new_binary_client-IsOpening :
    (env : DialEnv) (stream : Bytes) → IsOpening env stream (new_binary_client env stream)
unfolding new_binary_client
new_binary_client-IsOpening env stream =
    let P = IsOpening env stream in
    if-holds_of P env.dialled _ _
      (λ dialled.
        if-holds_of P env.write_fails _ _ (λ failed. (refl, inr (inl failed)))
          (λ written. check_ack-IsOpening env stream))
      (λ missing. (refl, inl missing))
