-- ===== src/Client/Session.antt =====
-- A client of client/kerno/client.go against the server of internal/server.
use a_kerno.Common.{
  ℕ, suc, ◌<◌, ◌^◌, ◌≡◌, refl, ◌∙◌, ap, Bytes, bytes_eq, text, List, [], ◌∷◌, ◌++◌, map, some, Bool,
  true, false, ◌==◌, length, arith, if◌then◌else◌, Result, ok, err,
}
use a_kerno.Common.Assoc.{Assoc, lookup, insert}
use a_kerno.BinParser.Types.{Value, ReadError}
use a_kerno.BinParser.Write.{write_response}
use a_kerno.BinParser.RoundTrip.{received_attrs, FitAttrs, read_command-write_command}
use a_kerno.Server.Replies.{Server, CommandEnv}
use a_kerno.Server.Handlers.{
  Handler, on_list_daemons, on_status, on_restart, on_stop, on_start, on_list_features, on_logs,
  on_shutdown, with_programs, on_list_programs, on_program_status, on_start_program,
  on_stop_program,
}
use a_kerno.Server.Dispatch.{dispatch_bin, with_name, bin_attr, bin_attr_int, Written, cmd_shutdown}
use a_kerno.Server.Dispatch.Sessions.{request_stream, received, run_requests, AllFit}
use a_kerno.Server.Connection.{handle_connection, bin_outputs}
use a_kerno.Server.Connection.Modes.{handle_connection-binary}
use a_kerno.Cmdlist.{HeaderError, format_ok, format_error, format_ok_with_body}
use a_kerno.Cmdlist.Responses.{
  new_parser-format_ok, new_parser-format_error, new_parser-format_ok_with_body,
}
use a_kerno.Client.{
  Call, Returned, request, requested_lines, returned_of, call_bin, send_bin_command, send_command,
  TextError,
}

-- What a call asks of the server: the handler of the method, with its arguments.
unfoldable pub serve_call : CommandEnv → Call → Handler
serve_call env Call.list_daemons = on_list_daemons
serve_call env (Call.status name) = with_name (some name) on_status
serve_call env (Call.restart name) = with_name (some name) (on_restart env)
serve_call env (Call.stop name) = with_name (some name) (on_stop env)
serve_call env (Call.start name) = with_name (some name) (on_start env)
serve_call env Call.list_features = on_list_features
serve_call env (Call.logs lines_first name lines) =
    with_name (some name) (λ n. on_logs n (some (requested_lines lines)))
serve_call env Call.shutdown = on_shutdown
serve_call env Call.list_programs = on_list_programs
serve_call env (Call.program_status name) =
    with_programs (λ pm. with_name (some name) (λ n. on_program_status n pm))
serve_call env (Call.start_program name) =
    with_programs (λ pm. with_name (some name) (λ n. on_start_program env n pm))
serve_call env (Call.stop_program name) =
    with_programs (λ pm. with_name (some name) (λ n. on_stop_program env n pm))

abbrev is_shutdown : Call → Bool
is_shutdown Call.shutdown = true
is_shutdown _ = false

-- The handlers of some calls one after the other, up to the first shutdown.
unfoldable pub run_calls : (ℕ → CommandEnv) → ℕ → List Call → Server → List Written × Server
run_calls env i [] s = ([], s)
run_calls env i (call ∷ calls) s =
    let (r, s') = serve_call (env i) call s in
    let (later, s'') = run_calls env (suc i) calls s' in
    if is_shutdown call then (Written.reply r ∷ [], s') else (Written.reply r ∷ later, s'')

dispatch_bin-request :
    (env : CommandEnv) (call : Call) (s : Server)
    → dispatch_bin env (received (request call)) s ≡ serve_call env call s
unfolding dispatch_bin bin_attr bin_attr_int request serve_call lookup insert bytes_eq
dispatch_bin-request env Call.list_daemons s = refl
dispatch_bin-request env (Call.status name) s = refl
dispatch_bin-request env (Call.restart name) s = refl
dispatch_bin-request env (Call.stop name) s = refl
dispatch_bin-request env (Call.start name) s = refl
dispatch_bin-request env Call.list_features s = refl
dispatch_bin-request env (Call.logs true name lines) s = refl
dispatch_bin-request env (Call.logs false name lines) s = refl
dispatch_bin-request env Call.shutdown s = refl
dispatch_bin-request env Call.list_programs s = refl
dispatch_bin-request env (Call.program_status name) s = refl
dispatch_bin-request env (Call.start_program name) s = refl
dispatch_bin-request env (Call.stop_program name) s = refl

is_shutdown-request : (call : Call) → ((request call).code == cmd_shutdown) ≡ is_shutdown call
unfolding request
is_shutdown-request Call.shutdown = refl
is_shutdown-request call = refl

run_requests-request :
    (env : ℕ → CommandEnv) (i : ℕ) (calls : List Call) (s : Server)
    → run_requests env i (map request calls) s ≡ run_calls env i calls s
unfolding run_requests run_calls
run_requests-request env i [] s = refl
run_requests-request env i (call ∷ calls) s =
    let s' = (serve_call (env i) call s).1 in
    rw (is_shutdown-request call, dispatch_bin-request (env i) call s)
      (rw (run_requests-request env (suc i) calls s') refl)

-- The attributes of each call fit into frames.
abbrev pub AllCallsFit : List Call → Type 0
AllCallsFit [] = Unit
AllCallsFit (call ∷ calls) = FitAttrs (request call).attrs × AllCallsFit calls

no_payload : (call : Call) → length (request call).payload < 2 ^ 32
unfolding request
no_payload Call.list_daemons = omega arith
no_payload call = omega arith

AllFit-request : (calls : List Call) → AllCallsFit calls → AllFit (map request calls)
AllFit-request [] h = tt
AllFit-request (call ∷ calls) h = (h.0, no_payload call, AllFit-request calls h.1)

-- On the bytes that a binary client sends for some calls, the server acknowledges the mode and runs for each
-- call the handler of the method with the caller's arguments, in order up to a shutdown, with one reply
-- for each: for arguments that fit into frames.
pub handle_connection-calls :
    (env : ℕ → CommandEnv) (rooms : List ℕ) (calls : List Call) (s : Server)
    → AllCallsFit calls
    → handle_connection env rooms (text "BIN1" ++ request_stream (map request calls)) s
      ≡ bin_outputs (run_calls env 0 calls s)
handle_connection-calls env rooms calls s fit =
    handle_connection-binary env rooms (map request calls) s (AllFit-request calls fit)
    ∙ ap bin_outputs (run_requests-request env 0 calls s)

returned_of-constant :
    (call : Call) (attrs : Assoc Value) (rest : Bytes)
    → let answer : Result ReadError (Returned × Bytes) = ok (returned_of call attrs, rest) in
      answer ≡ ok (returned_of call [], rest)
unfolding returned_of
returned_of-constant Call.list_daemons attrs rest = refl
returned_of-constant call attrs rest = refl

-- A binary client returns the same for every reply of the server, an error reply included: no error, and a
-- result that does not depend on the reply; for messages that fit into frames.
pub call_bin-write_response :
    (call : Call) (code : ℕ) (message rest : Bytes)
    → FitAttrs ((text "message", Value.str message) ∷ [])
    → (call_bin call (write_response code message ++ rest)).1 ≡ ok (returned_of call [], rest)
unfolding call_bin send_bin_command write_response
call_bin-write_response call code message rest fit =
    let attrs : Assoc Value = (text "message", Value.str message) ∷ [] in
    rw (read_command-write_command code attrs [] rest fit (omega arith))
      (returned_of-constant call (received_attrs attrs []) rest)

-- A text client returns an error for every reply that the server can format, and no command.
pub send_command-replies :
    (call : Call) (a b rest : Bytes)
    → ((send_command call (format_ok a ++ rest)).1
        ≡ err (TextError.create_parser (HeaderError.unsupported_format (text "20\n"))))
      × ((send_command call (format_error a ++ rest)).1
          ≡ err (TextError.create_parser (HeaderError.unsupported_format (text "50\n"))))
      × ((send_command call (format_ok_with_body a b ++ rest)).1
          ≡ err (TextError.create_parser (HeaderError.unsupported_format (text "20 "))))
unfolding send_command
send_command-replies call a b rest = (
  rw (new_parser-format_ok a rest) refl,
  rw (new_parser-format_error a rest) refl,
  rw (new_parser-format_ok_with_body a b rest) refl,
)
