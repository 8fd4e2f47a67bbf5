-- ===== src/Server/Dispatch/Sessions.antt =====
-- A connection of internal/server/server.go in the binary protocol, against a client that writes with
-- internal/binparser/writer.go; and which commands change the server.
use a_kerno.Common.{
  ◌≢◌, ℕ, zero, suc, ◌^◌, ◌<◌, ◌≤◌, ◌≡◌, refl, Bytes, List, [], ◌∷◌, ◌++◌, ◌==◌, false, length,
  length-append, if◌then◌else◌, err, arith,
}
use a_kerno.BinParser.Types.{BinCommand, ReadError, is_panic}
use a_kerno.BinParser.Read.{read_command, read_loop, read_round, read_frame, read_full}
use a_kerno.BinParser.Write.{write_command}
use a_kerno.BinParser.RoundTrip.{
  FitAttrs, received_attrs, read_command-write_command, length-write_command,
}
use a_kerno.Server.Replies.{Server, CommandEnv}
use a_kerno.Server.Dispatch.{Written, dispatch_bin, serve_bin, handle_bin_connection, cmd_shutdown}

-- What a client sends for a list of commands.
unfoldable pub request_stream : List BinCommand → Bytes
request_stream [] = []
request_stream (c ∷ cs) = write_command c.code c.attrs c.payload ++ request_stream cs

-- A command as the server receives it: each attribute once.
abbrev pub received : BinCommand → BinCommand
received c = record { code = c.code; attrs = received_attrs c.attrs []; payload = c.payload }

abbrev pub AllFit : List BinCommand → Type 0
AllFit [] = Unit
AllFit (c ∷ cs) = FitAttrs c.attrs × (length c.payload < 2 ^ 32) × AllFit cs

-- The commands one after the other, up to the first shutdown.
unfoldable pub run_requests :
    (ℕ → CommandEnv) → ℕ → List BinCommand → Server → List Written × Server
run_requests env i [] s = ([], s)
run_requests env i (c ∷ cs) s =
    let (r, s') = dispatch_bin (env i) (received c) s in
    let (later, s'') = run_requests env (suc i) cs s' in
    if c.code == cmd_shutdown then (Written.reply r ∷ [], s') else (Written.reply r ∷ later, s'')

read_command-nil : read_command [] ≡ err ReadError.eof
unfolding read_command read_loop read_round read_frame read_full
read_command-nil = refl

serve_bin-request_stream :
    (fuel : ℕ) (env : ℕ → CommandEnv) (i : ℕ) (cs : List BinCommand) (s : Server)
    → AllFit cs
    → length cs < fuel
    → serve_bin fuel env i (request_stream cs) s ≡ run_requests env i cs s
unfolding serve_bin request_stream run_requests
serve_bin-request_stream zero env i cs s fit enough = absurd (omega arith)
serve_bin-request_stream (suc fuel) env i [] s fit enough = rw (read_command-nil, serve_bin)
serve_bin-request_stream (suc fuel) env i (c ∷ cs) s fit enough =
    let s' = (dispatch_bin (env i) (received c) s).1 in
    rw
      (
        read_command-write_command c.code c.attrs c.payload (request_stream cs) fit.0 fit.1,
        serve_bin,
      )
      (rw (serve_bin-request_stream fuel env (suc i) cs s' fit.2 (omega arith), run_requests) refl)

length-request_stream : (cs : List BinCommand) → length cs ≤ length (request_stream cs)
unfolding request_stream
length-request_stream [] = omega arith
length-request_stream (c ∷ cs) =
    let bytes = write_command c.code c.attrs c.payload in
    omega (
      arith,
      length-append bytes (request_stream cs),
      length-append bytes [],
      length-write_command c.code c.attrs c.payload [],
      length-request_stream cs,
    )

-- On the bytes that a client writes for some commands, a binary connection dispatches each of them in
-- order, with its last attribute of each key, and writes one reply for each, up to the first
-- shutdown: for commands whose attributes and data fit into frames.
pub handle_bin_connection-request_stream :
    (env : ℕ → CommandEnv) (cs : List BinCommand) (s : Server)
    → AllFit cs
    → handle_bin_connection env (request_stream cs) s ≡ run_requests env 0 cs s
unfolding handle_bin_connection
handle_bin_connection-request_stream env cs s fit =
    serve_bin-request_stream (suc (length (request_stream cs))) env 0 cs s fit
      (omega (arith, length-request_stream cs))

abbrev pub IsProper : Written → Type 0
IsProper (Written.reply r) = Unit
IsProper (Written.unreadable e) = (e ≢ ReadError.out_of_fuel) × (is_panic e ≡ false)
IsProper Written.crash = Unit

abbrev pub AllProper : List Written → Type 0
AllProper [] = Unit
AllProper (w ∷ ws) = IsProper w × AllProper ws
