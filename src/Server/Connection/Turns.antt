-- ===== src/Server/Connection/Turns.antt =====
-- `handleConnection` and `handleBinConnection` of internal/server/server.go one turn at a time, for handlers that run
-- beside one another: a turn reads the magic, serves one command, or reads once in the text mode. It is `none`
-- where the handler waits for the client.
use a_kerno.Common.{
  ℕ, Bytes, bytes_eq, text, List, [], ◌∷◌, Option, none, some, Bool, ◌&&◌, ◌||◌, ◌==◌, ltb, length,
  take, drop, if◌then◌else◌, Result, ok, err,
}
use a_kerno.BinParser.Types.{ReadError}
use a_kerno.BinParser.Read.{read_command}
use a_kerno.Cmdlist.{HeaderError, new_parser}
use a_kerno.Server.Replies.{Server, CommandEnv}
use a_kerno.Server.Dispatch.{Written, on_unreadable, dispatch_bin, cmd_shutdown, cmd_stop_program}
use a_kerno.Server.Connection.{Output, Reader, read, TextState, feed, text_start}

-- How far `handleConnection` has come; `stuck` waits for ever for a lock.
pub data Mode : Type 0 where
  fresh binary stuck : Mode
  text_mode : Reader → TextState → Mode

-- `stream` is what the client sends and the handler has not read; `hangs_up` says whether the client closes
-- its side after it.
pub record Connection : Type 0 where
  pub stream : Bytes
  pub hangs_up : Bool
  pub mode : Mode

-- What the system answers to one turn of a handler. `lock_waits` says that the command is for a program that is
-- there, and that a writer asks for its lock between the two read locks that `StopProgram` takes.
pub record TurnEnv : Type 0 where
  pub commands : ℕ → CommandEnv
  pub write_fails : Bool
  pub lock_waits : Bool
  pub room : ℕ

-- The handler goes on with `next`, or returns; `outputs` is what it writes.
pub record Turn : Type 0 where
  pub next : Option Connection
  pub outputs : List Output
  pub server : Server

abbrev pub finished : List Output → Server → Option Turn
finished outputs s = some (record { next = none; outputs = outputs; server = s })

-- The stream is used up: the handler returns if the client has hung up, and waits otherwise.
abbrev pub at_end : Connection → List Output → Server → Option Turn
at_end c outputs s = if c.hangs_up then finished outputs s else none

-- The first five bytes are the header, and what `NewParser` leaves of them is fed to the parser.
unfoldable pub text_header :
    TurnEnv → Connection → Result HeaderError (Bytes × Bytes) → Server → Option Turn
text_header env c (err e) s = finished (Output.invalid_header ∷ []) s
text_header env c (ok (version, buffered)) s =
    let r : Reader = record { header = take 5 c.stream; conn = drop 5 c.stream } in
    let t = feed env.commands buffered (text_start s) in
    some (record {
      next = some (record c { stream = drop 5 c.stream; mode = Mode.text_mode r t });
      outputs = t.written;
      server = t.server;
    })

-- The start of `handleConnection`: the magic, its acknowledgement, or the header of the text mode.
unfoldable pub choose_mode : TurnEnv → Connection → Server → Option Turn
unfolding text_header
choose_mode env c s =
    if ltb (length c.stream) 4
    then at_end c [] s
    else if bytes_eq (take 4 c.stream) (text "BIN1")
    then some (record {
      next =
          if env.write_fails
          then none
          else some (record c { stream = drop 4 c.stream; mode = Mode.binary });
      outputs = Output.ack ∷ [];
      server = s;
    })
    else if ltb (length c.stream) 5
    then at_end c (Output.invalid_header ∷ []) s
    else text_header env c (new_parser (take 5 c.stream)) s

-- `ReadCommand` fails: at the end of the stream, or on bytes that are no command.
unfoldable pub on_read_error : Connection → ReadError → Server → Option Turn
on_read_error c ReadError.eof s = at_end c [] s
on_read_error c ReadError.unexpected_eof s =
    at_end c (Output.bin (Written.unreadable ReadError.unexpected_eof) ∷ []) s
on_read_error c (ReadError.read_payload n) s =
    at_end c (Output.bin (Written.unreadable (ReadError.read_payload n)) ∷ []) s
on_read_error c e s = finished (Output.bin (on_unreadable e) ∷ []) s

-- One round of `handleBinConnection`.
unfoldable pub binary_turn : TurnEnv → Connection → Server → Option Turn
unfolding on_read_error
binary_turn env c s = elim (read_command c.stream) [
  | err e ↦ on_read_error c e s
  | ok (cmd, rest) ↦
      let (r, s') = dispatch_bin (env.commands 0) cmd s in
      let done : Turn = record {
        next =
            if cmd.code == cmd_shutdown || env.write_fails
            then none
            else some (record c { stream = rest });
        outputs = Output.bin (Written.reply r) ∷ [];
        server = s';
      } in
      let waits : Turn = record {
        next = some (record c { stream = rest; mode = Mode.stuck });
        outputs = [];
        server = s;
      } in
      some (if cmd.code == cmd_stop_program && env.lock_waits then waits else done)
]

-- One read of the text mode; its writes do not fail.
unfoldable pub text_turn : TurnEnv → Connection → Reader → TextState → Server → Option Turn
text_turn env c r t s =
    let (chunk, r') = read env.room r in
    let t' = feed env.commands chunk (record t { server = s; written = [] }) in
    some (record {
      next = if t'.closed then none else some (record c { mode = Mode.text_mode r' t' });
      outputs = t'.written;
      server = t'.server;
    })

unfoldable pub turn_in : Mode → TurnEnv → Connection → Server → Option Turn
turn_in Mode.fresh env c s = choose_mode env c s
turn_in Mode.binary env c s = binary_turn env c s
turn_in Mode.stuck env c s = none
turn_in (Mode.text_mode r t) env c s = text_turn env c r t s

-- One step of `handleConnection`.
unfoldable pub connection_turn : TurnEnv → Connection → Server → Option Turn
unfolding turn_in
connection_turn env c s = turn_in c.mode env c s
