-- ===== src/Client.antt =====
-- client/kerno/client.go: the calls of the management API, as the bytes that they send and what they return
-- for the bytes that the server answers. A map of attributes is written in the order of its entries here.
pub mod Session
pub mod Opening
pub mod Rejections
mod Tests
use a_kerno.Common.{
  ℕ, Bytes, bytes_eq, text, List, [], ◌∷◌, ◌++◌, Option, none, some, Bool, true, false,
  if◌then◌else◌, Result, ok, err,
}
use a_kerno.Common.Int.{ℤ, pos, is_positive}
use a_kerno.Common.Assoc.{Assoc}
use a_kerno.Text.{concat}
use a_kerno.BinParser.Types.{Value, BinCommand, ReadError}
use a_kerno.BinParser.Read.{read_command}
use a_kerno.BinParser.Write.{write_command}
use a_kerno.Cmdlist.{decimal}
use a_kerno.Cmdlist as Cmdlist

-- The methods of `Client`, with their arguments.
-- The first argument of `logs` is not the caller's: does `range` over the map of the attributes give `lines` first.
pub data Call : Type 0 where
  list_daemons list_features shutdown list_programs : Call
  status restart stop start program_status start_program stop_program : Bytes → Call
  logs : Bool → Bytes → ℤ → Call

pub record DaemonInfo : Type 0 where
  pub name : Bytes
  pub pid : ℤ
  pub state : Bytes
  pub restart : Bytes

pub record DaemonStatus : Type 0 where
  pub name : Bytes
  pub pid : ℤ
  pub pgid : ℤ
  pub state : Bytes
  pub exit_code : ℤ
  pub uptime : Bytes
  pub restarts : ℤ
  pub restart_policy : Bytes
  pub order : ℤ
  pub socket : Bytes
  pub socket_ok : Bool
  pub exec : Bytes

pub record FeatureInfo : Type 0 where
  pub name : Bytes
  pub version : Bytes
  pub ready : Bool

pub record ProgramInfo : Type 0 where
  pub name : Bytes
  pub state : Bytes
  pub phase : Bytes
  pub pid : ℤ

pub record ProgramStatus : Type 0 where
  pub name : Bytes
  pub state : Bytes
  pub pid : ℤ
  pub exit_code : ℤ
  pub health : Bytes
  pub phase : Bytes
  pub priority : ℤ
  pub exec : Bytes

-- What a method returns without an error.
pub data Returned : Type 0 where
  nothing : Returned
  daemons : List DaemonInfo → Returned
  daemon : DaemonStatus → Returned
  features : List FeatureInfo → Returned
  log_lines : List Bytes → Returned
  programs : List ProgramInfo → Returned
  program : ProgramStatus → Returned

abbrev name_attr : Bytes → Assoc Value
name_attr name = (text "name", Value.str name) ∷ []

abbrev named_command : ℕ → Bytes → BinCommand
named_command code name = record { code = code; attrs = name_attr name; payload = [] }

abbrev bare_command : ℕ → BinCommand
bare_command code = record { code = code; attrs = []; payload = [] }

-- The number of lines of `Logs`.
abbrev pub requested_lines : ℤ → ℤ
requested_lines lines = if is_positive lines then lines else pos 50

-- The two entries of a map in the order in which `range` gives them.
abbrev in_order {ℓ} : {A : Type ℓ} → Bool → A → A → List A
in_order true a b = b ∷ a ∷ []
in_order false a b = a ∷ b ∷ []

-- The command of a method in the binary protocol.
unfoldable pub request : Call → BinCommand
request Call.list_daemons = bare_command 1
request (Call.status name) = named_command 2 name
request (Call.restart name) = named_command 3 name
request (Call.stop name) = named_command 4 name
request (Call.start name) = named_command 5 name
request Call.list_features = bare_command 6
request (Call.logs lines_first name lines) = record {
  code = 7;
  attrs =
      in_order lines_first (text "name", Value.str name)
        (text "lines", Value.int64 (requested_lines lines));
  payload = [];
}
request Call.shutdown = bare_command 8
request Call.list_programs = bare_command 9
request (Call.program_status name) = named_command 10 name
request (Call.start_program name) = named_command 11 name
request (Call.stop_program name) = named_command 12 name

abbrev pub empty_daemon_status : DaemonStatus
empty_daemon_status = record {
  name = [];
  pid = pos 0;
  pgid = pos 0;
  state = [];
  exit_code = pos 0;
  uptime = [];
  restarts = pos 0;
  restart_policy = [];
  order = pos 0;
  socket = [];
  socket_ok = false;
  exec = [];
}

abbrev pub empty_program_status : ProgramStatus
empty_program_status = record {
  name = [];
  state = [];
  pid = pos 0;
  exit_code = pos 0;
  health = [];
  phase = [];
  priority = pos 0;
  exec = [];
}

-- `parseDaemonListFromMsg` and its kin, by the method: none of them reads the attributes.
unfoldable pub returned_of : Call → Assoc Value → Returned
returned_of Call.list_daemons attrs = Returned.daemons []
returned_of (Call.status name) attrs = Returned.daemon empty_daemon_status
returned_of Call.list_features attrs = Returned.features []
returned_of (Call.logs lines_first name lines) attrs = Returned.log_lines []
returned_of Call.list_programs attrs = Returned.programs []
returned_of (Call.program_status name) attrs = Returned.program empty_program_status
returned_of _ attrs = Returned.nothing

-- `sendBinCommand`: the bytes that are sent, and the reply with what is left of the stream.
unfoldable pub send_bin_command : BinCommand → Bytes → Bytes × Result ReadError (BinCommand × Bytes)
send_bin_command cmd stream = (write_command cmd.code cmd.attrs cmd.payload, read_command stream)

abbrev pub after_reply :
    Call → Result ReadError (BinCommand × Bytes) → Result ReadError (Returned × Bytes)
after_reply call (err e) = err e
after_reply call (ok (reply, rest)) = ok (returned_of call reply.attrs, rest)

-- A method of a binary client, on the bytes that the server sends.
unfoldable pub call_bin : Call → Bytes → Bytes × Result ReadError (Returned × Bytes)
unfolding request
call_bin call stream =
    let (sent, reply) = send_bin_command (request call) stream in (sent, after_reply call reply)

abbrev name_line : Bytes → Bytes
name_line name = text "\"name\" " ++ (name ++ text "\n")

-- What `sendCommand` writes for a method in the text protocol.
unfoldable pub text_request : Call → Bytes
text_request Call.list_daemons = text "list-daemons\n"
text_request (Call.status name) = name_line name ++ text "status\n"
text_request (Call.restart name) = name_line name ++ text "restart\n"
text_request (Call.stop name) = name_line name ++ text "stop\n"
text_request (Call.start name) = name_line name ++ text "start\n"
text_request Call.list_features = text "list-features\n"
text_request (Call.logs lines_first name lines) =
    concat (
      in_order lines_first (name_line name)
        (text "\"lines\" " ++ (decimal (requested_lines lines) ++ text "\n")))
    ++ text "logs\n"
text_request Call.shutdown = text "shutdown\n"
text_request Call.list_programs = text "prog-list\n"
text_request (Call.program_status name) = name_line name ++ text "prog-status\n"
text_request (Call.start_program name) = name_line name ++ text "prog-start\n"
text_request (Call.stop_program name) = name_line name ++ text "prog-stop\n"

pub data TextError : Type 0 where
  create_parser : Cmdlist.HeaderError → TextError
  parse : Cmdlist.ParseError → TextError

-- The answer in `sendCommand`: a new parser, which wants a header, and one command.
abbrev pub after_parser :
    Result Cmdlist.HeaderError (Bytes × Bytes) → Result TextError Cmdlist.Command
after_parser (err e) = err (TextError.create_parser e)
after_parser (ok (version, rest)) = elim (Cmdlist.parse_command (Cmdlist.split_lines [] rest)) [
  | err e ↦ err (TextError.parse e)
  | ok (cmd, lines) ↦ ok cmd
]

-- `sendCommand`, on the bytes that the server sends.
unfoldable pub send_command : Call → Bytes → Bytes × Result TextError Cmdlist.Command
unfolding text_request
send_command call stream = (text_request call, after_parser (Cmdlist.new_parser stream))
