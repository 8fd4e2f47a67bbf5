-- ===== src/Server/Dispatch.antt =====
-- `dispatchBinCommand`, `dispatch` and `handleBinConnection` of internal/server/server.go, and how
-- handlers.go reads the arguments of a command.
pub mod Sessions
pub mod Frames
use a_kerno.Common.{
  ℕ, zero, suc, Bytes, bytes_eq, text, List, [], ◌∷◌, ◌++◌, Option, none, some, Bool, true, false,
  ◌==◌, length, if◌then◌else◌, ok, err,
}
use a_kerno.Common.Int.{ℤ}
use a_kerno.Common.Assoc.{Assoc, lookup}
use a_kerno.BinParser.Types.{Value, BinCommand, ReadError, is_panic}
use a_kerno.BinParser.Read.{read_command}
use a_kerno.Cmdlist as Cmdlist
use a_kerno.Server.Replies.{Server, CommandEnv, Failure, Reply}
use a_kerno.Server.Handlers.{
  Handler, fail, on_list_daemons, on_status, on_restart, on_stop, on_start, on_list_features,
  on_logs, on_shutdown, with_programs, on_list_programs, on_program_status, on_start_program,
  on_stop_program,
}

abbrev as_string : Option Value → Option Bytes
as_string (some (Value.str s)) = some s
as_string _ = none

abbrev as_int64 : Option Value → Option ℤ
as_int64 (some (Value.int64 n)) = some n
as_int64 _ = none

-- `binAttr`
unfoldable pub bin_attr : BinCommand → Bytes → Option Bytes
bin_attr cmd key = as_string (lookup key cmd.attrs)

-- `binAttrInt`
unfoldable pub bin_attr_int : BinCommand → Bytes → Option ℤ
bin_attr_int cmd key = as_int64 (lookup key cmd.attrs)

-- The test of `binAttrName` at the head of a handler: a missing or empty name is an error.
abbrev pub with_name : Option Bytes → (Bytes → Handler) → Handler
with_name none f s = fail Failure.needs_name s
with_name (some name) f s = if bytes_eq name [] then fail Failure.needs_name s else f name s

-- `dispatchBinCommand`
unfoldable pub dispatch_bin : CommandEnv → BinCommand → Handler
unfolding bin_attr bin_attr_int
dispatch_bin env cmd s =
    let name = bin_attr cmd (text "name") in
    if cmd.code == 1
    then on_list_daemons s
    else if cmd.code == 2
    then with_name name on_status s
    else if cmd.code == 3
    then with_name name (on_restart env) s
    else if cmd.code == 4
    then with_name name (on_stop env) s
    else if cmd.code == 5
    then with_name name (on_start env) s
    else if cmd.code == 6
    then on_list_features s
    else if cmd.code == 7
    then with_name name (λ n. on_logs n (bin_attr_int cmd (text "lines"))) s
    else if cmd.code == 8
    then on_shutdown s
    else if cmd.code == 9
    then on_list_programs s
    else if cmd.code == 10
    then with_programs (λ pm. with_name name (λ n. on_program_status n pm)) s
    else if cmd.code == 11
    then with_programs (λ pm. with_name name (λ n. on_start_program env n pm)) s
    else if cmd.code == 12
    then with_programs (λ pm. with_name name (λ n. on_stop_program env n pm)) s
    else fail (Failure.unknown_code cmd.code) s

-- `cmd.Args[0]` if it is a string.
abbrev pub first_string : List Cmdlist.Value → Option Bytes
first_string (Cmdlist.Value.str s ∷ args) = some s
first_string _ = none

-- `cmd.Args[1]` if it is a number.
abbrev pub second_int : List Cmdlist.Value → Option ℤ
second_int (v ∷ Cmdlist.Value.int n ∷ args) = some n
second_int _ = none

-- The test at the head of a text handler: an empty name passes.
abbrev pub with_arg : Option Bytes → (Bytes → Handler) → Handler
with_arg none f s = fail Failure.needs_name s
with_arg (some name) f s = f name s

-- `dispatch`
unfoldable pub dispatch : CommandEnv → Cmdlist.Command → Handler
dispatch env cmd s =
    let name = first_string cmd.args in
    if bytes_eq cmd.name (text "list-daemons")
    then on_list_daemons s
    else if bytes_eq cmd.name (text "status")
    then with_arg name on_status s
    else if bytes_eq cmd.name (text "restart")
    then with_arg name (on_restart env) s
    else if bytes_eq cmd.name (text "stop")
    then with_arg name (on_stop env) s
    else if bytes_eq cmd.name (text "start")
    then with_arg name (on_start env) s
    else if bytes_eq cmd.name (text "list-features")
    then on_list_features s
    else if bytes_eq cmd.name (text "logs")
    then with_arg name (λ n. on_logs n (second_int cmd.args)) s
    else if bytes_eq cmd.name (text "shutdown")
    then on_shutdown s
    else if bytes_eq cmd.name (text "prog-list")
    then on_list_programs s
    else if bytes_eq cmd.name (text "prog-status")
    then with_programs (λ pm. with_arg name (λ n. on_program_status n pm)) s
    else if bytes_eq cmd.name (text "prog-start")
    then with_programs (λ pm. with_arg name (λ n. on_start_program env n pm)) s
    else if bytes_eq cmd.name (text "prog-stop")
    then with_programs (λ pm. with_arg name (λ n. on_stop_program env n pm)) s
    else fail (Failure.unknown_command cmd.name) s

-- What a connection writes: a reply, or the error of a command that cannot be read.
pub data Written : Type 0 where
  reply : Reply → Written
  unreadable : ReadError → Written
  crash : Written

-- The error of a command that cannot be read is written; a panic of the reader ends the process.
abbrev pub on_unreadable : ReadError → Written
on_unreadable e = if is_panic e then Written.crash else Written.unreadable e

abbrev pub cmd_stop_program : ℕ
cmd_stop_program = 12

abbrev pub cmd_shutdown : ℕ
cmd_shutdown = 8

-- `handleBinConnection` on the bytes that the client sends; the command with number `i` meets the
-- answers `env i` of the system. Each round takes some bytes, so that one more than the stream has is
-- enough. The connection takes every write.
unfoldable pub serve_bin : ℕ → (ℕ → CommandEnv) → ℕ → Bytes → Server → List Written × Server
serve_bin zero env i stream s = (Written.unreadable ReadError.out_of_fuel ∷ [], s)
serve_bin (suc fuel) env i stream s = elim (read_command stream) [
  | err ReadError.eof ↦ ([], s)
  | err e ↦ (on_unreadable e ∷ [], s)
  | ok (cmd, rest) ↦
      let (r, s') = dispatch_bin (env i) cmd s in
      let (later, s'') = serve_bin fuel env (suc i) rest s' in
      if cmd.code == cmd_shutdown
      then (Written.reply r ∷ [], s')
      else (Written.reply r ∷ later, s'')
]

unfoldable pub handle_bin_connection : (ℕ → CommandEnv) → Bytes → Server → List Written × Server
unfolding serve_bin
handle_bin_connection env stream s = serve_bin (suc (length stream)) env 0 stream s
