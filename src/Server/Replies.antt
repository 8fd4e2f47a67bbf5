-- ===== src/Server/Replies.antt =====
-- The state of internal/server/server.go, and the replies of handlers.go.
use a_kerno.Common.{ℕ, Bytes, List, Option, Bool}
use a_kerno.BinParser.Types.{code_ok, code_error}
use a_kerno.Daemon.Types.{Daemon, DaemonManager}
use a_kerno.Daemon.Lifecycle.{StartError, StartEnv, StopError, StopEnv}
use a_kerno.Feature.{Feature, Registry}
use a_kerno.Program.Types.{Program, ProgramManager}
use a_kerno.Program.Lifecycle.{ProgramError, ProgramEnv, StopProgramError}

-- `none` is a nil pointer; `is_cancelled` says that `s.cancel` was called.
pub record Server : Type 0 where
  pub manager : DaemonManager
  pub pm : Option ProgramManager
  pub features : Option Registry
  pub is_cancelled : Bool

-- What the system answers to the calls of one command.
pub record CommandEnv : Type 0 where
  pub starting : StartEnv
  pub stopping : StopEnv
  pub program : ProgramEnv

pub data Failure : Type 0 where
  needs_name no_features no_programs log_panic : Failure
  daemon_not_found program_not_found : Bytes → Failure
  stop_failed : Bytes → StopError → Failure
  start_failed : Bytes → StartError → Failure
  start_program_failed : Bytes → ProgramError → Failure
  stop_program_failed : Bytes → StopProgramError → Failure
  unknown_code : ℕ → Failure
  unknown_command : Bytes → Failure

pub data Reply : Type 0 where
  daemons : List Daemon → Reply
  daemon_status : Daemon → Reply
  daemon_restarted daemon_started : Bytes → ℕ → Reply
  daemon_stopped : Bytes → Reply
  features : List Feature → Reply
  log_lines : List Bytes → Reply
  shutting_down : Reply
  programs : List Program → Reply
  program_status : Program → Reply
  program_started : Bytes → ℕ → Reply
  program_stopped : Bytes → Reply
  failure : Failure → Reply

-- The code that is sent with a reply.
abbrev pub reply_code : Reply → ℕ
reply_code (Reply.failure f) = code_error
reply_code _ = code_ok
