-- ===== src/Program/Types.antt =====
-- internal/program/program.go, and `ProgramConfig` of config.go.
use a_kerno.Common.{ℕ, Bytes, text, List, Option, Bool, true, false}
use a_kerno.Common.Int.{ℤ}
use a_kerno.Common.Assoc.{Assoc}

pub data ProgramState : Type 0 where
  pending waiting_deps waiting_delay starting running healthy done failed health_failed stopped
        disabled :
      ProgramState

pub data HealthStatus : Type 0 where
  unknown checking passed failed : HealthStatus

pub record ProgramConfig : Type 0 where
  pub name : Bytes
  pub exec : Bytes
  pub phase : Bytes
  pub priority : ℤ
  pub enabled : Bool
  pub depends_on : List Bytes
  pub start_delay : ℤ  -- milliseconds
  pub health_check : Bytes
  pub health_timeout : ℤ
  pub health_retry : ℤ
  pub env : Assoc Bytes
  pub restart : Bool
  pub source : Bytes

-- `cmd` is the handle of the process, by its process id; a zero `time.Time` is 0.
pub record Program : Type 0 where
  pub name : Bytes
  pub config : ProgramConfig
  pub state : ProgramState
  pub cmd : Option ℕ
  pub pid : ℕ
  pub started_at : ℕ
  pub finished_at : ℕ
  pub exit_code : ℤ
  pub health : HealthStatus

-- `killed` belongs to the system: the processes that a cancelled context of `exec.CommandContext` has killed.
pub record ProgramManager : Type 0 where
  pub configs : List ProgramConfig
  pub programs : Assoc Program
  pub killed : List ℕ

-- `SetState`
abbrev pub set_program_state : Program → ProgramState → Program
set_program_state p s = record p { state = s }

-- `IsRunning`
abbrev pub is_program_running : ProgramState → Bool
is_program_running ProgramState.starting = true
is_program_running ProgramState.running = true
is_program_running ProgramState.healthy = true
is_program_running ProgramState.health_failed = true
is_program_running _ = false

-- `IsFinished`
abbrev pub is_finished : ProgramState → Bool
is_finished ProgramState.done = true
is_finished ProgramState.failed = true
is_finished ProgramState.stopped = true
is_finished ProgramState.disabled = true
is_finished _ = false

-- `String` of a state
abbrev pub program_state_name : ProgramState → Bytes
program_state_name ProgramState.pending = text "pending"
program_state_name ProgramState.waiting_deps = text "waiting-deps"
program_state_name ProgramState.waiting_delay = text "waiting-delay"
program_state_name ProgramState.starting = text "starting"
program_state_name ProgramState.running = text "running"
program_state_name ProgramState.healthy = text "healthy"
program_state_name ProgramState.done = text "done"
program_state_name ProgramState.failed = text "failed"
program_state_name ProgramState.health_failed = text "health-failed"
program_state_name ProgramState.stopped = text "stopped"
program_state_name ProgramState.disabled = text "disabled"

-- `String` of a health status
abbrev pub health_name : HealthStatus → Bytes
health_name HealthStatus.unknown = text "unknown"
health_name HealthStatus.checking = text "checking"
health_name HealthStatus.passed = text "ok"
health_name HealthStatus.failed = text "failed"
