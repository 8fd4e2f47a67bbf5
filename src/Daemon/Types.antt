-- ===== src/Daemon/Types.antt =====
-- internal/daemon/daemon.go, and the types of config.go.
use a_kerno.Common.{ℕ, Bytes, text, List, Option, Bool, true, false}
use a_kerno.Common.Int.{ℤ}
use a_kerno.Common.Assoc.{Assoc}
use a_kerno.LogBuffer.{LogBuffer}

pub data DaemonState : Type 0 where
  stopped starting running failed disabled : DaemonState

-- `RestartPolicy` is a string type; `other` is any string but the four constants.
pub data RestartPolicy : Type 0 where
  always on_failure once disabled : RestartPolicy
  other : Bytes → RestartPolicy

pub record DaemonConfig : Type 0 where
  pub name : Bytes
  pub exec : Bytes
  pub order : ℤ
  pub restart : RestartPolicy
  pub ready_timeout : ℤ  -- nanoseconds
  pub socket : Bytes
  pub env : Assoc Bytes
  pub enabled : Bool

-- `cmd` is the handle of the process, by its process id; `log_writers` says whether they are open;
-- a zero `time.Time` is 0.
pub record Daemon : Type 0 where
  pub name : Bytes
  pub config : DaemonConfig
  pub state : DaemonState
  pub cmd : Option ℕ
  pub pid : ℕ
  pub pgid : ℕ
  pub started_at : ℕ
  pub stopped_at : ℕ
  pub restart_count : ℕ
  pub logs : LogBuffer
  pub log_writers : Bool

-- `killed` belongs to the system: the processes that a cancelled context of `exec.CommandContext` has killed.
pub record DaemonManager : Type 0 where
  pub configs : List DaemonConfig
  pub daemons : Assoc Daemon
  pub killed : List ℕ

abbrev pub is_running : DaemonState → Bool
is_running DaemonState.running = true
is_running _ = false

-- `SetState`
abbrev pub set_state : Daemon → DaemonState → Daemon
set_state d s = record d { state = s }

-- `SetRestartPolicy`
abbrev pub set_restart_policy : Daemon → RestartPolicy → Daemon
set_restart_policy d policy = record d { config = record (d.config) { restart = policy } }

-- `String` of a state
abbrev pub state_name : DaemonState → Bytes
state_name DaemonState.stopped = text "stopped"
state_name DaemonState.starting = text "starting"
state_name DaemonState.running = text "running"
state_name DaemonState.failed = text "failed"
state_name DaemonState.disabled = text "disabled"
