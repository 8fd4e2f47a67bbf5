-- ===== src/Process.antt =====
-- What the operating system answers while a process group is stopped, and the signals sent to it: shared by
-- internal/daemon/manager.go, internal/program/manager.go and internal/sessionwm/manager.go.
use a_kerno.Common.{ℕ, List, Bool}

-- One round of a wait for the exit: is the group alive, and is the context done.
pub record Poll : Type 0 where
  pub alive : Bool
  pub cancelled : Bool

pub record StopEnv : Type 0 where
  pub polls : List Poll  -- the rounds before the deadline
  pub kill_fails : Bool
  pub now : ℕ

pub data Signal : Type 0 where
  sigterm sigkill : Signal

-- `kill(-group, signal)`. Group 0 is the caller's own process group.
pub record Sent : Type 0 where
  pub group : ℕ
  pub signal : Signal
