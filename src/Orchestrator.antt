-- ===== src/Orchestrator.antt =====
-- internal/orchestrator/orchestrator.go: the order in which the session is started and shut down.
pub mod Startup
mod Tests
use a_kerno.Common.{
  ℕ, Bytes, text, List, [], ◌∷◌, ◌++◌, Option, none, some, Bool, true, false, if◌then◌else◌,
}
use a_kerno.Common.Int.{ℤ}
use a_kerno.Process.{Poll, StopEnv, Sent}
use a_kerno.Daemon.Types.{Daemon, DaemonManager, is_running}
use a_kerno.Daemon.Lifecycle.{StartEnv}
use a_kerno.Daemon.Manager.{StartAllError, start_all, stop_all, list_daemons}
use a_kerno.Feature.{Registry, register, set_ready}
use a_kerno.Program.Types.{ProgramManager}
use a_kerno.Program.Lifecycle.{ProgramEnv}
use a_kerno.Program.Resolve.{phase_early, phase_post}
use a_kerno.Program.Manager.{start_phase, stop_phase}
use a_kerno.SessionWm.Lifecycle.{WmManager, WmError, Spawn, start_wm, stop_wm}

pub record Orchestrator : Type 0 where
  pub dm : DaemonManager
  pub pm : ProgramManager
  pub wm : WmManager
  pub features : Registry

-- What the system answers during `Run`: for each program and daemon, and at which groups the context
-- is done.
pub record RunEnv : Type 0 where
  pub programs : Bytes → ProgramEnv
  pub daemons : Bytes → StartEnv
  pub wm : Spawn
  pub is_done_at : ℕ → Bool
  pub is_done_order : ℤ → Bool

pub data RunError : Type 0 where
  daemons_failed : StartAllError → RunError
  wm_failed : WmError → RunError

-- The third step of `Run`: the enabled daemons become features, those that run are ready.
unfoldable pub register_daemons : List Daemon → Registry → Registry
register_daemons [] r = r
register_daemons (d ∷ ds) r =
    let registered = register d.name (text "0.0.0") d.config.socket r in
    register_daemons ds (
      if d.config.enabled
      then (if is_running d.state then set_ready d.name true registered else registered)
      else r)

-- The last step of `Run`, once the window manager has answered.
abbrev pub after_wm : RunEnv → Option WmError → Orchestrator → Option RunError × Orchestrator
after_wm env (some e) o = (some (RunError.wm_failed e), o)
after_wm env none o =
    (none, record o { pm = (start_phase env.programs env.is_done_at phase_post o.pm).1 })

-- The steps of `Run` after the daemons.
abbrev pub after_daemons :
    RunEnv → Option StartAllError → Orchestrator → Option RunError × Orchestrator
after_daemons env (some e) o = (some (RunError.daemons_failed e), o)
after_daemons env none o =
    let (e, wm) = start_wm env.wm o.wm in
    after_wm env e
      (record o { features = register_daemons (list_daemons o.dm) o.features; wm = wm })

-- `Run`: errors of the two program phases are logged.
unfoldable pub run : RunEnv → Orchestrator → Option RunError × Orchestrator
run env o =
    let early = (start_phase env.programs env.is_done_at phase_early o.pm).1 in
    let (e, dm) = start_all env.daemons env.is_done_order o.dm in
    after_daemons env e (record o { pm = early; dm = dm })

-- What the system answers during `Shutdown`.
pub record ShutdownEnv : Type 0 where
  pub programs : Bytes → StopEnv
  pub daemons : Bytes → StopEnv
  pub wm : List Poll

-- `Shutdown`, with the signals that it sends: errors are logged.
unfoldable pub shutdown : ShutdownEnv → Orchestrator → Orchestrator × List Sent
shutdown env o =
    let (pm₁, post) = stop_phase env.programs phase_post o.pm in
    let (_, wm, of_wm) = stop_wm env.wm o.wm in
    let (_, dm, of_daemons) = stop_all env.daemons o.dm in
    let (pm₂, early) = stop_phase env.programs phase_early pm₁ in
    (record o { pm = pm₂; wm = wm; dm = dm }, post ++ (of_wm ++ (of_daemons ++ early)))
