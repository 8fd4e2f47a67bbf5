-- ===== src/SessionWm/Lifecycle.antt =====
-- `Start`, `Stop`, `Restart`, `startProcess` and `monitor` of internal/sessionwm/manager.go.
pub mod Monitors
use a_kerno.Common.{
  ℕ, ◌+◌, ◌==◌, Bytes, bytes_eq, List, [], ◌∷◌, Option, none, some, Bool, true, false, not, ◌&&◌,
  ◌||◌, if◌then◌else◌,
}
use a_kerno.Common.Int.{ℤ, pos}
use a_kerno.Process.{Poll, Signal, Sent}
use a_kerno.Daemon.Backoff.{next_restart_delay}
use a_kerno.SessionWm.Config.{WmPolicy, WmConfig, parse_spec}

pub data WmState : Type 0 where
  idle starting running stopping stopped failed : WmState

-- `cmd` is the handle of the process, by its process id; a zero `time.Time` is 0.
pub record WmManager : Type 0 where
  pub cfg : WmConfig
  pub state : WmState
  pub cmd : Option ℕ
  pub pid : ℕ
  pub pgid : ℕ
  pub restart_count : ℕ
  pub stopping : Bool
  pub started_at : ℕ

-- `NewManager`
unfoldable pub new_wm : WmConfig → WmManager
new_wm cfg = record {
  cfg = cfg;
  state = WmState.idle;
  cmd = none;
  pid = 0;
  pgid = 0;
  restart_count = 0;
  stopping = false;
  started_at = 0;
}

-- `Enabled`
abbrev pub is_enabled : WmManager → Bool
is_enabled m = not (bytes_eq m.cfg.spec [])

pub data WmError : Type 0 where
  empty_command not_configured cancelled : WmError
  spawn_failed : Bytes → WmError

-- The process id if the process starts, and the time.
pub record Spawn : Type 0 where
  pub spawned : Option ℕ
  pub now : ℕ

unfoldable pub spawn_wm : Bytes → Spawn → Option ℕ → WmManager → Option WmError × WmManager
spawn_wm program env none m =
    (some (WmError.spawn_failed program), record m { state = WmState.failed })
spawn_wm program env (some pid) m = (
  none,
  record m { cmd = some pid; pid = pid; pgid = pid; started_at = env.now; state = WmState.running },
)

unfoldable pub start_argv : Spawn → List Bytes → WmManager → Option WmError × WmManager
unfolding spawn_wm
start_argv env [] m = (some WmError.empty_command, m)
start_argv env (program ∷ args) m =
    spawn_wm program env env.spawned (record m { state = WmState.starting })

-- `startProcess`; whether a failure is fatal changes its text alone.
unfoldable pub start_process : Spawn → WmManager → Option WmError × WmManager
unfolding start_argv
start_process env m = start_argv env (parse_spec m.cfg.spec) m

abbrev pub is_active : WmState → Bool
is_active WmState.running = true
is_active WmState.starting = true
is_active _ = false

-- `Start`
unfoldable pub start_wm : Spawn → WmManager → Option WmError × WmManager
start_wm env m =
    if not (is_enabled m)
    then (none, m)
    else if is_active m.state
    then (none, m)
    else start_process env (record m { stopping = false })

-- `cleanupLocked`
abbrev pub cleanup_wm : WmState → WmManager → WmManager
cleanup_wm state m = record m { state = state; cmd = none; pid = 0; pgid = 0 }

-- The wait of `Stop`; group 0 counts as gone.
unfoldable pub wm_wait : ℕ → List Poll → WmManager → Option WmError × WmManager × List Sent
wm_wait pgid [] m =
    (none, cleanup_wm WmState.stopped m, record { group = pgid; signal = Signal.sigkill } ∷ [])
wm_wait pgid (poll ∷ polls) m =
    let rest = wm_wait pgid polls m in
    if not (not (pgid == 0) && poll.alive)
    then (none, cleanup_wm WmState.stopped m, [])
    else if poll.cancelled
    then (
      some WmError.cancelled,
      cleanup_wm WmState.stopped m,
      record { group = pgid; signal = Signal.sigkill } ∷ [],
    )
    else rest

abbrev pub wm_terminated :
    ℕ → Option WmError × WmManager × List Sent → Option WmError × WmManager × List Sent
wm_terminated pgid (e, m, sent) =
    (e, m, if pgid == 0 then sent else record { group = pgid; signal = Signal.sigterm } ∷ sent)

-- The first locked section of `Stop`.
abbrev pub mark_stopping : WmManager → WmManager
mark_stopping m = record m {
  stopping = true;
  cfg = record (m.cfg) { restart = WmPolicy.disabled };
  state = WmState.stopping;
}

-- `Stop`, with the signals that it sends.
unfoldable pub stop_wm : List Poll → WmManager → Option WmError × WmManager × List Sent
unfolding wm_wait
stop_wm polls m =
    if not (is_enabled m)
    then (none, m, [])
    else if not (is_active m.state)
    then (none, record (mark_stopping m) { state = WmState.stopped }, [])
    else wm_terminated m.pgid (wm_wait m.pgid polls (mark_stopping m))

-- The locked section of `Restart`.
abbrev pub rearm : WmPolicy → WmManager → WmManager
rearm policy m = record m {
  cfg = record (m.cfg) { restart = policy };
  stopping = false;
  restart_count = 0;
}

-- `Restart`: an error of `Stop` is logged.
unfoldable pub restart_wm : List Poll → Spawn → WmManager → Option WmError × WmManager
restart_wm polls env m =
    if not (is_enabled m)
    then (some WmError.not_configured, m)
    else start_process env (rearm m.cfg.restart (stop_wm polls m).1)

-- `shouldRestart`; `exit_err` is `exitErr != nil`.
unfoldable pub wm_should_restart : WmPolicy → Bool → Bool
wm_should_restart WmPolicy.always exit_err = true
wm_should_restart WmPolicy.on_failure exit_err = exit_err
wm_should_restart WmPolicy.disabled exit_err = false
wm_should_restart (WmPolicy.other s) exit_err = false

pub data WmDisposition : Type 0 where
  ended : WmDisposition
  restart_after : ℤ → WmDisposition

-- The section of `monitor` after the wait: it forgets the process that the manager records.
abbrev pub forget_process : WmManager → WmManager
forget_process m = record m { cmd = none; pid = 0; pgid = 0 }

-- `monitor` from the exit of the process to its `select`. `of_large_float` is that of the delay.
unfoldable pub wm_exit : ℤ → Bool → WmManager → WmDisposition × WmManager
unfolding wm_should_restart
wm_exit of_large_float exit_err m =
    if m.stopping
    then (WmDisposition.ended, record (forget_process m) { state = WmState.stopped })
    else if not (wm_should_restart m.cfg.restart exit_err)
    then (
      WmDisposition.ended,
      record (forget_process m) { state = if exit_err then WmState.failed else WmState.stopped },
    )
    else (
      WmDisposition.restart_after (next_restart_delay of_large_float (pos m.restart_count)),
      forget_process m,
    )

abbrev pub failed_restart : Option WmError × WmManager → WmManager
failed_restart (none, m) = m
failed_restart (some e, m) = record m { state = WmState.failed }

-- The rest of `monitor`: is the context done before the delay has passed.
unfoldable pub wm_after_delay : Bool → Spawn → WmManager → WmManager
unfolding start_process
wm_after_delay is_done env m =
    if is_done
    then record m { state = WmState.stopped }
    else if m.stopping
    then record m { state = WmState.stopped }
    else failed_restart (start_process env (record m { restart_count = m.restart_count + 1 }))
