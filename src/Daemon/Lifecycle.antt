-- ===== src/Daemon/Lifecycle.antt =====
-- `Start`, `waitForSocket`, `Stop` and `cleanupDaemon` of internal/daemon/manager.go and
-- `monitorDaemon` of internal/daemon/restart.go, for one daemon that the manager has found.
-- Environment variables of the child and log lines do not change the state and are left out.
pub mod Signals
pub mod Restarts
use a_kerno.Common.{
  ℕ, ◌+◌, Bytes, bytes_eq, List, [], ◌∷◌, Option, none, some, Bool, true, false, not, ◌&&◌, ◌||◌,
  if◌then◌else◌,
}
use a_kerno.Common.Int.{ℤ, is_positive, pos}
pub use a_kerno.Process.{Poll, StopEnv, Signal, Sent}
use a_kerno.Daemon.Types.{Daemon, DaemonState, is_running, set_state}
use a_kerno.Daemon.Backoff.{should_restart, next_restart_delay}

pub data StartError : Type 0 where
  not_found : Bytes → StartError
  cannot_start : Bytes → DaemonState → StartError
  logdup_failed spawn_failed not_ready : Bytes → StartError

-- What the system answers to one `Start`: whether the pipes could be made, the process id if the
-- process started, each attempt to connect before the deadline, and the time.
pub record StartEnv : Type 0 where
  pub pipes : Bool
  pub spawned : Option ℕ
  pub dials : List Bool
  pub now : ℕ

abbrev pub any_dial : List Bool → Bool
any_dial [] = false
any_dial (dialled ∷ rest) = dialled || any_dial rest

-- `waitForSocket`: true for a nil error.
pub wait_for_socket : Bytes → ℤ → List Bool → Bool
wait_for_socket socket timeout dials =
    if bytes_eq socket [] || not (is_positive timeout) then true else any_dial dials

abbrev pub is_up : DaemonState → Bool
is_up DaemonState.running = true
is_up DaemonState.starting = true
is_up _ = false

abbrev pub startable : DaemonState → Bool
startable DaemonState.stopped = true
startable DaemonState.failed = true
startable DaemonState.disabled = true
startable _ = false

-- After the process has started.
pub await_ready : StartEnv → Daemon → Option StartError × Daemon
unfolding wait_for_socket
await_ready env d =
    if not (bytes_eq d.config.socket [])
      && not (wait_for_socket d.config.socket d.config.ready_timeout env.dials)
    then (some (StartError.not_ready d.name), set_state d DaemonState.failed)
    else (none, set_state d DaemonState.running)

pub launch : Option ℕ → StartEnv → Daemon → Option StartError × Daemon
unfolding await_ready
launch none env d = (some (StartError.spawn_failed d.name), set_state d DaemonState.failed)
launch (some pid) env d =
    await_ready env
      (record d { cmd = some pid; pid = pid; pgid = pid; started_at = env.now; log_writers = true })

-- `Start` of a daemon that was found; no error is `none`.
unfoldable pub start : StartEnv → Daemon → Option StartError × Daemon
unfolding launch
start env d =
    let starting = set_state d DaemonState.starting in
    if is_up d.state
    then (none, d)
    else if d.config.enabled && not (startable d.state)
    then (some (StartError.cannot_start d.name d.state), d)
    else if not env.pipes
    then (some (StartError.logdup_failed d.name), set_state starting DaemonState.failed)
    else launch env.spawned env starting

pub data StopError : Type 0 where
  not_found : Bytes → StopError
  cancelled : StopError
  sigkill_failed : Bytes → ℕ → StopError

-- `cleanupDaemon`
unfoldable pub cleanup : ℕ → Daemon → Daemon
cleanup now d = record d {
  state = DaemonState.stopped;
  stopped_at = now;
  cmd = none;
  pid = 0;
  pgid = 0;
  log_writers = false;
}

unfoldable pub stop_wait : StopEnv → ℕ → List Poll → Daemon → Option StopError × Daemon × List Sent
unfolding cleanup
stop_wait env pgid [] d =
    let killed = record { group = pgid; signal = Signal.sigkill } ∷ [] in
    if env.kill_fails
    then (some (StopError.sigkill_failed d.name pgid), d, killed)
    else (none, cleanup env.now d, killed)
stop_wait env pgid (poll ∷ polls) d =
    let rest = stop_wait env pgid polls d in
    if not poll.alive
    then (none, cleanup env.now d, [])
    else if poll.cancelled
    then (some StopError.cancelled, d, [])
    else rest

abbrev sent_before :
    Sent → Option StopError × Daemon × List Sent → Option StopError × Daemon × List Sent
sent_before s (e, d, sent) = (e, d, s ∷ sent)

-- `Stop` of a daemon that was found, with the signals that it sends. A failing SIGTERM is logged.
unfoldable pub stop : StopEnv → Daemon → Option StopError × Daemon × List Sent
stop env d =
    if not (is_up d.state)
    then (none, d, [])
    else sent_before (record { group = d.pgid; signal = Signal.sigterm })
        (stop_wait env d.pgid env.polls d)

-- `monitorDaemon` up to its `select`: what it does when the process has exited.
pub data Disposition : Type 0 where
  ended : Disposition
  restart_after : ℤ → Disposition

unfoldable pub on_exit : ℤ → ℕ → Bool → Daemon → Disposition × Daemon
unfolding cleanup
on_exit of_large_float now exit_err d =
    if not (should_restart d exit_err)
    then (Disposition.ended, cleanup now (set_state d DaemonState.stopped))
    else (Disposition.restart_after (next_restart_delay of_large_float (pos d.restart_count)), d)

-- The rest of `monitorDaemon`, once the delay has passed.
unfoldable pub after_delay : StartEnv → Daemon → Daemon
unfolding start
after_delay env d =
    let (failure, started) = start env (record d {
      log_writers = false;
      restart_count = d.restart_count + 1;
      cmd = none;
      pid = 0;
      pgid = 0;
    }) in
    elim failure [ none ↦ started | some e ↦ set_state started DaemonState.failed ]
