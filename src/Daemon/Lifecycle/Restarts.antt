-- ===== src/Daemon/Lifecycle/Restarts.antt =====
-- `monitorDaemon` of internal/daemon/restart.go against `Start` and `Stop`: what becomes of a daemon
-- whose process exits.
use a_kerno.Common.{ℕ, ◌+◌, ◌≡◌, [], ◌∷◌, none, some, Bool, true, false, arith, ◌⊎◌}
use a_kerno.Common.Int.{ℤ}
use a_kerno.Daemon.Types.{Daemon, DaemonState, RestartPolicy, set_restart_policy}
use a_kerno.Daemon.Backoff.{should_restart}
use a_kerno.Daemon.Lifecycle.{
  StartError, StartEnv, start, StopEnv, stop, cleanup, Disposition, on_exit, after_delay,
}
use a_kerno.Daemon.Lifecycle.Signals.{term, kill, stop-sent}

-- A daemon whose restart is due, with its old process forgotten.
abbrev pub forgotten : Daemon → Daemon
forgotten d = record d {
  log_writers = false;
  restart_count = d.restart_count + 1;
  cmd = none;
  pid = 0;
  pgid = 0;
}

-- The exit of a process changes nothing of a daemon that is to be restarted, and stops any other.
pub on_exit_lem :
    (conv : ℤ) (now : ℕ) (exit_err : Bool) (d : Daemon)
    → (should_restart d exit_err ≡ true → (on_exit conv now exit_err d).1 ≡ d)
      × (should_restart d exit_err ≡ false
          → on_exit conv now exit_err d ≡ (Disposition.ended, cleanup now d))
unfolding on_exit cleanup
on_exit_lem conv now exit_err d = (λ h. ground arith, λ h. ground arith)

-- A daemon whose process exited while it was marked as running is not started again when its delay
-- has passed: whatever the system answers, `Start` takes it for running, and the daemon keeps that
-- mark with no process.
pub after_delay-running :
    (env : StartEnv) (d : Daemon)
    → d.state ≡ DaemonState.running
    → (after_delay env d ≡ forgotten d) × ((after_delay env d).state ≡ DaemonState.running)
unfolding after_delay
after_delay-running env d h = (ground arith, ground arith)

-- `Stop` of such a daemon sends SIGTERM to process group 0, the supervisor's own.
pub stop-after_delay :
    (env : StartEnv) (stop_env : StopEnv) (d : Daemon)
    → d.state ≡ DaemonState.running
    → let sent = (stop stop_env (after_delay env d)).2 in
      (sent ≡ term 0 ∷ []) ⊎ (sent ≡ term 0 ∷ kill 0 ∷ [])
stop-after_delay env stop_env d h =
    let (lost, still) = after_delay-running env d h in
    ground (arith, lost, still, stop-sent stop_env (after_delay env d))

-- A daemon that was stopped while its restart was due is started when the delay has passed: `Start`
-- is called on it whatever its restart policy has become.
pub after_delay-stopped :
    (env : StartEnv) (d : Daemon) (policy : RestartPolicy) (pid : ℕ)
    → d.state ≡ DaemonState.stopped
    → env.pipes ≡ true
    → env.spawned ≡ some pid
    → let d' = after_delay env (set_restart_policy d policy) in (d'.pid ≡ pid) × (d'.cmd ≡ some pid)
unfolding after_delay
after_delay-stopped env d policy pid h pipes spawned = ground arith

-- When the socket is not ready in time the daemon is marked as failed and its process stays: the
-- process is recorded, and `Stop` neither signals it nor changes anything.
pub start-not_ready :
    (env : StartEnv) (stop_env : StopEnv) (d : Daemon)
    → (start env d).0 ≡ some (StartError.not_ready d.name)
    → let d' = (start env d).1 in
      (some d'.pid ≡ env.spawned)
      × (d'.state ≡ DaemonState.failed)
      × (stop stop_env d' ≡ (none, d', []))
unfolding start stop
start-not_ready env stop_env d h = ground arith
