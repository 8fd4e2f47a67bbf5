-- ===== src/Daemon/Lifecycle/Signals.antt =====
-- What `Start` and `Stop` of internal/daemon/manager.go do on every branch, and to which process
-- groups `Stop` sends signals.
use a_kerno.Common.{
  ℕ, ◌≡◌, ◌≢◌, Bytes, List, [], ◌∷◌, Option, none, some, true, false, arith, ◌⊎◌, inr,
}
use a_kerno.Daemon.Types.{Daemon, DaemonState}
use a_kerno.Daemon.Lifecycle.{
  StartError, StartEnv, start, is_up, StopError, StopEnv, Poll, Sent, Signal, cleanup, stop_wait,
  stop,
}

abbrev pub handle_pid : Option ℕ → ℕ
handle_pid none = 0
handle_pid (some p) = p

-- The recorded process id and group are those of the process handle, 0 without one; a stopped daemon
-- has no handle.
pub record IsConsistent (d : Daemon) : Type 0 where
  pub process : d.pid ≡ handle_pid d.cmd
  pub group : d.pgid ≡ handle_pid d.cmd
  pub stopped : d.state ≡ DaemonState.stopped → d.cmd ≡ none

-- `Start` keeps the fields of a daemon consistent, on every branch.
pub start-IsConsistent :
    (env : StartEnv) (d : Daemon) → IsConsistent d → IsConsistent (start env d).1
unfolding start
start-IsConsistent env d c = ground arith

stop_wait-IsConsistent :
    (env : StopEnv) (g : ℕ) (polls : List Poll) (d : Daemon)
    → IsConsistent d
    → IsConsistent (stop_wait env g polls d).1
unfolding stop_wait
stop_wait-IsConsistent env g [] d c = ground arith
stop_wait-IsConsistent env g (poll ∷ polls) d c =
    ground (arith, stop_wait-IsConsistent env g polls d c)

-- `Stop` keeps the fields of a daemon consistent, on every branch.
pub stop-IsConsistent : (env : StopEnv) (d : Daemon) → IsConsistent d → IsConsistent (stop env d).1
unfolding stop
stop-IsConsistent env d c = ground (arith, stop_wait-IsConsistent env d.pgid env.polls d c)

-- The refusal of `Start` for other states is never reached: each of the five is up or startable.
pub start-ne-cannot_start :
    (env : StartEnv) (d : Daemon) (name : Bytes) (s : DaemonState)
    → (start env d).0 ≢ some (StartError.cannot_start name s)
unfolding start
start-ne-cannot_start env d name s h = ground arith

abbrev pub term : ℕ → Sent
term g = record { group = g; signal = Signal.sigterm }

abbrev pub kill : ℕ → Sent
kill g = record { group = g; signal = Signal.sigkill }

stop_wait-group :
    (env : StopEnv) (g : ℕ) (polls : List Poll) (d : Daemon)
    → ((stop_wait env g polls d).2 ≡ []) ⊎ ((stop_wait env g polls d).2 ≡ kill g ∷ [])
unfolding stop_wait
stop_wait-group env g [] d = inr (ground arith)
stop_wait-group env g (poll ∷ polls) d = ground (arith, stop_wait-group env g polls d)

stop_wait-ok :
    (env : StopEnv) (g : ℕ) (polls : List Poll) (d : Daemon)
    → (stop_wait env g polls d).0 ≡ none
    → (stop_wait env g polls d).1 ≡ cleanup env.now d
unfolding stop_wait
stop_wait-ok env g [] d h = ground arith
stop_wait-ok env g (poll ∷ polls) d h = ground (arith, stop_wait-ok env g polls d)

stop_wait-failed :
    (env : StopEnv) (g : ℕ) (polls : List Poll) (d : Daemon) (e : StopError)
    → (stop_wait env g polls d).0 ≡ some e
    → (stop_wait env g polls d).1 ≡ d
unfolding stop_wait
stop_wait-failed env g [] d e h = ground arith
stop_wait-failed env g (poll ∷ polls) d e h = ground (arith, stop_wait-failed env g polls d e)

-- Every signal that `Stop` sends goes to the process group that the daemon records: SIGTERM first,
-- then at most one SIGKILL.
pub stop-sent :
    (env : StopEnv) (d : Daemon)
    → is_up d.state ≡ true
    → ((stop env d).2 ≡ term d.pgid ∷ []) ⊎ ((stop env d).2 ≡ term d.pgid ∷ kill d.pgid ∷ [])
unfolding stop
stop-sent env d up = ground (arith, stop_wait-group env d.pgid env.polls d)

-- `Stop` of a daemon that runs or starts: if it returns no error, the daemon is stopped as of now, has no
-- process, group or log writers and is otherwise as it was; with an error it is left as it was. SIGTERM goes to
-- the group that it recorded, then at most one SIGKILL. Of any other daemon it changes nothing and sends no signal.
pub stop_lem :
    (env : StopEnv) (d : Daemon)
    → (is_up d.state ≡ true
        → (stop env d).0 ≡ none
        → (stop env d).1 ≡ record d {
          state = DaemonState.stopped;
          stopped_at = env.now;
          cmd = none;
          pid = 0;
          pgid = 0;
          log_writers = false;
        })
      × (is_up d.state ≡ true
          → ((stop env d).2 ≡ term d.pgid ∷ []) ⊎ ((stop env d).2 ≡ term d.pgid ∷ kill d.pgid ∷ []))
      × ((e : StopError) → (stop env d).0 ≡ some e → (stop env d).1 ≡ d)
      × (is_up d.state ≡ false → stop env d ≡ (none, d, []))
unfolding stop cleanup
stop_lem env d = (
  λ up h. ground (arith, stop_wait-ok env d.pgid env.polls d),
  stop-sent env d,
  λ e h. ground (arith, stop_wait-failed env d.pgid env.polls d e),
  λ down. ground arith,
)
