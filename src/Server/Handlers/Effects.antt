-- ===== src/Server/Handlers/Effects.antt =====
-- What the commands of internal/server/handlers.go leave behind in the daemons and the features.
use a_kerno.Common.{
  ◌≡◌, ◌∙◌, refl, Bytes, bytes_eq, bytes_eq_refl, none, some, false, arith, Option-cases, inl, inr,
}
use a_kerno.Daemon.Types.{Daemon, DaemonManager, RestartPolicy, set_restart_policy}
use a_kerno.Daemon.Manager as Daemons
use a_kerno.Daemon.Manager.{get, put}
use a_kerno.Daemon.Lifecycle as Lifecycle
use a_kerno.Daemon.Lifecycle.{StopEnv, is_up, cleanup}
use a_kerno.Daemon.Lifecycle.Signals.{stop_lem}
use a_kerno.Daemon.Manager.Startup.{get-put}
use a_kerno.Server.Replies.{Server, CommandEnv, Reply}
use a_kerno.Server.Handlers.{on_stop, after_stop, mark_ready}

-- `Stop` of a daemon by name.
stop-found :
    (env : StopEnv) (name : Bytes) (m : DaemonManager) (d : Daemon)
    → get m name ≡ some d
    → Daemons.stop env name m
      ≡ ((Lifecycle.stop env d).0, put name m (Lifecycle.stop env d).1, (Lifecycle.stop env d).2)
unfolding Daemons.stop
stop-found env name m d h = rw (h, Daemons.stop)

stop-down :
    (env : StopEnv) (d : Daemon)
    → (Lifecycle.stop env d).0 ≡ none
    → is_up (Lifecycle.stop env d).1.state ≡ false
unfolding cleanup
stop-down env d h = ground (arith, stop_lem env d)

-- The named daemon is down, with its restart policy disabled.
pub record IsRetired (m : DaemonManager) (name : Bytes) : Type 0 where
  pub daemon : Daemon
  pub found : get m name ≡ some daemon
  pub down : is_up daemon.state ≡ false
  pub policy : daemon.config.restart ≡ RestartPolicy.disabled

get-put_self : (name : Bytes) (m : DaemonManager) (d : Daemon) → get (put name m d) name ≡ some d
get-put_self name m d = rw (get-put name name m d, bytes_eq_refl name)

get-put_other :
    (name other : Bytes) (m : DaemonManager) (d : Daemon)
    → bytes_eq name other ≡ false
    → get (put name m d) other ≡ get m other
get-put_other name other m d differ = rw (get-put name other m d, differ)

-- What a successful `stop` command leaves behind.
pub record IsStopOf (name : Bytes) (s s' : Server) : Type 0 where
  pub retired : IsRetired s'.manager name
  pub others :
      (other : Bytes) → bytes_eq name other ≡ false → get s'.manager other ≡ get s.manager other
  pub features : s'.features ≡ mark_ready name false s.features

after_stop-IsStopOf :
    (env : CommandEnv) (name : Bytes) (s : Server) (d : Daemon)
    → (Lifecycle.stop env.stopping d).0 ≡ none
    → let m = put name s.manager (Lifecycle.stop env.stopping d).1 in
      IsStopOf name s (after_stop name none (record s { manager = m })).1
after_stop-IsStopOf env name s d done =
    let d' = (Lifecycle.stop env.stopping d).1 in
    let m = put name s.manager d' in
    let retired = set_restart_policy d' RestartPolicy.disabled in
    let same = get-put_self name s.manager d' in
    record {
      retired = record {
        daemon = retired;
        found = rw same (get-put_self name m retired);
        down = stop-down env.stopping d done;
        policy = refl;
      };
      others = λ other differ. rw same (
          get-put_other name other m retired differ ∙ get-put_other name other s.manager d' differ);
      features = refl;
    }

-- If the `stop` command replies that the daemon was stopped, the daemon is down with its restart policy
-- disabled, its feature is marked as not ready, and every other daemon is as it was.
pub on_stop_lem :
    (env : CommandEnv) (name : Bytes) (s : Server)
    → (on_stop env name s).0 ≡ Reply.daemon_stopped name
    → IsStopOf name s (on_stop env name s).1
unfolding on_stop
on_stop_lem env name s h = elim (Option-cases (get s.manager name)) [
  | inl missing ↦ absurd (ground (arith, missing))
  | inr (d, found) ↦ elim (Option-cases (Lifecycle.stop env.stopping d).0) [
    | inl done ↦
        rw (found, stop-found env.stopping name s.manager d found, done, on_stop)
          (after_stop-IsStopOf env name s d done)
    | inr (e, failed) ↦
        absurd (ground (arith, found, failed, stop-found env.stopping name s.manager d found))
  ]
]
