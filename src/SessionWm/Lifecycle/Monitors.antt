-- ===== src/SessionWm/Lifecycle/Monitors.antt =====
-- What becomes of the process of internal/sessionwm/manager.go when it exits, is stopped or restarted.
use a_kerno.Common.{
  Bytes, ℕ, ◌≡◌, ◌≢◌, refl, List, [], ◌∷◌, Option, none, some, Bool, true, false, arith,
}
use a_kerno.Common.Int.{ℤ}
use a_kerno.Process.{Poll}
use a_kerno.SessionWm.Config.{WmPolicy, parse_spec}
use a_kerno.SessionWm.Lifecycle.{
  WmState, WmManager, Spawn, spawn_wm, start_argv, start_process, start_wm, wm_wait, stop_wm,
  restart_wm, is_enabled, is_active, wm_should_restart, WmDisposition, wm_exit, cleanup_wm,
  mark_stopping, rearm,
}

abbrev pub pid_of : Option ℕ → ℕ
pid_of none = 0
pid_of (some pid) = pid

-- The recorded process id and group are those of the handle, 0 without one.
pub record IsSound (m : WmManager) : Type 0 where
  pub pid_known : m.pid ≡ pid_of m.cmd
  pub pgid_known : m.pgid ≡ pid_of m.cmd

start_argv-IsSound :
    (env : Spawn) (spawned : Option ℕ) (argv : List Bytes) (m : WmManager)
    → IsSound m
    → IsSound (start_argv (record env { spawned = spawned }) argv m).1
unfolding start_argv spawn_wm
start_argv-IsSound env spawned [] m h = h
start_argv-IsSound env none (program ∷ args) m h = record {
  pid_known = h.pid_known;
  pgid_known = h.pgid_known;
}
start_argv-IsSound env (some pid) (program ∷ args) m h = record {
  pid_known = refl;
  pgid_known = refl;
}

-- Starting the process keeps the recorded ids those of the handle, on every branch.
pub start_process-IsSound :
    (env : Spawn) (m : WmManager) → IsSound m → IsSound (start_process env m).1
unfolding start_process
start_process-IsSound env m h = start_argv-IsSound env env.spawned (parse_spec m.cfg.spec) m h

wm_wait-result :
    (pgid : ℕ) (polls : List Poll) (m : WmManager)
    → (wm_wait pgid polls m).1 ≡ cleanup_wm WmState.stopped m
unfolding wm_wait
wm_wait-result pgid [] m = refl
wm_wait-result pgid (poll ∷ polls) m = ground (arith, wm_wait-result pgid polls m)

-- `Stop` of a configured window manager always ends in the state stopped with restarts disabled, even
-- with an error, and if one was up its process is forgotten.
pub stop_wm_lem :
    (polls : List Poll) (m : WmManager)
    → is_enabled m ≡ true
    → let m' = (stop_wm polls m).1 in
      (m'.state ≡ WmState.stopped)
      × (m'.stopping ≡ true)
      × (m'.cfg ≡ record (m.cfg) { restart = WmPolicy.disabled })
      × (is_active m.state ≡ true → (m'.cmd ≡ none) × (m'.pid ≡ 0) × (m'.pgid ≡ 0))
unfolding stop_wm
stop_wm_lem polls m enabled =
    let after = wm_wait-result m.pgid polls (mark_stopping m) in
    (ground (arith, after), ground (arith, after), ground (arith, after), ground (arith, after))

start_argv-cfg :
    (env : Spawn) (spawned : Option ℕ) (argv : List Bytes) (m : WmManager)
    → let m' = (start_argv (record env { spawned = spawned }) argv m).1 in
      (m'.cfg ≡ m.cfg) × (m'.stopping ≡ m.stopping) × (m'.restart_count ≡ m.restart_count)
unfolding start_argv spawn_wm
start_argv-cfg env spawned [] m = (refl, refl, refl)
start_argv-cfg env none (program ∷ args) m = (refl, refl, refl)
start_argv-cfg env (some pid) (program ∷ args) m = (refl, refl, refl)

start_process-cfg :
    (env : Spawn) (m : WmManager)
    → let m' = (start_process env m).1 in
      (m'.cfg ≡ m.cfg) × (m'.stopping ≡ m.stopping) × (m'.restart_count ≡ m.restart_count)
unfolding start_process
start_process-cfg env m = start_argv-cfg env env.spawned (parse_spec m.cfg.spec) m

-- `Start` after `Stop` does not bring the restart policy back: it stays disabled, and no exit of the
-- new process is followed by a restart.
pub start_wm-stop_wm :
    (polls : List Poll) (env : Spawn) (m : WmManager) (conv : ℤ) (exit_err : Bool)
    → is_enabled m ≡ true
    → let m' = (start_wm env (stop_wm polls m).1).1 in
      (m'.cfg.restart ≡ WmPolicy.disabled) × ((wm_exit conv exit_err m').0 ≡ WmDisposition.ended)
unfolding start_wm wm_exit wm_should_restart
start_wm-stop_wm polls env m conv exit_err enabled =
    let m₁ = (stop_wm polls m).1 in
    let (state, _, cfg, _) = stop_wm_lem polls m enabled in
    let kept = start_process-cfg env (record m₁ { stopping = false }) in
    (ground (arith, state, cfg, kept), ground (arith, state, cfg, kept))

-- `Restart` of a configured window manager keeps the configuration with its policy, and clears the
-- count of restarts and the mark that it is stopping.
pub restart_wm_lem :
    (polls : List Poll) (env : Spawn) (m : WmManager)
    → is_enabled m ≡ true
    → let m' = (restart_wm polls env m).1 in
      (m'.cfg ≡ m.cfg) × (m'.stopping ≡ false) × (m'.restart_count ≡ 0)
unfolding restart_wm
restart_wm_lem polls env m enabled =
    let (_, _, cfg, _) = stop_wm_lem polls m enabled in
    let kept = start_process-cfg env (rearm m.cfg.restart (stop_wm polls m).1) in
    (
      ground (arith, enabled, cfg, kept),
      ground (arith, enabled, kept),
      ground (arith, enabled, kept),
    )

-- A monitor whose process exits after `Stop` ends, and the state is stopped, whatever the exit was.
pub wm_exit-stop_wm :
    (polls : List Poll) (m : WmManager) (conv : ℤ) (exit_err : Bool)
    → is_enabled m ≡ true
    → let (next, m') = wm_exit conv exit_err (stop_wm polls m).1 in
      (next ≡ WmDisposition.ended) × (m'.state ≡ WmState.stopped) × (m'.cmd ≡ none)
unfolding wm_exit
wm_exit-stop_wm polls m conv exit_err enabled =
    let (_, stopping, _, _) = stop_wm_lem polls m enabled in
    (ground (arith, stopping), ground (arith, stopping), ground (arith, stopping))

-- A monitor of the old process that reads the state only after `Restart` leaves no handle, process id or group of
-- the process that Restart has started, under every policy, and under the policy always it also schedules
-- another start.
pub wm_exit-restart_wm :
    (polls : List Poll) (env : Spawn) (m : WmManager) (conv : ℤ) (exit_err : Bool)
    → is_enabled m ≡ true
    → let (next, m') = wm_exit conv exit_err (restart_wm polls env m).1 in
      (m'.cmd ≡ none)
      × (m'.pid ≡ 0)
      × (m'.pgid ≡ 0)
      × (m.cfg.restart ≡ WmPolicy.always → next ≢ WmDisposition.ended)
unfolding wm_exit wm_should_restart
wm_exit-restart_wm polls env m conv exit_err enabled =
    let (cfg, stopping, _) = restart_wm_lem polls env m enabled in
    (
      ground (arith, stopping),
      ground (arith, stopping),
      ground (arith, stopping),
      λ policy. ground (arith, cfg, stopping, policy),
    )
