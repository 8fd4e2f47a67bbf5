-- ===== src/Orchestrator/Startup.antt =====
-- What holds when `Run` of internal/orchestrator/orchestrator.go has returned no error.
use a_kerno.Common.{
  ℕ, ◌≡◌, refl, Bytes, List, [], ◌∷◌, Option, none, some, true, false, arith, Option-cases, inl,
  inr,
}
use a_kerno.Daemon.Manager.{group_by_order, start_all}
use a_kerno.Daemon.Manager.Killed.{NoneUp, GroupsKilled, start_all-GroupsKilled}
use a_kerno.SessionWm.Config.{parse_spec}
use a_kerno.SessionWm.Lifecycle.{
  WmManager, Spawn, spawn_wm, start_argv, start_process, start_wm, is_enabled, is_active,
}
use a_kerno.Orchestrator.{Orchestrator, RunEnv, run}

start_argv-active :
    (env : Spawn) (spawned : Option ℕ) (argv : List Bytes) (m : WmManager)
    → (start_argv (record env { spawned = spawned }) argv m).0 ≡ none
    → is_active (start_argv (record env { spawned = spawned }) argv m).1.state ≡ true
unfolding start_argv spawn_wm
start_argv-active env spawned [] m h = absurd (ground arith)
start_argv-active env none (program ∷ args) m h = absurd (ground arith)
start_argv-active env (some pid) (program ∷ args) m h = refl

start_process-active :
    (env : Spawn) (m : WmManager)
    → (start_process env m).0 ≡ none
    → is_active (start_process env m).1.state ≡ true
unfolding start_process
start_process-active env m h = start_argv-active env env.spawned (parse_spec m.cfg.spec) m h

start_wm-active :
    (env : Spawn) (m : WmManager)
    → is_enabled m ≡ true
    → (start_wm env m).0 ≡ none
    → is_active (start_wm env m).1.state ≡ true
unfolding start_wm
start_wm-active env m enabled h =
    ground (arith, start_process-active env (record m { stopping = false }))

-- If no daemon runs or starts and `Run` then returns no error, the process of every daemon of every start
-- group has been killed, and the window manager is recorded as active if one is configured.
pub run_lem :
    (env : RunEnv) (o : Orchestrator)
    → NoneUp o.dm
    → (run env o).0 ≡ none
    → GroupsKilled env.daemons (run env o).1.dm.killed (group_by_order o.dm.configs)
      × (is_enabled o.wm ≡ true → is_active (run env o).1.wm.state ≡ true)
unfolding run
run_lem env o quiet h =
    let (e, dm) = start_all env.daemons env.is_done_order o.dm in
    elim (Option-cases (start_all env.daemons env.is_done_order o.dm).0) [
      | inr (failure, failed) ↦ absurd (ground (arith, failed))
      | inl up ↦ elim (Option-cases (start_wm env.wm o.wm).0) [
        | inr (failure, failed) ↦ absurd (ground (arith, up, failed))
        | inl active ↦
            rw (up, active, run)
              (
                start_all-GroupsKilled env.daemons env.is_done_order o.dm quiet up,
                λ enabled. start_wm-active env.wm o.wm enabled active,
              )
      ]
    ]
