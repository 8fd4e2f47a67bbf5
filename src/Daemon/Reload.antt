-- ===== src/Daemon/Reload.antt =====
-- internal/daemon/manager.go: `reloadConfig`. The source ranges over maps; the model takes their entries in
-- the order of insertion, and what is proved of the daemons afterwards is per name.
pub mod Diff
mod Tests
use a_kerno.Common.{
  not, Bytes, List, [], ◌∷◌, ◌++◌, Option, none, some, Bool, true, false, if◌then◌else◌, Result, ok,
  err,
}
use a_kerno.Common.Assoc.{Assoc, lookup, insert, delete}
use a_kerno.Daemon.Types.{Daemon, DaemonConfig, DaemonManager}
use a_kerno.Daemon.Lifecycle.{StartEnv, StopEnv, Sent}
use a_kerno.Daemon.Manager.{new_daemon, start, stop}
use a_kerno.Daemon.Config.{LoadConfigError}

-- `newByName`
unfoldable pub index_configs : List DaemonConfig → Assoc DaemonConfig → Assoc DaemonConfig
index_configs [] by_name = by_name
index_configs (nc ∷ configs) by_name = index_configs configs (insert nc.name nc by_name)

abbrev pub is_present : {V : Type 0} → Option V → Bool
is_present none = false
is_present (some v) = true

-- The configurations whose daemon is new.
unfoldable pub added_configs : Assoc Daemon → Assoc DaemonConfig → Assoc DaemonConfig
added_configs old [] = []
added_configs old ((name, nc) ∷ new) =
    let rest = added_configs old new in
    if is_present (lookup name old) then rest else (name, nc) ∷ rest

-- The names of the daemons that have no configuration any more.
unfoldable pub removed_names : Assoc DaemonConfig → Assoc Daemon → List Bytes
removed_names new [] = []
removed_names new ((name, d) ∷ old) =
    let rest = removed_names new old in if is_present (lookup name new) then rest else name ∷ rest

-- The loop that stops the removed daemons; the errors of `Stop` are logged.
unfoldable pub stop_removed :
    (Bytes → StopEnv) → List Bytes → DaemonManager → DaemonManager × List Sent
stop_removed env [] m = (m, [])
stop_removed env (name ∷ names) m =
    let (_, m₁, sent) = stop (env name) name m in
    let (m₂, later) = stop_removed env names (record m₁ { daemons = delete name m₁.daemons }) in
    (m₂, sent ++ later)

-- One new daemon, started if it is enabled; the error of `Start` is logged.
unfoldable pub add_daemon : (Bytes → StartEnv) → DaemonConfig → DaemonManager → DaemonManager
add_daemon env nc m =
    let added = record m { daemons = insert nc.name (new_daemon nc) m.daemons } in
    if nc.enabled then (start (env nc.name) nc.name added).1 else added

-- The loop over the new daemons.
unfoldable pub add_new : (Bytes → StartEnv) → Assoc DaemonConfig → DaemonManager → DaemonManager
add_new env [] m = m
add_new env ((name, nc) ∷ added) m = add_new env added (add_daemon env nc m)

-- What the system answers during a reload: whether the file is there, and for each daemon.
pub record ReloadEnv : Type 0 where
  pub exists : Bool
  pub loaded : Result LoadConfigError (List DaemonConfig)
  pub starts : Bytes → StartEnv
  pub stops : Bytes → StopEnv

abbrev pub apply_configs : ReloadEnv → List DaemonConfig → DaemonManager → DaemonManager × List Sent
apply_configs env configs m =
    let by_name = index_configs configs [] in
    let (m₁, sent) = stop_removed env.stops (removed_names by_name m.daemons) m in
    let m₂ = add_new env.starts (added_configs m.daemons by_name) m₁ in
    (record m₂ { configs = configs }, sent)

-- `reloadConfig`
unfoldable pub reload_config :
    ReloadEnv → DaemonManager → Option LoadConfigError × DaemonManager × List Sent
reload_config env m = if not env.exists then (none, m, []) else elim env.loaded [
  | err e ↦ (some e, m, [])
  | ok configs ↦ let (m', sent) = apply_configs env configs m in (none, m', sent)
]
