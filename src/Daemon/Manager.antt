-- ===== src/Daemon/Manager.antt =====
-- internal/daemon/manager.go: the operations of `DaemonManager` on its map of daemons.
-- The goroutines of one start group touch different daemons; they run here one after the other.
pub mod Groups
pub mod Startup
pub mod Killed
use a_kerno.Common.{
  ℕ, Bytes, bytes_eq, List, [], ◌∷◌, ◌++◌, Option, none, some, Bool, true, false, not, ◌&&◌, map,
  if◌then◌else◌,
}
use a_kerno.Common.Int.{ℤ, pos, ltb_ℤ, eqb_ℤ}
use a_kerno.Common.Assoc.{Assoc, lookup, insert}
use a_kerno.Common.Sorting.{sort, insert_sorted}
use a_kerno.LogBuffer as LogBuffers
use a_kerno.Daemon.Types.{Daemon, DaemonState, DaemonConfig, DaemonManager, is_running}
use a_kerno.Daemon.Lifecycle as Lifecycle
use a_kerno.Daemon.Lifecycle.{StartError, StartEnv, StopError, StopEnv, Sent, is_up, startable}

abbrev pub default_log_buffer_size : ℕ
default_log_buffer_size = 4096

-- The daemon of a configuration, as `NewDaemonManager` and `reloadConfig` make it.
unfoldable pub new_daemon : DaemonConfig → Daemon
new_daemon dc = record {
  name = dc.name;
  config = dc;
  state = if dc.enabled then DaemonState.stopped else DaemonState.disabled;
  cmd = none;
  pid = 0;
  pgid = 0;
  started_at = 0;
  stopped_at = 0;
  restart_count = 0;
  logs = LogBuffers.new (pos default_log_buffer_size);
  log_writers = false;
}

unfoldable pub add_daemons : List DaemonConfig → Assoc Daemon → Assoc Daemon
add_daemons [] daemons = daemons
add_daemons (dc ∷ configs) daemons = add_daemons configs (insert dc.name (new_daemon dc) daemons)

-- `NewDaemonManager`
unfoldable pub new_manager : List DaemonConfig → DaemonManager
unfolding add_daemons
new_manager configs = record { configs = configs; daemons = add_daemons configs []; killed = [] }

-- `Get`
unfoldable pub get : DaemonManager → Bytes → Option Daemon
get m name = lookup name m.daemons

-- `List`
unfoldable pub list_daemons : DaemonManager → List Daemon
list_daemons m = map (λ entry. entry.1) m.daemons

abbrev pub put : Bytes → DaemonManager → Daemon → DaemonManager
put name m d = record m { daemons = insert name d m.daemons }

-- `Start`
unfoldable pub start : StartEnv → Bytes → DaemonManager → Option StartError × DaemonManager
start env name m = elim (get m name) [
  | none ↦ (some (StartError.not_found name), m)
  | some d ↦ let (e, d') = Lifecycle.start env d in (e, put name m d')
]

-- `Stop`
unfoldable pub stop : StopEnv → Bytes → DaemonManager → Option StopError × DaemonManager × List Sent
stop env name m = elim (get m name) [
  | none ↦ (some (StopError.not_found name), m, [])
  | some d ↦ let (e, d', sent) = Lifecycle.stop env d in (e, put name m d', sent)
]

pub record Entry : Type 0 where
  pub name : Bytes
  pub order : ℤ

pub record OrderGroup : Type 0 where
  pub order : ℤ
  pub names : List Bytes

abbrev pub earlier : Entry → Entry → Bool
earlier a b = ltb_ℤ a.order b.order

unfoldable pub enabled_entries : List DaemonConfig → List Entry
enabled_entries [] = []
enabled_entries (dc ∷ configs) =
    let rest = enabled_entries configs in
    if dc.enabled then record { name = dc.name; order = dc.order } ∷ rest else rest

-- The loop that opens a group when the order changes, and adds to the last one.
unfoldable pub add_entry : List OrderGroup → Entry → List OrderGroup
add_entry [] e = record { order = e.order; names = e.name ∷ [] } ∷ []
add_entry (g ∷ []) e =
    if eqb_ℤ g.order e.order
    then record g { names = g.names ++ e.name ∷ [] } ∷ []
    else g ∷ record { order = e.order; names = e.name ∷ [] } ∷ []
add_entry (g ∷ h ∷ gs) e = g ∷ add_entry (h ∷ gs) e

unfoldable pub group_entries : List OrderGroup → List Entry → List OrderGroup
unfolding add_entry
group_entries groups [] = groups
group_entries groups (e ∷ es) = group_entries (add_entry groups e) es

-- `groupByOrder`
unfoldable pub group_by_order : List DaemonConfig → List OrderGroup
unfolding enabled_entries group_entries sort
group_by_order configs = group_entries [] (sort earlier (enabled_entries configs))

-- The process that `Start` of a daemon starts, if it comes to that.
unfoldable pub started_process : StartEnv → Option Daemon → Option ℕ
started_process env none = none
started_process env (some d) =
    if is_up d.state
    then none
    else if d.config.enabled && not (startable d.state)
    then none
    else if not env.pipes
    then none
    else env.spawned

-- The context that a process was started with is cancelled: `exec.CommandContext` kills the process.
abbrev pub context_ends : Option ℕ → DaemonManager → DaemonManager
context_ends none m = m
context_ends (some pid) m = record m { killed = pid ∷ m.killed }

-- The goroutines of one group, all of which run; the error that `Wait` returns is the first.
-- The context of the group is cancelled when `Wait` returns.
unfoldable pub start_group :
    (Bytes → StartEnv) → List Bytes → DaemonManager → Option StartError × DaemonManager
start_group env [] m = (none, m)
start_group env (name ∷ names) m =
    let (e, m₁) = start (env name) name m in
    let (rest, m₂) =
      start_group env names (context_ends (started_process (env name) (get m name)) m₁) in
    (elim e [ none ↦ rest | some failure ↦ some failure ], m₂)

pub data StartAllError : Type 0 where
  cancelled : StartAllError
  group_failed : ℤ → StartError → StartAllError

-- What `StartAll` returns after a group: `rest` is what follows if the group has started.
abbrev pub after_group :
    ℤ
    → Option StartError
    → DaemonManager
    → Option StartAllError × DaemonManager
    → Option StartAllError × DaemonManager
after_group order none m rest = rest
after_group order (some failure) m rest = (some (StartAllError.group_failed order failure), m)

-- The groups in order; `is_done` says at which of them the context is done.
unfoldable pub start_groups :
    (Bytes → StartEnv)
    → (ℤ → Bool)
    → List OrderGroup
    → DaemonManager
    → Option StartAllError × DaemonManager
start_groups env is_done [] m = (none, m)
start_groups env is_done (g ∷ gs) m =
    let (e, m') = start_group env g.names m in
    let rest = start_groups env is_done gs m' in
    if is_done g.order then (some StartAllError.cancelled, m) else after_group g.order e m' rest

-- `StartAll`
unfoldable pub start_all :
    (Bytes → StartEnv) → (ℤ → Bool) → DaemonManager → Option StartAllError × DaemonManager
unfolding group_by_order
start_all env is_done m = start_groups env is_done (group_by_order m.configs) m

abbrev pub later : Entry → Entry → Bool
later a b = ltb_ℤ b.order a.order

-- The enabled daemons that run, in the map's order.
unfoldable pub running_entries : Assoc Daemon → List Entry
running_entries [] = []
running_entries ((_, d) ∷ daemons) =
    let rest = running_entries daemons in
    if d.config.enabled && is_running d.state
    then record { name = d.name; order = d.config.order } ∷ rest
    else rest

unfoldable pub stop_entries :
    (Bytes → StopEnv) → List Entry → DaemonManager → Option StopError × DaemonManager × List Sent
stop_entries env [] m = (none, m, [])
stop_entries env (entry ∷ es) m =
    let (e, m₁, sent) = stop (env entry.name) entry.name m in
    let (rest, m₂, sent') = stop_entries env es m₁ in
    (elim e [ none ↦ rest | some failure ↦ some failure ], m₂, sent ++ sent')

-- `StopAll`
unfoldable pub stop_all :
    (Bytes → StopEnv) → DaemonManager → Option StopError × DaemonManager × List Sent
unfolding running_entries sort
stop_all env m = stop_entries env (sort later (running_entries m.daemons)) m
