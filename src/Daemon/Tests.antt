-- ===== src/Daemon/Tests.antt =====
-- Runs of the supervisor, and its theorems at concrete inputs.
use a_kerno.Common.{
  ◌*◌, ◌⊎◌, ◌≡◌, refl, bytes_eq, text, List, [], ◌∷◌, some, none, true, false, arith,
}
use a_kerno.Common.Int.{pos}
use a_kerno.Common.Assoc.{Assoc}
use a_kerno.Daemon.Types.{Daemon, DaemonState, RestartPolicy, DaemonConfig}
use a_kerno.Daemon.Backoff.{second}
use a_kerno.Daemon.Lifecycle as Lifecycle
use a_kerno.Daemon.Lifecycle.{
  StartEnv, StartError, StopEnv, StopError, Sent, Disposition, cleanup, is_up, after_delay, on_exit,
  wait_for_socket, stop_wait,
}
use a_kerno.Daemon.Lifecycle.Signals.{IsConsistent, start-IsConsistent, stop_lem, kill, term}
use a_kerno.Daemon.Lifecycle.Restarts.{forgotten, after_delay-running}
use a_kerno.Daemon.Manager.{group_by_order, start}

abbrev web_config : DaemonConfig
web_config = record {
  name = text "web";
  exec = text "webd";
  order = pos 10;
  restart = RestartPolicy.always;
  ready_timeout = pos (10 * second);
  socket = text "/tmp/web";
  env = [];
  enabled = true;
}

abbrev index_config : DaemonConfig
index_config = record web_config {
  name = text "index";
  order = pos 5;
  socket = [];
  restart = RestartPolicy.once;
}

abbrev web_running : Daemon
web_running = record {
  name = text "web";
  config = web_config;
  state = DaemonState.running;
  cmd = some 77;
  pid = 77;
  pgid = 77;
  started_at = 5;
  stopped_at = 0;
  restart_count = 0;
  logs = record { lines = [] ∷ []; max_size = 1; pos = 0; full = false };
  log_writers = true;
}

abbrev web_stopped : Daemon
web_stopped = record web_running {
  state = DaemonState.stopped;
  cmd = none;
  pid = 0;
  pgid = 0;
  log_writers = false;
}

abbrev starts : StartEnv
starts = record { pipes = true; spawned = some 99; dials = false ∷ true ∷ []; now = 8 }

abbrev never_ready : StartEnv
never_ready = record starts { dials = false ∷ false ∷ [] }

abbrev exits_soon : StopEnv
exits_soon = record {
  polls =
      record { alive = true; cancelled = false } ∷ record { alive = false; cancelled = false } ∷ [];
  kill_fails = false;
  now = 9;
}

web_running-IsConsistent : IsConsistent web_running
web_running-IsConsistent = ground arith

start_runs : (Lifecycle.start starts web_stopped).1.state ≡ DaemonState.running
unfolding Lifecycle.start bytes_eq
start_runs = refl

stop_runs : (Lifecycle.stop exits_soon web_running).2 ≡ term 77 ∷ []
unfolding Lifecycle.stop stop_wait
stop_runs = refl

start-IsConsistent_example : IsConsistent (Lifecycle.start never_ready web_stopped).1
start-IsConsistent_example = start-IsConsistent never_ready web_stopped (ground arith)

stop_lem_example :
    (is_up web_running.state ≡ true
      → (Lifecycle.stop exits_soon web_running).0 ≡ none
      → (Lifecycle.stop exits_soon web_running).1 ≡ record web_stopped { stopped_at = 9 })
    × (is_up web_running.state ≡ true
        → ((Lifecycle.stop exits_soon web_running).2 ≡ term 77 ∷ [])
          ⊎ ((Lifecycle.stop exits_soon web_running).2 ≡ term 77 ∷ kill 77 ∷ []))
    × ((e : StopError)
        → (Lifecycle.stop exits_soon web_running).0 ≡ some e
        → (Lifecycle.stop exits_soon web_running).1 ≡ web_running)
    × (is_up web_running.state ≡ false
        → Lifecycle.stop exits_soon web_running ≡ (none, web_running, []))
stop_lem_example = stop_lem exits_soon web_running

after_delay-running_example :
    (after_delay starts web_running ≡ forgotten web_running)
    × ((after_delay starts web_running).state ≡ DaemonState.running)
after_delay-running_example = after_delay-running starts web_running refl

abbrev two_configs : List DaemonConfig
two_configs = web_config ∷ index_config ∷ []

groups_run :
    group_by_order two_configs
    ≡ record { order = pos 5; names = text "index" ∷ [] }
      ∷ record { order = pos 10; names = text "web" ∷ [] }
      ∷ []
unfolding group_by_order
groups_run = refl

abbrev two_daemons : Assoc Daemon
two_daemons =
    (text "web", web_running)
    ∷ (text "index", record web_running { name = text "index"; config = index_config })
    ∷ []
