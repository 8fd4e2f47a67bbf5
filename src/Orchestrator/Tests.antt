-- ===== src/Orchestrator/Tests.antt =====
-- A run of the orchestrator, and its theorem at it.
use a_kerno.Common.{◌≡◌, refl, bytes_eq, text, [], ◌∷◌, some, none, true, false}
use a_kerno.Common.Int.{pos}
use a_kerno.Common.Assoc.{lookup, insert}
use a_kerno.Common.Sorting.{sort, insert_sorted}
use a_kerno.Daemon.Types.{Daemon, DaemonState, RestartPolicy, DaemonConfig}
use a_kerno.Daemon.Lifecycle as Lifecycle
use a_kerno.Daemon.Manager as Daemons
use a_kerno.Daemon.Manager.{
  get, group_by_order, enabled_entries, group_entries, add_entry, start_group, start_groups,
  start_all,
}
use a_kerno.SessionWm.Config.{WmPolicy, parse_spec, fields}
use a_kerno.SessionWm.Lifecycle.{WmState, start_wm, start_process, start_argv, spawn_wm}
use a_kerno.Orchestrator.{Orchestrator, RunEnv, run}

abbrev web_config : DaemonConfig
web_config = record {
  name = text "web";
  exec = text "webd";
  order = pos 10;
  restart = RestartPolicy.always;
  ready_timeout = pos 0;
  socket = [];
  env = [];
  enabled = true;
}

abbrev web : Daemon
web = record {
  name = text "web";
  config = web_config;
  state = DaemonState.stopped;
  cmd = none;
  pid = 0;
  pgid = 0;
  started_at = 0;
  stopped_at = 0;
  restart_count = 0;
  logs = record { lines = [] ∷ []; max_size = 1; pos = 0; full = false };
  log_writers = false;
}

abbrev session : Orchestrator
session = record {
  dm = record { configs = web_config ∷ []; daemons = (text "web", web) ∷ []; killed = [] };
  pm = record { configs = []; programs = []; killed = [] };
  wm = record {
    cfg = record { spec = text "sway"; restart = WmPolicy.always };
    state = WmState.idle;
    cmd = none;
    pid = 0;
    pgid = 0;
    restart_count = 0;
    stopping = false;
    started_at = 0;
  };
  features = [];
}

abbrev system : RunEnv
system = record {
  programs = λ _. record { observed = λ _. []; delay_cancelled = false; spawned = none; now = 1 };
  daemons = λ _. record { pipes = true; spawned = some 7; dials = []; now = 1 };
  wm = record { spawned = some 9; now = 2 };
  is_done_at = λ _. false;
  is_done_order = λ _. false;
}

run_runs : (run system session).0 ≡ none
unfolding run start_all start_groups start_group group_by_order enabled_entries group_entries
    add_entry sort insert_sorted Daemons.start get lookup insert bytes_eq Lifecycle.start start_wm
    start_process start_argv spawn_wm parse_spec fields
run_runs = refl
