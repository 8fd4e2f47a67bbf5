-- ===== src/Server/Tests.antt =====
-- Runs of the management server, and its theorems at concrete inputs.
use a_kerno.Common.{◌≡◌, refl, Bytes, bytes_eq, text, [], ◌∷◌, some, none, true, false}
use a_kerno.Common.Int.{pos}
use a_kerno.Common.Assoc.{lookup, insert}
use a_kerno.BinParser.Types.{Value, BinCommand}
use a_kerno.Daemon.Types.{Daemon, DaemonState, RestartPolicy}
use a_kerno.Daemon.Lifecycle as Lifecycle
use a_kerno.Daemon.Lifecycle.{StartEnv, stop_wait, cleanup}
use a_kerno.Daemon.Manager as Daemons
use a_kerno.Daemon.Manager.{get}
use a_kerno.Server.Replies.{Server, CommandEnv, Reply}
use a_kerno.Server.Handlers.{on_stop}
use a_kerno.Server.Handlers.Effects.{IsStopOf, on_stop_lem}

abbrev web : Daemon
web = record {
  name = text "web";
  config = record {
    name = text "web";
    exec = text "webd";
    order = pos 10;
    restart = RestartPolicy.always;
    ready_timeout = pos 0;
    socket = [];
    env = [];
    enabled = true;
  };
  state = DaemonState.running;
  cmd = some 77;
  pid = 77;
  pgid = 77;
  started_at = 5;
  stopped_at = 0;
  restart_count = 0;
  logs = record { lines = [] ∷ []; max_size = 1; pos = 0; full = false };
  log_writers = true;
}

abbrev server : Server
server = record {
  manager = record { configs = []; daemons = (text "web", web) ∷ []; killed = [] };
  pm = none;
  features = some (
      (text "web", record { name = text "web"; version = text "1"; socket = []; ready = true })
      ∷ []);
  is_cancelled = false;
}

abbrev system : CommandEnv
system = record {
  starting = record { pipes = true; spawned = some 78; dials = []; now = 8 };
  stopping = record {
    polls = record { alive = false; cancelled = false } ∷ [];
    kill_fails = false;
    now = 7;
  };
  program = record { observed = λ _. []; delay_cancelled = false; spawned = none; now = 8 };
}

stop_runs : (on_stop system (text "web") server).0 ≡ Reply.daemon_stopped (text "web")
unfolding on_stop get lookup insert bytes_eq Daemons.stop Lifecycle.stop stop_wait cleanup
stop_runs = refl

on_stop_lem_example : IsStopOf (text "web") server (on_stop system (text "web") server).1
on_stop_lem_example = on_stop_lem system (text "web") server stop_runs

abbrev named : Bytes → BinCommand
named name = record { code = 2; attrs = (text "name", Value.str name) ∷ []; payload = [] }

abbrev shut : BinCommand
shut = record { code = 8; attrs = []; payload = [] }
