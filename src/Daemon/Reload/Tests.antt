-- ===== src/Daemon/Reload/Tests.antt =====
-- A reload that drops one daemon, keeps one and adds one.
use a_kerno.Common.{◌≡◌, refl, Bytes, bytes_eq, text, List, [], ◌∷◌, some, Bool, true, false, ok}
use a_kerno.Common.Int.{pos}
use a_kerno.Common.Assoc.{lookup, insert, delete}
use a_kerno.Daemon.Types.{RestartPolicy, DaemonConfig, DaemonManager}
use a_kerno.Daemon.Lifecycle.{StartEnv, StopEnv}
use a_kerno.Daemon.Manager.{new_daemon, new_manager, add_daemons, start, stop, get}
use a_kerno.Daemon.Reload.{
  ReloadEnv, index_configs, added_configs, removed_names, stop_removed, add_new, add_daemon,
  reload_config,
}
use a_kerno.Daemon.Reload.Diff.{reloaded, reload_config-lookup}

abbrev config : Bytes → Bool → DaemonConfig
config name enabled = record {
  name = name;
  exec = name;
  order = pos 0;
  restart = RestartPolicy.once;
  ready_timeout = pos 0;
  socket = [];
  env = [];
  enabled = enabled;
}

abbrev manager : DaemonManager
manager = new_manager (config (text "kept") true ∷ config (text "gone") true ∷ [])

abbrev start_env : StartEnv
start_env = record { pipes = true; spawned = some 9; dials = []; now = 3 }

abbrev stop_env : StopEnv
stop_env = record { polls = []; kill_fails = false; now = 4 }

abbrev new_configs : List DaemonConfig
new_configs = config (text "kept") false ∷ config (text "new") true ∷ []

abbrev env : ReloadEnv
env = record {
  exists = true;
  loaded = ok new_configs;
  starts = λ name. start_env;
  stops = λ name. stop_env;
}

-- The daemon that the file disables stays enabled.
kept_as_it_was :
    lookup (text "kept") (reload_config env manager).1.daemons
    ≡ some (new_daemon (config (text "kept") true))
unfolding reload_config new_manager add_daemons index_configs added_configs removed_names
    stop_removed add_new add_daemon lookup insert delete get start stop bytes_eq
kept_as_it_was = refl

reload_config-lookup_example :
    (lookup (text "new") (reload_config env manager).1.daemons
      ≡ reloaded env.starts
          (lookup (text "new") (index_configs new_configs []))
          (lookup (text "new") manager.daemons))
    × ((reload_config env manager).1.configs ≡ new_configs)
reload_config-lookup_example = reload_config-lookup env manager new_configs (text "new") refl refl
