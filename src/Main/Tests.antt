-- ===== src/Main/Tests.antt =====
-- A start of the program with one daemon, and one whose daemons cannot be started.
use a_kerno.Common.{ℕ, ◌*◌, ◌^◌, text, [], ◌∷◌, Option, none, some, true, false}
use a_kerno.Common.Int.{pos}
use a_kerno.Config.{Environ, User}
use a_kerno.IniFile.{IniFile}
use a_kerno.Process.{StopEnv}
use a_kerno.KernoCfg as KernoCfg
use a_kerno.Daemon.Types.{DaemonConfig, RestartPolicy}
use a_kerno.Daemon.Lifecycle as Lifecycle
use a_kerno.Daemon.Manager as Daemons
use a_kerno.Daemon.Manager.{StartAllError}
use a_kerno.Daemon.Config.{ReadAnswer}
use a_kerno.Program.Autostart.{DirAnswer}
use a_kerno.Orchestrator as Orchestration
use a_kerno.Orchestrator.{Orchestrator, RunEnv, RunError}
use a_kerno.Main.{System, assemble}

abbrev environ : Environ
environ = record {
  config_home = [];
  runtime_dir = text "/run/a";
  kerno_sock = [];
  indexd_sock = [];
  skripto_sock = [];
  tondujo_sock = [];
  dosierago_sock = [];
  xdg_runtime_dir = [];
}

abbrev user : User
user = record { uid = text "7"; home = text "/home/u" }

abbrev web_ini : IniFile
web_ini = record {
  sections =
      record { name = text "DEFAULT"; keys = []; inherited = [] }
      ∷ record {
        name = text "web";
        keys = record { name = text "exec"; value = text "webd"; values = []; as_bool = none } ∷ [];
        inherited = [];
      }
      ∷ [];
}

abbrev answers : Option ℕ → RunEnv
answers pid = record {
  programs =
      λ name. record { observed = λ _. []; delay_cancelled = false; spawned = none; now = 8 };
  daemons = λ name. record { pipes = true; spawned = pid; dials = []; now = 8 };
  wm = record { spawned = none; now = 8 };
  is_done_at = λ i. false;
  is_done_order = λ order. false;
}

abbrev system : Option ℕ → System
system pid = record {
  user = some user;
  environ = environ;
  wm_environ = record { compositor = []; wm = []; restart = [] };
  go_duration = λ s. none;
  ini = λ bytes. some web_ini;
  daemons_ini = record {
    first = ReadAnswer.content (text "[web]");
    template_written = true;
    second = ReadAnswer.missing;
  };
  kerno_ini = record {
    first = ReadAnswer.failed;
    template_written = true;
    second = ReadAnswer.missing;
  };
  autostart = DirAnswer.missing;
  xdg_autostart = DirAnswer.missing;
  listens = true;
  running = answers pid;
  stopping = record { programs = λ name. stops; daemons = λ name. stops; wm = [] };
}
  where
    stops : StopEnv
    stops = record { polls = []; kill_fails = false; now = 9 }

abbrev web : DaemonConfig
web = record {
  name = text "web";
  exec = text "webd";
  order = pos 0;
  restart = RestartPolicy.on_failure;
  ready_timeout = pos (10 * 10 ^ 9);
  socket = [];
  env = [];
  enabled = true;
}

abbrev session : Orchestrator
session = (Orchestration.run (answers (some 5)) (assemble (system (some 5)) user)).1
