-- ===== src/Main.antt =====
-- cmd/a-kerno/main.go: the run of the program, on the models of its parts. What happens between the start
-- and the shutdown is a parameter.
pub mod Running
mod Tests
use a_kerno.Common.{
  ℕ, Bytes, List, [], ◌∷◌, ◌++◌, Option, none, some, Bool, true, false, not, if◌then◌else◌, Result,
  ok, err,
}
use a_kerno.Common.Int.{ℤ}
use a_kerno.Process.{Sent}
use a_kerno.Config.{Environ, User}
use a_kerno.IniFile.{IniFile}
use a_kerno.KernoCfg as KernoCfg
use a_kerno.KernoCfg.{Composer, no_composer}
use a_kerno.Daemon.Types.{DaemonConfig}
use a_kerno.Daemon.Config.{ConfigFile, LoadConfigError, load_config}
use a_kerno.Daemon.Manager.{new_manager, stop_all}
use a_kerno.Feature.{new_registry}
use a_kerno.Program.Types.{ProgramConfig}
use a_kerno.Program.Config.{IniAnswer}
use a_kerno.Program.Config.Desktop.{DesktopAnswer}
use a_kerno.Program.Autostart.{DirAnswer, LoadError, load_program_configs}
use a_kerno.Program.Manager.{new_program_manager}
use a_kerno.SessionWm.Config.{WmEnviron, load_wm_config}
use a_kerno.SessionWm.Lifecycle.{new_wm, stop_wm}
use a_kerno.Orchestrator as Orchestration
use a_kerno.Orchestrator.{Orchestrator, RunEnv, RunError, ShutdownEnv, shutdown}

-- What the system and the libraries answer: the user if it can be found, the environment, the files, whether
-- the management socket can be opened, and the answers to the orchestrator.
pub record System : Type 0 where
  pub user : Option User
  pub environ : Environ
  pub wm_environ : WmEnviron
  pub go_duration : Bytes → Option ℤ
  pub ini : Bytes → Option IniFile
  pub daemons_ini : ConfigFile
  pub kerno_ini : ConfigFile
  pub autostart : DirAnswer IniAnswer
  pub xdg_autostart : DirAnswer DesktopAnswer
  pub listens : Bool
  pub running : RunEnv
  pub stopping : ShutdownEnv

-- An error is logged and leaves no daemons.
unfoldable pub loaded_daemons : System → User → List DaemonConfig
loaded_daemons sys user =
    elim (load_config sys.go_duration sys.ini sys.environ user sys.daemons_ini) [
      | err e ↦ []
      | ok configs ↦ configs
    ]

-- An error is logged and leaves no programs.
unfoldable pub loaded_programs : System → User → List ProgramConfig
loaded_programs sys user =
    elim (load_program_configs sys.environ user sys.autostart (some sys.xdg_autostart)) [
      | err e ↦ []
      | ok configs ↦ configs
    ]

-- An error is logged and leaves the empty composer.
unfoldable pub loaded_composer : System → User → Composer
loaded_composer sys user = elim (KernoCfg.load sys.ini sys.environ user sys.kerno_ini) [
  | err e ↦ no_composer
  | ok composer ↦ composer
]

-- Steps 3 to 10 of `run`.
unfoldable pub assemble : System → User → Orchestrator
assemble sys user = record {
  dm = new_manager (loaded_daemons sys user);
  pm = new_program_manager (loaded_programs sys user);
  wm = new_wm (load_wm_config sys.wm_environ (loaded_composer sys user));
  features = new_registry;
}

-- How `run` gets to its wait for a shutdown.
pub data Start : Type 0 where
  no_user : Start
  no_socket : Orchestrator → Start
  failed : RunError → Orchestrator → List Sent → Start
  running : Orchestrator → Start

-- Step 13: a session that cannot be started is stopped as far as the window manager and the daemons go.
abbrev pub after_run : ShutdownEnv → Option RunError → Orchestrator → Start
after_run env none o = Start.running o
after_run env (some e) o =
    let (_, wm, of_wm) = stop_wm env.wm o.wm in
    let (_, dm, of_daemons) = stop_all env.daemons o.dm in
    Start.failed e (record o { wm = wm; dm = dm }) (of_wm ++ of_daemons)

-- Steps 1 to 13 of `run`.
unfoldable pub start_up : System → Start
unfolding assemble
start_up sys = elim sys.user [
  | none ↦ Start.no_user
  | some user ↦
      let o = assemble sys user in
      let (e, started) = Orchestration.run sys.running o in
      if not sys.listens then Start.no_socket o else after_run sys.stopping e started
]

-- `run`: the exit code, and the session at the end with the signals that were sent; `session` is what happens
-- until the shutdown.
unfoldable pub run : System → (Orchestrator → Orchestrator) → ℕ × Option Orchestrator × List Sent
unfolding start_up
run sys session = elim (start_up sys) [
  | Start.no_user ↦ (1, none, [])
  | Start.no_socket o ↦ (1, some o, [])
  | Start.failed e o sent ↦ (1, some o, sent)
  | Start.running o ↦ let (ended, sent) = shutdown sys.stopping (session o) in (0, some ended, sent)
]
