-- ===== src/Server/Handlers.antt =====
-- internal/server/handlers.go: what each command does once its name has been read.
pub mod Effects
use a_kerno.Common.{
  ℕ, Bytes, bytes_eq, List, [], ◌∷◌, Option, none, some, Bool, true, false, if◌then◌else◌,
}
use a_kerno.Common.Int.{ℤ, pos, is_positive}
use a_kerno.LogBuffer.{tail}
use a_kerno.Daemon.Types.{Daemon, DaemonManager, RestartPolicy, set_restart_policy}
use a_kerno.Daemon.Manager as Daemons
use a_kerno.Daemon.Manager.{get, list_daemons, put}
use a_kerno.Daemon.Lifecycle.{StartError, StopError}
use a_kerno.Feature.{Registry, set_ready, list_features}
use a_kerno.Program.Types.{Program, ProgramManager}
use a_kerno.Program.Lifecycle.{get_program, ProgramError, StopProgramError}
use a_kerno.Program.Manager.{list_programs, start_program, stop_program}
use a_kerno.Server.Replies.{Server, CommandEnv, Failure, Reply}

-- A handler: it takes the server and returns the reply and the server after it.
abbrev pub Handler : Type 0
Handler = Server → Reply × Server

abbrev pub fail : Failure → Handler
fail f s = (Reply.failure f, s)

-- `s.features.SetReady` if there is a registry.
abbrev pub mark_ready : Bytes → Bool → Option Registry → Option Registry
mark_ready name ready none = none
mark_ready name ready (some r) = some (set_ready name ready r)

-- The process id that `Get` gives after a start, 0 if the daemon has gone.
abbrev pub pid_after : Option Daemon → ℕ
pid_after none = 0
pid_after (some d) = d.pid

unfoldable pub on_list_daemons : Handler
on_list_daemons s = (Reply.daemons (list_daemons s.manager), s)

unfoldable pub on_status : Bytes → Handler
on_status name s = elim (get s.manager name) [
  | none ↦ fail (Failure.daemon_not_found name) s
  | some d ↦ (Reply.daemon_status d, s)
]

-- What follows `Start` in the handlers.
abbrev pub after_start :
    Bytes → Option StartError → DaemonManager → Option Registry → (ℕ → Reply) → Handler
after_start name (some e) m r reply s =
    (Reply.failure (Failure.start_failed name e), record s { manager = m })
after_start name none m r reply s =
    (reply (pid_after (get m name)), record s { manager = m; features = r })

unfoldable pub start_and_reply : CommandEnv → Bytes → Option Registry → (ℕ → Reply) → Handler
start_and_reply env name r reply s =
    let (e, m) = Daemons.start env.starting name s.manager in after_start name e m r reply s

unfoldable pub on_start : CommandEnv → Bytes → Handler
unfolding start_and_reply
on_start env name s = elim (get s.manager name) [
  | none ↦ fail (Failure.daemon_not_found name) s
  | some _ ↦
      start_and_reply env name (mark_ready name true s.features) (Reply.daemon_started name) s
]

abbrev pub restart_after_stop : CommandEnv → Bytes → Option StopError → Handler
restart_after_stop env name (some e) s = (Reply.failure (Failure.stop_failed name e), s)
restart_after_stop env name none s =
    start_and_reply env name s.features (Reply.daemon_restarted name) s

unfoldable pub on_restart : CommandEnv → Bytes → Handler
unfolding start_and_reply
on_restart env name s = elim (get s.manager name) [
  | none ↦ fail (Failure.daemon_not_found name) s
  | some _ ↦
      let (e, m, _) = Daemons.stop env.stopping name s.manager in
      restart_after_stop env name e (record s { manager = m })
]

-- `d.SetRestartPolicy(daemon.RestartDisabled)` on the daemon in the map.
abbrev pub disable_restart : Bytes → Option Daemon → DaemonManager → DaemonManager
disable_restart name none m = m
disable_restart name (some d) m = put name m (set_restart_policy d RestartPolicy.disabled)

abbrev pub after_stop : Bytes → Option StopError → Handler
after_stop name (some e) s = (Reply.failure (Failure.stop_failed name e), s)
after_stop name none s = (
  Reply.daemon_stopped name,
  record s {
    manager = disable_restart name (get s.manager name) s.manager;
    features = mark_ready name false s.features;
  },
)

unfoldable pub on_stop : CommandEnv → Bytes → Handler
on_stop env name s = elim (get s.manager name) [
  | none ↦ fail (Failure.daemon_not_found name) s
  | some _ ↦
      let (e, m, _) = Daemons.stop env.stopping name s.manager in
      after_stop name e (record s { manager = m })
]

unfoldable pub on_list_features : Handler
on_list_features s = elim s.features [
  | none ↦ fail Failure.no_features s
  | some r ↦ (Reply.features (list_features r), s)
]

-- The line count of a `logs` command.
abbrev pub line_count : Option ℤ → ℤ
line_count none = pos 50
line_count (some n) = if is_positive n then n else pos 50

-- The log buffer of a daemon is never nil here: all its makers set one.
unfoldable pub on_logs : Bytes → Option ℤ → Handler
on_logs name lines s = elim (get s.manager name) [
  | none ↦ fail (Failure.daemon_not_found name) s
  | some d ↦ elim (tail d.logs (line_count lines)) [
    | none ↦ fail Failure.log_panic s
    | some shown ↦ (Reply.log_lines shown, s)
  ]
]

unfoldable pub on_shutdown : Handler
on_shutdown s = (Reply.shutting_down, record s { is_cancelled = true })

-- A handler that needs the program manager.
abbrev pub with_programs : (ProgramManager → Handler) → Handler
with_programs f s = elim s.pm [ none ↦ fail Failure.no_programs s | some pm ↦ f pm s ]

unfoldable pub on_list_programs : Handler
on_list_programs = with_programs (λ pm s. (Reply.programs (list_programs pm), s))

unfoldable pub on_program_status : Bytes → ProgramManager → Handler
on_program_status name pm s = elim (get_program pm name) [
  | none ↦ fail (Failure.program_not_found name) s
  | some p ↦ (Reply.program_status p, s)
]

abbrev pub program_pid : Option Program → ℕ
program_pid none = 0
program_pid (some p) = p.pid

abbrev pub after_start_program : Bytes → Option ProgramError → ProgramManager → Handler
after_start_program name (some e) pm s =
    (Reply.failure (Failure.start_program_failed name e), record s { pm = some pm })
after_start_program name none pm s =
    (Reply.program_started name (program_pid (get_program pm name)), record s { pm = some pm })

unfoldable pub on_start_program : CommandEnv → Bytes → ProgramManager → Handler
on_start_program env name pm s =
    let (e, pm') = start_program env.program name pm in after_start_program name e pm' s

abbrev pub after_stop_program : Bytes → Option StopProgramError → ProgramManager → Handler
after_stop_program name (some e) pm s =
    (Reply.failure (Failure.stop_program_failed name e), record s { pm = some pm })
after_stop_program name none pm s = (Reply.program_stopped name, record s { pm = some pm })

unfoldable pub on_stop_program : CommandEnv → Bytes → ProgramManager → Handler
on_stop_program env name pm s =
    let (e, pm', _) = stop_program env.stopping name pm in after_stop_program name e pm' s
