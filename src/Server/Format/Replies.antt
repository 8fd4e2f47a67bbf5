-- ===== src/Server/Format/Replies.antt =====
-- The replies of internal/server/handlers.go in the text protocol.
use a_kerno.Common.{
  ℕ, suc, Bytes, bytes_eq, text, List, [], ◌∷◌, ◌++◌, map, Option, none, some, Bool, true, false,
  not, ◌&&◌, ◌||◌, ◌==◌, ltb, length, if◌then◌else◌,
}
use a_kerno.Text.{join, concat}
use a_kerno.Cmdlist.{Command, decimal, format_ok_with_body, format_error}
use a_kerno.Daemon.Types.{Daemon, is_running}
use a_kerno.Daemon.Manager.{get}
use a_kerno.Feature.{Feature}
use a_kerno.Program.Types.{
  Program, ProgramState, is_program_running, program_state_name, health_name,
}
use a_kerno.Server.Replies.{Server, Reply}
use a_kerno.Server.Dispatch.{first_string}
use a_kerno.Server.Format.{
  Texts, number, pad_right, pad_left, format_daemon_list, format_daemon_status,
}
use a_kerno.Server.Format.Errors.{failure_text}

-- The loops that count.
unfoldable pub count_where : {A : Type 0} → (A → Bool) → List A → ℕ
count_where p [] = 0
count_where p (x ∷ xs) = let rest = count_where p xs in if p x then suc rest else rest

abbrev pub daemon_runs : Daemon → Bool
daemon_runs d = is_running d.state

abbrev pub is_ready : Feature → Bool
is_ready f = f.ready

abbrev pub is_not_ready : Feature → Bool
is_not_ready f = not f.ready

-- The cases of the `switch` over the states of the programs.
abbrev pub counts_as_running : Program → Bool
counts_as_running p = elim p.state [
  | ProgramState.running ↦ true
  | ProgramState.healthy ↦ true
  | _ ↦ false
]

abbrev pub counts_as_failed : Program → Bool
counts_as_failed p = elim p.state [
  | ProgramState.failed ↦ true
  | ProgramState.health_failed ↦ true
  | _ ↦ false
]

abbrev pub counts_as_disabled : Program → Bool
counts_as_disabled p = elim p.state [ ProgramState.disabled ↦ true | _ ↦ false ]

-- `handleListDaemons`
unfoldable pub list_daemons_reply : Texts → List Daemon → Bytes
unfolding count_where
list_daemons_reply texts ds =
    format_ok_with_body
      (concat (
        text "cmd: list-daemons\nstatus: 0\ntotal: "
        ∷ number (length ds)
        ∷ text "\nrunning: "
        ∷ number (count_where daemon_runs ds)
        ∷ text "\n"
        ∷ []))
      (format_daemon_list texts ds)

-- `d.Uptime().Truncate(time.Second)` of a daemon that runs.
abbrev pub feature_uptime : Texts → Daemon → Bytes
feature_uptime texts d = if d.started_at == 0 then texts.no_time else texts.since d.started_at

-- What `handleListFeatures` adds for the daemon of a feature.
unfoldable pub feature_extra : Texts → Option Daemon → Bytes
feature_extra texts none = []
feature_extra texts (some d) =
    (if ltb 0 d.pid then text "pid=" ++ number d.pid else [])
    ++ (if is_running d.state then text " uptime=" ++ feature_uptime texts d else [])

unfoldable pub feature_line : Texts → Server → Feature → Bytes
unfolding feature_extra pad_right
feature_line texts s f = concat (
    pad_right 16 f.name
    ∷ text " "
    ∷ pad_right 10 (if f.ready then text "ready" else text "failed")
    ∷ text " "
    ∷ feature_extra texts (get s.manager f.name)
    ∷ [])

-- `handleListFeatures`
unfoldable pub list_features_reply : Texts → Server → List Feature → Bytes
unfolding feature_line count_where
list_features_reply texts s fs =
    format_ok_with_body
      (concat (
        text "cmd: list-features\nstatus: 0\nfeatures: "
        ∷ number (length fs)
        ∷ text "\nready: "
        ∷ number (count_where is_ready fs)
        ∷ text "\nfailed: "
        ∷ number (count_where is_not_ready fs)
        ∷ text "\n"
        ∷ []))
      (join (text "\n") (map (feature_line texts s) fs))

-- `handleLogs`
unfoldable pub logs_reply : Bytes → List Bytes → Bytes
logs_reply name shown =
    format_ok_with_body
      (concat (
        text "cmd: logs\nname: "
        ∷ name
        ∷ text "\nstatus: 0\nlines: "
        ∷ number (length shown)
        ∷ text "\n"
        ∷ []))
      (join (text "\n") shown)

-- The phase that is shown of a program.
abbrev pub shown_phase : Bytes → Bytes
shown_phase phase = if bytes_eq phase [] then text "post" else phase

unfoldable pub program_line : Program → Bytes
unfolding pad_right pad_left
program_line p = concat (
    pad_right 20 p.name
    ∷ text " "
    ∷ pad_left 6 (program_state_name p.state)
    ∷ text "  "
    ∷ pad_right 16 (program_state_name p.state)
    ∷ text " phase="
    ∷ pad_right 6 (shown_phase p.config.phase)
    ∷ text " pid="
    ∷ number p.pid
    ∷ [])

-- `handleListPrograms`
unfoldable pub list_programs_reply : List Program → Bytes
unfolding program_line count_where
list_programs_reply ps =
    format_ok_with_body
      (concat (
        text "cmd: prog-list\nstatus: 0\ntotal: "
        ∷ number (length ps)
        ∷ text "\nrunning: "
        ∷ number (count_where counts_as_running ps)
        ∷ text "\nfailed: "
        ∷ number (count_where counts_as_failed ps)
        ∷ text "\ndisabled: "
        ∷ number (count_where counts_as_disabled ps)
        ∷ text "\n"
        ∷ []))
      (join (text "\n") (map program_line ps))

-- `p.IsRunning()` with a start time
abbrev pub program_uptime : Texts → Program → Bytes
program_uptime texts p =
    if is_program_running p.state && not (p.started_at == 0)
    then texts.since p.started_at
    else text "-"

-- The attributes of `handleProgramStatus`.
unfoldable pub program_attributes : Texts → Program → Bytes
program_attributes texts p = concat (
    text "cmd: prog-status\nname: "
    ∷ p.name
    ∷ text "\nstatus: 0\nstate: "
    ∷ program_state_name p.state
    ∷ text "\npid: "
    ∷ number p.pid
    ∷ text "\nexit_code: "
    ∷ decimal p.exit_code
    ∷ text "\nuptime: "
    ∷ program_uptime texts p
    ∷ text "\nhealth: "
    ∷ health_name p.health
    ∷ text "\nphase: "
    ∷ p.config.phase
    ∷ text "\npriority: "
    ∷ decimal p.config.priority
    ∷ text "\nexec: "
    ∷ p.config.exec
    ∷ text "\n"
    ∷ [])

-- A reply that says that a command has been carried out, with the process id after a start.
abbrev pub done_attributes : Bytes → Bytes → Bytes
done_attributes verb name =
    concat (text "cmd: " ∷ verb ∷ text "\nname: " ∷ name ∷ text "\nstatus: 0\n" ∷ [])

abbrev pub pid_attributes : Bytes → Bytes → Bytes → ℕ → Bytes
pid_attributes verb name key pid =
    done_attributes verb name ++ concat (key ∷ text ": " ∷ number pid ∷ text "\n" ∷ [])

-- The first argument of a command.
abbrev pub argument : Option Bytes → Bytes
argument none = []
argument (some name) = name

-- The message for a missing name.
unfoldable pub needs_text : Bytes → Bytes
needs_text verb =
    if bytes_eq verb (text "logs")
    then text "logs requires a daemon name (arg[0])"
    else if bytes_eq verb (text "prog-status")
        || bytes_eq verb (text "prog-start")
        || bytes_eq verb (text "prog-stop")
    then verb ++ text " requires a program name"
    else verb ++ text " requires a daemon name"

-- What a handler of the text protocol returns for a command, `s` being the server after it.
unfoldable pub text_reply : Texts → Command → Server → Reply → Bytes
unfolding needs_text
text_reply texts cmd s (Reply.daemons ds) = list_daemons_reply texts ds
text_reply texts cmd s (Reply.daemon_status d) =
    format_ok_with_body (format_daemon_status texts d) []
text_reply texts cmd s (Reply.daemon_restarted name pid) =
    format_ok_with_body (pid_attributes (text "restart") name (text "new_pid") pid) []
text_reply texts cmd s (Reply.daemon_started name pid) =
    format_ok_with_body (pid_attributes (text "start") name (text "pid") pid) []
text_reply texts cmd s (Reply.daemon_stopped name) =
    format_ok_with_body (done_attributes (text "stop") name) []
text_reply texts cmd s (Reply.features fs) = list_features_reply texts s fs
text_reply texts cmd s (Reply.log_lines shown) = logs_reply (argument (first_string cmd.args)) shown
text_reply texts cmd s Reply.shutting_down =
    format_ok_with_body (text "cmd: shutdown\nstatus: 0\nmsg: shutting down all daemons\n") []
text_reply texts cmd s (Reply.programs ps) = list_programs_reply ps
text_reply texts cmd s (Reply.program_status p) =
    format_ok_with_body (program_attributes texts p) []
text_reply texts cmd s (Reply.program_started name pid) =
    format_ok_with_body (pid_attributes (text "prog-start") name (text "pid") pid) []
text_reply texts cmd s (Reply.program_stopped name) =
    format_ok_with_body (done_attributes (text "prog-stop") name) []
text_reply texts cmd s (Reply.failure f) =
    format_error (failure_text texts s (needs_text cmd.name) f)
