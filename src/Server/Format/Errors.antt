-- ===== src/Server/Format/Errors.antt =====
-- The texts of the errors that the handlers of internal/server/handlers.go pass on from internal/daemon/manager.go and
-- internal/program/manager.go, and of their own.
use a_kerno.Common.{ℕ, Bytes, text, [], ◌∷◌, Option, none, some}
use a_kerno.Text.{concat}
use a_kerno.Daemon.Types.{Daemon, state_name}
use a_kerno.Daemon.Lifecycle.{StartError, StopError}
use a_kerno.Daemon.Manager.{get}
use a_kerno.Program.Types.{program_state_name}
use a_kerno.Program.Lifecycle.{WaitError, ProgramError, StopProgramError}
use a_kerno.Server.Replies.{Server, Failure}
use a_kerno.Server.Format.{Texts, number}

-- `waitForSocket` gives up.
abbrev pub socket_timeout : Texts → Option Daemon → Bytes
socket_timeout texts none = []
socket_timeout texts (some d) = concat (
    text "timeout waiting for socket "
    ∷ d.config.socket
    ∷ text " ("
    ∷ texts.duration d.config.ready_timeout
    ∷ text ")"
    ∷ [])

-- The error of `Start` for a daemon, which is found in the map where its socket was waited for.
unfoldable pub start_error : Texts → Option Daemon → StartError → Bytes
start_error texts d (StartError.not_found name) =
    concat (text "daemon " ∷ texts.quote name ∷ text " not found" ∷ [])
start_error texts d (StartError.cannot_start name state) = concat (
    text "daemon "
    ∷ texts.quote name
    ∷ text " is in state "
    ∷ state_name state
    ∷ text "; cannot start"
    ∷ [])
start_error texts d (StartError.logdup_failed name) =
    concat (text "logdup for " ∷ texts.quote name ∷ text ": " ∷ texts.pipe_error name ∷ [])
start_error texts d (StartError.spawn_failed name) =
    concat (text "start " ∷ texts.quote name ∷ text ": " ∷ texts.os_error ∷ [])
start_error texts d (StartError.not_ready name) =
    concat
      (text "daemon " ∷ texts.quote name ∷ text " socket readiness: " ∷ socket_timeout texts d ∷ [])

-- `SIGKILL %q (pgid=%d): %w` and the like
abbrev kill_error : Texts → Bytes → Bytes → ℕ → Bytes
kill_error texts label name id =
    concat
      (text "SIGKILL " ∷ texts.quote name ∷ label ∷ number id ∷ text "): " ∷ texts.os_error ∷ [])

-- The error of `Stop`
unfoldable pub stop_error : Texts → StopError → Bytes
stop_error texts (StopError.not_found name) =
    concat (text "daemon " ∷ texts.quote name ∷ text " not found" ∷ [])
stop_error texts StopError.cancelled = texts.context_error
stop_error texts (StopError.sigkill_failed name pgid) = kill_error texts (text " (pgid=") name pgid

-- The error of `waitForHealthy`
unfoldable pub wait_error : Texts → Bytes → WaitError → Bytes
wait_error texts name (WaitError.finished state) = concat (
    text "dependency "
    ∷ texts.quote name
    ∷ text " is in terminal state "
    ∷ program_state_name state
    ∷ [])
wait_error texts name WaitError.cancelled = texts.context_error
wait_error texts name WaitError.timeout =
    concat (text "timeout waiting for " ∷ texts.quote name ∷ text " to become healthy" ∷ [])

-- The error of `StartProgram`
unfoldable pub program_error : Texts → ProgramError → Bytes
unfolding wait_error
program_error texts (ProgramError.not_found n) =
    concat (text "program " ∷ texts.quote n ∷ text " not found" ∷ [])
program_error texts (ProgramError.dependency_not_found dep n) =
    concat
      (text "dependency " ∷ texts.quote dep ∷ text " not found for program " ∷ texts.quote n ∷ [])
program_error texts (ProgramError.dependency_not_healthy dep e) =
    concat
      (text "dependency " ∷ texts.quote dep ∷ text " not healthy: " ∷ wait_error texts dep e ∷ [])
program_error texts ProgramError.cancelled = texts.context_error
program_error texts (ProgramError.spawn_failed n) =
    concat (text "start program " ∷ texts.quote n ∷ text ": " ∷ texts.os_error ∷ [])

-- The error of `StopProgram`
unfoldable pub stop_program_error : Texts → StopProgramError → Bytes
stop_program_error texts (StopProgramError.not_found name) =
    concat (text "program " ∷ texts.quote name ∷ text " not found" ∷ [])
stop_program_error texts StopProgramError.cancelled = texts.context_error
stop_program_error texts (StopProgramError.sigkill_failed name pid) =
    kill_error texts (text " (pid=") name pid

-- `fmt.Sprintf("%s %q: %v", ...)`
abbrev pub failed_call : Texts → Bytes → Bytes → Bytes → Bytes
failed_call texts verb name e = concat (verb ∷ text " " ∷ texts.quote name ∷ text ": " ∷ e ∷ [])

-- The message of a failed command; `needs` is the one for a missing name. A panic ends the process and has no message.
unfoldable pub failure_text : Texts → Server → Bytes → Failure → Bytes
unfolding start_error stop_error program_error stop_program_error
failure_text texts s needs Failure.needs_name = needs
failure_text texts s needs Failure.no_features = text "feature registry not initialized"
failure_text texts s needs Failure.no_programs = text "program manager not initialized"
failure_text texts s needs Failure.log_panic = []
failure_text texts s needs (Failure.daemon_not_found name) =
    concat (text "daemon " ∷ texts.quote name ∷ text " not found" ∷ [])
failure_text texts s needs (Failure.program_not_found name) =
    concat (text "program " ∷ texts.quote name ∷ text " not found" ∷ [])
failure_text texts s needs (Failure.stop_failed name e) =
    failed_call texts (text "stop") name (stop_error texts e)
failure_text texts s needs (Failure.start_failed name e) =
    failed_call texts (text "start") name (start_error texts (get s.manager name) e)
failure_text texts s needs (Failure.start_program_failed name e) =
    failed_call texts (text "start program") name (program_error texts e)
failure_text texts s needs (Failure.stop_program_failed name e) =
    failed_call texts (text "stop program") name (stop_program_error texts e)
failure_text texts s needs (Failure.unknown_code code) =
    concat (text "unknown binary command code: " ∷ number code ∷ [])
failure_text texts s needs (Failure.unknown_command name) =
    concat (text "unknown command: " ∷ name ∷ [])
