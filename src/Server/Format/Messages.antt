-- ===== src/Server/Format/Messages.antt =====
-- The messages of internal/server/handlers.go in the binary protocol.
use a_kerno.Common.{ℕ, Bytes, text, List, [], ◌∷◌, ◌++◌, map, length, if◌then◌else◌, ◌==◌, ◌||◌}
use a_kerno.Text.{concat}
use a_kerno.Cmdlist.{decimal}
use a_kerno.Feature.{Feature}
use a_kerno.Program.Types.{Program, program_state_name, health_name}
use a_kerno.BinParser.Types.{BinCommand}
use a_kerno.BinParser.Write.{write_response}
use a_kerno.Server.Replies.{Server, Reply, reply_code}
use a_kerno.Server.Format.{Texts, number, format_daemon_list, format_daemon_status}
use a_kerno.Server.Format.Errors.{failure_text}
use a_kerno.Server.Format.Replies.{
  count_where, daemon_runs, is_ready, counts_as_running, counts_as_failed, shown_phase,
}

-- The loop of `joinLines`, `result` being what is joined so far.
unfoldable pub join_from : Bytes → List Bytes → Bytes
join_from result [] = result
join_from result (line ∷ lines) = join_from (result ++ (text "\n" ++ line)) lines

-- `joinLines`
unfoldable pub join_lines : List Bytes → Bytes
unfolding join_from
join_lines [] = []
join_lines (line ∷ lines) = join_from line lines

abbrev pub bin_feature_line : Feature → Bytes
bin_feature_line f = concat (
    f.name
    ∷ text " "
    ∷ (if f.ready then text "ready" else text "failed")
    ∷ text " (v="
    ∷ f.version
    ∷ text ")"
    ∷ [])

abbrev pub bin_program_line : Program → Bytes
bin_program_line p = concat (
    p.name
    ∷ text " state="
    ∷ program_state_name p.state
    ∷ text " phase="
    ∷ shown_phase p.config.phase
    ∷ text " pid="
    ∷ number p.pid
    ∷ [])

-- `handleBinProgramStatus`
abbrev pub bin_program_status : Program → Bytes
bin_program_status p = concat (
    text "name="
    ∷ p.name
    ∷ text " state="
    ∷ program_state_name p.state
    ∷ text " pid="
    ∷ number p.pid
    ∷ text " exit_code="
    ∷ decimal p.exit_code
    ∷ text " health="
    ∷ health_name p.health
    ∷ text " phase="
    ∷ p.config.phase
    ∷ text " priority="
    ∷ decimal p.config.priority
    ∷ text " exec="
    ∷ p.config.exec
    ∷ [])

-- The name of a command in the message for a missing name.
abbrev pub bin_verb : ℕ → Bytes
bin_verb code =
    if code == 2
    then text "status"
    else if code == 3
    then text "restart"
    else if code == 4
    then text "stop"
    else if code == 5
    then text "start"
    else if code == 7
    then text "logs"
    else if code == 10
    then text "prog-status"
    else if code == 11
    then text "prog-start"
    else text "prog-stop"

abbrev pub bin_needs_text : ℕ → Bytes
bin_needs_text code =
    bin_verb code
    ++ (if code == 10 || (code == 11 || code == 12)
        then text " requires a program name"
        else text " requires a daemon name")

-- `daemon %q restarted (pid=%d)` and the like
abbrev pub done_message : Texts → Bytes → Bytes → Bytes → ℕ → Bytes
done_message texts subject name done pid =
    concat (subject ∷ texts.quote name ∷ done ∷ number pid ∷ text ")" ∷ [])

-- What a handler of the binary protocol returns for a command, `s` being the server after it.
unfoldable pub bin_message : Texts → BinCommand → Server → Reply → Bytes
unfolding join_lines count_where
bin_message texts cmd s (Reply.daemons ds) = concat (
    text "total="
    ∷ number (length ds)
    ∷ text " running="
    ∷ number (count_where daemon_runs ds)
    ∷ text "\n"
    ∷ format_daemon_list texts ds
    ∷ [])
bin_message texts cmd s (Reply.daemon_status d) = format_daemon_status texts d
bin_message texts cmd s (Reply.daemon_restarted name pid) =
    done_message texts (text "daemon ") name (text " restarted (pid=") pid
bin_message texts cmd s (Reply.daemon_started name pid) =
    done_message texts (text "daemon ") name (text " started (pid=") pid
bin_message texts cmd s (Reply.daemon_stopped name) =
    concat (text "daemon " ∷ texts.quote name ∷ text " stopped" ∷ [])
bin_message texts cmd s (Reply.features fs) = concat (
    text "features="
    ∷ number (length fs)
    ∷ text " ready="
    ∷ number (count_where is_ready fs)
    ∷ text "\n"
    ∷ join_lines (map bin_feature_line fs)
    ∷ [])
bin_message texts cmd s (Reply.log_lines shown) =
    concat (text "lines=" ∷ number (length shown) ∷ text "\n" ∷ join_lines shown ∷ [])
bin_message texts cmd s Reply.shutting_down = text "shutting down all daemons"
bin_message texts cmd s (Reply.programs ps) = concat (
    text "total="
    ∷ number (length ps)
    ∷ text " running="
    ∷ number (count_where counts_as_running ps)
    ∷ text " failed="
    ∷ number (count_where counts_as_failed ps)
    ∷ text "\n"
    ∷ join_lines (map bin_program_line ps)
    ∷ [])
bin_message texts cmd s (Reply.program_status p) = bin_program_status p
bin_message texts cmd s (Reply.program_started name pid) =
    done_message texts (text "program ") name (text " started (pid=") pid
bin_message texts cmd s (Reply.program_stopped name) =
    concat (text "program " ∷ texts.quote name ∷ text " stopped" ∷ [])
bin_message texts cmd s (Reply.failure f) = failure_text texts s (bin_needs_text cmd.code) f

-- The bytes of a reply on a binary connection.
unfoldable pub bin_reply : Texts → BinCommand → Server → Reply → Bytes
bin_reply texts cmd s reply = write_response (reply_code reply) (bin_message texts cmd s reply)
