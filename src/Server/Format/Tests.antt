-- ===== src/Server/Format/Tests.antt =====
-- Replies in both protocols, and the theorems on them at concrete inputs.
use a_kerno.Common.{
  ◌≡◌, refl, Bytes, bytes_eq, bytes_less, text, List, Bool, [], ◌∷◌, ◌++◌, none, some, true, false,
  arith, length, replicate,
}
use a_kerno.Text.Utf8.{rune_count}
use a_kerno.Common.Assoc.{lookup}
use a_kerno.Common.Int.{pos}
use a_kerno.Common.Sorting.{sort, insert_sorted}
use a_kerno.Text.{split_from, join, has_suffix, has_prefix}
use a_kerno.Text.Laws.{Lacks-sound}
use a_kerno.Cmdlist.{Value, Command, decimal, format_ok_with_body}
use a_kerno.LogBuffer.{LogBuffer, new, append}
use a_kerno.LogBuffer.Appends.{append_all}
use a_kerno.LogDup.{scan_from, scan_lines}
use a_kerno.LogDup.Lines.{unlines}
use a_kerno.LogDup.Pipes.{LogWriters, Interleaves, close, interleave}
use a_kerno.Client.{Call, request}
use a_kerno.Daemon.Types.{Daemon, DaemonState, RestartPolicy}
use a_kerno.Daemon.Manager.{get}
use a_kerno.Server.Replies.{Server, CommandEnv, Reply}
use a_kerno.Server.Dispatch.{dispatch_bin}
use a_kerno.Server.Dispatch.Sessions.{received}
use a_kerno.Server.Format.{Texts, number, daemon_line, format_daemon_list, format_daemon_status}
use a_kerno.Server.Format.Replies.{text_reply, logs_reply}
use a_kerno.Server.Format.Messages.{bin_message}
use a_kerno.Server.Format.Attributes.{
  IsPlain, read_attributes, status_attributes, read_attributes-format_daemon_status,
}
use a_kerno.Server.Format.Logs.{shown_lines, logs-shown}

abbrev quoted : Bytes → Bytes
quoted s = b'"' ∷ s ++ b'"' ∷ []

abbrev texts : Texts
texts = record {
  quote = quoted;
  since = λ t. text "3s";
  no_time = text "0s";
  duration = λ d. text "10s";
  os_error = text "no such file or directory";
  pipe_error = λ name. text "logdup: stdout pipe";
  context_error = text "context canceled";
}

-- A daemon that has written two lines to stdout and one to stderr.
abbrev logs : LogBuffer
logs = record {
  lines = text "one" ∷ text "bad" ∷ text "two" ∷ replicate 4093 [];
  max_size = 4096;
  pos = 3;
  full = false;
}

abbrev daemon : Bytes → LogBuffer → Daemon
daemon name buffer = record {
  name = name;
  config = record {
    name = name;
    exec = text "webd --on :80";
    order = pos 10;
    restart = RestartPolicy.always;
    ready_timeout = pos 0;
    socket = [];
    env = [];
    enabled = true;
  };
  state = DaemonState.running;
  cmd = some 77;
  pid = 77;
  pgid = 77;
  started_at = 5;
  stopped_at = 0;
  restart_count = 2;
  logs = buffer;
  log_writers = true;
}

abbrev empty_logs : LogBuffer
empty_logs = record { lines = [] ∷ []; max_size = 1; pos = 0; full = false }

abbrev web : Daemon
web = daemon (text "web") empty_logs

abbrev bus : Daemon
bus = daemon (text "bus") empty_logs

web-IsPlain : IsPlain texts web
web-IsPlain = record {
  name = Lacks-sound b'\n' (text "web") refl;
  uptime = Lacks-sound b'\n' (text "3s") refl;
  policy = Lacks-sound b'\n' (text "always") refl;
  socket = tt;
  exec = Lacks-sound b'\n' (text "webd --on :80") refl;
}

bus-IsPlain : IsPlain texts bus
bus-IsPlain = record {
  name = Lacks-sound b'\n' (text "bus") refl;
  uptime = Lacks-sound b'\n' (text "3s") refl;
  policy = Lacks-sound b'\n' (text "always") refl;
  socket = tt;
  exec = Lacks-sound b'\n' (text "webd --on :80") refl;
}

two_daemons :
    format_daemon_list texts (web ∷ bus ∷ [])
    ≡ text "bus                  77  running    uptime=3s         restarts=2 policy=always\n"
      ++ text "web                  77  running    uptime=3s         restarts=2 policy=always"
unfolding format_daemon_list sort insert_sorted bytes_less join daemon_line decimal rune_count
two_daemons = refl

abbrev server : Server
server = record {
  manager = record { configs = []; daemons = (text "web", web) ∷ []; killed = [] };
  pm = none;
  features = none;
  is_cancelled = false;
}

abbrev log_command : Command
log_command = record { name = text "logs"; args = Value.str (text "web") ∷ [] }

log_reply :
    text_reply texts log_command server (Reply.log_lines (text "one" ∷ text "two" ∷ []))
    ≡ text "20 OK\ncmd: logs\nname: web\nstatus: 0\nlines: 2\n\nbody:\none\ntwo\n\n"
unfolding text_reply logs_reply format_ok_with_body join decimal has_suffix has_prefix bytes_eq
log_reply = refl

read_attributes-format_daemon_status_example :
    read_attributes (format_daemon_status texts web) ≡ status_attributes texts web
read_attributes-format_daemon_status_example =
    read_attributes-format_daemon_status texts web web-IsPlain

abbrev writers : LogWriters
writers = record {
  ends = record { out_read = true; out_write = true; err_read = true; err_write = true };
  prefix = text "[web] ";
}

abbrev system : CommandEnv
system = record {
  starting = record { pipes = true; spawned = none; dials = []; now = 8 };
  stopping = record { polls = []; kill_fails = false; now = 7 };
  program = record { observed = λ _. []; delay_cancelled = false; spawned = none; now = 8 };
}

-- stdout is scanned first, then stderr, then stdout.
abbrev schedule : List Bool
schedule = true ∷ false ∷ []

abbrev logging : Server
logging = record server {
  manager = record {
    configs = [];
    daemons = (text "web", daemon (text "web") logs) ∷ [];
    killed = [];
  };
}

logs_taken :
    (close schedule
      (unlines (text "one" ∷ text "two" ∷ []))
      (unlines (text "bad" ∷ []))
      writers
      (new (pos 4096))).0
    ≡ some logs
unfolding close interleave scan_lines scan_from unlines append_all append new
logs_taken = refl

logs-shown_example :
    (zs : List Bytes) × Interleaves (text "one" ∷ text "two" ∷ []) (text "bad" ∷ []) zs
    × (let cmd = received (request (Call.logs true (text "web") (pos 2))) in
        let (reply, s') = dispatch_bin system cmd logging in
        split_from b'\n' [] (bin_message texts cmd s' reply)
        ≡ (text "lines=" ++ number (length (shown_lines (pos 2) zs))) ∷ shown_lines (pos 2) zs)
unfolding get lookup bytes_eq
logs-shown_example =
    logs-shown texts system schedule (text "one" ∷ text "two" ∷ []) (text "bad" ∷ []) writers true
      (text "web") (pos 2) logging (daemon (text "web") logs)
      (
        (Lacks-sound b'\n' (text "one") refl, refl, omega arith),
        ((Lacks-sound b'\n' (text "two") refl, refl, omega arith), tt),
      )
      ((Lacks-sound b'\n' (text "bad") refl, refl, omega arith), tt) (cc) logs_taken (cc) refl
