-- ===== src/Client/Tests.antt =====
-- Calls of a client, and what the server makes of them.
use a_kerno.Common.{
  ◌≡◌, refl, bytes_eq, text, List, [], ◌∷◌, ◌++◌, map, none, true, false, ok, arith,
}
use a_kerno.BinParser.Types.{code_error}
use a_kerno.BinParser.Slices.{le_encode}
use a_kerno.BinParser.Write.{write_response, encode_attr, encode_value, encode_str}
use a_kerno.Cmdlist.{
  HeaderError, classify, resolve_command, contains, parse_value, parse_command, parse_lines,
  split_lines, Line, format_ok, format_error, format_ok_with_body,
}
use a_kerno.Cmdlist as Cmdlist
use a_kerno.Text.{trim_space}
use a_kerno.Server.Replies.{Server, CommandEnv, Reply}
use a_kerno.Server.Format.{Texts}
use a_kerno.Server.Format.Replies.{text_reply}
use a_kerno.Client.Opening.{call}
use a_kerno.Client.Rejections.{IsRejected, call-text_reply}
use a_kerno.Server.Dispatch.Sessions.{request_stream}
use a_kerno.Server.Connection.{handle_connection, bin_outputs}
use a_kerno.Client.{Call, request, returned_of, call_bin, text_request}
use a_kerno.Client.Session.{run_calls, handle_connection-calls, call_bin-write_response}

abbrev server : Server
server = record {
  manager = record { configs = []; daemons = []; killed = [] };
  pm = none;
  features = none;
  is_cancelled = false;
}

abbrev system : CommandEnv
system = record {
  starting = record { pipes = true; spawned = none; dials = []; now = 8 };
  stopping = record { polls = []; kill_fails = false; now = 7 };
  program = record { observed = λ _. []; delay_cancelled = false; spawned = none; now = 8 };
}

abbrev calls : List Call
calls = Call.stop (text "web") ∷ Call.shutdown ∷ []

handle_connection-calls_example :
    handle_connection (λ i. system) [] (text "BIN1" ++ request_stream (map request calls)) server
    ≡ bin_outputs (run_calls (λ i. system) 0 calls server)
unfolding request encode_attr encode_value encode_str le_encode
handle_connection-calls_example =
    handle_connection-calls (λ i. system) [] calls server
      (((omega arith, omega arith, omega arith), tt), (tt, tt))

call_bin-write_response_example :
    (call_bin (Call.stop (text "web")) (write_response code_error (text "no") ++ [])).1
    ≡ ok (returned_of (Call.stop (text "web")) [], [])
unfolding encode_attr encode_value encode_str le_encode
call_bin-write_response_example =
    call_bin-write_response (Call.stop (text "web")) code_error (text "no") []
      ((omega arith, omega arith, omega arith), tt)

-- The server would take the whole line of a client's argument for a string.
argument_read :
    parse_command (split_lines [] (text_request (Call.stop (text "web"))))
    ≡ ok (record { name = text "stop"; args = Cmdlist.Value.str (text "name\" web") ∷ [] }, [])
unfolding parse_command parse_lines split_lines text_request classify resolve_command contains
    parse_value trim_space bytes_eq
argument_read = refl

abbrev texts : Texts
texts = record {
  quote = λ s. s;
  since = λ t. text "3s";
  no_time = text "0s";
  duration = λ d. text "10s";
  os_error = text "no such file or directory";
  pipe_error = λ name. text "logdup: stdout pipe";
  context_error = text "context canceled";
}

call-text_reply_example :
    IsRejected
      (call
        (record { use_binary = false; is_open = true })
        (Call.stop (text "web"))
        (text_reply texts
            (record { name = text "stop"; args = Cmdlist.Value.str (text "web") ∷ [] })
            server
            (Reply.daemon_stopped (text "web"))
          ++ [])).1
call-text_reply_example =
    call-text_reply texts
      (record { name = text "stop"; args = Cmdlist.Value.str (text "web") ∷ [] }) server
      (Reply.daemon_stopped (text "web")) (record { use_binary = false; is_open = true })
      (Call.stop (text "web")) [] refl
