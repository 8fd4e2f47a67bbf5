-- ===== src/Server/Connection/Tests.antt =====
-- Connections in both modes.
use a_kerno.Common.{◌≡◌, refl, text, [], ◌∷◌, ◌++◌, none, true, false}
use a_kerno.Server.Replies.{Server, CommandEnv}
use a_kerno.Server.Connection.{read, handle_connection}
use a_kerno.Server.Connection.Modes.{handle_connection-text}

abbrev server : Server
server = record {
  manager = record { configs = []; daemons = []; killed = [] };
  pm = none;
  features = none;
  is_cancelled = false;
}

abbrev system : CommandEnv
system = record {
  starting = record { pipes = true; spawned = none; dials = []; now = 8 };
  stopping = record { polls = []; kill_fails = false; now = 7 };
  program = record { observed = λ _. []; delay_cancelled = false; spawned = none; now = 8 };
}

-- Without a header the same reader gives the connection.
read_without_header :
    read 4 (record { header = []; conn = text "shutdown" })
    ≡ (text "shut", record { header = []; conn = text "down" })
unfolding read
read_without_header = refl

handle_connection-text_example :
    handle_connection
      (λ i. system)
      (4096 ∷ 4091 ∷ 3 ∷ [])
      (text "TXT01" ++ text "\nshutdown\n")
      server
    ≡ ([], server)
handle_connection-text_example =
    handle_connection-text (λ i. system) (4096 ∷ 4091 ∷ 3 ∷ []) (text "\nshutdown\n") server
