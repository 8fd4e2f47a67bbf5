-- ===== src/Server/Serving/Tests.antt =====
-- A server with a few clients, and the theorems on its runs at concrete inputs.
use a_kerno.Common.{◌≡◌, ◌≢◌, refl, text, [], ◌∷◌, inl, inr, none, true, false, arith}
use a_kerno.Server.Replies.{Server}
use a_kerno.Server.Connection.Turns.{Mode, Connection, TurnEnv}
use a_kerno.Server.Serving.{
  LoopState, Stopping, Host, ListenEnv, listening, start_server, Event, step_of, step, run_events,
}
use a_kerno.Server.Serving.Counting.{run_events-IsQuiet}
use a_kerno.Server.Serving.Held.{stop-held}

abbrev server : Server
server = record {
  manager = record { configs = []; daemons = []; killed = [] };
  pm = none;
  features = none;
  is_cancelled = false;
}

abbrev turn : TurnEnv
turn = record {
  commands = λ _. record {
    starting = record { pipes = true; spawned = none; dials = []; now = 8 };
    stopping = record { polls = []; kill_fails = false; now = 7 };
    program = record { observed = λ _. []; delay_cancelled = false; spawned = none; now = 8 };
  };
  write_fails = false;
  lock_waits = false;
  room = 4096;
}

abbrev system : ListenEnv
system = record { mkdir_fails = false; listen_fails = false; parent_done = false }

-- The server with one client, before or after the call of Stop.
abbrev with_client : Connection → Host
with_client c = record (listening server) { wg = 2; connections = c ∷ [] }

abbrev stopping_with : Connection → Host
stopping_with c = record (with_client c) { is_open = false; stopping = Stopping.waiting }

abbrev stopped : Host
stopped = record (listening server) {
  is_open = false;
  loop = LoopState.ended;
  wg = 0;
  stopping = Stopping.returned;
  socket_file = false;
}

run_events-IsQuiet_example :
    (stopped.is_open ≡ false)
    × (stopped.loop ≡ LoopState.ended)
    × (stopped.connections ≡ [])
    × (stopped.wg ≡ 0)
    × (stopped.socket_file ≡ false)
unfolding start_server run_events step step_of
run_events-IsQuiet_example =
    run_events-IsQuiet system server
      (Event.loop_turn ∷ Event.stop ∷ Event.accept_error ∷ Event.stop_wait ∷ []) (listening server)
      stopped refl refl refl

abbrev gone : Connection
gone = record { stream = []; hangs_up = true; mode = Mode.fresh }

abbrev idle : Connection
idle = record { stream = []; hangs_up = false; mode = Mode.fresh }

stop-held_example : (stopping_with idle).stopping ≢ Stopping.returned
unfolding start_server run_events step step_of
stop-held_example =
    stop-held system server (Event.loop_turn ∷ Event.connect [] false ∷ []) (Event.stop ∷ [])
      (listening server) (with_client idle) (stopping_with idle) 0 idle refl refl refl
      (inr (refl, omega arith)) refl

abbrev greeting : Connection
greeting = record { stream = text "TXT01\n"; hangs_up = true; mode = Mode.fresh }

stop_after_greeting : (stopping_with greeting).stopping ≢ Stopping.returned
unfolding start_server run_events step step_of
stop_after_greeting =
    stop-held system server (Event.loop_turn ∷ Event.connect (text "TXT01\n") true ∷ [])
      (Event.stop ∷ []) (listening server) (with_client greeting) (stopping_with greeting) 0
      greeting refl refl refl (inl (text "\n", refl)) refl
