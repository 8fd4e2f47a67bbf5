-- ===== src/Server/Serving.antt =====
-- `NewServer`, `Start`, `acceptLoop`, `handleConnection` and `Stop` of internal/server/server.go as the steps of
-- goroutines that run beside one another: the accept loop, a handler for each connection, and the caller of
-- Stop. A list of events is one order in which they may run; `step` is `none` where the goroutine is blocked.
pub mod Runs
pub mod Counting
pub mod Draining
pub mod Nearer
pub mod Ending
pub mod Clients
pub mod Held
mod Tests
use a_kerno.Common.{
  ℕ, zero, suc, ◌+◌, ◌-◌, Bytes, List, [], ◌∷◌, ◌++◌, Option, none, some, Bool, true, false, ◌==◌,
  get_elem?, if◌then◌else◌, Result, ok, err,
}
use a_kerno.Daemon.Types.{DaemonManager}
use a_kerno.Feature.{Registry}
use a_kerno.Program.Types.{ProgramManager}
use a_kerno.Server.Replies.{Server}
use a_kerno.Server.Dispatch.{Written}
use a_kerno.Server.Connection.{Output}
use a_kerno.Server.Connection.Turns.{Mode, Connection, TurnEnv, Turn, connection_turn}

-- The accept loop is before its test of the context, in `Accept`, or has returned.
pub data LoopState : Type 0 where
  checking accepting ended : LoopState

pub data Stopping : Type 0 where
  not_called waiting returned : Stopping

-- A server that was started: `is_open` and `socket_file` are the listener and the socket file, `wg` counts
-- the goroutines, `connections` holds the handlers that run.
pub record Host : Type 0 where
  pub server : Server
  pub is_open : Bool
  pub loop : LoopState
  pub wg : ℕ
  pub connections : List Connection
  pub stopping : Stopping
  pub socket_file : Bool
  pub written : List Output
  pub crashed : Bool

-- `NewServer`
unfoldable pub new_server : DaemonManager → Option Registry → Option ProgramManager → Server
new_server mgr feats pm = record { manager = mgr; pm = pm; features = feats; is_cancelled = false }

pub data StartServerError : Type 0 where
  socket_directory listen : StartServerError

-- What the system answers to `Start`: `parent_done` says that the caller's context is done already.
pub record ListenEnv : Type 0 where
  pub mkdir_fails : Bool
  pub listen_fails : Bool
  pub parent_done : Bool

abbrev pub listening : Server → Host
listening s = record {
  server = s;
  is_open = true;
  loop = LoopState.checking;
  wg = 1;
  connections = [];
  stopping = Stopping.not_called;
  socket_file = true;
  written = [];
  crashed = false;
}

-- `Start`
unfoldable pub start_server : ListenEnv → Server → Result StartServerError Host
start_server env s =
    if env.mkdir_fails
    then err StartServerError.socket_directory
    else if env.listen_fails
    then err StartServerError.listen
    else ok (listening (record s { is_cancelled = env.parent_done }))

-- The handlers after the turn of the one at a place.
abbrev pub replace_at : ℕ → Option Connection → List Connection → List Connection
replace_at i next [] = []
replace_at zero none (c ∷ cs) = cs
replace_at zero (some c') (c ∷ cs) = c' ∷ cs
replace_at (suc i) next (c ∷ cs) = c ∷ replace_at i next cs

-- The deferred `s.wg.Done()` of a handler that returns.
abbrev pub done_if : Option Connection → ℕ → ℕ
done_if none wg = wg - 1
done_if (some c) wg = wg

-- A panic of a handler ends the whole process.
abbrev pub crashes : List Output → Bool
crashes (Output.bin Written.crash ∷ outputs) = true
crashes outputs = false

abbrev pub after_turn : ℕ → Turn → Host → Host
after_turn i t h = record h {
  server = t.server;
  connections = replace_at i t.next h.connections;
  wg = done_if t.next h.wg;
  written = h.written ++ t.outputs;
  crashed = crashes t.outputs;
}

-- `connect` is `Accept` with a connection, `accept_error` is `Accept` with an error; `cancel` is the end of the
-- caller's context, `stop` the call of Stop, `stop_wait` the end of its wait.
pub data Event : Type 0 where
  loop_turn : Event
  connect : Bytes → Bool → Event
  accept_error : Event
  handler : ℕ → TurnEnv → Event
  cancel stop stop_wait : Event

abbrev pub loop_ends : Host → Host
loop_ends h = record h { loop = LoopState.ended; wg = h.wg - 1 }

-- The test of the context at the head of the loop.
unfoldable pub loop_step : LoopState → Host → Option Host
loop_step LoopState.checking h =
    some (if h.server.is_cancelled then loop_ends h else record h { loop = LoopState.accepting })
loop_step _ h = none

unfoldable pub connect_step : LoopState → Bytes → Bool → Host → Option Host
connect_step LoopState.accepting stream hangs_up h =
    let c : Connection = record { stream = stream; hangs_up = hangs_up; mode = Mode.fresh } in
    let accepted : Host = record h {
      loop = LoopState.checking;
      wg = h.wg + 1;
      connections = h.connections ++ c ∷ [];
    } in
    if h.is_open then some accepted else none
connect_step _ stream hangs_up h = none

-- An error of `Accept`: `net.ErrClosed` if the listener is closed.
unfoldable pub accept_error_step : LoopState → Host → Option Host
accept_error_step LoopState.accepting h = some (
    if h.is_open
    then if h.server.is_cancelled then loop_ends h else record h { loop = LoopState.checking }
    else loop_ends h)
accept_error_step _ h = none

unfoldable pub handler_step : ℕ → Option Turn → Host → Option Host
handler_step i none h = none
handler_step i (some t) h = some (after_turn i t h)

abbrev pub turn_at : TurnEnv → Option Connection → Server → Option Turn
turn_at env none s = none
turn_at env (some c) s = connection_turn env c s

unfoldable pub stop_step : Stopping → Host → Option Host
stop_step Stopping.not_called h = some (record h { is_open = false; stopping = Stopping.waiting })
stop_step _ h = none

unfoldable pub stop_wait_step : Stopping → Host → Option Host
stop_wait_step Stopping.waiting h =
    if h.wg == 0
    then some (record h { stopping = Stopping.returned; socket_file = false })
    else none
stop_wait_step _ h = none

unfoldable pub step_of : Event → Host → Option Host
unfolding loop_step connect_step accept_error_step handler_step stop_step stop_wait_step
step_of Event.loop_turn h = loop_step h.loop h
step_of (Event.connect stream hangs_up) h = connect_step h.loop stream hangs_up h
step_of Event.accept_error h = accept_error_step h.loop h
step_of (Event.handler i env) h =
    handler_step i (turn_at env (get_elem? h.connections i) h.server) h
step_of Event.cancel h =
    if h.server.is_cancelled
    then none
    else some (record h { server = record (h.server) { is_cancelled = true } })
step_of Event.stop h = stop_step h.stopping h
step_of Event.stop_wait h = stop_wait_step h.stopping h

-- A step of some goroutine, of a client or of the caller; a process that has crashed takes none.
unfoldable pub step : Event → Host → Option Host
unfolding step_of
step e h = if h.crashed then none else step_of e h

-- The events one after the other; `none` if one of them cannot take place.
unfoldable pub run_events : List Event → Host → Option Host
run_events [] h = some h
run_events (e ∷ es) h = elim (step e h) [ none ↦ none | some h' ↦ run_events es h' ]
