-- ===== src/Program/Lifecycle.antt =====
-- `StartProgram`, `StopProgram`, `waitForHealthy` and `monitorProgram` of internal/program/manager.go, and
-- `RunHealthCheck` of health.go, for one program that the manager has found.
-- Environment variables of the child and log lines do not change the state and are left out.
pub mod Exits
use a_kerno.Common.{
  ℕ, zero, suc, Bytes, bytes_eq, List, [], ◌∷◌, ◌++◌, Option, none, some, Bool, true, false, not,
  ◌&&◌, ◌||◌, ◌==◌, if◌then◌else◌, Result, ok, err, map,
}
use a_kerno.Common.Int.{ℤ, pos, negsuc, is_positive, pos_part}
use a_kerno.Common.Assoc.{Assoc, lookup, insert}
use a_kerno.Process.{Poll, StopEnv, Signal, Sent}
use a_kerno.Program.Types.{
  ProgramState, HealthStatus, ProgramConfig, Program, ProgramManager, set_program_state,
  is_program_running, is_finished,
}
use a_kerno.Program.Resolve.{ResolveError, resolve_dependencies, phase_post, phase_early}

-- `Get`
unfoldable pub get_program : ProgramManager → Bytes → Option Program
get_program m name = lookup name m.programs

-- One round of `waitForHealthy`: the state that it reads, and is the context done.
pub record Observation : Type 0 where
  pub seen : ProgramState
  pub cancelled : Bool

pub data WaitError : Type 0 where
  finished : ProgramState → WaitError
  cancelled timeout : WaitError

abbrev pub is_healthy : ProgramState → Bool
is_healthy ProgramState.healthy = true
is_healthy _ = false

-- `waitForHealthy`: the rounds before the deadline; no error is `none`.
unfoldable pub wait_for_healthy : List Observation → Option WaitError
wait_for_healthy [] = some WaitError.timeout
wait_for_healthy (o ∷ rest) =
    let later = wait_for_healthy rest in
    if is_healthy o.seen
    then none
    else if is_finished o.seen
    then some (WaitError.finished o.seen)
    else if o.cancelled
    then some WaitError.cancelled
    else later

pub data ProgramError : Type 0 where
  not_found : Bytes → ProgramError
  dependency_not_found : Bytes → Bytes → ProgramError
  dependency_not_healthy : Bytes → WaitError → ProgramError
  cancelled : ProgramError
  spawn_failed : Bytes → ProgramError

-- What the system answers to one `StartProgram`.
pub record ProgramEnv : Type 0 where
  pub observed : Bytes → List Observation
  pub delay_cancelled : Bool
  pub spawned : Option ℕ
  pub now : ℕ

-- The loop over the dependencies: the error, and the state that the program is left in.
unfoldable pub wait_deps :
    ProgramEnv → ProgramManager → Bytes → List Bytes → Option (ProgramError × ProgramState)
wait_deps env m name [] = none
wait_deps env m name (dep ∷ deps) =
    let rest = wait_deps env m name deps in
    elim (get_program m dep) [
      | none ↦ some (ProgramError.dependency_not_found dep name, ProgramState.waiting_deps)
      | some _ ↦ elim (wait_for_healthy (env.observed dep)) [
        | none ↦ rest
        | some e ↦ some (ProgramError.dependency_not_healthy dep e, ProgramState.failed)
      ]
    ]

-- After the process has started. A health check runs on, as `run_health_check`.
unfoldable pub record_process : ProgramEnv → ℕ → Program → Program
record_process env pid p =
    let up = record p {
      cmd = some pid;
      pid = pid;
      started_at = env.now;
      state = ProgramState.running;
    } in
    if bytes_eq p.config.health_check []
    then record up { state = ProgramState.healthy; health = HealthStatus.passed }
    else up

unfoldable pub spawn_program : ProgramEnv → Option ℕ → Program → Option ProgramError × Program
unfolding record_process
spawn_program env none p =
    (some (ProgramError.spawn_failed p.name), set_program_state p ProgramState.failed)
spawn_program env (some pid) p = (none, record_process env pid p)

-- From the start delay on.
unfoldable pub delay_and_spawn : ProgramEnv → Program → Option ProgramError × Program
unfolding spawn_program
delay_and_spawn env p =
    if is_positive p.config.start_delay && env.delay_cancelled
    then (some ProgramError.cancelled, set_program_state p ProgramState.waiting_delay)
    else spawn_program env env.spawned (set_program_state p ProgramState.starting)

abbrev pub is_up_or_starting : ProgramState → Bool
is_up_or_starting ProgramState.running = true
is_up_or_starting ProgramState.healthy = true
is_up_or_starting ProgramState.starting = true
is_up_or_starting _ = false

abbrev pub is_off : ProgramState → Bool
is_off ProgramState.disabled = true
is_off _ = false

-- `StartProgram` of a program that was found.
unfoldable pub start_found : ProgramEnv → ProgramManager → Program → Option ProgramError × Program
unfolding delay_and_spawn
start_found env m p =
    if is_up_or_starting p.state
    then (none, p)
    else if is_off p.state
    then (none, p)
    else elim (wait_deps env m p.name p.config.depends_on) [
      | some (e, state) ↦ (some e, set_program_state p state)
      | none ↦ delay_and_spawn env p
    ]

-- One attempt of `RunHealthCheck`: is the context done before it, and does the command succeed.
pub record Attempt : Type 0 where
  pub cancelled : Bool
  pub succeeds : Bool

pub data HealthError : Type 0 where
  cancelled : HealthError
  check_failed : Bytes → ℕ → HealthError

-- The attempts that are left, the next one being `attempt`.
unfoldable pub health_loop : (ℕ → Attempt) → ℕ → ℕ → ℕ → Program → Option HealthError × Program
health_loop attempts retry attempt zero p = (
  some (HealthError.check_failed p.name retry),
  record p { health = HealthStatus.failed; state = ProgramState.health_failed },
)
health_loop attempts retry attempt (suc left) p =
    let rest = health_loop attempts retry (suc attempt) left p in
    if (attempts attempt).cancelled
    then (some HealthError.cancelled, p)
    else if (attempts attempt).succeeds
    then (none, record p { health = HealthStatus.passed; state = ProgramState.healthy })
    else rest

-- `HealthRetry`, or its default
abbrev pub retries : ℤ → ℕ
retries n = if is_positive n then pos_part n else 3

-- `RunHealthCheck`. Its time limits are those of the check command, which `attempts` answers for.
unfoldable pub run_health_check : (ℕ → Attempt) → Program → Option HealthError × Program
unfolding health_loop
run_health_check attempts p =
    let retry = retries p.config.health_retry in
    if bytes_eq p.config.health_check []
    then (none, record p { health = HealthStatus.passed; state = ProgramState.healthy })
    else health_loop attempts retry 0 retry (record p { health = HealthStatus.checking })

-- What `cmd.Wait` returns: nil, an `exec.ExitError` with its code, or another error.
pub data WaitResult : Type 0 where
  clean : WaitResult
  exit_error : ℤ → WaitResult
  other_error : WaitResult

abbrev pub exit_code_of : WaitResult → ℤ
exit_code_of WaitResult.clean = pos 0
exit_code_of (WaitResult.exit_error code) = code
exit_code_of WaitResult.other_error = negsuc 0

abbrev pub is_zero : ℤ → Bool
is_zero (pos n) = n == 0
is_zero (negsuc n) = false

-- The locked section of `monitorProgram`; `restart` was read before the wait.
unfoldable pub program_exit : ℕ → WaitResult → Bool → Program → Program
program_exit now result restart p =
    let code = exit_code_of result in
    record p {
      finished_at = now;
      exit_code = code;
      state =
          if is_zero code && not restart
          then ProgramState.done
          else if not (is_zero code)
          then ProgramState.failed
          else p.state;
      cmd = none;
      pid = 0;
    }

pub data StopProgramError : Type 0 where
  not_found : Bytes → StopProgramError
  cancelled : StopProgramError
  sigkill_failed : Bytes → ℕ → StopProgramError

unfoldable pub mark_stopped : ℕ → Program → Program
mark_stopped now p = record p {
  state = ProgramState.stopped;
  finished_at = now;
  cmd = none;
  pid = 0;
}

unfoldable pub wait_exit :
    StopEnv → ℕ → List Poll → Program → Option StopProgramError × Program × List Sent
unfolding mark_stopped
wait_exit env pid [] p =
    let killed = record { group = pid; signal = Signal.sigkill } ∷ [] in
    if env.kill_fails
    then (some (StopProgramError.sigkill_failed p.name pid), p, killed)
    else (none, mark_stopped env.now p, killed)
wait_exit env pid (poll ∷ polls) p =
    let rest = wait_exit env pid polls p in
    if not poll.alive
    then (none, mark_stopped env.now p, [])
    else if poll.cancelled
    then (some StopProgramError.cancelled, p, [])
    else rest

abbrev pub terminated_first :
    ℕ
    → Option StopProgramError × Program × List Sent
    → Option StopProgramError × Program × List Sent
terminated_first pid (e, p, sent) = (e, p, record { group = pid; signal = Signal.sigterm } ∷ sent)

-- `StopProgram` of a program that was found, with the signals that it sends.
unfoldable pub stop_found : StopEnv → Program → Option StopProgramError × Program × List Sent
stop_found env p =
    if not (is_program_running p.state)
    then (none, p, [])
    else terminated_first p.pid (wait_exit env p.pid env.polls p)
