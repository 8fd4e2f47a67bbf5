-- ===== src/Program/Lifecycle/Exits.antt =====
-- internal/program/manager.go and health.go: what each operation makes of a program, and what happens to
-- one whose process has exited.
use a_kerno.Common.{
  ℕ, zero, suc, ◌≡◌, ◌≢◌, refl, Bytes, List, [], ◌∷◌, Option, none, some, Bool, true, false, arith,
  inl, inr, bytes_eq, Bool-cases,
}
use a_kerno.Process.{Poll, StopEnv, Signal}
use a_kerno.Program.Types.{HealthStatus, ProgramState, Program, ProgramManager, is_program_running}
use a_kerno.Program.Lifecycle.{
  Observation, wait_for_healthy, ProgramEnv, wait_deps, delay_and_spawn, spawn_program,
  record_process, start_found, get_program, Attempt, health_loop, run_health_check, retries,
  WaitResult, exit_code_of, is_zero, program_exit, wait_exit, stop_found, mark_stopped, is_healthy,
}

abbrev pub pid_of : Option ℕ → ℕ
pid_of none = 0
pid_of (some pid) = pid

-- The recorded process id is that of the handle, 0 without one.
abbrev pub IsRecorded : Program → Type 0
IsRecorded p = p.pid ≡ pid_of p.cmd

spawn_program-IsRecorded :
    (env : ProgramEnv) (spawned : Option ℕ) (p : Program)
    → IsRecorded p
    → IsRecorded (spawn_program env spawned p).1
unfolding spawn_program record_process
spawn_program-IsRecorded env none p h = h
spawn_program-IsRecorded env (some pid) p h = ground arith

delay_and_spawn-IsRecorded :
    (env : ProgramEnv) (p : Program) → IsRecorded p → IsRecorded (delay_and_spawn env p).1
unfolding delay_and_spawn
delay_and_spawn-IsRecorded env p h =
    ground (
      arith,
      spawn_program-IsRecorded env env.spawned (record p { state = ProgramState.starting }) h,
    )

-- `StartProgram` keeps the recorded process id that of the handle, on every branch.
pub start_found-IsRecorded :
    (env : ProgramEnv) (m : ProgramManager) (p : Program)
    → IsRecorded p
    → IsRecorded (start_found env m p).1
unfolding start_found
start_found-IsRecorded env m p h = ground (arith, delay_and_spawn-IsRecorded env p h)

wait_exit-IsRecorded :
    (env : StopEnv) (pid : ℕ) (polls : List Poll) (p : Program)
    → IsRecorded p
    → IsRecorded (wait_exit env pid polls p).1
unfolding wait_exit mark_stopped
wait_exit-IsRecorded env pid [] p h = ground arith
wait_exit-IsRecorded env pid (poll ∷ polls) p h =
    ground (arith, wait_exit-IsRecorded env pid polls p h)

-- `StopProgram` keeps the recorded process id that of the handle, on every branch.
pub stop_found-IsRecorded :
    (env : StopEnv) (p : Program) → IsRecorded p → IsRecorded (stop_found env p).1
unfolding stop_found
stop_found-IsRecorded env p h = ground (arith, wait_exit-IsRecorded env p.pid env.polls p h)

wait_exit-ok :
    (env : StopEnv) (pid : ℕ) (polls : List Poll) (p : Program)
    → ((wait_exit env pid polls p).0 ≡ none
        → (wait_exit env pid polls p).1 ≡ mark_stopped env.now p)
      × ((wait_exit env pid polls p).0 ≢ none → (wait_exit env pid polls p).1 ≡ p)
unfolding wait_exit
wait_exit-ok env pid [] p = ground arith
wait_exit-ok env pid (poll ∷ polls) p = ground (arith, wait_exit-ok env pid polls p)

-- `StopProgram` of a running program marks it as stopped if it returns no error, and leaves it as it
-- was otherwise; any other program it leaves as it is, and sends no signal.
pub stop_found_lem :
    (env : StopEnv) (p : Program)
    → (is_program_running p.state ≡ false → stop_found env p ≡ (none, p, []))
      × (is_program_running p.state ≡ true
          → (stop_found env p).0 ≡ none
          → (stop_found env p).1 ≡ mark_stopped env.now p)
      × ((stop_found env p).0 ≢ none → (stop_found env p).1 ≡ p)
unfolding stop_found
stop_found_lem env p = ground (arith, wait_exit-ok env p.pid env.polls p)

-- The rounds of a wait saw the dependency healthy.
pub data SawHealthy : List Observation → Type 0 where
  here :
      {o : Observation} {rest : List Observation}
      → o.seen ≡ ProgramState.healthy
      → SawHealthy (o ∷ rest)
  there : {o : Observation} {rest : List Observation} → SawHealthy rest → SawHealthy (o ∷ rest)

is_healthy_sound : (s : ProgramState) → is_healthy s ≡ true → s ≡ ProgramState.healthy
is_healthy_sound s h = ground arith

wait_for_healthy-SawHealthy :
    (rounds : List Observation) → wait_for_healthy rounds ≡ none → SawHealthy rounds
unfolding wait_for_healthy
wait_for_healthy-SawHealthy [] h = absurd (ground arith)
wait_for_healthy-SawHealthy (o ∷ rest) h = elim (Bool-cases (is_healthy o.seen)) [
  | inl healthy ↦ SawHealthy.here (is_healthy_sound o.seen healthy)
  | inr unhealthy ↦ SawHealthy.there (wait_for_healthy-SawHealthy rest (ground arith))
]

-- Every dependency is a program of the manager, and was seen healthy.
abbrev pub AllHealthy : ProgramEnv → ProgramManager → List Bytes → Type 0
AllHealthy env m [] = Unit
AllHealthy env m (dep ∷ deps) =
    (get_program m dep ≢ none) × SawHealthy (env.observed dep) × AllHealthy env m deps

wait_deps-AllHealthy :
    (env : ProgramEnv) (m : ProgramManager) (name : Bytes) (deps : List Bytes)
    → wait_deps env m name deps ≡ none
    → AllHealthy env m deps
unfolding wait_deps
wait_deps-AllHealthy env m name [] h = tt
wait_deps-AllHealthy env m name (dep ∷ deps) h = (
  ground arith,
  wait_for_healthy-SawHealthy (env.observed dep) (ground arith),
  wait_deps-AllHealthy env m name deps (ground arith),
)

-- `StartProgram` starts no process before each dependency was seen healthy: when it changes the
-- recorded process of a program, all its dependencies were.
pub start_found-AllHealthy :
    (env : ProgramEnv) (m : ProgramManager) (p : Program)
    → (start_found env m p).1.cmd ≢ p.cmd
    → AllHealthy env m p.config.depends_on
unfolding start_found
start_found-AllHealthy env m p changed =
    wait_deps-AllHealthy env m p.name p.config.depends_on (ground arith)

-- A program with the restart flag that exits cleanly keeps its state, without its process, and if it
-- was running `StopProgram` then sends SIGTERM to process group 0, the supervisor's own.
pub program_exit-restart :
    (now : ℕ) (env : StopEnv) (p : Program)
    → is_program_running p.state ≡ true
    → let exited = program_exit now WaitResult.clean true p in
      (exited.state ≡ p.state)
      × (exited.cmd ≡ none)
      × ((stop_found env exited).2
          ≡ record { group = 0; signal = Signal.sigterm } ∷ (wait_exit env 0 env.polls exited).2)
unfolding program_exit stop_found
program_exit-restart now env p h = ground arith

-- A program that was stopped and whose process then reports a failure, as one that a signal ended
-- does, is marked as failed.
pub program_exit-mark_stopped :
    (now later : ℕ) (result : WaitResult) (restart : Bool) (p : Program)
    → is_zero (exit_code_of result) ≡ false
    → (program_exit later result restart (mark_stopped now p)).state ≡ ProgramState.failed
unfolding program_exit mark_stopped
program_exit-mark_stopped now later result restart p h = ground arith

health_loop-failing :
    (attempts : ℕ → Attempt) (retry attempt left : ℕ) (p : Program)
    → ((i : ℕ) → ((attempts i).cancelled ≡ false) × ((attempts i).succeeds ≡ false))
    → ((health_loop attempts retry attempt left p).1.state ≡ ProgramState.health_failed)
      × ((health_loop attempts retry attempt left p).1.pid ≡ p.pid)
unfolding health_loop
health_loop-failing attempts retry attempt zero p h = (refl, refl)
health_loop-failing attempts retry attempt (suc left) p h =
    ground (arith, h attempt, health_loop-failing attempts retry (suc attempt) left p h)

-- A health check that goes on failing after the process has exited makes the program count as running
-- again, with process id 0.
pub run_health_check-program_exit :
    (attempts : ℕ → Attempt) (now : ℕ) (result : WaitResult) (restart : Bool) (p : Program)
    → bytes_eq p.config.health_check [] ≡ false
    → ((i : ℕ) → ((attempts i).cancelled ≡ false) × ((attempts i).succeeds ≡ false))
    → let checked = (run_health_check attempts (program_exit now result restart p)).1 in
      (is_program_running checked.state ≡ true) × (checked.pid ≡ 0)
unfolding run_health_check program_exit
run_health_check-program_exit attempts now result restart p configured h =
    let exited = program_exit now result restart p in
    let retry = retries p.config.health_retry in
    ground (
      arith,
      health_loop-failing attempts retry 0 retry (record exited { health = HealthStatus.checking })
          h,
    )
