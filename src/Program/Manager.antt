-- ===== src/Program/Manager.antt =====
-- internal/program/manager.go: the operations of `ProgramManager` on its map of programs.
-- The goroutines of one group touch different programs; they run here one after the other.
use a_kerno.Common.{
  ℕ, suc, Bytes, bytes_eq, List, [], ◌∷◌, ◌++◌, Option, none, some, Bool, false, ◌&&◌, ◌||◌,
  if◌then◌else◌, ok, err, map,
}
use a_kerno.Common.Int.{pos, is_positive}
use a_kerno.Common.Assoc.{Assoc, insert}
use a_kerno.Process.{StopEnv, Sent}
use a_kerno.Program.Types.{
  ProgramState, HealthStatus, ProgramConfig, Program, ProgramManager, is_program_running,
}
use a_kerno.Program.Resolve.{ResolveError, resolve_dependencies, phase_post, phase_early, is_empty}
use a_kerno.Program.Lifecycle.{
  get_program, ProgramError, ProgramEnv, is_up_or_starting, is_off, wait_deps, start_found,
  StopProgramError, stop_found,
}

unfoldable pub new_program : ProgramConfig → Program
new_program pc = record {
  name = pc.name;
  config = pc;
  state = if pc.enabled then ProgramState.pending else ProgramState.disabled;
  cmd = none;
  pid = 0;
  started_at = 0;
  finished_at = 0;
  exit_code = pos 0;
  health = HealthStatus.unknown;
}

unfoldable pub add_new_programs : List ProgramConfig → Assoc Program → Assoc Program
unfolding new_program
add_new_programs [] programs = programs
add_new_programs (pc ∷ configs) programs =
    add_new_programs configs (insert pc.name (new_program pc) programs)

-- `NewProgramManager`
unfoldable pub new_program_manager : List ProgramConfig → ProgramManager
unfolding add_new_programs
new_program_manager configs = record {
  configs = configs;
  programs = add_new_programs configs [];
  killed = [];
}

-- `List`
unfoldable pub list_programs : ProgramManager → List Program
list_programs m = map (λ entry. entry.1) m.programs

abbrev pub put_program : Bytes → ProgramManager → Program → ProgramManager
put_program name m p = record m { programs = insert name p m.programs }

-- `StartProgram`
unfoldable pub start_program :
    ProgramEnv → Bytes → ProgramManager → Option ProgramError × ProgramManager
start_program env name m = elim (get_program m name) [
  | none ↦ (some (ProgramError.not_found name), m)
  | some p ↦ let (e, p') = start_found env m p in (e, put_program name m p')
]

-- `phasePrograms`: the enabled programs of a phase.
unfoldable pub phase_programs : Bytes → Assoc Program → List Bytes
phase_programs phase [] = []
phase_programs phase ((name, p) ∷ programs) =
    let rest = phase_programs phase programs in
    let own =
      bytes_eq p.config.phase phase || (bytes_eq phase phase_post && bytes_eq p.config.phase []) in
    if own && p.config.enabled then name ∷ rest else rest

unfoldable pub has_name : List Bytes → Bytes → Bool
has_name [] name = false
has_name (other ∷ names) name = bytes_eq other name || has_name names name

-- `toStart`: the names of a group that belong to the phase.
unfoldable pub names_to_start : List Bytes → List Bytes → List Bytes
names_to_start members [] = []
names_to_start members (name ∷ group) =
    let rest = names_to_start members group in if has_name members name then name ∷ rest else rest

-- The process that `StartProgram` starts, if it comes to that.
unfoldable pub started_process : ProgramEnv → ProgramManager → Option Program → Option ℕ
started_process env m none = none
started_process env m (some p) =
    if is_up_or_starting p.state
    then none
    else if is_off p.state
    then none
    else elim (wait_deps env m p.name p.config.depends_on) [
      | some failure ↦ none
      | none ↦ if is_positive p.config.start_delay && env.delay_cancelled then none else env.spawned
    ]

-- The context that a process was started with is cancelled: `exec.CommandContext` kills the process.
abbrev pub context_ends : Option ℕ → ProgramManager → ProgramManager
context_ends none m = m
context_ends (some pid) m = record m { killed = pid ∷ m.killed }

-- The goroutines of one group, all of which run; the error that `Wait` returns is the first.
-- The context of the group is cancelled when `Wait` returns.
unfoldable pub start_names :
    (Bytes → ProgramEnv) → List Bytes → ProgramManager → Option ProgramError × ProgramManager
start_names env [] m = (none, m)
start_names env (name ∷ names) m =
    let (e, m₁) = start_program (env name) name m in
    let started = started_process (env name) m (get_program m name) in
    let (rest, m₂) = start_names env names (context_ends started m₁) in
    (elim e [ none ↦ rest | some failure ↦ some failure ], m₂)

pub data PhaseError : Type 0 where
  unresolved : ResolveError → PhaseError
  cancelled : PhaseError
  group_failed : ℕ → ProgramError → PhaseError

abbrev after_names :
    ℕ
    → Option ProgramError
    → ProgramManager
    → Option PhaseError × ProgramManager
    → Option PhaseError × ProgramManager
after_names index none m rest = rest
after_names index (some failure) m rest = (some (PhaseError.group_failed index failure), m)

-- The groups in order, the next one having the number `index`; `is_done` says at which of them the
-- context is done.
unfoldable pub start_program_groups :
    (Bytes → ProgramEnv)
    → (ℕ → Bool)
    → List Bytes
    → ℕ
    → List (List Bytes)
    → ProgramManager
    → Option PhaseError × ProgramManager
unfolding names_to_start
start_program_groups env is_done members index [] m = (none, m)
start_program_groups env is_done members index (group ∷ groups) m =
    let (e, m') = start_names env (names_to_start members group) m in
    let rest = start_program_groups env is_done members (suc index) groups m' in
    if is_done index then (some PhaseError.cancelled, m) else after_names index e m' rest

-- `StartPhase`
unfoldable pub start_phase :
    (Bytes → ProgramEnv) → (ℕ → Bool) → Bytes → ProgramManager → Option PhaseError × ProgramManager
unfolding phase_programs start_program_groups
start_phase env is_done phase m = elim (resolve_dependencies m) [
  | err e ↦ (some (PhaseError.unresolved e), m)
  | ok groups ↦
      let members = phase_programs phase m.programs in
      if is_empty members then (none, m) else start_program_groups env is_done members 0 groups m
]

-- `StopProgram`, if no writer asks for the lock of the program between its two read locks: where one does, the
-- caller waits for ever, which Server/Connection/Turns has as the mode `stuck`.
unfoldable pub stop_program :
    StopEnv → Bytes → ProgramManager → Option StopProgramError × ProgramManager × List Sent
stop_program env name m = elim (get_program m name) [
  | none ↦ (some (StopProgramError.not_found name), m, [])
  | some p ↦ let (e, p', sent) = stop_found env p in (e, put_program name m p', sent)
]

-- The names that `StopPhase` collects.
unfoldable pub running_in_phase : Bytes → Assoc Program → List Bytes
running_in_phase phase [] = []
running_in_phase phase ((name, p) ∷ programs) =
    let rest = running_in_phase phase programs in
    let own = if bytes_eq p.config.phase [] then phase_post else p.config.phase in
    if is_program_running p.state && bytes_eq own phase then name ∷ rest else rest

-- The loop of `StopPhase`: errors are logged.
unfoldable pub stop_names :
    (Bytes → StopEnv) → List Bytes → ProgramManager → ProgramManager × List Sent
stop_names env [] m = (m, [])
stop_names env (name ∷ names) m =
    let (_, m₁, sent) = stop_program (env name) name m in
    let (m₂, later) = stop_names env names m₁ in (m₂, sent ++ later)

-- `StopPhase`
unfoldable pub stop_phase : (Bytes → StopEnv) → Bytes → ProgramManager → ProgramManager × List Sent
unfolding running_in_phase stop_names
stop_phase env phase m = stop_names env (running_in_phase phase m.programs) m

-- `StopAll`
unfoldable pub stop_all_programs : (Bytes → StopEnv) → ProgramManager → ProgramManager × List Sent
unfolding stop_phase
stop_all_programs env m =
    let (m₁, sent) = stop_phase env phase_post m in
    let (m₂, later) = stop_phase env phase_early m₁ in (m₂, sent ++ later)
