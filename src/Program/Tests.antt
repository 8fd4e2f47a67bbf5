-- ===== src/Program/Tests.antt =====
-- Runs of the program manager, and its theorems at concrete inputs.
use mathlib.Core.List.{Perm}
use a_kerno.Common.{
  ℕ, ◌≡◌, ◌≢◌, refl, Bytes, bytes_eq, bytes_less, text, List, [], ◌∷◌, some, none, true, false,
  arith, ok, err,
}
use a_kerno.Common.Int.{pos}
use a_kerno.Common.Assoc.{lookup, insert}
use a_kerno.Common.Sorting.{AllOf, sort, insert_sorted}
use a_kerno.Process.{StopEnv, Signal}
use a_kerno.Program.Types.{ProgramState, HealthStatus, ProgramConfig, Program, ProgramManager}
use a_kerno.Program.Resolve.{
  ResolveError, Graph, enabled_configs, add_edge, check_dependency, add_dependencies, add_programs,
  pick, release_dependents, release, kahn, resolve_groups, resolve_dependencies,
}
use a_kerno.Program.Resolve.Groups.{
  concat, Ranked, ProgramsChecked, resolve_groups_lem, kahn-ne-out_of_fuel,
}
use a_kerno.Program.Resolve.Counts.{total}
use a_kerno.Program.Resolve.Order.{InOrder}
use a_kerno.Program.Resolve.Edges.{resolve_groups-InOrder}
use a_kerno.Program.Lifecycle.{
  get_program, wait_for_healthy, ProgramEnv, wait_deps, record_process, spawn_program,
  delay_and_spawn, start_found, Attempt, WaitResult, program_exit, wait_exit, stop_found,
}
use a_kerno.Program.Manager.{new_program_manager}
use a_kerno.Program.Lifecycle.Exits.{AllHealthy, start_found-AllHealthy, program_exit-restart}

abbrev bar : ProgramConfig
bar = record {
  name = text "bar";
  exec = text "bar";
  phase = text "post";
  priority = pos 1;
  enabled = true;
  depends_on = text "net" ∷ [];
  start_delay = pos 0;
  health_check = text "true";
  health_timeout = pos 30;
  health_retry = pos 2;
  env = [];
  restart = true;
  source = text "ini";
}

abbrev net : ProgramConfig
net = record bar { name = text "net"; phase = text "early"; depends_on = []; health_check = [] }

abbrev app : ProgramConfig
app = record net { name = text "app"; phase = text "post" }

abbrev configs : List ProgramConfig
configs = bar ∷ net ∷ app ∷ []

abbrev groups : List (List (Bytes × ProgramConfig))
groups = ((text "net", net) ∷ (text "app", app) ∷ []) ∷ ((text "bar", bar) ∷ []) ∷ []

resolve_runs : resolve_groups configs ≡ ok groups
unfolding resolve_groups enabled_configs add_edge check_dependency add_dependencies add_programs
    pick release_dependents release kahn sort insert_sorted lookup insert bytes_eq bytes_less
resolve_runs = refl

cycle_runs :
    resolve_dependencies (
      new_program_manager
        (bar ∷ record net { depends_on = text "bar" ∷ []; phase = text "post" } ∷ []))
    ≡ err (ResolveError.cycle (text "bar" ∷ text "net" ∷ []))
unfolding resolve_dependencies new_program_manager resolve_groups enabled_configs add_edge
    check_dependency add_dependencies add_programs pick release_dependents release kahn sort
    insert_sorted lookup insert bytes_eq bytes_less
cycle_runs = refl

resolve_groups_lem_example :
    AllOf Ranked groups
    × Perm (concat groups) (enabled_configs configs [])
    × ProgramsChecked (enabled_configs configs []) (enabled_configs configs [])
resolve_groups_lem_example = resolve_groups_lem configs groups resolve_runs

abbrev no_edges : Graph
no_edges = record { dependents = []; in_degree = [] }

kahn-ne-out_of_fuel_example :
    kahn no_edges 1 [] ((text "bar", bar) ∷ []) ≢ err ResolveError.out_of_fuel
kahn-ne-out_of_fuel_example =
    kahn-ne-out_of_fuel no_edges 1 [] ((text "bar", bar) ∷ []) (omega arith)

abbrev bar_program : Program
bar_program = record {
  name = text "bar";
  config = bar;
  state = ProgramState.running;
  cmd = some 7;
  pid = 7;
  started_at = 1;
  finished_at = 0;
  exit_code = pos 0;
  health = HealthStatus.checking;
}

abbrev idle_bar : Program
idle_bar = record bar_program {
  state = ProgramState.pending;
  cmd = none;
  pid = 0;
  health = HealthStatus.unknown;
}

abbrev net_program : Program
net_program = record bar_program {
  name = text "net";
  config = net;
  state = ProgramState.healthy;
  pid = 5;
  cmd = some 5;
}

abbrev manager : ProgramManager
manager = record {
  configs = configs;
  programs = (text "bar", idle_bar) ∷ (text "net", net_program) ∷ [];
  killed = [];
}

abbrev system : ProgramEnv
system = record {
  observed = λ _.
      record { seen = ProgramState.starting; cancelled = false }
      ∷ record { seen = ProgramState.healthy; cancelled = false }
      ∷ [];
  delay_cancelled = false;
  spawned = some 8;
  now = 3;
}

abbrev stop_env : StopEnv
stop_env = record {
  polls = record { alive = true; cancelled = false } ∷ [];
  kill_fails = false;
  now = 9;
}

start_runs : (start_found system manager idle_bar).1.cmd ≡ some 8
unfolding start_found wait_deps get_program lookup bytes_eq wait_for_healthy delay_and_spawn
    spawn_program record_process
start_runs = refl

start_changes : (start_found system manager idle_bar).1.cmd ≢ none
start_changes = λ h. absurd (ground (arith, start_runs))

start_found-AllHealthy_example : AllHealthy system manager (text "net" ∷ [])
start_found-AllHealthy_example = start_found-AllHealthy system manager idle_bar start_changes

program_exit-restart_example :
    let exited = program_exit 4 WaitResult.clean true bar_program in
    (exited.state ≡ ProgramState.running)
    × (exited.cmd ≡ none)
    × ((stop_found stop_env exited).2
        ≡ record { group = 0; signal = Signal.sigterm }
          ∷ (wait_exit stop_env 0 stop_env.polls exited).2)
program_exit-restart_example = program_exit-restart 4 stop_env bar_program refl

abbrev failing : ℕ → Attempt
failing i = record { cancelled = false; succeeds = false }

resolve_groups-InOrder_example : InOrder groups
unfolding total
resolve_groups-InOrder_example = resolve_groups-InOrder configs groups resolve_runs
