-- ===== src/Program/Resolve.antt =====
-- `ResolveDependencies` of internal/program/manager.go: the checks of the dependencies and Kahn's algorithm.
-- A Go map is iterated in an unspecified order; here it is the order of insertion.
pub mod Counts
pub mod Groups
pub mod Degrees
pub mod Order
pub mod Edges
use a_kerno.Common.{
  ℕ, zero, suc, Bytes, bytes_eq, bytes_less, text, List, [], ◌∷◌, ◌++◌, Option, none, some, Bool,
  true, false, not, ◌&&◌, length, map, if◌then◌else◌, Result, ok, err, ◌>>=◌,
}
use a_kerno.Common.Int.{ℤ, pos, negsuc, ltb_ℤ, eqb_ℤ}
use a_kerno.Common.Assoc.{Assoc, lookup, insert}
use a_kerno.Common.Sorting.{sort}
use a_kerno.Program.Types.{ProgramConfig, ProgramManager}

abbrev pub phase_early : Bytes
phase_early = text "early"

abbrev pub phase_post : Bytes
phase_post = text "post"

pub data ResolveError : Type 0 where
  self_dependency : Bytes → ResolveError
  unknown_dependency early_on_post : Bytes → Bytes → ResolveError
  cycle : List Bytes → ResolveError
  -- Of the model alone: the rounds have run out.
  out_of_fuel : ResolveError

-- The enabled programs by name.
unfoldable pub enabled_configs : List ProgramConfig → Assoc ProgramConfig → Assoc ProgramConfig
enabled_configs [] enabled = enabled
enabled_configs (cfg ∷ configs) enabled =
    enabled_configs configs (if cfg.enabled then insert cfg.name cfg enabled else enabled)

-- `graph`: who depends on a program; `in_degree`: on how many of the remaining ones it depends.
pub record Graph : Type 0 where
  pub dependents : Assoc (List Bytes)
  pub in_degree : Assoc ℤ

abbrev pub plus_one : ℤ → ℤ
plus_one (pos n) = pos (suc n)
plus_one (negsuc zero) = pos zero
plus_one (negsuc (suc n)) = negsuc n

abbrev pub minus_one : ℤ → ℤ
minus_one (pos zero) = negsuc zero
minus_one (pos (suc n)) = pos n
minus_one (negsuc n) = negsuc (suc n)

-- A read of a missing key gives the zero value.
abbrev pub degree_of : Assoc ℤ → Bytes → ℤ
degree_of degrees name = elim (lookup name degrees) [ none ↦ pos 0 | some n ↦ n ]

abbrev pub dependents_of : Graph → Bytes → List Bytes
dependents_of g name = elim (lookup name g.dependents) [ none ↦ [] | some names ↦ names ]

unfoldable pub add_edge : Bytes → Bytes → Graph → Graph
add_edge dep name g = record {
  dependents = insert dep (dependents_of g dep ++ name ∷ []) g.dependents;
  in_degree = insert name (plus_one (degree_of g.in_degree name)) g.in_degree;
}

-- The three checks of one dependency.
unfoldable pub check_dependency :
    Assoc ProgramConfig → Bytes → ProgramConfig → Bytes → Result ResolveError Unit
check_dependency enabled name cfg dep =
    if bytes_eq dep name
    then err (ResolveError.self_dependency name)
    else elim (lookup dep enabled) [
      | none ↦ err (ResolveError.unknown_dependency name dep)
      | some dep_cfg ↦
          if bytes_eq cfg.phase phase_early && bytes_eq dep_cfg.phase phase_post
          then err (ResolveError.early_on_post name dep)
          else ok tt
    ]

unfoldable pub add_dependencies :
    Assoc ProgramConfig → Bytes → ProgramConfig → List Bytes → Graph → Result ResolveError Graph
add_dependencies enabled name cfg [] g = ok g
add_dependencies enabled name cfg (dep ∷ deps) g = check_dependency enabled name cfg dep >>= λ _.
    add_dependencies enabled name cfg deps (add_edge dep name g)

unfoldable pub add_programs :
    Assoc ProgramConfig → Assoc ProgramConfig → Graph → Result ResolveError Graph
add_programs enabled [] g = ok g
add_programs enabled ((name, cfg) ∷ rest) g =
    add_dependencies enabled name cfg cfg.depends_on g >>= add_programs enabled rest

-- Early programs first, then by priority, then by name.
abbrev pub cfg_before : ProgramConfig → ProgramConfig → Bool
cfg_before a b =
    let by_rest =
      if not (eqb_ℤ a.priority b.priority)
      then ltb_ℤ a.priority b.priority
      else bytes_less a.name b.name in
    if not (bytes_eq a.phase b.phase)
    then (if bytes_eq a.phase phase_early
        then true
        else if bytes_eq b.phase phase_early
        then false
        else by_rest)
    else by_rest

-- The remaining programs that depend on none of the others, and the rest.
unfoldable pub pick : Bool → Assoc ℤ → List (Bytes × ProgramConfig) → List (Bytes × ProgramConfig)
pick wanted degrees [] = []
pick wanted degrees (program ∷ remaining) =
    let rest = pick wanted degrees remaining in
    let free = eqb_ℤ (degree_of degrees program.0) (pos 0) in
    if (if wanted then free else not free) then program ∷ rest else rest

unfoldable pub release_dependents : List Bytes → Assoc ℤ → Assoc ℤ
release_dependents [] degrees = degrees
release_dependents (name ∷ names) degrees =
    release_dependents names (insert name (minus_one (degree_of degrees name)) degrees)

unfoldable pub release : Graph → List (Bytes × ProgramConfig) → Assoc ℤ → Assoc ℤ
unfolding release_dependents
release g [] degrees = degrees
release g ((name, _) ∷ ready) degrees =
    release g ready (release_dependents (dependents_of g name) degrees)

abbrev pub before : Bytes × ProgramConfig → Bytes × ProgramConfig → Bool
before a b = cfg_before a.1 b.1

abbrev pub names_of : List (Bytes × ProgramConfig) → List Bytes
names_of programs = map (λ program. program.0) programs

abbrev pub is_empty {ℓ} : {A : Type ℓ} → List A → Bool
is_empty [] = true
is_empty (x ∷ xs) = false

-- The rounds of Kahn's algorithm. Each takes a program out of `remaining`, so that as many rounds
-- as programs are enough.
unfoldable pub kahn :
    Graph
    → ℕ
    → Assoc ℤ
    → List (Bytes × ProgramConfig)
    → Result ResolveError (List (List (Bytes × ProgramConfig)))
kahn g rounds degrees [] = ok []
kahn g zero degrees (p ∷ ps) = err ResolveError.out_of_fuel
kahn g (suc rounds) degrees (p ∷ ps) =
    let ready = sort before (pick true degrees (p ∷ ps)) in
    let rest = kahn g rounds (release g ready degrees) (pick false degrees (p ∷ ps)) in
    if is_empty ready
    then err (ResolveError.cycle (names_of (p ∷ ps)))
    else rest >>= λ groups. ok (ready ∷ groups)

-- The start groups, each name with its configuration.
unfoldable pub resolve_groups :
    List ProgramConfig → Result ResolveError (List (List (Bytes × ProgramConfig)))
resolve_groups configs =
    let enabled = enabled_configs configs [] in
    add_programs enabled enabled (record { dependents = []; in_degree = [] }) >>= λ g.
    kahn g (length enabled) g.in_degree enabled

-- `ResolveDependencies`
unfoldable pub resolve_dependencies : ProgramManager → Result ResolveError (List (List Bytes))
unfolding resolve_groups
resolve_dependencies m = resolve_groups m.configs >>= λ groups. ok (map names_of groups)
