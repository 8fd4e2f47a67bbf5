-- ===== src/Program/Resolve/Edges.antt =====
-- The graph that `ResolveDependencies` of internal/program/manager.go builds: its degrees count its edges, and
-- each dependency of an enabled program is one of them.
use mathlib.Core.Path.{subst}
use a_kerno.Common.{
  ap, ◌∙◌, ◌≤◌, ◌<◌, ◌≡◌, refl, Bytes, bytes_eq, bytes_eq_iff, bytes_eq_refl, List, [], ◌∷◌, some,
  Bool, true, false, arith, if◌then◌else◌, Bool-cases, Option-cases, inl, inr, length, ok,
}
use a_kerno.Common.Int.{pos}
use a_kerno.Common.Assoc.{Assoc, lookup, insert, HasDistinctKeys, insert-HasDistinctKeys}
use a_kerno.Program.Types.{ProgramConfig}
use a_kerno.Program.Resolve.{
  Graph, degree_of, plus_one, add_edge, enabled_configs, check_dependency, add_dependencies,
  add_programs, resolve_groups,
}
use a_kerno.Program.Resolve.Counts.{
  total, total-ext, total-one_more, total-found, count, edges_to, edges_to-add_edge,
}
use a_kerno.Program.Resolve.Groups.{ok-bind}
use a_kerno.Program.Resolve.Degrees.{Counts, plus_one-pos, degree_of-insert}
use a_kerno.Program.Resolve.Order.{HasEdges, AllEdges, InOrder, kahn-InOrder}

if-HasDistinctKeys :
    (test : Bool) (cfg : ProgramConfig) (m : Assoc ProgramConfig)
    → HasDistinctKeys m
    → HasDistinctKeys (if test then insert cfg.name cfg m else m)
if-HasDistinctKeys true cfg m h = insert-HasDistinctKeys cfg.name cfg m h
if-HasDistinctKeys false cfg m h = h

enabled_configs-HasDistinctKeys :
    (configs : List ProgramConfig) (m : Assoc ProgramConfig)
    → HasDistinctKeys m
    → HasDistinctKeys (enabled_configs configs m)
unfolding enabled_configs
enabled_configs-HasDistinctKeys [] m h = h
enabled_configs-HasDistinctKeys (cfg ∷ configs) m h =
    enabled_configs-HasDistinctKeys configs (if cfg.enabled then insert cfg.name cfg m else m)
      (if-HasDistinctKeys cfg.enabled cfg m h)

module _ (enabled : Assoc ProgramConfig) (distinct : HasDistinctKeys enabled) where
  add_edge-Counts :
      (dep name : Bytes) (cfg : ProgramConfig) (g : Graph)
      → lookup dep enabled ≡ some cfg
      → Counts g g.in_degree enabled
      → Counts (add_edge dep name g) (add_edge dep name g).in_degree enabled
  unfolding add_edge Counts
  add_edge-Counts dep name cfg g found counts n =
      let f = edges_to g n in
      let h = edges_to (add_edge dep name g) n in
      let z = plus_one (degree_of g.in_degree name) in
      degree_of-insert name n z g.in_degree ∙ elim (Bool-cases (bytes_eq name n)) [
        | inl same ↦ rw same (
            plus_one-pos (total f enabled) (degree_of g.in_degree name)
              (ap (degree_of g.in_degree) ((bytes_eq_iff name n).0 same) ∙ counts n)
            ∙ ap pos (
                omega (
                  arith,
                  total-one_more f h dep enabled
                      (λ d. ground (arith, same, edges_to-add_edge dep name n d g)),
                  total-found dep enabled cfg distinct found,
                )))
        | inr differ ↦ rw differ (
            counts n
            ∙ ap pos (
                total-ext f h enabled
                  (λ d. ground (arith, differ, edges_to-add_edge dep name n d g))))
      ]

-- The second graph has the edges of the first.
Extends : Graph → Graph → Type 0
Extends g g' = (n d : Bytes) → edges_to g n d ≤ edges_to g' n d

check_dependency-found :
    (enabled : Assoc ProgramConfig) (name : Bytes) (cfg : ProgramConfig) (dep : Bytes)
    → check_dependency enabled name cfg dep ≡ ok tt
    → (c : ProgramConfig) × (lookup dep enabled ≡ some c)
unfolding check_dependency
check_dependency-found enabled name cfg dep h = elim (Option-cases (lookup dep enabled)) [
  | inl missing ↦ absurd (ground (arith, missing))
  | inr found ↦ found
]

HasEdges-Extends :
    (g g' : Graph) (name : Bytes) (deps : List Bytes)
    → Extends g g'
    → HasEdges g name deps
    → HasEdges g' name deps
unfolding Extends
HasEdges-Extends g g' name [] ext edges = tt
HasEdges-Extends g g' name (dep ∷ deps) ext edges =
    (omega (arith, ext name dep, edges.0), HasEdges-Extends g g' name deps ext edges.1)

add_edge-Extends : (dep name : Bytes) (g : Graph) → Extends g (add_edge dep name g)
unfolding Extends
add_edge-Extends dep name g n d = ground (arith, edges_to-add_edge dep name n d g)

add_edge-new : (dep name : Bytes) (g : Graph) → 0 < edges_to (add_edge dep name g) name dep
add_edge-new dep name g =
    ground (arith, edges_to-add_edge dep name name dep g, bytes_eq_refl dep, bytes_eq_refl name)

trans-Extends : (g g' g'' : Graph) → Extends g g' → Extends g' g'' → Extends g g''
unfolding Extends
trans-Extends g g' g'' a b n d = omega (arith, a n d, b n d)

module _ (enabled : Assoc ProgramConfig) (distinct : HasDistinctKeys enabled) where
  add_dependencies-edges :
      (name : Bytes) (cfg : ProgramConfig) (deps : List Bytes) (g g' : Graph)
      → Counts g g.in_degree enabled
      → add_dependencies enabled name cfg deps g ≡ ok g'
      → Counts g' g'.in_degree enabled × Extends g g' × HasEdges g' name deps
  unfolding add_dependencies Extends
  add_dependencies-edges name cfg [] g g' counts h =
      let e : g ≡ g' = ground arith in
      (
        subst (λ k. Counts k k.in_degree enabled) e counts,
        subst (λ k. Extends g k) e (λ n d. omega arith),
        tt,
      )
  add_dependencies-edges name cfg (dep ∷ deps) g g' counts h =
      let (_, passed, rest) = ok-bind (check_dependency enabled name cfg dep) _ g' h in
      let (c, found) = check_dependency-found enabled name cfg dep passed in
      let g₁ = add_edge dep name g in
      let (counts', ext, edges) =
        add_dependencies-edges name cfg deps g₁ g'
          (add_edge-Counts enabled distinct dep name c g found counts) rest in
      (
        counts',
        trans-Extends g g₁ g' (add_edge-Extends dep name g) ext,
        (omega (arith, ext name dep, add_edge-new dep name g), edges),
      )

  add_programs-edges :
      (ps : Assoc ProgramConfig) (g g' : Graph)
      → Counts g g.in_degree enabled
      → add_programs enabled ps g ≡ ok g'
      → Counts g' g'.in_degree enabled × Extends g g' × AllEdges g' ps
  unfolding add_programs Extends
  add_programs-edges [] g g' counts h =
      let e : g ≡ g' = ground arith in
      (
        subst (λ k. Counts k k.in_degree enabled) e counts,
        subst (λ k. Extends g k) e (λ n d. omega arith),
        tt,
      )
  add_programs-edges ((name, cfg) ∷ ps) g g' counts h =
      let (g₁, added, rest) = ok-bind (add_dependencies enabled name cfg cfg.depends_on g) _ g' h in
      let (counts₁, ext₁, edges₁) =
        add_dependencies-edges name cfg cfg.depends_on g g₁ counts added in
      let (counts', ext, edges) = add_programs-edges ps g₁ g' counts₁ rest in
      (
        counts',
        trans-Extends g g₁ g' ext₁ ext,
        (HasEdges-Extends g₁ g' name cfg.depends_on ext edges₁, edges),
      )

no_edges-Counts :
    (ps : Assoc ProgramConfig) → Counts (record { dependents = []; in_degree = [] }) [] ps
unfolding Counts total count lookup
no_edges-Counts [] n = refl
no_edges-Counts (p ∷ ps) n = no_edges-Counts ps n ∙ ap pos (omega arith)

-- If `ResolveDependencies` returns groups, no program depends on one of its own group or of a later one.
pub resolve_groups-InOrder :
    (configs : List ProgramConfig) (groups : List (List (Bytes × ProgramConfig)))
    → resolve_groups configs ≡ ok groups
    → InOrder groups
unfolding resolve_groups
resolve_groups-InOrder configs groups h =
    let enabled = enabled_configs configs [] in
    let none_yet : Graph = record { dependents = []; in_degree = [] } in
    let (g, built, done) = ok-bind (add_programs enabled enabled none_yet) _ groups h in
    let (counts, _, edges) =
      add_programs-edges enabled (enabled_configs-HasDistinctKeys configs [] tt) enabled none_yet g
        (no_edges-Counts enabled) built in
    (kahn-InOrder g (length enabled) g.in_degree enabled groups counts edges done).0
