-- ===== src/Program/Resolve/Groups.antt =====
-- What `ResolveDependencies` of internal/program/manager.go returns: groups that hold each enabled program
-- once, in order, with checked dependencies; and as many rounds as programs are enough.
use mathlib.Core.Path.{subst}
use mathlib.Core.List.{Perm, perm_middle}
use mathlib.Core.List.Perm
use a_kerno.Common.{
  ℕ, zero, suc, ◌≤◌, ◌<◌, ◌+◌, ◌≡◌, ◌≢◌, refl, Bytes, bytes_eq, bytes_eq_iff, bytes_less,
  bytes_less_asym, List, [], ◌∷◌, ◌++◌, true, false, length, arith, some, Bool-cases, Option-cases,
  inl, inr, Result, ok, err, ◌>>=◌,
}
use a_kerno.Common.Int.{ℤ, pos, eqb_ℤ, ltb_ℤ}
use a_kerno.Common.Assoc.{Assoc, lookup}
use a_kerno.Common.Sorting.{AllOf, sort, insert_sorted, IsSorted, sort-perm, sort-IsSorted}
use a_kerno.Program.Types.{ProgramConfig}
use a_kerno.Program.Resolve.{
  ResolveError, Graph, enabled_configs, phase_early, phase_post, add_edge, check_dependency,
  add_dependencies, add_programs, cfg_before, before, degree_of, pick, release, is_empty, kahn,
  resolve_groups,
}

abbrev pub concat {ℓ} : {A : Type ℓ} → List (List A) → List A
concat [] = []
concat (xs ∷ xss) = xs ++ concat xss

abbrev pub AllSorted : List (List (Bytes × ProgramConfig)) → Type 0
AllSorted [] = Unit
AllSorted (g ∷ gs) = IsSorted before g × AllSorted gs

pub cfg_before_asym : (a b : ProgramConfig) → cfg_before a b ≡ true → cfg_before b a ≡ false
cfg_before_asym a b h = ground (
  arith,
  bytes_eq_iff a.phase b.phase,
  bytes_eq_iff b.phase a.phase,
  bytes_eq_iff a.phase phase_early,
  bytes_eq_iff b.phase phase_early,
  bytes_less_asym a.name b.name,
)

pick-perm :
    (degrees : Assoc ℤ) (ps : List (Bytes × ProgramConfig))
    → Perm (pick true degrees ps ++ pick false degrees ps) ps
unfolding pick
pick-perm degrees [] = Perm.refl []
pick-perm degrees (p ∷ ps) = elim (Bool-cases (eqb_ℤ (degree_of degrees p.0) (pos 0))) [
  | inl free ↦ rw free (Perm.cons p (pick-perm degrees ps))
  | inr bound ↦ rw bound (
      Perm.trans (perm_middle (pick true degrees ps) (pick false degrees ps))
        (Perm.cons p (pick-perm degrees ps)))
]

pub ok-bind :
    {E A B : Type 0} (r : Result E A) (f : A → Result E B) (b : B)
    → (r >>= f) ≡ ok b
    → (a : A) × (r ≡ ok a) × (f a ≡ ok b)
ok-bind (ok a) f b h = (a, refl, h)
ok-bind (err e) f b h = absurd (ground arith)

abbrev Grouped : List (Bytes × ProgramConfig) → List (List (Bytes × ProgramConfig)) → Type 0
Grouped ps groups = AllSorted groups × Perm (concat groups) ps

kahn-Grouped :
    (g : Graph) (rounds : ℕ) (degrees : Assoc ℤ) (ps : List (Bytes × ProgramConfig))
    (groups : List (List (Bytes × ProgramConfig)))
    → kahn g rounds degrees ps ≡ ok groups
    → Grouped ps groups
unfolding kahn
kahn-Grouped g rounds degrees [] groups h =
    subst (Grouped []) {x = []} {y = groups} (ground arith) (tt, Perm.refl [])
kahn-Grouped g zero degrees (p ∷ ps) groups h = absurd (ground arith)
kahn-Grouped g (suc rounds) degrees (p ∷ ps) groups h =
    let free = pick true degrees (p ∷ ps) in
    let left = pick false degrees (p ∷ ps) in
    let ready = sort before free in
    elim (Bool-cases (is_empty ready)) [
      | inl nothing ↦ absurd (ground arith)
      | inr something ↦
          let (rest, done, same) =
            ok-bind (kahn g rounds (release g ready degrees) left) (λ gs. ok (ready ∷ gs)) groups
              (rw something at h) in
          let (sorted, perm) = kahn-Grouped g rounds (release g ready degrees) left rest done in
          subst (Grouped (p ∷ ps)) {x = ready ∷ rest} {y = groups} (ground arith) (
            (sort-IsSorted before (λ a b. cfg_before_asym a.1 b.1) free, sorted),
            Perm.trans (Perm.append (sort-perm before free) perm) (pick-perm degrees (p ∷ ps)),
          )
    ]

-- Early programs stand first, then those of lower priority numbers, then by name.
pub record InRank (a b : ProgramConfig) : Type 0 where
  pub by_phase : b.phase ≡ phase_early → a.phase ≡ phase_early
  pub by_priority :
      bytes_eq a.phase phase_early ≡ bytes_eq b.phase phase_early
      → ltb_ℤ b.priority a.priority ≡ false
  pub by_name :
      bytes_eq a.phase phase_early ≡ bytes_eq b.phase phase_early
      → eqb_ℤ a.priority b.priority ≡ true
      → bytes_less b.name a.name ≡ false

abbrev pub Ranked : List (Bytes × ProgramConfig) → Type 0
Ranked [] = Unit
Ranked (x ∷ []) = Unit
Ranked (x ∷ y ∷ ps) = InRank x.1 y.1 × Ranked (y ∷ ps)

cfg_before-InRank : (a b : ProgramConfig) → cfg_before b a ≡ false → InRank a b
cfg_before-InRank a b h =
    let same = bytes_eq_iff b.phase a.phase in
    let early_a = bytes_eq_iff a.phase phase_early in
    let early_b = bytes_eq_iff b.phase phase_early in
    record {
      by_phase = λ e. ground (arith, h, e, same, early_a, early_b);
      by_priority = λ e. ground (arith, h, e, same, early_a, early_b);
      by_name = λ e p. ground (arith, h, e, p, same, early_a, early_b);
    }

IsSorted-Ranked : (ps : List (Bytes × ProgramConfig)) → IsSorted before ps → Ranked ps
IsSorted-Ranked [] h = tt
IsSorted-Ranked (x ∷ []) h = tt
IsSorted-Ranked (x ∷ y ∷ ps) h = (cfg_before-InRank x.1 y.1 h.0, IsSorted-Ranked (y ∷ ps) h.1)

abbrev pub AllInRank : List ProgramConfig → Type 0
AllInRank [] = Unit
AllInRank (a ∷ []) = Unit
AllInRank (a ∷ b ∷ cfgs) = InRank a b × AllInRank (b ∷ cfgs)

pub IsSorted-AllInRank : (cfgs : List ProgramConfig) → IsSorted cfg_before cfgs → AllInRank cfgs
IsSorted-AllInRank [] h = tt
IsSorted-AllInRank (a ∷ []) h = tt
IsSorted-AllInRank (a ∷ b ∷ cfgs) h = (cfg_before-InRank a b h.0, IsSorted-AllInRank (b ∷ cfgs) h.1)

AllSorted-Ranked :
    (groups : List (List (Bytes × ProgramConfig))) → AllSorted groups → AllOf Ranked groups
AllSorted-Ranked [] h = tt
AllSorted-Ranked (g ∷ gs) h = (IsSorted-Ranked g h.0, AllSorted-Ranked gs h.1)

-- A dependency of a program is another enabled program, and not a post program of an early one.
pub record IsSound (enabled : Assoc ProgramConfig) (name : Bytes) (cfg : ProgramConfig)
    (dep : Bytes) : Type 0 where
  pub other : dep ≢ name
  pub config : ProgramConfig
  pub found : lookup dep enabled ≡ some config
  pub phases : cfg.phase ≡ phase_early → config.phase ≢ phase_post

check_dependency-IsSound :
    (enabled : Assoc ProgramConfig) (name : Bytes) (cfg : ProgramConfig) (dep : Bytes)
    → check_dependency enabled name cfg dep ≡ ok tt
    → IsSound enabled name cfg dep
unfolding check_dependency
check_dependency-IsSound enabled name cfg dep h = elim (Option-cases (lookup dep enabled)) [
  | inl missing ↦ absurd (ground (arith, missing))
  | inr (config, found) ↦ record {
    other = λ same. ground (arith, h, (bytes_eq_iff dep name).1 same);
    config = config;
    found = found;
    phases = λ early post. ground (
      arith,
      h,
      found,
      (bytes_eq_iff cfg.phase phase_early).1 early,
      (bytes_eq_iff config.phase phase_post).1 post,
    );
  }
]

-- Every dependency of every program is sound.
abbrev pub AllChecked : Assoc ProgramConfig → Bytes → ProgramConfig → List Bytes → Type 0
AllChecked enabled name cfg [] = Unit
AllChecked enabled name cfg (dep ∷ deps) =
    IsSound enabled name cfg dep × AllChecked enabled name cfg deps

abbrev pub ProgramsChecked : Assoc ProgramConfig → Assoc ProgramConfig → Type 0
ProgramsChecked enabled [] = Unit
ProgramsChecked enabled ((name, cfg) ∷ ps) =
    AllChecked enabled name cfg cfg.depends_on × ProgramsChecked enabled ps

add_dependencies-AllChecked :
    (enabled : Assoc ProgramConfig) (name : Bytes) (cfg : ProgramConfig) (deps : List Bytes)
    (g g' : Graph)
    → add_dependencies enabled name cfg deps g ≡ ok g'
    → AllChecked enabled name cfg deps
unfolding add_dependencies
add_dependencies-AllChecked enabled name cfg [] g g' h = tt
add_dependencies-AllChecked enabled name cfg (dep ∷ deps) g g' h =
    let (_, passed, rest) = ok-bind (check_dependency enabled name cfg dep) _ g' h in
    (
      check_dependency-IsSound enabled name cfg dep passed,
      add_dependencies-AllChecked enabled name cfg deps (add_edge dep name g) g' rest,
    )

add_programs-ProgramsChecked :
    (enabled ps : Assoc ProgramConfig) (g g' : Graph)
    → add_programs enabled ps g ≡ ok g'
    → ProgramsChecked enabled ps
unfolding add_programs
add_programs-ProgramsChecked enabled [] g g' h = tt
add_programs-ProgramsChecked enabled ((name, cfg) ∷ ps) g g' h =
    let (g₁, added, rest) = ok-bind (add_dependencies enabled name cfg cfg.depends_on g) _ g' h in
    (
      add_dependencies-AllChecked enabled name cfg cfg.depends_on g g₁ added,
      add_programs-ProgramsChecked enabled ps g₁ g' rest,
    )

-- If `ResolveDependencies` returns groups, each holds early programs first, then those with lower priority
-- numbers, then by name; together they hold each enabled program exactly once; and no program depends on itself,
-- on one that is not enabled, or, as an early one, on a post program.
pub resolve_groups_lem :
    (configs : List ProgramConfig) (groups : List (List (Bytes × ProgramConfig)))
    → resolve_groups configs ≡ ok groups
    → AllOf Ranked groups
      × Perm (concat groups) (enabled_configs configs [])
      × ProgramsChecked (enabled_configs configs []) (enabled_configs configs [])
unfolding resolve_groups
resolve_groups_lem configs groups h =
    let enabled = enabled_configs configs [] in
    let (g, checked, done) = ok-bind (add_programs enabled enabled _) _ groups h in
    let (sorted, perm) = kahn-Grouped g (length enabled) g.in_degree enabled groups done in
    (AllSorted-Ranked groups sorted, perm, add_programs-ProgramsChecked enabled enabled _ g checked)

pick-length :
    (degrees : Assoc ℤ) (ps : List (Bytes × ProgramConfig))
    → length (pick true degrees ps) + length (pick false degrees ps) ≡ length ps
unfolding pick
pick-length degrees [] = refl
pick-length degrees (p ∷ ps) = ground (arith, pick-length degrees ps)

insert_sorted-ne-nil :
    (x : Bytes × ProgramConfig) (ys : List (Bytes × ProgramConfig))
    → is_empty (insert_sorted before x ys) ≡ false
unfolding insert_sorted
insert_sorted-ne-nil x [] = refl
insert_sorted-ne-nil x (y ∷ ys) = ground arith

sort-nonempty :
    (xs : List (Bytes × ProgramConfig)) → is_empty (sort before xs) ≡ false → 0 < length xs
unfolding sort
sort-nonempty [] h = absurd (ground arith)
sort-nonempty (x ∷ xs) h = omega arith

bind-ne-out_of_fuel :
    {A B : Type 0} (r : Result ResolveError A) (f : A → B)
    → r ≢ err ResolveError.out_of_fuel
    → (r >>= λ a. ok (f a)) ≢ err ResolveError.out_of_fuel
bind-ne-out_of_fuel (ok a) f ne = ground arith
bind-ne-out_of_fuel (err e) f ne = λ h. ne (ground arith)

-- With as many rounds as programs remain, Kahn's algorithm returns groups or an error of the source,
-- never for a lack of rounds.
pub kahn-ne-out_of_fuel :
    (g : Graph) (rounds : ℕ) (degrees : Assoc ℤ) (ps : List (Bytes × ProgramConfig))
    → length ps ≤ rounds
    → kahn g rounds degrees ps ≢ err ResolveError.out_of_fuel
unfolding kahn
kahn-ne-out_of_fuel g rounds degrees [] enough = ground arith
kahn-ne-out_of_fuel g zero degrees (p ∷ ps) enough = absurd (omega arith)
kahn-ne-out_of_fuel g (suc rounds) degrees (p ∷ ps) enough =
    let free = pick true degrees (p ∷ ps) in
    let left = pick false degrees (p ∷ ps) in
    let ready = sort before free in
    elim (Bool-cases (is_empty ready)) [
      | inl nothing ↦ rw nothing (λ h. absurd (ground arith))
      | inr something ↦ rw something (
          bind-ne-out_of_fuel (kahn g rounds (release g ready degrees) left) (λ gs. ready ∷ gs)
            (kahn-ne-out_of_fuel g rounds (release g ready degrees) left
              (omega (arith, pick-length degrees (p ∷ ps), sort-nonempty free something))))
    ]
