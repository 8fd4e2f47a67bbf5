-- ===== src/Program/Resolve/Order.antt =====
-- Kahn's algorithm in `ResolveDependencies` of internal/program/manager.go starts a program only after all
-- that it depends on.
use mathlib.Core.Path.{subst}
use a_kerno.Common.{
  sym, ◌∙◌, ℕ, zero, suc, ◌<◌, ◌≡◌, refl, Bytes, List, [], ◌∷◌, ◌++◌, Bool, true, false, not, arith,
  if◌then◌else◌, Bool-cases, inl, inr, ok,
}
use a_kerno.Common.Int.{ℤ, pos, eqb_ℤ, eqb_ℤ_sound}
use a_kerno.Common.Assoc.{Assoc}
use a_kerno.Common.Sorting.{sort, insert_sorted}
use a_kerno.Program.Types.{ProgramConfig}
use a_kerno.Program.Resolve.{Graph, before, degree_of, pick, release, kahn, is_empty}
use a_kerno.Program.Resolve.Counts.{
  total, total-append, total-sort, total-pick, total-zero, one_at, edges_to,
}
use a_kerno.Program.Resolve.Groups.{concat, ok-bind}
use a_kerno.Program.Resolve.Degrees.{Counts, release-Counts}

-- The name is not among the programs.
abbrev pub IsAbsent : List (Bytes × ProgramConfig) → Bytes → Type 0
IsAbsent ps name = total (one_at name) ps ≡ 0

abbrev pub AllAbsent : List (Bytes × ProgramConfig) → List Bytes → Type 0
AllAbsent ps [] = Unit
AllAbsent ps (dep ∷ deps) = IsAbsent ps dep × AllAbsent ps deps

-- No program of the second list depends on one of the first.
abbrev pub IsFreeOf : List (Bytes × ProgramConfig) → List (Bytes × ProgramConfig) → Type 0
IsFreeOf ps [] = Unit
IsFreeOf ps (q ∷ qs) = AllAbsent ps q.1.depends_on × IsFreeOf ps qs

-- No program of a group depends on one of its own or of a later group.
abbrev pub InOrder : List (List (Bytes × ProgramConfig)) → Type 0
InOrder [] = Unit
InOrder (group ∷ groups) = IsFreeOf (group ++ concat groups) group × InOrder groups

abbrev pub HasEdges : Graph → Bytes → List Bytes → Type 0
HasEdges g name [] = Unit
HasEdges g name (dep ∷ deps) = (0 < edges_to g name dep) × HasEdges g name deps

abbrev pub AllEdges : Graph → List (Bytes × ProgramConfig) → Type 0
AllEdges g [] = Unit
AllEdges g (p ∷ ps) = HasEdges g p.0 p.1.depends_on × AllEdges g ps

free-AllAbsent :
    (g : Graph) (name : Bytes) (deps : List Bytes) (ps : List (Bytes × ProgramConfig))
    → total (edges_to g name) ps ≡ 0
    → HasEdges g name deps
    → AllAbsent ps deps
free-AllAbsent g name [] ps none_left edges = tt
free-AllAbsent g name (dep ∷ deps) ps none_left edges = (
  total-zero (edges_to g name) dep ps none_left edges.0,
  free-AllAbsent g name deps ps none_left edges.1,
)

pos-injective : (a b : ℕ) → pos a ≡ pos b → a ≡ b
pos-injective a b h = ground arith

pick-IsFreeOf :
    (g : Graph) (degrees : Assoc ℤ) (all ps : List (Bytes × ProgramConfig))
    → Counts g degrees all
    → AllEdges g ps
    → IsFreeOf all (pick true degrees ps)
unfolding pick Counts
pick-IsFreeOf g degrees all [] h edges = tt
pick-IsFreeOf g degrees all (p ∷ ps) h edges =
    elim (Bool-cases (eqb_ℤ (degree_of degrees p.0) (pos 0))) [
      | inl free ↦ rw free (
        free-AllAbsent g p.0 p.1.depends_on all
            (pos-injective (total (edges_to g p.0) all) 0
              (sym (h p.0) ∙ eqb_ℤ_sound (degree_of degrees p.0) (pos 0) free))
            edges.0,
        pick-IsFreeOf g degrees all ps h edges.1,
      )
      | inr bound ↦ rw bound (pick-IsFreeOf g degrees all ps h edges.1)
    ]

pick-AllEdges :
    (g : Graph) (wanted : Bool) (degrees : Assoc ℤ) (ps : List (Bytes × ProgramConfig))
    → AllEdges g ps
    → AllEdges g (pick wanted degrees ps)
unfolding pick
pick-AllEdges g wanted degrees [] edges = tt
pick-AllEdges g wanted degrees (p ∷ ps) edges =
    let free = eqb_ℤ (degree_of degrees p.0) (pos 0) in
    elim (Bool-cases (if wanted then free else not free)) [
      | inl kept ↦ rw kept (edges.0, pick-AllEdges g wanted degrees ps edges.1)
      | inr dropped ↦ rw dropped (pick-AllEdges g wanted degrees ps edges.1)
    ]

insert_sorted-IsFreeOf :
    (ps : List (Bytes × ProgramConfig)) (q : Bytes × ProgramConfig)
    (qs : List (Bytes × ProgramConfig))
    → AllAbsent ps q.1.depends_on
    → IsFreeOf ps qs
    → IsFreeOf ps (insert_sorted before q qs)
unfolding insert_sorted
insert_sorted-IsFreeOf ps q [] a free = (a, tt)
insert_sorted-IsFreeOf ps q (r ∷ qs) a free = elim (Bool-cases (before r q)) [
  | inl first ↦ rw first (free.0, insert_sorted-IsFreeOf ps q qs a free.1)
  | inr last ↦ rw last (a, free)
]

sort-IsFreeOf :
    (ps qs : List (Bytes × ProgramConfig)) → IsFreeOf ps qs → IsFreeOf ps (sort before qs)
unfolding sort
sort-IsFreeOf ps [] free = tt
sort-IsFreeOf ps (q ∷ qs) free =
    insert_sorted-IsFreeOf ps q (sort before qs) free.0 (sort-IsFreeOf ps qs free.1)

unfoldable pub SameNames : List (Bytes × ProgramConfig) → List (Bytes × ProgramConfig) → Type 0
SameNames ps qs = (name : Bytes) → total (one_at name) ps ≡ total (one_at name) qs

AllAbsent-SameNames :
    (ps qs : List (Bytes × ProgramConfig)) (deps : List Bytes)
    → SameNames ps qs
    → AllAbsent ps deps
    → AllAbsent qs deps
unfolding SameNames
AllAbsent-SameNames ps qs [] same a = tt
AllAbsent-SameNames ps qs (dep ∷ deps) same a =
    (sym (same dep) ∙ a.0, AllAbsent-SameNames ps qs deps same a.1)

IsFreeOf-SameNames :
    (ps qs rs : List (Bytes × ProgramConfig)) → SameNames ps qs → IsFreeOf ps rs → IsFreeOf qs rs
IsFreeOf-SameNames ps qs [] same free = tt
IsFreeOf-SameNames ps qs (r ∷ rs) same free =
    (AllAbsent-SameNames ps qs r.1.depends_on same free.0, IsFreeOf-SameNames ps qs rs same free.1)

abbrev pub OrderedFor : List (Bytes × ProgramConfig) → List (List (Bytes × ProgramConfig)) → Type 0
OrderedFor ps groups = InOrder groups × SameNames ps (concat groups)

pub kahn-InOrder :
    (g : Graph) (rounds : ℕ) (degrees : Assoc ℤ) (ps : List (Bytes × ProgramConfig))
    (groups : List (List (Bytes × ProgramConfig)))
    → Counts g degrees ps
    → AllEdges g ps
    → kahn g rounds degrees ps ≡ ok groups
    → OrderedFor ps groups
unfolding kahn SameNames
kahn-InOrder g rounds degrees [] groups counts edges h =
    subst (OrderedFor []) {x = []} {y = groups} (ground arith) (tt, λ name. refl)
kahn-InOrder g zero degrees (p ∷ ps) groups counts edges h = absurd (ground arith)
kahn-InOrder g (suc rounds) degrees (p ∷ ps) groups counts edges h =
    let free = pick true degrees (p ∷ ps) in
    let left = pick false degrees (p ∷ ps) in
    let ready = sort before free in
    let degrees' = release g ready degrees in
    elim (Bool-cases (is_empty ready)) [
      | inl nothing ↦ absurd (ground arith)
      | inr something ↦
          let (rest, done, same) =
            ok-bind (kahn g rounds degrees' left) (λ gs. ok (ready ∷ gs)) groups
              (rw something at h) in
          let (ordered, names) =
            kahn-InOrder g rounds degrees' left rest (release-Counts g degrees (p ∷ ps) counts)
              (pick-AllEdges g false degrees (p ∷ ps) edges) done in
          let same_names : SameNames (p ∷ ps) (ready ++ concat rest) = λ name. omega (
            arith,
            total-pick (one_at name) degrees (p ∷ ps),
            total-sort (one_at name) free,
            total-append (one_at name) ready (concat rest),
            names name,
          ) in
          subst (OrderedFor (p ∷ ps)) {x = ready ∷ rest} {y = groups} (ground arith) (
            (
              IsFreeOf-SameNames (p ∷ ps) (ready ++ concat rest) ready same_names (
                  sort-IsFreeOf (p ∷ ps) free
                    (pick-IsFreeOf g degrees (p ∷ ps) (p ∷ ps) counts edges)),
              ordered,
            ),
            same_names,
          )
    ]
