-- ===== src/Program/Resolve/Counts.antt =====
-- Sums over the programs that `ResolveDependencies` of internal/program/manager.go works on: how often a
-- name stands among them, and how many of their edges lead to a program.
use mathlib.Core.Path.{subst}
use a_kerno.Common.{
  ap, ℕ, ◌+◌, ◌<◌, ◌≡◌, refl, Bytes, bytes_eq, bytes_eq_iff, List, [], ◌∷◌, ◌++◌, some, true, false,
  arith, if◌then◌else◌, Bool-cases, inl, inr,
}
use a_kerno.Common.Int.{ℤ, pos, eqb_ℤ}
use a_kerno.Common.Assoc.{Assoc, lookup, lookup-insert, IsFresh, HasDistinctKeys}
use a_kerno.Common.Sorting.{sort, insert_sorted}
use a_kerno.Program.Types.{ProgramConfig}
use a_kerno.Program.Resolve.{Graph, before, degree_of, dependents_of, pick, add_edge}

unfoldable pub total : (Bytes → ℕ) → List (Bytes × ProgramConfig) → ℕ
total f [] = 0
total f (p ∷ ps) = f p.0 + total f ps

pub total-append :
    (f : Bytes → ℕ) (ps qs : List (Bytes × ProgramConfig))
    → total f (ps ++ qs) ≡ total f ps + total f qs
unfolding total
total-append f [] qs = omega arith
total-append f (p ∷ ps) qs = omega (arith, total-append f ps qs)

total-insert_sorted :
    (f : Bytes → ℕ) (p : Bytes × ProgramConfig) (ps : List (Bytes × ProgramConfig))
    → total f (insert_sorted before p ps) ≡ f p.0 + total f ps
unfolding total insert_sorted
total-insert_sorted f p [] = refl
total-insert_sorted f p (q ∷ ps) = elim (Bool-cases (before q p)) [
  | inl first ↦ rw first (omega (arith, total-insert_sorted f p ps))
  | inr last ↦ rw last refl
]

pub total-sort :
    (f : Bytes → ℕ) (ps : List (Bytes × ProgramConfig)) → total f (sort before ps) ≡ total f ps
unfolding total sort
total-sort f [] = refl
total-sort f (p ∷ ps) = omega (arith, total-insert_sorted f p (sort before ps), total-sort f ps)

pub total-pick :
    (f : Bytes → ℕ) (degrees : Assoc ℤ) (ps : List (Bytes × ProgramConfig))
    → total f ps ≡ total f (pick true degrees ps) + total f (pick false degrees ps)
unfolding total pick
total-pick f degrees [] = refl
total-pick f degrees (p ∷ ps) = elim (Bool-cases (eqb_ℤ (degree_of degrees p.0) (pos 0))) [
  | inl free ↦ rw free (omega (arith, total-pick f degrees ps))
  | inr bound ↦ rw bound (omega (arith, total-pick f degrees ps))
]

pub total-ext :
    (f h : Bytes → ℕ) (ps : List (Bytes × ProgramConfig))
    → ((d : Bytes) → f d ≡ h d)
    → total f ps ≡ total h ps
unfolding total
total-ext f h [] same = refl
total-ext f h (p ∷ ps) same = omega (arith, same p.0, total-ext f h ps same)

abbrev pub one_at : Bytes → Bytes → ℕ
one_at d name = if bytes_eq d name then 1 else 0

pub total-one_more :
    (f h : Bytes → ℕ) (d : Bytes) (ps : List (Bytes × ProgramConfig))
    → ((name : Bytes) → h name ≡ f name + one_at d name)
    → total h ps ≡ total f ps + total (one_at d) ps
unfolding total
total-one_more f h d [] more = refl
total-one_more f h d (p ∷ ps) more = omega (arith, more p.0, total-one_more f h d ps more)

-- A sum that is 0 has no program at which the summand is not.
pub total-zero :
    (f : Bytes → ℕ) (d : Bytes) (ps : List (Bytes × ProgramConfig))
    → total f ps ≡ 0
    → 0 < f d
    → total (one_at d) ps ≡ 0
unfolding total
total-zero f d [] none_left some_at = refl
total-zero f d (p ∷ ps) none_left some_at = elim (Bool-cases (bytes_eq d p.0)) [
  | inl same ↦ absurd (omega (arith, ap f ((bytes_eq_iff d p.0).0 same)))
  | inr differ ↦ rw differ (omega (arith, total-zero f d ps (omega arith) some_at))
]

total-fresh : (d : Bytes) (ps : Assoc ProgramConfig) → IsFresh d ps → total (one_at d) ps ≡ 0
unfolding total lookup
total-fresh d [] fresh = refl
total-fresh d ((name, cfg) ∷ ps) fresh =
    ground (arith, bytes_eq_iff d name, bytes_eq_iff name d, total-fresh d ps)

-- A key of a map stands among its entries once.
pub total-found :
    (d : Bytes) (ps : Assoc ProgramConfig) (cfg : ProgramConfig)
    → HasDistinctKeys ps
    → lookup d ps ≡ some cfg
    → total (one_at d) ps ≡ 1
unfolding total lookup
total-found d [] cfg distinct found = absurd (ground arith)
total-found d ((name, c) ∷ ps) cfg distinct found = elim (Bool-cases (bytes_eq name d)) [
  | inl same ↦
      (let e = (bytes_eq_iff name d).0 same in
        let fresh : IsFresh d ps = subst (λ k. IsFresh k ps) e distinct.0 in
        ground (arith, same, e, bytes_eq_iff d name, total-fresh d ps fresh))
  | inr differ ↦
      ground
        (arith, differ, bytes_eq_iff d name, bytes_eq_iff name d, total-found d ps cfg distinct.1)
]

unfoldable pub count : Bytes → List Bytes → ℕ
count n [] = 0
count n (m ∷ ms) = one_at m n + count n ms

-- The edges from `ps` to `n`.
abbrev pub edges_to : Graph → Bytes → Bytes → ℕ
edges_to g n d = count n (dependents_of g d)

count-snoc : (n m : Bytes) (ms : List Bytes) → count n (ms ++ m ∷ []) ≡ count n ms + one_at m n
unfolding count
count-snoc n m [] = omega arith
count-snoc n m (k ∷ ms) = omega (arith, count-snoc n m ms)

dependents_of-add_edge :
    (dep name d : Bytes) (g : Graph)
    → dependents_of (add_edge dep name g) d
      ≡ (if bytes_eq dep d then dependents_of g dep ++ name ∷ [] else dependents_of g d)
unfolding add_edge
dependents_of-add_edge dep name d g =
    ground (arith, lookup-insert dep d (dependents_of g dep ++ name ∷ []) g.dependents)

-- A new edge counts once, where it starts.
pub edges_to-add_edge :
    (dep name n d : Bytes) (g : Graph)
    → edges_to (add_edge dep name g) n d
      ≡ edges_to g n d + (if bytes_eq dep d then one_at name n else 0)
edges_to-add_edge dep name n d g = elim (Bool-cases (bytes_eq dep d)) [
  | inl same ↦ ground (
    arith,
    same,
    ap (λ k. edges_to g n k) ((bytes_eq_iff dep d).0 same),
    ap (count n) (dependents_of-add_edge dep name d g),
    count-snoc n name (dependents_of g dep),
  )
  | inr differ ↦ ground (arith, differ, ap (count n) (dependents_of-add_edge dep name d g))
]
