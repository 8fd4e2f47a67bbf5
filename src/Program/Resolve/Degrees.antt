-- ===== src/Program/Resolve/Degrees.antt =====
-- The degrees that `ResolveDependencies` of internal/program/manager.go keeps, through its rounds.
use a_kerno.Common.{
  ap, ◌∙◌, ℕ, zero, suc, ◌+◌, ◌≡◌, Bytes, bytes_eq, bytes_eq_iff, List, [], ◌∷◌, true, false, arith,
  if◌then◌else◌, Bool-cases, inl, inr,
}
use a_kerno.Common.Int.{ℤ, pos}
use a_kerno.Common.Assoc.{Assoc, insert, lookup-insert}
use a_kerno.Common.Sorting.{sort}
use a_kerno.Program.Types.{ProgramConfig}
use a_kerno.Program.Resolve.{
  Graph, before, degree_of, dependents_of, plus_one, minus_one, pick, release_dependents, release,
}
use a_kerno.Program.Resolve.Counts.{total, total-sort, total-pick, one_at, count, edges_to}

minus_one-pos : (k : ℕ) (z : ℤ) → z ≡ pos (1 + k) → minus_one z ≡ pos k
minus_one-pos k (pos zero) h = absurd (ground arith)
minus_one-pos k (pos (suc n)) h = ground arith
minus_one-pos k (ℤ.negsuc n) h = absurd (ground arith)

pub plus_one-pos : (k : ℕ) (z : ℤ) → z ≡ pos k → plus_one z ≡ pos (k + 1)
plus_one-pos k (pos n) h = ground arith
plus_one-pos k (ℤ.negsuc n) h = absurd (ground arith)

pub degree_of-insert :
    (m n : Bytes) (z : ℤ) (degrees : Assoc ℤ)
    → degree_of (insert m z degrees) n ≡ (if bytes_eq m n then z else degree_of degrees n)
degree_of-insert m n z degrees = ground (arith, lookup-insert m n z degrees)

degree_of-minus_one :
    (n m : Bytes) (k : ℕ) (degrees : Assoc ℤ)
    → degree_of degrees n ≡ pos (one_at m n + k)
    → degree_of (insert m (minus_one (degree_of degrees m)) degrees) n ≡ pos k
degree_of-minus_one n m k degrees h = elim (Bool-cases (bytes_eq m n)) [
  | inl same ↦
      let e = ap (degree_of degrees) ((bytes_eq_iff m n).0 same) in
      degree_of-insert m n (minus_one (degree_of degrees m)) degrees
      ∙ rw same (minus_one-pos k (degree_of degrees m) (e ∙ rw same at h))
  | inr differ ↦
      degree_of-insert m n (minus_one (degree_of degrees m)) degrees
      ∙ rw differ (ground (arith, h, differ))
]

-- A degree that counts `n` among the names and `r` more is `r` once they are released.
degree_of-release_dependents :
    (n : Bytes) (r : ℕ) (names : List Bytes) (degrees : Assoc ℤ)
    → degree_of degrees n ≡ pos (count n names + r)
    → degree_of (release_dependents names degrees) n ≡ pos r
unfolding release_dependents count
degree_of-release_dependents n r [] degrees h = ground (arith, h)
degree_of-release_dependents n r (m ∷ names) degrees h =
    degree_of-release_dependents n r names (insert m (minus_one (degree_of degrees m)) degrees)
      (degree_of-minus_one n m (count n names + r) degrees (h ∙ ap pos (omega arith)))

degree_of-release :
    (g : Graph) (n : Bytes) (r : ℕ) (ready : List (Bytes × ProgramConfig)) (degrees : Assoc ℤ)
    → degree_of degrees n ≡ pos (total (edges_to g n) ready + r)
    → degree_of (release g ready degrees) n ≡ pos r
unfolding release total
degree_of-release g n r [] degrees h = ground (arith, h)
degree_of-release g n r (p ∷ ready) degrees h =
    degree_of-release g n r ready (release_dependents (dependents_of g p.0) degrees) (
      degree_of-release_dependents n (total (edges_to g n) ready + r) (dependents_of g p.0) degrees
        (h ∙ ap pos (omega arith)))

-- The degree of every program is the number of edges to it from `ps`.
unfoldable pub Counts : Graph → Assoc ℤ → List (Bytes × ProgramConfig) → Type 0
Counts g degrees ps = (n : Bytes) → degree_of degrees n ≡ pos (total (edges_to g n) ps)

-- One round keeps this for the programs that are left.
pub release-Counts :
    (g : Graph) (degrees : Assoc ℤ) (ps : List (Bytes × ProgramConfig))
    → Counts g degrees ps
    → Counts g (release g (sort before (pick true degrees ps)) degrees) (pick false degrees ps)
unfolding Counts
release-Counts g degrees ps h n =
    let free = pick true degrees ps in
    let left = pick false degrees ps in
    degree_of-release g n (total (edges_to g n) left) (sort before free) degrees (
      h n
      ∙ ap pos
          (omega (arith, total-sort (edges_to g n) free, total-pick (edges_to g n) degrees ps)))
