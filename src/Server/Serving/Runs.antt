-- ===== src/Server/Serving/Runs.antt =====
-- Runs of the goroutines of internal/server/server.go: invariants, and one run after another.
use a_kerno.Common.{
  ◌≡◌, ap, List, [], ◌∷◌, ◌++◌, Option, none, some, arith, Option-cases, if-holds, inl, inr,
}
use mathlib.Core.Path.{subst}
use a_kerno.Server.Serving.{Host, Event, step_of, step, run_events}

-- What a step leads to satisfies a predicate.
abbrev pub Holds : (Host → Type 0) → Option Host → Type 0
Holds P none = Unit
Holds P (some h) = P h

pub step-kept :
    (P : Host → Type 0) (e : Event) (h : Host) → Holds P (step_of e h) → Holds P (step e h)
unfolding step
step-kept P e h kept = if-holds (Holds P) h.crashed _ _ tt kept

-- What every step keeps holds after every run.
pub run_events-kept :
    (P : Host → Type 0)
    → ((e : Event) (h : Host) → P h → Holds P (step_of e h))
    → (es : List Event) (h h' : Host) → P h
    → run_events es h ≡ some h'
    → P h'
unfolding run_events
run_events-kept P keep [] h h' v run = subst P (ground (arith, run)) v
run_events-kept P keep (e ∷ es) h h' v run = elim (Option-cases (step e h)) [
  | inl blocked ↦ absurd (ground (arith, run, blocked))
  | inr (h₁, taken) ↦
      run_events-kept P keep es h₁ h' (subst (Holds P) taken (step-kept P e h (keep e h v)))
        (rw (taken, run_events) at run)
]

pub run_events-append :
    (es ds : List Event) (h h' : Host)
    → run_events es h ≡ some h'
    → run_events (es ++ ds) h ≡ run_events ds h'
unfolding run_events
run_events-append [] ds h h' run = ap (run_events ds) (ground (arith, run))
run_events-append (e ∷ es) ds h h' run = elim (Option-cases (step e h)) [
  | inl blocked ↦ absurd (ground (arith, run, blocked))
  | inr (h₁, taken) ↦
      rw (taken, run_events) (run_events-append es ds h₁ h' (rw (taken, run_events) at run))
]
