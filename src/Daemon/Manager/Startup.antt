-- ===== src/Daemon/Manager/Startup.antt =====
-- `StartAll` of internal/daemon/manager.go: the states that it records, before a monitor takes its turn.
use mathlib.Core.Path.{subst}
use a_kerno.Common.{
  ℕ, ◌≡◌, ◌∙◌, refl, sym, ap, Bytes, bytes_eq, bytes_eq_iff, bytes_eq_refl, List, [], ◌∷◌, Option,
  none, some, Bool, true, arith, inl, inr, Bool-cases, Option-cases, if◌then◌else◌,
}
use a_kerno.Common.Int.{ℤ}
use a_kerno.Common.Assoc.{lookup-insert}
use a_kerno.Daemon.Types.{Daemon, DaemonManager}
use a_kerno.Daemon.Lifecycle as Lifecycle
use a_kerno.Daemon.Lifecycle.{StartError, StartEnv, is_up}
use a_kerno.Daemon.Manager.{
  OrderGroup, StartAllError, get, put, started_process, context_ends, start, start_group,
  after_group, start_groups, start_all, group_by_order,
}

-- The manager has the daemon, and it runs or starts.
pub record IsUp (m : DaemonManager) (name : Bytes) : Type 0 where
  pub daemon : Daemon
  pub found : get m name ≡ some daemon
  pub up : is_up daemon.state ≡ true

abbrev pub AllUp : DaemonManager → List Bytes → Type 0
AllUp m [] = Unit
AllUp m (name ∷ names) = IsUp m name × AllUp m names

start-up :
    (env : StartEnv) (d : Daemon)
    → (Lifecycle.start env d).0 ≡ none
    → is_up (Lifecycle.start env d).1.state ≡ true
unfolding Lifecycle.start
start-up env d h = ground arith

pub start-keeps_up :
    (env : StartEnv) (d : Daemon) → is_up d.state ≡ true → Lifecycle.start env d ≡ (none, d)
unfolding Lifecycle.start
start-keeps_up env d h = ground arith

pub start-missing :
    (env : StartEnv) (name : Bytes) (m : DaemonManager)
    → get m name ≡ none
    → start env name m ≡ (some (StartError.not_found name), m)
unfolding start
start-missing env name m h = rw (h, start)

pub start-found :
    (env : StartEnv) (name : Bytes) (m : DaemonManager) (d : Daemon)
    → get m name ≡ some d
    → start env name m ≡ ((Lifecycle.start env d).0, put name m (Lifecycle.start env d).1)
unfolding start
start-found env name m d h = rw (h, start)

pub get-put :
    (name other : Bytes) (m : DaemonManager) (d : Daemon)
    → get (put name m d) other ≡ (if bytes_eq name other then some d else get m other)
unfolding get
get-put name other m d = lookup-insert name other d m.daemons

get-put_self : (name : Bytes) (m : DaemonManager) (d : Daemon) → get (put name m d) name ≡ some d
get-put_self name m d = rw (get-put name name m d, bytes_eq_refl name)

-- `Start` of a daemon by name, without an error.
start-IsUp :
    (env : StartEnv) (name : Bytes) (m : DaemonManager)
    → (start env name m).0 ≡ none
    → IsUp (start env name m).1 name
start-IsUp env name m h = elim (Option-cases (get m name)) [
  | inl missing ↦ absurd (ground (arith, start-missing env name m missing))
  | inr (d, there) ↦ rw (start-found env name m d there) (record {
    daemon = (Lifecycle.start env d).1;
    found = get-put_self name m (Lifecycle.start env d).1;
    up = start-up env d (ground (arith, start-found env name m d there));
  })
]

keeps_found :
    (env : StartEnv) (name other : Bytes) (m : DaemonManager) (d : Daemon) (up : IsUp m other)
    → get m name ≡ some d
    → get (put name m (Lifecycle.start env d).1) other ≡ some up.daemon
keeps_found env name other m d up there = elim (Bool-cases (bytes_eq name other)) [
  | inl same ↦
      let e : get m name ≡ get m other = ap (get m) ((bytes_eq_iff name other).0 same) in
      let d_is : d ≡ up.daemon = cc (there, e, up.found) in
      rw (get-put name other m (Lifecycle.start env d).1, same, d_is)
        (rw (start-keeps_up env up.daemon up.up))
  | inr differs ↦ rw (get-put name other m (Lifecycle.start env d).1, differs) up.found
]

start-keeps-IsUp :
    (env : StartEnv) (name other : Bytes) (m : DaemonManager)
    → IsUp m other
    → IsUp (start env name m).1 other
start-keeps-IsUp env name other m up = elim (Option-cases (get m name)) [
  | inl missing ↦ rw (start-missing env name m missing) up
  | inr (d, there) ↦
      rw (start-found env name m d there)
        (record { daemon = up.daemon; found = keeps_found env name other m d up there; up = up.up })
]

pub get-context_ends :
    (started : Option ℕ) (m : DaemonManager) (name : Bytes)
    → get (context_ends started m) name ≡ get m name
unfolding get
get-context_ends none m name = refl
get-context_ends (some pid) m name = refl

-- The manager after one goroutine of a group.
abbrev pub after_start : StartEnv → Bytes → DaemonManager → DaemonManager
after_start env name m = context_ends (started_process env (get m name)) (start env name m).1

after_start-IsUp :
    (env : StartEnv) (name other : Bytes) (m : DaemonManager)
    → IsUp (start env name m).1 other
    → IsUp (after_start env name m) other
after_start-IsUp env name other m up = record {
  daemon = up.daemon;
  found = get-context_ends (started_process env (get m name)) (start env name m).1 other ∙ up.found;
  up = up.up;
}

start_group-keeps :
    (env : Bytes → StartEnv) (names : List Bytes) (other : Bytes) (m : DaemonManager)
    → IsUp m other
    → IsUp (start_group env names m).1 other
unfolding start_group
start_group-keeps env [] other m up = up
start_group-keeps env (name ∷ names) other m up =
    start_group-keeps env names other (after_start (env name) name m)
      (after_start-IsUp (env name) name other m (start-keeps-IsUp (env name) name other m up))

start_group-AllUp :
    (env : Bytes → StartEnv) (names : List Bytes) (m : DaemonManager)
    → (start_group env names m).0 ≡ none
    → AllUp (start_group env names m).1 names
unfolding start_group
start_group-AllUp env [] m h = tt
start_group-AllUp env (name ∷ names) m h = elim (Option-cases (start (env name) name m).0) [
  | inr (e, failed) ↦ absurd (ground (arith, failed))
  | inl fine ↦ (
    start_group-keeps env names name (after_start (env name) name m)
        (after_start-IsUp (env name) name name m (start-IsUp (env name) name m fine)),
    start_group-AllUp env names (after_start (env name) name m) (ground (arith, fine)),
  )
]

abbrev pub GroupsUp : DaemonManager → List OrderGroup → Type 0
GroupsUp m [] = Unit
GroupsUp m (g ∷ gs) = AllUp m g.names × GroupsUp m gs

after_group-keeps :
    (order : ℤ) (e : Option StartError) (m : DaemonManager)
    (rest : Option StartAllError × DaemonManager) (other : Bytes)
    → IsUp m other
    → IsUp rest.1 other
    → IsUp (after_group order e m rest).1 other
after_group-keeps order none m rest other here there = there
after_group-keeps order (some failure) m rest other here there = here

start_groups-keeps :
    (env : Bytes → StartEnv) (is_done : ℤ → Bool) (gs : List OrderGroup) (other : Bytes)
    (m : DaemonManager)
    → IsUp m other
    → IsUp (start_groups env is_done gs m).1 other
unfolding start_groups
start_groups-keeps env is_done [] other m up = up
start_groups-keeps env is_done (g ∷ gs) other m up =
    let held = start_group-keeps env g.names other m up in
    let m' = (start_group env g.names m).1 in
    let ih = start_groups-keeps env is_done gs other m' held in
    elim (Bool-cases (is_done g.order)) [
      | inl now ↦ rw now up
      | inr later ↦ rw later (
          after_group-keeps g.order (start_group env g.names m).0 m'
            (start_groups env is_done gs m') other held ih)
    ]

start_groups-keeps-AllUp :
    (env : Bytes → StartEnv) (is_done : ℤ → Bool) (gs : List OrderGroup) (names : List Bytes)
    (m : DaemonManager)
    → AllUp m names
    → AllUp (start_groups env is_done gs m).1 names
start_groups-keeps-AllUp env is_done gs [] m h = tt
start_groups-keeps-AllUp env is_done gs (name ∷ names) m h = (
  start_groups-keeps env is_done gs name m h.0,
  start_groups-keeps-AllUp env is_done gs names m h.1,
)

-- What a nil error of the rest of the loop says of this group.
start_groups-cons_ok :
    (env : Bytes → StartEnv) (is_done : ℤ → Bool) (g : OrderGroup) (gs : List OrderGroup)
    (m : DaemonManager)
    → (start_groups env is_done (g ∷ gs) m).0 ≡ none
    → ((start_group env g.names m).0 ≡ none)
      × (start_groups env is_done (g ∷ gs) m
          ≡ start_groups env is_done gs (start_group env g.names m).1)
unfolding start_groups
start_groups-cons_ok env is_done g gs m h = (ground arith, ground arith)

start_groups-GroupsUp :
    (env : Bytes → StartEnv) (is_done : ℤ → Bool) (gs : List OrderGroup) (m : DaemonManager)
    → (start_groups env is_done gs m).0 ≡ none
    → GroupsUp (start_groups env is_done gs m).1 gs
start_groups-GroupsUp env is_done [] m h = tt
start_groups-GroupsUp env is_done (g ∷ gs) m h =
    let (fine, goes_on) = start_groups-cons_ok env is_done g gs m h in
    let m' = (start_group env g.names m).1 in
    subst (λ r. GroupsUp r.1 (g ∷ gs)) (sym goes_on)
      (
        start_groups-keeps-AllUp env is_done gs g.names m' (start_group-AllUp env g.names m fine),
        start_groups-GroupsUp env is_done gs m' (subst (λ r. r.0 ≡ none) goes_on h),
      )

-- If `StartAll` returns no error, every daemon of every start group is recorded as running or starting.
pub start_all-GroupsUp :
    (env : Bytes → StartEnv) (is_done : ℤ → Bool) (m : DaemonManager)
    → (start_all env is_done m).0 ≡ none
    → GroupsUp (start_all env is_done m).1 (group_by_order m.configs)
unfolding start_all
start_all-GroupsUp env is_done m h =
    start_groups-GroupsUp env is_done (group_by_order m.configs) m h
