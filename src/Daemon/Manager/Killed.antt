-- ===== src/Daemon/Manager/Killed.antt =====
-- `StartAll` of internal/daemon/manager.go starts the daemons of a group under the context of an
-- `errgroup`, which is cancelled when its `Wait` returns: what becomes of their processes.
use mathlib.Core.Path.{subst}
use a_kerno.Common.{
  ℕ, ◌≡◌, ◌∙◌, sym, ap, Bytes, bytes_eq, bytes_eq_iff, List, [], ◌∷◌, Option, none, some, Bool,
  true, false, ◌||◌, ◌==◌, arith, inl, inr, Bool-cases, Option-cases, if-holds,
}
use a_kerno.Common.Int.{ℤ}
use a_kerno.Common.Assoc.{Assoc, lookup, insert, lookup-insert}
use a_kerno.Common.Sorting.{AllOf}
use a_kerno.Daemon.Types.{Daemon, DaemonConfig, DaemonManager}
use a_kerno.Daemon.Lifecycle as Lifecycle
use a_kerno.Daemon.Lifecycle.{StartError, StartEnv, is_up}
use a_kerno.Daemon.Manager.{
  OrderGroup, StartAllError, get, put, started_process, context_ends, new_daemon, add_daemons,
  new_manager, start_group, after_group, start_groups, start_all, group_by_order,
}
use a_kerno.Daemon.Manager.Startup.{
  AllUp, GroupsUp, start-missing, start-found, get-put, get-context_ends, after_start,
  start_all-GroupsUp,
}

unfoldable pub has_pid : ℕ → List ℕ → Bool
has_pid pid [] = false
has_pid pid (k ∷ ks) = pid == k || has_pid pid ks

-- The process that was started for a daemon is one of those that were killed.
pub record IsKilled (env : Bytes → StartEnv) (ks : List ℕ) (name : Bytes) : Type 0 where
  pub pid : ℕ
  pub spawned : (env name).spawned ≡ some pid
  pub dead : has_pid pid ks ≡ true

-- Whatever is recorded as running or starting has been killed.
abbrev AllKilled : (Bytes → StartEnv) → DaemonManager → Type 0
AllKilled env m =
    (name : Bytes) (d : Daemon)
    → get m name ≡ some d
    → is_up d.state ≡ true
    → IsKilled env m.killed name

-- A daemon that a start brings up has a new process.
start-started :
    (env : StartEnv) (d : Daemon)
    → is_up d.state ≡ false
    → is_up (Lifecycle.start env d).1.state ≡ true
    → (pid : ℕ) × (started_process env (some d) ≡ some pid) × (env.spawned ≡ some pid)
unfolding started_process Lifecycle.start
start-started env d down up = elim (Option-cases env.spawned) [
  | inl nothing ↦ absurd (ground (arith, nothing, down, up))
  | inr (pid, there) ↦ (pid, ground (arith, there, down, up), there)
]

module _ (env : Bytes → StartEnv) where
  IsKilled-context_ends :
      (started : Option ℕ) (m : DaemonManager) (name : Bytes)
      → IsKilled env m.killed name
      → IsKilled env (context_ends started m).killed name
  unfolding has_pid
  IsKilled-context_ends none m name h = h
  IsKilled-context_ends (some k) m name h = record {
    pid = h.pid;
    spawned = h.spawned;
    dead = ground (arith, h.dead);
  }

  context_ends-IsKilled :
      (m : DaemonManager) (name : Bytes) (pid : ℕ)
      → (env name).spawned ≡ some pid
      → IsKilled env (context_ends (some pid) m).killed name
  unfolding has_pid
  context_ends-IsKilled m name pid there = record {
    pid = pid;
    spawned = there;
    dead = ground arith;
  }

  -- The daemon that was started itself.
  started-IsKilled :
      (name : Bytes) (m : DaemonManager) (d : Daemon)
      → AllKilled env m
      → get m name ≡ some d
      → is_up (Lifecycle.start (env name) d).1.state ≡ true
      → IsKilled env
          (context_ends
            (started_process (env name) (some d))
            (put name m (Lifecycle.start (env name) d).1)).killed
          name
  started-IsKilled name m d all there up =
      let m' = put name m (Lifecycle.start (env name) d).1 in
      elim (Bool-cases (is_up d.state)) [
        | inl before ↦
            IsKilled-context_ends (started_process (env name) (some d)) m' name
              (all name d there before)
        | inr down ↦
            let (pid, new, spawned) = start-started (env name) d down up in
            subst (λ p. IsKilled env (context_ends p m').killed name) (sym new)
              (context_ends-IsKilled m' name pid spawned)
      ]

  found-AllKilled :
      (name : Bytes) (m : DaemonManager) (d : Daemon)
      → AllKilled env m
      → get m name ≡ some d
      → AllKilled env (
          context_ends
            (started_process (env name) (some d))
            (put name m (Lifecycle.start (env name) d).1))
  found-AllKilled name m d all there other x found up =
      let d' = (Lifecycle.start (env name) d).1 in
      let p = started_process (env name) (some d) in
      let held = sym (get-context_ends p (put name m d') other) ∙ found in
      elim (Bool-cases (bytes_eq name other)) [
        | inl same ↦
            let d_is : d' ≡ x = ground (arith, rw (get-put name other m d', same) at held) in
            subst (IsKilled env (context_ends p (put name m d')).killed)
              ((bytes_eq_iff name other).0 same)
              (started-IsKilled name m d all there (ap (λ y. is_up y.state) d_is ∙ up))
        | inr differs ↦
            IsKilled-context_ends p (put name m d') other
              (all other x (rw (get-put name other m d', differs) at held) up)
      ]

  after_start-AllKilled :
      (name : Bytes) (m : DaemonManager)
      → AllKilled env m
      → AllKilled env (after_start (env name) name m)
  unfolding started_process
  after_start-AllKilled name m all = elim (Option-cases (get m name)) [
    | inl missing ↦ rw (missing, start-missing (env name) name m missing) all
    | inr (d, there) ↦
        rw (there, start-found (env name) name m d there) (found-AllKilled name m d all there)
  ]

  start_group-AllKilled :
      (names : List Bytes) (m : DaemonManager)
      → AllKilled env m
      → AllKilled env (start_group env names m).1
  unfolding start_group
  start_group-AllKilled [] m all = all
  start_group-AllKilled (name ∷ names) m all =
      start_group-AllKilled names (after_start (env name) name m) (after_start-AllKilled name m all)

  after_group-AllKilled :
      (order : ℤ) (e : Option StartError) (m : DaemonManager)
      (rest : Option StartAllError × DaemonManager)
      → AllKilled env m
      → AllKilled env rest.1
      → AllKilled env (after_group order e m rest).1
  after_group-AllKilled order none m rest here there = there
  after_group-AllKilled order (some failure) m rest here there = here

  start_groups-AllKilled :
      (is_done : ℤ → Bool) (gs : List OrderGroup) (m : DaemonManager)
      → AllKilled env m
      → AllKilled env (start_groups env is_done gs m).1
  unfolding start_groups
  start_groups-AllKilled is_done [] m all = all
  start_groups-AllKilled is_done (g ∷ gs) m all =
      let here = start_group-AllKilled g.names m all in
      let m' = (start_group env g.names m).1 in
      if-holds (λ (r : Option StartAllError × DaemonManager). AllKilled env r.1) (is_done g.order) _
        _ all
        (after_group-AllKilled g.order (start_group env g.names m).0 m'
          (start_groups env is_done gs m') here (start_groups-AllKilled is_done gs m' here))

  AllUp-IsKilled :
      (m : DaemonManager) (names : List Bytes)
      → AllKilled env m
      → AllUp m names
      → AllOf (IsKilled env m.killed) names
  AllUp-IsKilled m [] all up = tt
  AllUp-IsKilled m (name ∷ names) all up =
      (all name up.0.daemon up.0.found up.0.up, AllUp-IsKilled m names all up.1)

-- The process of each daemon of each group has been killed.
abbrev pub GroupsKilled : (Bytes → StartEnv) → List ℕ → List OrderGroup → Type 0
GroupsKilled env ks gs = AllOf (λ g. AllOf (IsKilled env ks) g.names) gs

GroupsUp-GroupsKilled :
    (env : Bytes → StartEnv) (m : DaemonManager) (gs : List OrderGroup)
    → AllKilled env m
    → GroupsUp m gs
    → GroupsKilled env m.killed gs
GroupsUp-GroupsKilled env m [] all up = tt
GroupsUp-GroupsKilled env m (g ∷ gs) all up =
    (AllUp-IsKilled env m g.names all up.0, GroupsUp-GroupsKilled env m gs all up.1)

-- No daemon runs or starts yet.
abbrev pub NoneUp : DaemonManager → Type 0
NoneUp m = (name : Bytes) (d : Daemon) → get m name ≡ some d → is_up d.state ≡ false

new_daemon-down : (dc : DaemonConfig) → is_up (new_daemon dc).state ≡ false
unfolding new_daemon
new_daemon-down dc = ground arith

add_daemons-down :
    (configs : List DaemonConfig) (daemons : Assoc Daemon)
    → ((name : Bytes) (d : Daemon) → lookup name daemons ≡ some d → is_up d.state ≡ false)
    → (name : Bytes) (d : Daemon) → lookup name (add_daemons configs daemons) ≡ some d
    → is_up d.state ≡ false
unfolding add_daemons
add_daemons-down [] daemons quiet name d found = quiet name d found
add_daemons-down (dc ∷ configs) daemons quiet name d found =
    add_daemons-down configs (insert dc.name (new_daemon dc) daemons)
      (λ other x held. elim (Bool-cases (bytes_eq dc.name other)) [
        | inl same ↦
            let x_is : new_daemon dc ≡ x =
              ground
                (arith, rw (lookup-insert dc.name other (new_daemon dc) daemons, same) at held) in
            subst (λ y. is_up y.state ≡ false) x_is (new_daemon-down dc)
        | inr differs ↦
            quiet other x
              (rw (lookup-insert dc.name other (new_daemon dc) daemons, differs) at held)
      ])
      name d found

-- No daemon of a new manager runs or starts.
pub new_manager-NoneUp : (configs : List DaemonConfig) → NoneUp (new_manager configs)
unfolding new_manager get lookup
new_manager-NoneUp configs =
    add_daemons-down configs [] (λ name d found. absurd (ground (arith, found)))

pub start_all-GroupsKilled :
    (env : Bytes → StartEnv) (is_done : ℤ → Bool) (m : DaemonManager)
    → NoneUp m
    → (start_all env is_done m).0 ≡ none
    → GroupsKilled env (start_all env is_done m).1.killed (group_by_order m.configs)
unfolding start_all
start_all-GroupsKilled env is_done m quiet h =
    GroupsUp-GroupsKilled env (start_all env is_done m).1 (group_by_order m.configs)
      (start_groups-AllKilled env is_done (group_by_order m.configs) m
        (λ name d found up. absurd (ground (arith, quiet name d found, up))))
      (start_all-GroupsUp env is_done m h)
