-- ===== src/Daemon/Reload/Diff.antt =====
-- `reloadConfig` of internal/daemon/manager.go: the daemons after a reload, name by name.
use a_kerno.Common.{
  ◌≡◌, refl, ◌∙◌, Bytes, bytes_eq, bytes_eq_iff, bytes_eq_refl, List, [], ◌∷◌, Option, none, some,
  Bool, true, false, not, ◌&&◌, ◌||◌, arith, if◌then◌else◌, ok, Bool-cases, Option-cases, inl, inr,
}
use mathlib.Core.Path.{subst}
use a_kerno.Common.Assoc.{
  Assoc, lookup, insert, delete, lookup-insert, lookup-delete, HasDistinctKeys,
  insert-HasDistinctKeys,
}
use a_kerno.Daemon.Types.{Daemon, DaemonConfig, DaemonManager}
use a_kerno.Daemon.Lifecycle as Lifecycle
use a_kerno.Daemon.Lifecycle.{StartEnv, StopEnv}
use a_kerno.Daemon.Manager.{new_daemon, get, start, stop}
use a_kerno.Daemon.Reload.{
  index_configs, is_present, added_configs, removed_names, stop_removed, add_daemon, add_new,
  ReloadEnv, apply_configs, reload_config,
}

unfoldable is_listed : List Bytes → Bytes → Bool
is_listed [] name = false
is_listed (other ∷ names) name = bytes_eq other name || is_listed names name

-- A new daemon, after its start if it is enabled.
abbrev pub born : (Bytes → StartEnv) → DaemonConfig → Daemon
born env nc =
    if nc.enabled then (Lifecycle.start (env nc.name) (new_daemon nc)).1 else new_daemon nc

-- Every configuration stands under its name.
abbrev Keyed : Assoc DaemonConfig → Type 0
Keyed [] = Unit
Keyed ((k, nc) ∷ configs) = (nc.name ≡ k) × Keyed configs

removed_names-is_listed :
    (new : Assoc DaemonConfig) (old : Assoc Daemon) (n : Bytes)
    → is_listed (removed_names new old) n
      ≡ (is_present (lookup n old) && not (is_present (lookup n new)))
unfolding removed_names is_listed lookup
removed_names-is_listed new [] n = refl
removed_names-is_listed new ((k, d) ∷ old) n = elim (Bool-cases (bytes_eq k n)) [
  | inl same ↦
      let k_n = (bytes_eq_iff k n).0 same in
      ground (arith, k_n, same, removed_names-is_listed new old n)
  | inr other ↦ ground (arith, other, removed_names-is_listed new old n)
]

stop-delete :
    (env : StopEnv) (name n : Bytes) (m : DaemonManager)
    → lookup n (delete name (stop env name m).1.daemons)
      ≡ (if bytes_eq name n then none else lookup n m.daemons)
unfolding stop get
stop-delete env name n m = elim (Option-cases (lookup name m.daemons)) [
  | inl unknown ↦ rw (unknown, stop) (lookup-delete name n m.daemons)
  | inr (d, found) ↦
      rw (found, stop)
        (let after = (Lifecycle.stop env d).1 in
          ground (
            arith,
            lookup-delete name n (insert name after m.daemons),
            lookup-insert name n after m.daemons,
          ))
]

stop_removed-lookup :
    (env : Bytes → StopEnv) (names : List Bytes) (m : DaemonManager) (n : Bytes)
    → lookup n (stop_removed env names m).0.daemons
      ≡ (if is_listed names n then none else lookup n m.daemons)
unfolding stop_removed is_listed
stop_removed-lookup env [] m n = refl
stop_removed-lookup env (name ∷ names) m n =
    let m₁ = (stop (env name) name m).1 in
    let m₂ = record m₁ { daemons = delete name m₁.daemons } in
    stop_removed-lookup env names m₂ n ∙ rw (stop-delete (env name) name n m) (ground arith)

start-lookup :
    (env : StartEnv) (name n : Bytes) (m : DaemonManager) (d : Daemon)
    → lookup name m.daemons ≡ some d
    → lookup n (start env name m).1.daemons
      ≡ (if bytes_eq name n then some (Lifecycle.start env d).1 else lookup n m.daemons)
unfolding start get
start-lookup env name n m d found =
    rw (found, start) (lookup-insert name n (Lifecycle.start env d).1 m.daemons)

add_daemon-lookup :
    (env : Bytes → StartEnv) (nc : DaemonConfig) (m : DaemonManager) (n : Bytes)
    → lookup n (add_daemon env nc m).daemons
      ≡ (if bytes_eq nc.name n then some (born env nc) else lookup n m.daemons)
unfolding add_daemon
add_daemon-lookup env nc m n =
    let fresh = new_daemon nc in
    let added = record m { daemons = insert nc.name fresh m.daemons } in
    let here : lookup nc.name added.daemons ≡ some fresh =
      lookup-insert nc.name nc.name fresh m.daemons ∙ rw (bytes_eq_refl nc.name) refl in
    let inserted = lookup-insert nc.name n fresh m.daemons in
    let started = start-lookup (env nc.name) nc.name n added fresh here in
    ground (arith, inserted, started)

added_configs-lookup :
    (old : Assoc Daemon) (new : Assoc DaemonConfig) (n : Bytes)
    → lookup n (added_configs old new) ≡ (if is_present (lookup n old) then none else lookup n new)
unfolding added_configs lookup
added_configs-lookup old [] n = ground arith
added_configs-lookup old ((k, nc) ∷ new) n = elim (Bool-cases (bytes_eq k n)) [
  | inl same ↦
      let k_n = (bytes_eq_iff k n).0 same in
      ground (arith, k_n, same, added_configs-lookup old new n)
  | inr other ↦ ground (arith, other, added_configs-lookup old new n)
]

added_configs-HasDistinctKeys :
    (old : Assoc Daemon) (new : Assoc DaemonConfig)
    → HasDistinctKeys new
    → HasDistinctKeys (added_configs old new)
unfolding added_configs lookup
added_configs-HasDistinctKeys old [] h = tt
added_configs-HasDistinctKeys old ((k, nc) ∷ new) h =
    ground (arith, h, added_configs-lookup old new k, added_configs-HasDistinctKeys old new h.1)

added_configs-Keyed :
    (old : Assoc Daemon) (new : Assoc DaemonConfig) → Keyed new → Keyed (added_configs old new)
unfolding added_configs
added_configs-Keyed old [] h = tt
added_configs-Keyed old ((k, nc) ∷ new) h = ground (arith, h, added_configs-Keyed old new h.1)

insert-Keyed :
    (nc : DaemonConfig) (configs : Assoc DaemonConfig)
    → Keyed configs
    → Keyed (insert nc.name nc configs)
unfolding insert
insert-Keyed nc [] h = (refl, tt)
insert-Keyed nc ((k, c) ∷ configs) h = ground (arith, h, insert-Keyed nc configs h.1)

index_configs-Keyed :
    (configs : List DaemonConfig) (by_name : Assoc DaemonConfig)
    → HasDistinctKeys by_name
    → Keyed by_name
    → HasDistinctKeys (index_configs configs by_name) × Keyed (index_configs configs by_name)
unfolding index_configs
index_configs-Keyed [] by_name distinct keyed = (distinct, keyed)
index_configs-Keyed (nc ∷ configs) by_name distinct keyed =
    index_configs-Keyed configs (insert nc.name nc by_name)
      (insert-HasDistinctKeys nc.name nc by_name distinct) (insert-Keyed nc by_name keyed)

-- The daemon that a name has after `add_new`.
abbrev or_old : (Bytes → StartEnv) → Option DaemonConfig → Option Daemon → Option Daemon
or_old env none old = old
or_old env (some nc) old = some (born env nc)

add_new-lookup :
    (env : Bytes → StartEnv) (added : Assoc DaemonConfig) (m : DaemonManager) (n : Bytes)
    → HasDistinctKeys added
    → Keyed added
    → lookup n (add_new env added m).daemons ≡ or_old env (lookup n added) (lookup n m.daemons)
unfolding add_new lookup
add_new-lookup env [] m n distinct keyed = refl
add_new-lookup env ((k, nc) ∷ added) m n distinct keyed =
    let rest = add_new-lookup env added (add_daemon env nc m) n distinct.1 keyed.1 in
    let step : lookup n (add_daemon env nc m).daemons
        ≡ (if bytes_eq k n then some (born env nc) else lookup n m.daemons) =
      subst
        (λ j.
          lookup n (add_daemon env nc m).daemons
          ≡ (if bytes_eq j n then some (born env nc) else lookup n m.daemons))
        {x = nc.name} {y = k} keyed.0 (add_daemon-lookup env nc m n) in
    rest ∙ elim (Bool-cases (bytes_eq k n)) [
      | inl same ↦
          let fresh : lookup n added ≡ none =
            subst (λ j. lookup j added ≡ none) {x = k} {y = n} ((bytes_eq_iff k n).0 same)
              distinct.0 in
          rw (fresh, step, same) refl
      | inr other ↦ rw (step, other) refl
    ]

-- The daemon that a name should have: none without a configuration, the old one if there is one, and
-- else a new one.
abbrev pub reloaded : (Bytes → StartEnv) → Option DaemonConfig → Option Daemon → Option Daemon
reloaded env none old = none
reloaded env (some nc) (some d) = some d
reloaded env (some nc) none = some (born env nc)

choose-reloaded :
    (env : Bytes → StartEnv) (new : Option DaemonConfig) (old : Option Daemon)
    → or_old env
        (if is_present old then none else new)
        (if is_present old && not (is_present new) then none else old)
      ≡ reloaded env new old
choose-reloaded env new old = ground arith

apply_configs-lookup :
    (env : ReloadEnv) (m : DaemonManager) (configs : List DaemonConfig) (n : Bytes)
    → lookup n (apply_configs env configs m).0.daemons
      ≡ reloaded env.starts (lookup n (index_configs configs [])) (lookup n m.daemons)
apply_configs-lookup env m configs n =
    let new = index_configs configs [] in
    let (distinct, keyed) = index_configs-Keyed configs [] tt tt in
    let removed = removed_names new m.daemons in
    let added = added_configs m.daemons new in
    let m₁ = (stop_removed env.stops removed m).0 in
    let found =
      add_new-lookup env.starts added m₁ n (added_configs-HasDistinctKeys m.daemons new distinct)
        (added_configs-Keyed m.daemons new keyed) in
    let left = stop_removed-lookup env.stops removed m n in
    found
    ∙ rw (left, removed_names-is_listed new m.daemons n, added_configs-lookup m.daemons new n)
        (choose-reloaded env.starts (lookup n new) (lookup n m.daemons))

-- If the file is there and can be loaded, reloadConfig leaves for every name exactly this: no daemon if
-- the new file does not name it; the daemon as it was, with its old configuration, if there was one; else
-- a new daemon, started if it is enabled. The configurations become those of the file.
pub reload_config-lookup :
    (env : ReloadEnv) (m : DaemonManager) (configs : List DaemonConfig) (n : Bytes)
    → env.exists ≡ true
    → env.loaded ≡ ok configs
    → (lookup n (reload_config env m).1.daemons
        ≡ reloaded env.starts (lookup n (index_configs configs [])) (lookup n m.daemons))
      × ((reload_config env m).1.configs ≡ configs)
unfolding reload_config
reload_config-lookup env m configs n present loaded =
    rw (present, loaded) (apply_configs-lookup env m configs n, refl)
