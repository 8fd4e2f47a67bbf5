-- ===== src/Daemon/Config/Loading.antt =====
-- `LoadConfig` of internal/daemon/config.go: the daemons that it returns are those of the sections.
use mathlib.Core.List.{Perm}
use a_kerno.Common.{
  ◌≡◌, refl, Bytes, bytes_eq, text, List, [], ◌∷◌, Option, some, Bool, true, false, arith, Result,
  ok, err, wrap, Option-cases, inl, inr,
}
use mathlib.Core.Path.{subst}
use a_kerno.Common.Assoc.{insert}
use a_kerno.Common.Int.{ℤ}
use a_kerno.Common.Sorting.{sort, IsSorted, sort-IsSorted, sort-perm}
use a_kerno.Config.{Environ, User}
use a_kerno.IniFile.{Section, IniFile, named_sections, bool_default, shadows_of}
use a_kerno.Text.{cut}
use a_kerno.Program.Resolve.Groups.{ok-bind}
use a_kerno.Daemon.Types.{RestartPolicy, DaemonConfig}
use a_kerno.Daemon.Config.{
  valid_policy, default_daemon, expand_daemon_var, expanded_key, read_order, read_restart,
  read_timeout, read_env, daemon_config_from_section, order_before, ConfigFile, LoadConfigError,
  read_or_create, load_sections, load_config,
}

-- One of the four policies.
abbrev pub is_valid_policy : RestartPolicy → Bool
is_valid_policy (RestartPolicy.other s) = false
is_valid_policy _ = true

-- The configuration has the section's name, its enabled flag and its command, and a valid policy.
abbrev pub IsFrom : Environ → User → Section → DaemonConfig → Type 0
IsFrom env user sec cfg =
    (cfg.name ≡ sec.name)
    × (cfg.enabled ≡ bool_default sec (text "enabled") true)
    × (cfg.exec ≡ expanded_key env user sec (text "exec"))
    × (is_valid_policy cfg.restart ≡ true)

-- A configuration for each section, in their order, each with a command.
abbrev pub AllFrom : Environ → User → List Section → List DaemonConfig → Type 0
AllFrom env user [] [] = Unit
AllFrom env user [] (cfg ∷ configs) = ⊥
AllFrom env user (sec ∷ sections) [] = ⊥
AllFrom env user (sec ∷ sections) (cfg ∷ configs) =
    (IsFrom env user sec cfg × (bytes_eq cfg.exec [] ≡ false)) × AllFrom env user sections configs

module _ (env : Environ) (user : User) (sec : Section) where
  read_order-IsFrom :
      (cfg cfg' : DaemonConfig)
      → IsFrom env user sec cfg
      → read_order sec cfg ≡ ok cfg'
      → IsFrom env user sec cfg'
  unfolding read_order
  read_order-IsFrom cfg cfg' h e = ground (arith, h, e)

  read_restart-IsFrom :
      (cfg cfg' : DaemonConfig)
      → IsFrom env user sec cfg
      → read_restart sec cfg ≡ ok cfg'
      → IsFrom env user sec cfg'
  unfolding read_restart valid_policy
  read_restart-IsFrom cfg cfg' h e = ground (arith, h, e)

  read_timeout-IsFrom :
      (go_duration : Bytes → Option ℤ) (cfg cfg' : DaemonConfig)
      → IsFrom env user sec cfg
      → read_timeout go_duration sec cfg ≡ ok cfg'
      → IsFrom env user sec cfg'
  unfolding read_timeout
  read_timeout-IsFrom go_duration cfg cfg' h e = ground (arith, h, e)

  read_env-IsFrom :
      (values : List Bytes) (cfg cfg' : DaemonConfig)
      → IsFrom env user sec cfg
      → read_env env user values cfg ≡ ok cfg'
      → IsFrom env user sec cfg'
  unfolding read_env
  read_env-IsFrom [] cfg cfg' h e = ground (arith, h, e)
  read_env-IsFrom (raw ∷ values) cfg cfg' h e =
      elim (Option-cases (cut b'=' (expand_daemon_var env user raw))) [
        | inl bad ↦ absurd (ground (arith, rw (bad, read_env) at e))
        | inr ((k, v), pair) ↦
            read_env-IsFrom values (record cfg { env = insert k v cfg.env }) cfg' h
              (rw (pair, read_env) at e)
      ]

  daemon_config_from_section-IsFrom :
      (go_duration : Bytes → Option ℤ) (cfg : DaemonConfig)
      → daemon_config_from_section go_duration env user sec ≡ ok cfg
      → IsFrom env user sec cfg × (bytes_eq cfg.exec [] ≡ false)
  unfolding daemon_config_from_section default_daemon
  daemon_config_from_section-IsFrom go_duration cfg e =
      let start = record (default_daemon sec) { exec = expanded_key env user sec (text "exec") } in
      let (c₃, e₃, rest₃) = ok-bind _ _ cfg e in
      let (c₂, e₂, rest₂) = ok-bind _ _ c₃ e₃ in
      let (c₁, e₁, rest₁) = ok-bind _ _ c₂ e₂ in
      let (c₄, e₄, rest₄) = ok-bind _ _ cfg rest₃ in
      let h₁ = read_order-IsFrom start c₁ (refl, refl, refl, refl) e₁ in
      let h₂ = read_restart-IsFrom c₁ c₂ h₁ rest₁ in
      let h₃ = read_timeout-IsFrom go_duration c₂ c₃ h₂ rest₂ in
      let with_socket = record c₃ { socket = expanded_key env user sec (text "socket") } in
      let h₄ = read_env-IsFrom (shadows_of sec (text "env")) with_socket c₄ h₃ e₄ in
      ground (arith, h₄, rest₄)

wrap-ok : {E F A : Type 0} (f : E → F) (r : Result E A) (a : A) → wrap f r ≡ ok a → r ≡ ok a
wrap-ok f (ok b) a h = ground (arith, h)
wrap-ok f (err e) a h = absurd (ground (arith, h))

load_sections-AllFrom :
    (go_duration : Bytes → Option ℤ) (env : Environ) (user : User) (sections : List Section)
    (configs : List DaemonConfig)
    → load_sections go_duration env user sections ≡ ok configs
    → AllFrom env user sections configs
unfolding load_sections
load_sections-AllFrom go_duration env user [] configs e =
    subst (λ c. AllFrom env user [] c) {x = []} {y = configs} (ground (arith, e)) tt
load_sections-AllFrom go_duration env user (sec ∷ sections) configs e =
    let (cfg, read, rest) =
      ok-bind
        (wrap (LoadConfigError.bad_section sec.name)
          (daemon_config_from_section go_duration env user sec))
        _ configs e in
    let (later, loaded, whole) =
      ok-bind (load_sections go_duration env user sections) _ configs rest in
    let own =
      daemon_config_from_section-IsFrom env user sec go_duration cfg (wrap-ok _ _ cfg read) in
    subst (λ c. AllFrom env user (sec ∷ sections) c) {x = cfg ∷ later} {y = configs}
      (ground (arith, whole))
      (own, load_sections-AllFrom go_duration env user sections later loaded)

pub load_config-ok :
    (go_duration : Bytes → Option ℤ) (ini : Bytes → Option IniFile) (env : Environ) (user : User)
    (file : ConfigFile) (configs : List DaemonConfig)
    → load_config go_duration ini env user file ≡ ok configs
    → (bytes : Bytes) × (parsed : IniFile) × (read : List DaemonConfig) × (read_or_create file
        ≡ ok bytes)
      × (ini bytes ≡ some parsed)
      × AllFrom env user (named_sections parsed) read
      × (sort order_before read ≡ configs)
unfolding load_config
load_config-ok go_duration ini env user file configs e =
    let (bytes, found, rest) = ok-bind (read_or_create file) _ configs e in
    elim (Option-cases (ini bytes)) [
      | inl bad ↦ absurd (ground (arith, rw bad at rest))
      | inr (parsed, good) ↦
          let (read, loaded, whole) =
            ok-bind (load_sections go_duration env user (named_sections parsed)) _ configs
              (rw good at rest) in
          (
            bytes,
            parsed,
            read,
            found,
            good,
            load_sections-AllFrom go_duration env user (named_sections parsed) read loaded,
            ground (arith, whole),
          )
    ]

-- If LoadConfig returns daemons, they are one for each named section of the file that was read (the one
-- that was there, or the template), with its name, its enabled flag, its command, which is not empty,
-- and one of the four restart policies; and they are in ascending order.
pub load_config_lem :
    (go_duration : Bytes → Option ℤ) (ini : Bytes → Option IniFile) (env : Environ) (user : User)
    (file : ConfigFile) (configs : List DaemonConfig)
    → load_config go_duration ini env user file ≡ ok configs
    → (bytes : Bytes) × (parsed : IniFile) × (read : List DaemonConfig) × (read_or_create file
        ≡ ok bytes)
      × (ini bytes ≡ some parsed)
      × AllFrom env user (named_sections parsed) read
      × Perm configs read
      × IsSorted order_before configs
load_config_lem go_duration ini env user file configs e =
    let (bytes, parsed, read, found, good, from, sorted) =
      load_config-ok go_duration ini env user file configs e in
    let in_order = sort-IsSorted order_before (λ a b h. ground (arith, h)) read in
    (
      bytes,
      parsed,
      read,
      found,
      good,
      from,
      subst (λ c. Perm c read) {x = sort order_before read} {y = configs} sorted
          (sort-perm order_before read),
      subst (λ c. IsSorted order_before c) {x = sort order_before read} {y = configs} sorted
          in_order,
    )
