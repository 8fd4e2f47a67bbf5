-- ===== src/Daemon/Config.antt =====
-- internal/daemon/config.go: daemons.ini. `time.ParseDuration` and the parse of the INI library are
-- parameters; `Atoi` is `parse_int`, an `int` having 64 bits.
pub mod Loading
mod Tests
use a_kerno.Common.{
  ℕ, ◌*◌, ◌%◌, ◌^◌, Bytes, bytes_eq, text, List, [], ◌∷◌, Option, none, some, Bool, true, false,
  if◌then◌else◌, Result, ok, err, ◌>>=◌, wrap,
}
use a_kerno.Common.Int.{ℤ, pos, int64, uint64, ltb_ℤ}
use a_kerno.Common.Assoc.{Assoc, insert}
use a_kerno.Common.Sorting.{sort}
use a_kerno.Text.{trim_space, cut}
use a_kerno.Config.{Environ, User, expand_placeholders}
use a_kerno.IniFile.{Section, IniFile, named_sections, string_of, shadows_of, bool_default}
use a_kerno.Cmdlist.{parse_int}
use a_kerno.Daemon.Types.{RestartPolicy, DaemonConfig}
use a_kerno.Daemon.Backoff.{second}

pub data ConfigError : Type 0 where
  invalid_order invalid_restart invalid_ready_timeout invalid_env exec_required :
      Bytes → ConfigError

-- `expandDaemonVar`
abbrev pub expand_daemon_var : Environ → User → Bytes → Bytes
expand_daemon_var env user s = expand_placeholders env user s

-- The policies of `validRestartPolicies`.
unfoldable pub valid_policy : Bytes → Option RestartPolicy
valid_policy s =
    if bytes_eq s (text "always")
    then some RestartPolicy.always
    else if bytes_eq s (text "on-failure")
    then some RestartPolicy.on_failure
    else if bytes_eq s (text "once")
    then some RestartPolicy.once
    else if bytes_eq s (text "disabled")
    then some RestartPolicy.disabled
    else none

-- `time.Duration(n) * time.Second`, an `int64` product.
abbrev pub seconds : ℤ → ℤ
seconds n = int64 (uint64 n * second % 2 ^ 64)

-- The configuration that `daemonConfigFromSection` starts from.
unfoldable pub default_daemon : Section → DaemonConfig
default_daemon sec = record {
  name = sec.name;
  exec = [];
  order = pos 0;
  restart = RestartPolicy.on_failure;
  ready_timeout = pos (10 * second);
  socket = [];
  env = [];
  enabled = bool_default sec (text "enabled") true;
}

abbrev pub or_error : {A : Type 0} → ConfigError → Option A → Result ConfigError A
or_error e none = err e
or_error e (some a) = ok a

-- The value of a key, expanded where it is not empty.
abbrev pub expanded_key : Environ → User → Section → Bytes → Bytes
expanded_key env user sec name =
    if bytes_eq (string_of sec name) [] then [] else expand_daemon_var env user (string_of sec name)

-- The key `order`.
unfoldable pub read_order : Section → DaemonConfig → Result ConfigError DaemonConfig
read_order sec cfg =
    let order = string_of sec (text "order") in
    if bytes_eq order []
    then ok cfg
    else or_error (ConfigError.invalid_order order) (parse_int order) >>= λ n.
        ok (record cfg { order = n })

-- The key `restart`.
unfoldable pub read_restart : Section → DaemonConfig → Result ConfigError DaemonConfig
read_restart sec cfg =
    let restart = trim_space (string_of sec (text "restart")) in
    if bytes_eq restart []
    then ok cfg
    else or_error (ConfigError.invalid_restart restart) (valid_policy restart) >>= λ policy.
        ok (record cfg { restart = policy })

abbrev pub or_seconds : Bytes → Option ℤ → Option ℤ
or_seconds s none = elim (parse_int s) [ none ↦ none | some n ↦ some (seconds n) ]
or_seconds s (some d) = some d

-- The loop over the values of `env`.
unfoldable pub read_env :
    Environ → User → List Bytes → DaemonConfig → Result ConfigError DaemonConfig
read_env env user [] cfg = ok cfg
read_env env user (raw ∷ values) cfg =
    let value = expand_daemon_var env user raw in
    elim (cut b'=' value) [
      | none ↦ err (ConfigError.invalid_env value)
      | some (k, v) ↦ read_env env user values (record cfg { env = insert k v cfg.env })
    ]

-- The test for the required `exec`.
abbrev pub require_command : DaemonConfig → Result ConfigError DaemonConfig
require_command cfg =
    if bytes_eq cfg.exec [] then err (ConfigError.exec_required cfg.name) else ok cfg

abbrev pub order_before : DaemonConfig → DaemonConfig → Bool
order_before a b = ltb_ℤ a.order b.order

pub data ReadAnswer : Type 0 where
  missing failed : ReadAnswer
  content : Bytes → ReadAnswer

-- What the file system answers to `LoadConfig`: the first read, whether the template can be written, and
-- the read after that.
pub record ConfigFile : Type 0 where
  pub first : ReadAnswer
  pub template_written : Bool
  pub second : ReadAnswer

pub data LoadConfigError : Type 0 where
  template_failed read_failed parse_failed : LoadConfigError
  bad_section : Bytes → ConfigError → LoadConfigError

abbrev pub read_again : ReadAnswer → Result LoadConfigError Bytes
read_again (ReadAnswer.content bytes) = ok bytes
read_again _ = err LoadConfigError.read_failed

-- The reads at the start of `LoadConfig`.
unfoldable pub read_or_create : ConfigFile → Result LoadConfigError Bytes
read_or_create file = elim file.first [
  | ReadAnswer.content bytes ↦ ok bytes
  | ReadAnswer.failed ↦ err LoadConfigError.read_failed
  | ReadAnswer.missing ↦
      if file.template_written then read_again file.second else err LoadConfigError.template_failed
]

module _ (go_duration : Bytes → Option ℤ) where
  -- `parseDuration`
  abbrev pub parse_duration : Bytes → Option ℤ
  parse_duration s = or_seconds s (go_duration s)

  -- The key `ready_timeout`.
  unfoldable pub read_timeout : Section → DaemonConfig → Result ConfigError DaemonConfig
  read_timeout sec cfg =
      let timeout = string_of sec (text "ready_timeout") in
      if bytes_eq timeout []
      then ok cfg
      else or_error (ConfigError.invalid_ready_timeout timeout) (parse_duration timeout) >>= λ d.
          ok (record cfg { ready_timeout = d })

  -- `daemonConfigFromSection`
  unfoldable pub daemon_config_from_section :
      Environ → User → Section → Result ConfigError DaemonConfig
  daemon_config_from_section env user sec =
      let start = record (default_daemon sec) { exec = expanded_key env user sec (text "exec") } in
      read_order sec start >>= read_restart sec >>= read_timeout sec >>= λ cfg.
      read_env env user (shadows_of sec (text "env"))
        (record cfg { socket = expanded_key env user sec (text "socket") })
      >>= require_command

  -- The loop of `LoadConfig`.
  unfoldable pub load_sections :
      Environ → User → List Section → Result LoadConfigError (List DaemonConfig)
  load_sections env user [] = ok []
  load_sections env user (sec ∷ sections) =
      wrap (LoadConfigError.bad_section sec.name) (daemon_config_from_section env user sec)
      >>= λ cfg. load_sections env user sections >>= λ configs. ok (cfg ∷ configs)

  -- `LoadConfig`; `ini` is `iniload.Load`.
  unfoldable pub load_config :
      (Bytes → Option IniFile)
      → Environ
      → User
      → ConfigFile
      → Result LoadConfigError (List DaemonConfig)
  load_config ini env user file = read_or_create file >>= λ bytes. elim (ini bytes) [
    | none ↦ err LoadConfigError.parse_failed
    | some parsed ↦
        load_sections env user (named_sections parsed) >>= λ configs. ok (sort order_before configs)
  ]
