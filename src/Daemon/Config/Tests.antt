-- ===== src/Daemon/Config/Tests.antt =====
-- Examples for daemons.ini.
use mathlib.Core.List.{Perm}
use a_kerno.Common.{
  ◌*◌, ◌^◌, ◌≡◌, refl, Bytes, bytes_eq, text, List, [], ◌∷◌, Option, none, some, true, false, ok,
}
use a_kerno.Common.Int.{ℤ, pos, negsuc}
use a_kerno.Common.Assoc.{insert}
use a_kerno.Common.Sorting.{IsSorted, sort, insert_sorted}
use a_kerno.Config.{Environ, User, expand_placeholders}
use a_kerno.Text.{cut, trim_space, has_prefix, replace_all, replace_from}
use a_kerno.Cmdlist.{parse_int}
use a_kerno.IniFile.{
  IniKey, Section, IniFile, named_sections, without_default, find_key, string_of, shadows_of,
  bool_default,
}
use a_kerno.Daemon.Types.{RestartPolicy, DaemonConfig}
use a_kerno.Daemon.Config.{
  ReadAnswer, ConfigFile, order_before, read_or_create, valid_policy, default_daemon, read_order,
  read_restart, read_timeout, read_env, daemon_config_from_section, load_sections, load_config,
}
use a_kerno.Daemon.Config.Loading.{AllFrom, load_config_lem}

abbrev environ : Environ
environ = record {
  config_home = [];
  runtime_dir = text "/run/a";
  kerno_sock = [];
  indexd_sock = [];
  skripto_sock = [];
  tondujo_sock = [];
  dosierago_sock = [];
  xdg_runtime_dir = [];
}

abbrev user : User
user = record { uid = text "7"; home = text "/home/u" }

abbrev key : Bytes → Bytes → IniKey
key name value = record { name = name; value = value; values = value ∷ []; as_bool = none }

abbrev section : Bytes → Bytes → Bytes → Section
section name order timeout = record {
  name = name;
  keys =
      key (text "exec") name
      ∷ key (text "order") order
      ∷ key (text "restart") (text " once ")
      ∷ key (text "ready_timeout") timeout
      ∷ key (text "env") (text "D=${ADE_RUNTIME_DIR}")
      ∷ [];
  inherited = [];
}

abbrev parsed : IniFile
parsed = record {
  sections =
      record { name = text "DEFAULT"; keys = []; inherited = [] }
      ∷ section (text "late") (text "2") (text "3s")
      ∷ section (text "soon") (text "-1") (text "5")
      ∷ [];
}

abbrev ini : Bytes → Option IniFile
ini bytes = some parsed

abbrev go_duration : Bytes → Option ℤ
go_duration s = elim (bytes_eq s (text "3s")) [ true ↦ some (pos (3 * 10 ^ 9)) | false ↦ none ]

abbrev file : ConfigFile
file = record {
  first = ReadAnswer.missing;
  template_written = true;
  second = ReadAnswer.content (text "[late]");
}

abbrev daemon : Bytes → ℤ → ℤ → DaemonConfig
daemon name order timeout = record {
  name = name;
  exec = name;
  order = order;
  restart = RestartPolicy.once;
  ready_timeout = timeout;
  socket = [];
  env = (text "D", text "/run/a") ∷ [];
  enabled = true;
}

abbrev configs : List DaemonConfig
configs =
    daemon (text "soon") (negsuc 0) (pos (5 * 10 ^ 9))
    ∷ daemon (text "late") (pos 2) (pos (3 * 10 ^ 9))
    ∷ []

loaded : load_config go_duration ini environ user file ≡ ok configs
unfolding load_config read_or_create load_sections daemon_config_from_section default_daemon
    read_order read_restart read_timeout read_env valid_policy bool_default named_sections
    without_default string_of shadows_of find_key parse_int cut trim_space expand_placeholders
    replace_all replace_from has_prefix insert sort insert_sorted bytes_eq
loaded = refl

load_config_lem_example :
    (bytes : Bytes) × (parsed : IniFile) × (read : List DaemonConfig) × (read_or_create file
      ≡ ok bytes)
    × (ini bytes ≡ some parsed)
    × AllFrom environ user (named_sections parsed) read
    × Perm configs read
    × IsSorted order_before configs
load_config_lem_example = load_config_lem go_duration ini environ user file configs loaded
