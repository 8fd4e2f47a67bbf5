-- ===== src/Program/Config.antt =====
-- internal/program/config.go: the properties of one autostart file. `Atoi` is `parse_int`, an `int`
-- having 64 bits; texts are ASCII, or valid UTF-8 where they are only copied.
pub mod Desktop
pub mod Parsing
use a_kerno.Common.{
  Bytes, bytes_eq, text, List, [], ◌∷◌, Option, none, some, Bool, true, false, ◌&&◌, ◌||◌, not,
  if◌then◌else◌, Result, ok, err,
}
use a_kerno.Common.Int.{ℤ, pos}
use a_kerno.Common.Assoc.{Assoc, insert}
use a_kerno.Text.{to_lower, trim_space, split, cut}
use a_kerno.Config.{Environ, User, expand_placeholders}
use a_kerno.IniFile.{IniKey, IniFile, program_section}
use a_kerno.Cmdlist.{parse_int}
use a_kerno.Program.Types.{ProgramConfig}
use a_kerno.Program.Resolve.{phase_early, phase_post}

-- `DefaultPhase`, `DefaultHealthTimeout`, `DefaultHealthRetry`, and the fields that the source leaves
-- empty.
unfoldable pub default_config : Bytes → Bytes → ProgramConfig
default_config name source = record {
  name = name;
  exec = [];
  phase = phase_post;
  priority = pos 0;
  enabled = true;
  depends_on = [];
  start_delay = pos 0;
  health_check = [];
  health_timeout = pos 30;
  health_retry = pos 3;
  env = [];
  restart = false;
  source = source;
}

-- `expandVar`
abbrev pub expand_program_var : Environ → User → Bytes → Bytes
expand_program_var env user s = expand_placeholders env user s

abbrev pub is_phase : Bytes → Bool
is_phase phase = bytes_eq phase phase_early || bytes_eq phase phase_post

-- The number that is set where `Atoi` has no error.
abbrev pub int_or : ℤ → Bytes → ℤ
int_or old value = elim (parse_int value) [ none ↦ old | some n ↦ n ]

unfoldable pub non_empty_trimmed : List Bytes → List Bytes
non_empty_trimmed [] = []
non_empty_trimmed (part ∷ parts) =
    let rest = non_empty_trimmed parts in
    let trimmed = trim_space part in if not (bytes_eq trimmed []) then trimmed ∷ rest else rest

-- `parseCommaList`
unfoldable pub parse_comma_list : Bytes → List Bytes
unfolding non_empty_trimmed
parse_comma_list s = non_empty_trimmed (split b',' s)

abbrev set_env : Option (Bytes × Bytes) → Assoc Bytes → Assoc Bytes
set_env none env = env
set_env (some (k, v)) env = insert k v env

-- `applyProgramProperty`
unfoldable pub apply_program_property : Bytes → Bytes → ProgramConfig → ProgramConfig
apply_program_property key value cfg =
    let low = to_lower value in
    if bytes_eq key (text "exec")
    then record cfg { exec = value }
    else if bytes_eq key (text "phase")
    then record cfg { phase = if is_phase low then low else phase_post }
    else if bytes_eq key (text "priority")
    then record cfg { priority = int_or cfg.priority value }
    else if bytes_eq key (text "enabled")
    then record cfg {
      enabled =
          not (bytes_eq low (text "false") || bytes_eq low (text "no") || bytes_eq low (text "0"));
    }
    else if bytes_eq key (text "depends_on")
    then record cfg { depends_on = parse_comma_list value }
    else if bytes_eq key (text "start_delay")
    then record cfg { start_delay = int_or cfg.start_delay value }
    else if bytes_eq key (text "health_check")
    then record cfg { health_check = value }
    else if bytes_eq key (text "health_timeout")
    then record cfg { health_timeout = int_or cfg.health_timeout value }
    else if bytes_eq key (text "health_retry")
    then record cfg { health_retry = int_or cfg.health_retry value }
    else if bytes_eq key (text "env")
    then record cfg { env = set_env (cut b'=' value) cfg.env }
    else if bytes_eq key (text "restart")
    then record cfg {
      restart = bytes_eq low (text "true") || bytes_eq low (text "yes") || bytes_eq low (text "1");
    }
    else cfg

unfoldable pub apply_env : Environ → User → List Bytes → ProgramConfig → ProgramConfig
apply_env env user [] cfg = cfg
apply_env env user (value ∷ values) cfg =
    let value' = expand_program_var env user value in
    apply_env env user values (apply_program_property (text "env") value' cfg)

-- One key of the loop of `parseINIProgram`.
abbrev pub apply_key : Environ → User → IniKey → ProgramConfig → ProgramConfig
apply_key env user key cfg =
    if bytes_eq key.name (text "env")
    then apply_env env user key.values cfg
    else apply_program_property key.name (expand_program_var env user key.value) cfg

-- The loop of `parseINIProgram`.
unfoldable pub apply_keys : Environ → User → List IniKey → ProgramConfig → ProgramConfig
apply_keys env user [] cfg = cfg
apply_keys env user (key ∷ keys) cfg = apply_keys env user keys (apply_key env user key cfg)

-- What reading an .ini file and parsing it with the library gives.
pub data IniAnswer : Type 0 where
  unreadable malformed : IniAnswer
  parsed : IniFile → IniAnswer

-- The errors of the two parsers.
pub data ParseError : Type 0 where
  read_failed invalid_ini scan_failed exec_missing : ParseError

-- The test for the required `exec`.
abbrev pub require_exec : ProgramConfig → Result ParseError ProgramConfig
require_exec cfg = if bytes_eq cfg.exec [] then err ParseError.exec_missing else ok cfg

-- `parseINIProgram`
unfoldable pub parse_ini_program :
    Environ → User → Bytes → IniAnswer → Result ParseError ProgramConfig
parse_ini_program env user name IniAnswer.unreadable = err ParseError.read_failed
parse_ini_program env user name IniAnswer.malformed = err ParseError.invalid_ini
parse_ini_program env user name (IniAnswer.parsed file) =
    require_exec
      (apply_keys env user (program_section file).keys (default_config name (text "ini")))
