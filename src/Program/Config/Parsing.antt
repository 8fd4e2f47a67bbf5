-- ===== src/Program/Config/Parsing.antt =====
-- internal/program/config.go: what every parsed program has.
use a_kerno.Common.{
  ◌≡◌, refl, Bytes, bytes_eq, text, List, [], ◌∷◌, Option, none, some, true, false, arith, ok,
  Bool-cases, inl, inr,
}
use mathlib.Core.Path.{subst}
use a_kerno.Text.{cut, to_lower, trim_space}
use a_kerno.Config.{Environ, User}
use a_kerno.IniFile.{IniKey, program_section}
use a_kerno.Program.Types.{ProgramConfig}
use a_kerno.Program.Config.{
  default_config, is_phase, apply_program_property, apply_env, apply_keys, expand_program_var,
  IniAnswer, require_exec, parse_ini_program,
}
use a_kerno.Program.Config.Desktop.{
  DesktopState, apply_desktop, apply_pair, desktop_line, desktop_lines, DesktopAnswer,
  desktop_start, parse_desktop_program,
}

-- The configuration has the name and the source of its file, and one of the two phases.
abbrev pub IsOf : Bytes → Bytes → ProgramConfig → Type 0
IsOf name source cfg = (cfg.name ≡ name) × (cfg.source ≡ source) × (is_phase cfg.phase ≡ true)

-- The configuration can be started: it is of its file and has a command.
abbrev pub IsComplete : Bytes → Bytes → ProgramConfig → Type 0
IsComplete name source cfg = IsOf name source cfg × (bytes_eq cfg.exec [] ≡ false)

module _ (name source : Bytes) where
  apply_program_property-IsOf :
      (key value : Bytes) (cfg : ProgramConfig)
      → IsOf name source cfg
      → IsOf name source (apply_program_property key value cfg)
  unfolding apply_program_property bytes_eq
  apply_program_property-IsOf key value cfg h = ground (arith, h)

  apply_env-IsOf :
      (env : Environ) (user : User) (values : List Bytes) (cfg : ProgramConfig)
      → IsOf name source cfg
      → IsOf name source (apply_env env user values cfg)
  unfolding apply_env
  apply_env-IsOf env user [] cfg h = h
  apply_env-IsOf env user (value ∷ values) cfg h =
      apply_env-IsOf env user values _
        (apply_program_property-IsOf (text "env") (expand_program_var env user value) cfg h)

  apply_keys-IsOf :
      (env : Environ) (user : User) (keys : List IniKey) (cfg : ProgramConfig)
      → IsOf name source cfg
      → IsOf name source (apply_keys env user keys cfg)
  unfolding apply_keys
  apply_keys-IsOf env user [] cfg h = h
  apply_keys-IsOf env user (key ∷ keys) cfg h =
      apply_keys-IsOf env user keys _ (elim (Bool-cases (bytes_eq key.name (text "env"))) [
        | inl is_env ↦ rw is_env (apply_env-IsOf env user key.values cfg h)
        | inr other ↦
            rw other
              (apply_program_property-IsOf key.name (expand_program_var env user key.value) cfg h)
      ])

  apply_desktop-IsOf :
      (env : Environ) (user : User) (key value : Bytes) (s : DesktopState)
      → IsOf name source s.cfg
      → IsOf name source (apply_desktop env user key value s).cfg
  unfolding apply_desktop
  apply_desktop-IsOf env user key value s h = ground (arith, h)

  apply_pair-IsOf :
      (env : Environ) (user : User) (pair : Option (Bytes × Bytes)) (s : DesktopState)
      → IsOf name source s.cfg
      → IsOf name source (apply_pair env user pair s).cfg
  apply_pair-IsOf env user none s h = h
  apply_pair-IsOf env user (some (key, value)) s h =
      apply_desktop-IsOf env user (to_lower (trim_space key)) (trim_space value) s h

  desktop_line-IsOf :
      (env : Environ) (user : User) (raw : Bytes) (s : DesktopState)
      → IsOf name source s.cfg
      → IsOf name source (desktop_line env user raw s).cfg
  unfolding desktop_line
  desktop_line-IsOf env user raw s h =
      ground (arith, h, apply_pair-IsOf env user (cut b'=' (trim_space raw)) s h)

  desktop_lines-IsOf :
      (env : Environ) (user : User) (lines : List Bytes) (s : DesktopState)
      → IsOf name source s.cfg
      → IsOf name source (desktop_lines env user lines s).cfg
  unfolding desktop_lines
  desktop_lines-IsOf env user [] s h = h
  desktop_lines-IsOf env user (raw ∷ lines) s h =
      desktop_lines-IsOf env user lines _ (desktop_line-IsOf env user raw s h)

  require_exec-IsComplete :
      (parsed cfg : ProgramConfig)
      → IsOf name source parsed
      → require_exec parsed ≡ ok cfg
      → IsComplete name source cfg
  require_exec-IsComplete parsed cfg h e = elim (Bool-cases (bytes_eq parsed.exec [])) [
    | inl empty ↦ ground (arith, empty, e)
    | inr command ↦
        subst (λ c. IsComplete name source c) {x = parsed} {y = cfg} (ground (arith, command, e))
          (h, command)
  ]

-- A program that parseINIProgram returns without error has the name of its file, the source `ini`, one
-- of the two phases and a command that is not empty, whatever the keys of the file are.
pub parse_ini_program-IsComplete :
    (env : Environ) (user : User) (name : Bytes) (answer : IniAnswer) (cfg : ProgramConfig)
    → parse_ini_program env user name answer ≡ ok cfg
    → IsComplete name (text "ini") cfg
unfolding parse_ini_program default_config bytes_eq
parse_ini_program-IsComplete env user name IniAnswer.unreadable cfg e = ground (arith, e)
parse_ini_program-IsComplete env user name IniAnswer.malformed cfg e = ground (arith, e)
parse_ini_program-IsComplete env user name (IniAnswer.parsed file) cfg e =
    let start = default_config name (text "ini") in
    require_exec-IsComplete name (text "ini") _ cfg
      (apply_keys-IsOf name (text "ini") env user (program_section file).keys start
        (refl, refl, refl))
      e

pub parse_desktop_program-IsComplete :
    (env : Environ) (user : User) (name : Bytes) (answer : DesktopAnswer) (cfg : ProgramConfig)
    → parse_desktop_program env user name answer ≡ ok cfg
    → IsComplete name (text "desktop") cfg
unfolding parse_desktop_program default_config bytes_eq
parse_desktop_program-IsComplete env user name DesktopAnswer.unreadable cfg e = ground (arith, e)
parse_desktop_program-IsComplete env user name (DesktopAnswer.scanned lines true) cfg e =
    ground (arith, e)
parse_desktop_program-IsComplete env user name (DesktopAnswer.scanned lines false) cfg e =
    let start = desktop_start name in
    let kept = desktop_lines-IsOf name (text "desktop") env user lines start (refl, refl, refl) in
    require_exec-IsComplete name (text "desktop") _ cfg (ground (arith, kept)) e
