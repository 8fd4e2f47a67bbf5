-- ===== src/KernoCfg.antt =====
-- internal/kernocfg/config.go: the composer section of a-kerno.ini. The parse of the INI library is a
-- parameter.
mod Tests
use a_kerno.Common.{
  Bytes, bytes_eq, text, List, [], ◌∷◌, Option, none, some, Bool, true, false, if◌then◌else◌,
  Result, ok, err,
}
use a_kerno.Text.{trim_space}
use a_kerno.Config.{Environ, User, expand_var}
use a_kerno.IniFile.{Section, IniFile, string_of, find_section}
use a_kerno.Daemon.Config.{ReadAnswer, ConfigFile}

pub record Composer : Type 0 where
  pub run : Bytes
  pub restart : Bytes

-- `Composer{}`
abbrev pub no_composer : Composer
no_composer = record { run = []; restart = [] }

-- `expandVar`, which is that of internal/config.
abbrev pub expand_composer_var : Environ → User → Bytes → Bytes
expand_composer_var env user s = expand_var env user s

-- `parseComposer` after the parse.
unfoldable pub composer_of : Environ → User → IniFile → Composer
unfolding find_section
composer_of env user file = elim (find_section (text "composer") file.sections) [
  | none ↦ no_composer
  | some sec ↦ record {
    run = expand_composer_var env user (trim_space (string_of sec (text "run")));
    restart = trim_space (string_of sec (text "restart"));
  }
]

pub data LoadComposerError : Type 0 where
  template_failed read_failed : LoadComposerError

-- `Load`, on the bytes that were read: a file that cannot be parsed gives the empty composer.
abbrev pub parse_composer : (Bytes → Option IniFile) → Environ → User → Bytes → Composer
parse_composer ini env user bytes = elim (ini bytes) [
  | none ↦ no_composer
  | some file ↦ composer_of env user file
]

-- `Load`
unfoldable pub load :
    (Bytes → Option IniFile) → Environ → User → ConfigFile → Result LoadComposerError Composer
load ini env user file = elim file.first [
  | ReadAnswer.content bytes ↦ ok (parse_composer ini env user bytes)
  | ReadAnswer.failed ↦ err LoadComposerError.read_failed
  | ReadAnswer.missing ↦
      if file.template_written
      then elim file.second [
        | ReadAnswer.content bytes ↦ ok (parse_composer ini env user bytes)
        | ReadAnswer.failed ↦ err LoadComposerError.read_failed
        | ReadAnswer.missing ↦ err LoadComposerError.read_failed
      ]
      else err LoadComposerError.template_failed
]
