-- ===== src/KernoCfg/Tests.antt =====
-- Examples for a-kerno.ini.
use a_kerno.Common.{◌≡◌, refl, Bytes, bytes_eq, text, [], ◌∷◌, none, some, true, ok}
use a_kerno.Config.{Environ, User, expand_var, expand_placeholders}
use a_kerno.Text.{trim_space, has_prefix, replace_all, replace_from}
use a_kerno.IniFile.{IniKey, IniFile, find_section, find_key, string_of}
use a_kerno.Daemon.Config.{ReadAnswer, ConfigFile}
use a_kerno.KernoCfg.{composer_of, load}

abbrev environ : Environ
environ = record {
  config_home = [];
  runtime_dir = [];
  kerno_sock = [];
  indexd_sock = [];
  skripto_sock = [];
  tondujo_sock = [];
  dosierago_sock = [];
  xdg_runtime_dir = [];
}

abbrev user : User
user = record { uid = text "42"; home = text "/home/t" }

abbrev key : Bytes → Bytes → IniKey
key name value = record { name = name; value = value; values = value ∷ []; as_bool = none }

abbrev file : IniFile
file = record {
  sections =
      record { name = text "DEFAULT"; keys = []; inherited = [] }
      ∷ record {
        name = text "composer";
        keys =
            key (text "run") (text " wm -c ${HOME}/c ")
            ∷ key (text "restart") (text "on-failure")
            ∷ [];
        inherited = [];
      }
      ∷ [];
}

abbrev created : ConfigFile
created = record {
  first = ReadAnswer.missing;
  template_written = true;
  second = ReadAnswer.content [];
}

composer_read :
    load (λ bytes. some file) environ user created
    ≡ ok (record { run = text "wm -c /home/t/c"; restart = text "on-failure" })
unfolding load composer_of find_section find_key string_of expand_var expand_placeholders trim_space
    has_prefix replace_all replace_from bytes_eq
composer_read = refl
