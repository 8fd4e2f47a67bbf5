-- ===== src/Program/Autostart/Tests.antt =====
-- Examples for the files of the autostart directories.
use a_kerno.Common.{
  ◌≡◌, refl, Bytes, bytes_eq, bytes_less, text, [], ◌∷◌, ◌++◌, none, some, true, false, ok,
}
use a_kerno.Common.Int.{ℤ, pos, negsuc}
use a_kerno.Common.Sorting.{sort, insert_sorted}
use a_kerno.Config.{Environ, User, expand_placeholders}
use a_kerno.Text.{
  cut, trim_space, equal_fold, to_lower, ext, trim_suffix, has_prefix, has_suffix, replace_all,
  replace_from,
}
use a_kerno.Cmdlist.{parse_int}
use a_kerno.IniFile.{IniKey, find_section, program_section}
use a_kerno.Program.Types.{ProgramConfig}
use a_kerno.Program.Resolve.Groups.{AllInRank}
use a_kerno.Program.Config.{
  IniAnswer, parse_ini_program, apply_keys, apply_program_property, default_config,
}
use a_kerno.Program.Config.Parsing.{IsComplete, parse_ini_program-IsComplete}
use a_kerno.Program.Config.Desktop.{
  DesktopAnswer, parse_desktop_program, desktop_lines, desktop_line, apply_desktop,
  strip_placeholders,
}
use a_kerno.Text.Utf8.{runes, encode_runes}
use a_kerno.Program.Config.Desktop.Codes.{without_codes, strip_placeholders-without_codes}
use a_kerno.Program.Autostart.{
  DirEntry, DirAnswer, load_program_configs, scan_dir, scan_entries, has_seen,
}
use a_kerno.Program.Autostart.Names.{named, file_of, files, xdg_files, programs_of}
use a_kerno.Program.Autostart.Merge.{load_program_configs-named}

strip_placeholders-without_codes_example :
    strip_placeholders (text "run %U 5%% 1%3")
    ≡ encode_runes (without_codes (runes (text "run %U 5%% 1%3")))
strip_placeholders-without_codes_example = strip_placeholders-without_codes (text "run %U 5%% 1%3")

stripped : without_codes (text "run %U 5%% 1%3") ≡ text "run  5% 1%3"
unfolding without_codes
stripped = refl

abbrev environ : Environ
environ = record {
  config_home = [];
  runtime_dir = [];
  kerno_sock = [];
  indexd_sock = [];
  skripto_sock = [];
  tondujo_sock = [];
  dosierago_sock = [];
  xdg_runtime_dir = [];
}

abbrev user : User
user = record { uid = text "7"; home = text "/home/u" }

abbrev key : Bytes → Bytes → IniKey
key name value = record { name = name; value = value; values = value ∷ []; as_bool = none }

abbrev panel_ini : IniAnswer
panel_ini = IniAnswer.parsed (record {
  sections =
      record {
        name = text "DEFAULT";
        keys =
            key (text "exec") (text "panel")
            ∷ key (text "phase") (text "EARLY")
            ∷ key (text "priority") (text "-3")
            ∷ [];
        inherited = [];
      }
      ∷ [];
})

abbrev desktop : Bytes → DesktopAnswer
desktop exec = DesktopAnswer.scanned (text "[desktop entry]" ∷ (text "Exec = " ++ exec) ∷ []) false

abbrev entry : {F : Type 0} → Bytes → F → DirEntry F
entry name content = record { name = name; is_dir = false; content = content }

abbrev ini_dir : DirAnswer IniAnswer
ini_dir = DirAnswer.entries (entry (text "panel.ini") panel_ini ∷ [])

abbrev xdg_dir : DirAnswer DesktopAnswer
xdg_dir = DirAnswer.entries (
    entry (text "panel.desktop") (desktop (text "other"))
    ∷ entry (text "notes.desktop") (desktop (text "notes %F"))
    ∷ entry (text "readme") (desktop [])
    ∷ [])

abbrev program : Bytes → Bytes → Bytes → ℤ → Bytes → ProgramConfig
program name exec phase priority source = record {
  name = name;
  exec = exec;
  phase = phase;
  priority = priority;
  enabled = true;
  depends_on = [];
  start_delay = pos 0;
  health_check = [];
  health_timeout = pos 30;
  health_retry = pos 3;
  env = [];
  restart = false;
  source = source;
}

abbrev panel : ProgramConfig
panel = program (text "panel") (text "panel") (text "early") (negsuc 2) (text "ini")

abbrev notes : ProgramConfig
notes = program (text "notes") (text "notes ") (text "post") (pos 0) (text "desktop")

parsed : parse_ini_program environ user (text "panel") panel_ini ≡ ok panel
unfolding parse_ini_program apply_keys apply_program_property program_section find_section
    default_config parse_int expand_placeholders replace_all replace_from has_prefix to_lower
    bytes_eq
parsed = refl

parsed_desktop :
    parse_desktop_program environ user (text "notes") (desktop (text "notes %F")) ≡ ok notes
unfolding parse_desktop_program desktop_lines desktop_line apply_desktop default_config parse_int
    strip_placeholders cut trim_space equal_fold has_suffix expand_placeholders replace_all
    replace_from has_prefix to_lower bytes_eq
parsed_desktop = refl

parse_ini_program-IsComplete_example : IsComplete (text "panel") (text "ini") panel
parse_ini_program-IsComplete_example =
    parse_ini_program-IsComplete environ user (text "panel") panel_ini panel parsed

loaded : load_program_configs environ user ini_dir (some xdg_dir) ≡ ok (panel ∷ notes ∷ [])
unfolding load_program_configs scan_dir scan_entries has_seen ext trim_suffix sort insert_sorted
    bytes_less parse_ini_program apply_keys apply_program_property program_section find_section
    default_config parse_int parse_desktop_program desktop_lines desktop_line apply_desktop
    strip_placeholders cut trim_space equal_fold has_suffix expand_placeholders replace_all
    replace_from has_prefix to_lower bytes_eq
loaded = refl

load_program_configs-named_example :
    AllInRank (panel ∷ notes ∷ [])
    × (named (text "panel") (panel ∷ notes ∷ [])
        ≡ programs_of
            (parse_ini_program environ user (text "panel"))
            (file_of (text ".ini") (text "panel") (files ini_dir))
            (programs_of
              (parse_desktop_program environ user (text "panel"))
              (file_of (text ".desktop") (text "panel") (xdg_files (some xdg_dir)))
              []))
load_program_configs-named_example =
    load_program_configs-named environ user ini_dir (some xdg_dir) (panel ∷ notes ∷ [])
      (text "panel") loaded
