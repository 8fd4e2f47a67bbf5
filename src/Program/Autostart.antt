-- ===== src/Program/Autostart.antt =====
-- internal/program/config.go: the two autostart directories. The answers of the file system are data: what
-- reading a directory gives, its entries in the order of the library, and the content of each file.
pub mod Names
pub mod Scan
pub mod Merge
mod Tests
use a_kerno.Common.{
  Bytes, bytes_eq, bytes_less, text, List, [], ◌∷◌, ◌++◌, Option, none, some, Bool, true, false,
  not, ◌||◌, if◌then◌else◌, Result, ok, err, ◌>>=◌,
}
use a_kerno.Common.Sorting.{sort, insert_sorted}
use a_kerno.Text.{ext, trim_suffix}
use a_kerno.Config.{Environ, User}
use a_kerno.Program.Types.{ProgramConfig}
use a_kerno.Program.Resolve.{cfg_before}
use a_kerno.Program.Config.{ParseError, IniAnswer, parse_ini_program}
use a_kerno.Program.Config.Desktop.{DesktopAnswer, parse_desktop_program}

-- An entry of a directory; `F` is what reading it gives.
pub record DirEntry (F : Type 0) : Type 0 where
  pub name : Bytes
  pub is_dir : Bool
  pub content : F

-- `os.ReadDir`
pub data DirAnswer (F : Type 0) : Type 0 where
  missing unreadable : DirAnswer F
  entries : List (DirEntry F) → DirAnswer F

pub data LoadError : Type 0 where
  dir_missing dir_unreadable : LoadError
  bad_file : Bytes → ParseError → LoadError

-- The map `seen`, which only ever holds `true`.
unfoldable pub has_seen : List Bytes → Bytes → Bool
has_seen [] name = false
has_seen (other ∷ seen) name = bytes_eq other name || has_seen seen name

-- One program after the parse of its file, and what the rest of the directory gives.
abbrev after_parse :
    Bytes
    → Result ParseError ProgramConfig
    → Result LoadError (List ProgramConfig × List Bytes)
    → Result LoadError (List ProgramConfig × List Bytes)
after_parse name (err e) rest = err (LoadError.bad_file name e)
after_parse name (ok cfg) (err e) = err e
after_parse name (ok cfg) (ok (configs, seen)) = ok (cfg ∷ configs, seen)

module _ {F : Type 0} (parse : Bytes → F → Result ParseError ProgramConfig) (suffix : Bytes) where
  -- The loop of `scanDir`, with the names that are defined by now.
  unfoldable pub scan_entries :
      List (DirEntry F) → List Bytes → Result LoadError (List ProgramConfig × List Bytes)
  unfolding has_seen
  scan_entries [] seen = ok ([], seen)
  scan_entries (entry ∷ rest) seen =
      let base = trim_suffix suffix entry.name in
      let passed = scan_entries rest seen in
      let taken =
        after_parse entry.name (parse base entry.content) (scan_entries rest (base ∷ seen)) in
      if entry.is_dir
      then passed
      else if not (bytes_eq (ext entry.name) suffix)
      then passed
      else if has_seen seen base
      then passed
      else taken

  -- `scanDir`
  unfoldable pub scan_dir :
      DirAnswer F → List Bytes → Result LoadError (List ProgramConfig × List Bytes)
  unfolding scan_entries
  scan_dir DirAnswer.missing seen = err LoadError.dir_missing
  scan_dir DirAnswer.unreadable seen = err LoadError.dir_unreadable
  scan_dir (DirAnswer.entries es) seen = scan_entries es seen

-- The programs of the XDG directory; a missing directory has none.
abbrev pub fallback :
    Result LoadError (List ProgramConfig × List Bytes) → Result LoadError (List ProgramConfig)
fallback (ok (configs, seen)) = ok configs
fallback (err LoadError.dir_missing) = ok []
fallback (err LoadError.dir_unreadable) = err LoadError.dir_unreadable
fallback (err (LoadError.bad_file name e)) = err (LoadError.bad_file name e)

abbrev pub scan_ini :
    Environ → User → DirAnswer IniAnswer → Result LoadError (List ProgramConfig × List Bytes)
scan_ini env user dir = scan_dir (parse_ini_program env user) (text ".ini") dir []

-- The answer for the XDG directory is `none` where its path is empty.
abbrev pub scan_desktop :
    Environ
    → User
    → Option (DirAnswer DesktopAnswer)
    → List Bytes
    → Result LoadError (List ProgramConfig)
scan_desktop env user none seen = ok []
scan_desktop env user (some dir) seen =
    fallback (scan_dir (parse_desktop_program env user) (text ".desktop") dir seen)

-- `LoadProgramConfigs`
unfoldable pub load_program_configs :
    Environ
    → User
    → DirAnswer IniAnswer
    → Option (DirAnswer DesktopAnswer)
    → Result LoadError (List ProgramConfig)
unfolding scan_dir
load_program_configs env user ini_dir xdg_dir = scan_ini env user ini_dir >>= λ (ini, seen).
    scan_desktop env user xdg_dir seen >>= λ desktop. ok (sort cfg_before (ini ++ desktop))
