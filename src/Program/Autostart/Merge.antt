-- ===== src/Program/Autostart/Merge.antt =====
-- internal/program/config.go: which programs `LoadProgramConfigs` returns, name by name.
use a_kerno.Common.{
  ◌≤◌, ◌≡◌, refl, sym, ◌∙◌, ap, Bytes, text, List, [], ◌++◌, append-nil, Option, none, some, ◌≢◌,
  arith, length, if◌then◌else◌, Result, ok, err,
}
use mathlib.Core.Path.{subst}
use a_kerno.Common.Sorting.{sort, sort-IsSorted}
use a_kerno.Config.{Environ, User}
use a_kerno.Program.Types.{ProgramConfig}
use a_kerno.Program.Resolve.{cfg_before}
use a_kerno.Program.Resolve.Groups.{AllInRank, IsSorted-AllInRank, cfg_before_asym, ok-bind}
use a_kerno.Program.Config.{ParseError, IniAnswer, parse_ini_program}
use a_kerno.Program.Config.Desktop.{DesktopAnswer, parse_desktop_program}
use a_kerno.Program.Config.Parsing.{parse_ini_program-IsComplete, parse_desktop_program-IsComplete}
use a_kerno.Program.Autostart.{
  DirAnswer, LoadError, has_seen, scan_dir, fallback, scan_ini, scan_desktop, load_program_configs,
}
use a_kerno.Program.Autostart.Names.{
  named, file_of, programs_of, files, xdg_files, is_some, named-sort, named-append,
}
use a_kerno.Program.Autostart.Scan.{scan_entries-ne-missing, scan_dir-Scanned}

fallback-ok :
    (r : Result LoadError (List ProgramConfig × List Bytes)) (cfgs : List ProgramConfig)
    → r ≢ err LoadError.dir_missing
    → fallback r ≡ ok cfgs
    → (out : List ProgramConfig × List Bytes) × (r ≡ ok out) × (out.0 ≡ cfgs)
fallback-ok (ok out) cfgs there h = (out, refl, ground (arith, h))
fallback-ok (err LoadError.dir_missing) cfgs there h = absurd (there refl)
fallback-ok (err LoadError.dir_unreadable) cfgs there h = absurd (ground (arith, h))
fallback-ok (err (LoadError.bad_file name e)) cfgs there h = absurd (ground (arith, h))

ini_keeps_name :
    (env : Environ) (user : User) (name : Bytes) (answer : IniAnswer) (cfg : ProgramConfig)
    → parse_ini_program env user name answer ≡ ok cfg
    → cfg.name ≡ name
ini_keeps_name env user name answer cfg h =
    (parse_ini_program-IsComplete env user name answer cfg h).0.0

desktop_keeps_name :
    (env : Environ) (user : User) (name : Bytes) (answer : DesktopAnswer) (cfg : ProgramConfig)
    → parse_desktop_program env user name answer ≡ ok cfg
    → cfg.name ≡ name
desktop_keeps_name env user name answer cfg h =
    (parse_desktop_program-IsComplete env user name answer cfg h).0.0

scan_desktop-named :
    (env : Environ) (user : User) (n : Bytes) (dir : Option (DirAnswer DesktopAnswer))
    (seen : List Bytes) (cfgs : List ProgramConfig)
    → scan_desktop env user dir seen ≡ ok cfgs
    → named n cfgs ≡ (
        if has_seen seen n
        then []
        else programs_of
            (parse_desktop_program env user n)
            (file_of (text ".desktop") n (xdg_files dir))
            [])
unfolding scan_dir file_of named
scan_desktop-named env user n none seen cfgs h =
    subst (λ c. named n c ≡ (if has_seen seen n then [] else [])) {x = []} {y = cfgs}
      (ground (arith, h)) (ground arith)
scan_desktop-named env user n (some DirAnswer.missing) seen cfgs h =
    subst (λ c. named n c ≡ (if has_seen seen n then [] else [])) {x = []} {y = cfgs}
      (ground (arith, h)) (ground arith)
scan_desktop-named env user n (some DirAnswer.unreadable) seen cfgs h = absurd (ground (arith, h))
scan_desktop-named env user n (some (DirAnswer.entries es)) seen cfgs h =
    let (out, scanned, own) =
      fallback-ok _ cfgs
        (scan_entries-ne-missing (parse_desktop_program env user) (text ".desktop") es seen) h in
    let (found, marks) =
      scan_dir-Scanned (parse_desktop_program env user) (text ".desktop")
        (desktop_keeps_name env user) n (DirAnswer.entries es) seen out scanned in
    ap (named n) (sym own) ∙ found

programs_of-short :
    {F : Type 0} (parse : F → Result ParseError ProgramConfig) (file : Option F)
    (others : List ProgramConfig)
    → length others ≤ 1
    → length (programs_of parse file others) ≤ 1
programs_of-short parse file others h = ground (arith, h)

-- The programs of both directories with a name, the .desktop file counting only without the .ini file.
merged-named :
    {F : Type 0} (parse : F → Result ParseError ProgramConfig) (n : Bytes) (file : Option F)
    (seen : List Bytes) (ini desktop others : List ProgramConfig)
    → named n ini ≡ programs_of parse file []
    → has_seen seen n ≡ is_some file
    → named n desktop ≡ (if has_seen seen n then [] else others)
    → named n (ini ++ desktop) ≡ programs_of parse file others
merged-named parse n none seen ini desktop others own marks rest =
    named-append n ini desktop ∙ rw own (rw marks at rest)
merged-named parse n (some content) seen ini desktop others own marks rest =
    let no_desktop : named n desktop ≡ [] = rw marks at rest in
    named-append n ini desktop ∙ rw (own, no_desktop) (append-nil _)

-- If LoadProgramConfigs returns programs, early ones come first, then those with lower priority numbers, then by
-- name; and for every name they hold exactly this: the program of the first .ini file with the name; without
-- one, the program of the first .desktop file with the name; without either, nothing.
pub load_program_configs-named :
    (env : Environ) (user : User) (ini_dir : DirAnswer IniAnswer)
    (xdg_dir : Option (DirAnswer DesktopAnswer)) (cfgs : List ProgramConfig) (n : Bytes)
    → load_program_configs env user ini_dir xdg_dir ≡ ok cfgs
    → AllInRank cfgs
      × (named n cfgs
          ≡ programs_of (parse_ini_program env user n) (file_of (text ".ini") n (files ini_dir)) (
              programs_of
                (parse_desktop_program env user n)
                (file_of (text ".desktop") n (xdg_files xdg_dir))
                []))
unfolding load_program_configs
load_program_configs-named env user ini_dir xdg_dir cfgs n h =
    let ((ini, seen), scanned, rest) = ok-bind (scan_ini env user ini_dir) _ cfgs h in
    let (desktop, fallen, merged) = ok-bind (scan_desktop env user xdg_dir seen) _ cfgs rest in
    let (of_ini, marks) =
      scan_dir-Scanned (parse_ini_program env user) (text ".ini") (ini_keeps_name env user) n
        ini_dir [] (ini, seen) scanned in
    let of_desktop = scan_desktop-named env user n xdg_dir seen desktop fallen in
    let whole : sort cfg_before (ini ++ desktop) ≡ cfgs = ground (arith, merged) in
    let ini_file = file_of (text ".ini") n (files ini_dir) in
    let xdg_file = file_of (text ".desktop") n (xdg_files xdg_dir) in
    let others = programs_of (parse_desktop_program env user n) xdg_file [] in
    let both =
      merged-named (parse_ini_program env user n) n ini_file seen ini desktop others of_ini marks
        of_desktop in
    let others_short =
      programs_of-short (parse_desktop_program env user n) xdg_file [] (omega arith) in
    let short : length (named n (ini ++ desktop)) ≤ 1 =
      rw both (programs_of-short (parse_ini_program env user n) ini_file others others_short) in
    subst
      (λ c. AllInRank c × (named n c ≡ programs_of (parse_ini_program env user n) ini_file others))
      {x = sort cfg_before (ini ++ desktop)} {y = cfgs} whole
      (
        IsSorted-AllInRank (sort cfg_before (ini ++ desktop))
            (sort-IsSorted cfg_before cfg_before_asym (ini ++ desktop)),
        named-sort n (ini ++ desktop) short ∙ both,
      )
