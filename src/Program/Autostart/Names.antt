-- ===== src/Program/Autostart/Names.antt =====
-- internal/program/config.go: programs and files by name, for the theorems on `LoadProgramConfigs`.
use a_kerno.Common.{
  suc, ◌≤◌, ◌≡◌, refl, ◌∙◌, Bytes, bytes_eq, List, [], ◌∷◌, ◌++◌, Option, none, some, Bool, true,
  false, not, ◌||◌, arith, length, if◌then◌else◌, Result, ok, err, Bool-cases, inl, inr,
}
use a_kerno.Common.Sorting.{sort, insert_sorted}
use a_kerno.Text.{ext, trim_suffix}
use a_kerno.Program.Types.{ProgramConfig}
use a_kerno.Program.Resolve.{cfg_before}
use a_kerno.Program.Config.{ParseError}
use a_kerno.Program.Config.Desktop.{DesktopAnswer}
use a_kerno.Program.Autostart.{DirEntry, DirAnswer}

-- The programs with a name.
unfoldable pub named : Bytes → List ProgramConfig → List ProgramConfig
named n [] = []
named n (cfg ∷ cfgs) = let rest = named n cfgs in if bytes_eq cfg.name n then cfg ∷ rest else rest

-- The first file of a directory that has the suffix and, without it, the name.
unfoldable pub file_of : {F : Type 0} → Bytes → Bytes → List (DirEntry F) → Option F
file_of suffix n [] = none
file_of suffix n (entry ∷ rest) =
    let later = file_of suffix n rest in
    if entry.is_dir || not (bytes_eq (ext entry.name) suffix)
    then later
    else if bytes_eq (trim_suffix suffix entry.name) n
    then some entry.content
    else later

-- The program of a file, if there is the file and it can be parsed.
abbrev pub programs_of :
    {F : Type 0}
    → (F → Result ParseError ProgramConfig)
    → Option F
    → List ProgramConfig
    → List ProgramConfig
programs_of parse none others = others
programs_of parse (some content) others = elim (parse content) [ ok cfg ↦ cfg ∷ [] | err e ↦ [] ]

abbrev pub files : {F : Type 0} → DirAnswer F → List (DirEntry F)
files (DirAnswer.entries es) = es
files _ = []

abbrev pub xdg_files : Option (DirAnswer DesktopAnswer) → List (DirEntry DesktopAnswer)
xdg_files none = []
xdg_files (some dir) = files dir

abbrev pub is_some : {F : Type 0} → Option F → Bool
is_some none = false
is_some (some content) = true

empty_of_short : (cfgs : List ProgramConfig) → suc (length cfgs) ≤ 1 → cfgs ≡ []
empty_of_short [] h = refl
empty_of_short (x ∷ cfgs) h = absurd (omega (arith, h))

module _ (n : Bytes) where
  named-insert_other :
      (x : ProgramConfig) (ys : List ProgramConfig)
      → bytes_eq x.name n ≡ false
      → named n (insert_sorted cfg_before x ys) ≡ named n ys
  unfolding named insert_sorted
  named-insert_other x [] h = ground (arith, h)
  named-insert_other x (y ∷ ys) h = ground (arith, h, named-insert_other x ys h)

  named-insert_only :
      (x : ProgramConfig) (ys : List ProgramConfig)
      → named n ys ≡ []
      → named n (insert_sorted cfg_before x ys) ≡ named n (x ∷ ys)
  unfolding named insert_sorted
  named-insert_only x [] h = refl
  named-insert_only x (y ∷ ys) h = elim (Bool-cases (bytes_eq y.name n)) [
    | inl same ↦ absurd (ground (arith, same, h))
    | inr other ↦
        let none_left : named n ys ≡ [] = rw other at h in
        elim (Bool-cases (cfg_before y x)) [
          | inl passed ↦ rw (passed, other) (named-insert_only x ys none_left)
          | inr here ↦ rw here refl
        ]
  ]

  pub named-sort :
      (cfgs : List ProgramConfig)
      → length (named n cfgs) ≤ 1
      → named n (sort cfg_before cfgs) ≡ named n cfgs
  unfolding named sort
  named-sort [] h = refl
  named-sort (x ∷ cfgs) h = elim (Bool-cases (bytes_eq x.name n)) [
    | inr other ↦
        let fewer : length (named n cfgs) ≤ 1 = rw other at h in
        rw other (named-insert_other x (sort cfg_before cfgs) other ∙ named-sort cfgs fewer)
    | inl same ↦
        let short : suc (length (named n cfgs)) ≤ 1 = rw same at h in
        let alone : named n cfgs ≡ [] = empty_of_short (named n cfgs) short in
        let sorted_alone : named n (sort cfg_before cfgs) ≡ [] =
          named-sort cfgs (rw alone (omega arith)) ∙ alone in
        named-insert_only x (sort cfg_before cfgs) sorted_alone
        ∙ rw (same, sorted_alone, alone) refl
  ]

  pub named-append : (xs ys : List ProgramConfig) → named n (xs ++ ys) ≡ named n xs ++ named n ys
  unfolding named
  named-append [] ys = refl
  named-append (x ∷ xs) ys = ground (arith, named-append xs ys)
