-- ===== src/Program/Autostart/Scan.antt =====
-- internal/program/config.go: what `scanDir` gives for each name, and what it leaves in `seen`.
use a_kerno.Common.{
  ◌≡◌, refl, ◌∙◌, ap, Bytes, bytes_eq, bytes_eq_iff, List, [], ◌∷◌, Option, some, true, false, ◌||◌,
  ◌≢◌, arith, if◌then◌else◌, Result, ok, err, Bool-cases, inl, inr,
}
use mathlib.Core.Path.{subst}
use a_kerno.Text.{ext, trim_suffix}
use a_kerno.Program.Types.{ProgramConfig}
use a_kerno.Program.Config.{ParseError}
use a_kerno.Program.Autostart.{
  DirEntry, DirAnswer, LoadError, has_seen, after_parse, scan_entries, scan_dir,
}
use a_kerno.Program.Autostart.Names.{named, file_of, programs_of, files, is_some}

-- What scanning a directory gives for each name, and what it leaves in `seen`.
module _ {F : Type 0} (parse : Bytes → F → Result ParseError ProgramConfig) (suffix : Bytes)
    (keeps_name : (name : Bytes) (content : F) (cfg : ProgramConfig)
      → parse name content ≡ ok cfg
      → cfg.name ≡ name) where
  after_parse-ok :
      (name : Bytes) (r : Result ParseError ProgramConfig)
      (rest : Result LoadError (List ProgramConfig × List Bytes))
      (out : List ProgramConfig × List Bytes)
      → after_parse name r rest ≡ ok out
      → (cfg : ProgramConfig) × (later : List ProgramConfig × List Bytes) × (r ≡ ok cfg)
        × (rest ≡ ok later)
        × ((cfg ∷ later.0, later.1) ≡ out)
  after_parse-ok name (err e) rest out h = absurd (ground (arith, h))
  after_parse-ok name (ok cfg) (err e) out h = absurd (ground (arith, h))
  after_parse-ok name (ok cfg) (ok later) out h = (cfg, later, refl, refl, ground (arith, h))

  Scanned : Bytes → List Bytes → List (DirEntry F) → List ProgramConfig × List Bytes → Type 0
  Scanned n seen es (cfgs, seen') =
      (named n cfgs
        ≡ (if has_seen seen n then [] else programs_of (parse n) (file_of suffix n es) []))
      × (has_seen seen' n ≡ (has_seen seen n || is_some (file_of suffix n es)))

  -- A file whose name is defined adds nothing.
  seen-Scanned :
      (n base : Bytes) (content : Option F) (later : Option F) (seen : List Bytes)
      (out : List ProgramConfig × List Bytes)
      → has_seen seen base ≡ true
      → (named n out.0 ≡ (if has_seen seen n then [] else programs_of (parse n) later []))
      → (has_seen out.1 n ≡ (has_seen seen n || is_some later))
      → (file : Option F) → (file ≡ (if bytes_eq base n then content else later))
      → (named n out.0 ≡ (if has_seen seen n then [] else programs_of (parse n) file []))
        × (has_seen out.1 n ≡ (has_seen seen n || is_some file))
  seen-Scanned n base content later seen out known cfgs marks file e =
      elim (Bool-cases (bytes_eq base n)) [
        | inr other ↦ let same_file : file ≡ later = rw other at e in rw same_file (cfgs, marks)
        | inl same ↦
            let known_n : has_seen seen n ≡ true =
              subst (λ b. has_seen seen b ≡ true) {x = base} {y = n} ((bytes_eq_iff base n).0 same)
                known in
            rw known_n (rw known_n at cfgs, rw known_n at marks)
      ]

  -- A file whose name is new adds its program.
  taken-Scanned :
      (n base : Bytes) (content : F) (later : Option F) (cfg : ProgramConfig) (seen : List Bytes)
      (cfgs : List ProgramConfig) (marked : List Bytes)
      → has_seen seen base ≡ false
      → parse base content ≡ ok cfg
      → (named n cfgs ≡ (if has_seen (base ∷ seen) n then [] else programs_of (parse n) later []))
      → (has_seen marked n ≡ (has_seen (base ∷ seen) n || is_some later))
      → (named n (cfg ∷ cfgs) ≡ (
          if has_seen seen n
          then []
          else programs_of (parse n) (if bytes_eq base n then some content else later) []))
        × (has_seen marked n
            ≡ (has_seen seen n || is_some (if bytes_eq base n then some content else later)))
  unfolding named has_seen
  taken-Scanned n base content later cfg seen cfgs marked fresh parsed rest marks =
      let name = keeps_name base content cfg parsed in
      elim (Bool-cases (bytes_eq base n)) [
        | inr other ↦ ground (arith, name, other, rest, marks)
        | inl same ↦
            let base_n = (bytes_eq_iff base n).0 same in
            let fresh_n : has_seen seen n ≡ false =
              subst (λ b. has_seen seen b ≡ false) {x = base} {y = n} base_n fresh in
            let parsed_n : parse n content ≡ ok cfg =
              subst (λ b. parse b content ≡ ok cfg) {x = base} {y = n} base_n parsed in
            let none_left : named n cfgs ≡ [] = rw same at rest in
            let marked_n : has_seen marked n ≡ true = rw same at marks in
            let own = ap (λ b. bytes_eq b n) name ∙ same in
            rw (own, same, fresh_n, none_left, marked_n, parsed_n) (refl, refl)
      ]

  scan_entries-Scanned :
      (n : Bytes) (es : List (DirEntry F)) (seen : List Bytes)
      (out : List ProgramConfig × List Bytes)
      → scan_entries parse suffix es seen ≡ ok out
      → Scanned n seen es out
  unfolding scan_entries Scanned file_of named has_seen
  scan_entries-Scanned n [] seen out h =
      subst (λ o. Scanned n seen [] o) {x = ([], seen)} {y = out} (ground (arith, h)) (ground arith)
  scan_entries-Scanned n (entry ∷ rest) seen out h =
      let base = trim_suffix suffix entry.name in
      let later = file_of suffix n rest in
      elim (Bool-cases entry.is_dir) [
        | inl dir ↦ rw dir (scan_entries-Scanned n rest seen out (rw dir at h))
        | inr plain ↦ elim (Bool-cases (bytes_eq (ext entry.name) suffix)) [
          | inr unlike ↦
              rw (plain, unlike) (scan_entries-Scanned n rest seen out (rw (plain, unlike) at h))
          | inl fits ↦ elim (Bool-cases (has_seen seen base)) [
            | inl known ↦
                let (cfgs, marks) =
                  scan_entries-Scanned n rest seen out (rw (plain, fits, known) at h) in
                rw (plain, fits)
                  (seen-Scanned n base (some entry.content) later seen out known cfgs marks _ refl)
            | inr fresh ↦
                let taken = rw (plain, fits, fresh) at h in
                let (cfg, (cfgs, marked), parsed, scanned, whole) =
                  after_parse-ok entry.name (parse base entry.content)
                    (scan_entries parse suffix rest (base ∷ seen)) out taken in
                let (ih, marks) =
                  scan_entries-Scanned n rest (base ∷ seen) (cfgs, marked) scanned in
                subst (λ o. Scanned n seen (entry ∷ rest) o) {x = (cfg ∷ cfgs, marked)} {y = out}
                  whole
                  (rw (plain, fits)
                    (taken-Scanned n base entry.content later cfg seen cfgs marked fresh parsed ih
                      marks))
          ]
        ]
      ]

pub scan_entries-ne-missing :
    {F : Type 0} (parse : Bytes → F → Result ParseError ProgramConfig) (suffix : Bytes)
    (es : List (DirEntry F)) (seen : List Bytes)
    → scan_entries parse suffix es seen ≢ err LoadError.dir_missing
unfolding scan_entries
scan_entries-ne-missing parse suffix [] seen h = absurd (ground (arith, h))
scan_entries-ne-missing parse suffix (entry ∷ rest) seen h =
    let base = trim_suffix suffix entry.name in
    absurd (
      ground (
        arith,
        h,
        scan_entries-ne-missing parse suffix rest seen,
        scan_entries-ne-missing parse suffix rest (base ∷ seen),
      ))

pub scan_dir-Scanned :
    {F : Type 0} (parse : Bytes → F → Result ParseError ProgramConfig) (suffix : Bytes)
    → ((name : Bytes) (content : F) (cfg : ProgramConfig)
        → parse name content ≡ ok cfg
        → cfg.name ≡ name)
    → (n : Bytes) (dir : DirAnswer F) (seen : List Bytes) (out : List ProgramConfig × List Bytes)
    → scan_dir parse suffix dir seen ≡ ok out
    → (named n out.0
        ≡ (if has_seen seen n then [] else programs_of (parse n) (file_of suffix n (files dir)) []))
      × (has_seen out.1 n ≡ (has_seen seen n || is_some (file_of suffix n (files dir))))
unfolding scan_dir Scanned
scan_dir-Scanned parse suffix keeps n DirAnswer.missing seen out h = absurd (ground (arith, h))
scan_dir-Scanned parse suffix keeps n DirAnswer.unreadable seen out h = absurd (ground (arith, h))
scan_dir-Scanned parse suffix keeps n (DirAnswer.entries es) seen out h =
    scan_entries-Scanned parse suffix keeps n es seen out h
