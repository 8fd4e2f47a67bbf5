-- ===== src/Program/Config/Desktop.antt =====
-- internal/program/config.go: XDG .desktop files. A file is the list of lines that the scanner reads.
pub mod Codes
use a_kerno.Common.{
  ℕ, Bytes, bytes_eq, text, List, [], ◌∷◌, Option, none, some, Bool, true, false, ◌&&◌, ◌||◌, ◌==◌,
  leb, not, if◌then◌else◌, Result, ok, err,
}
use a_kerno.Text.Utf8.{runes, encode_runes}
use a_kerno.Text.{has_prefix, has_suffix, to_lower, trim_space, split, cut, equal_fold}
use a_kerno.Config.{Environ, User}
use a_kerno.Program.Types.{ProgramConfig}
use a_kerno.Program.Resolve.{phase_early, phase_post}
use a_kerno.Program.Config.{
  default_config, expand_program_var, int_or, parse_comma_list, ParseError, require_exec,
}

-- `isAlpha`, and `isAlphaRune`
abbrev pub is_alpha : ℕ → Bool
is_alpha c = (leb b'a' c && leb c b'z') || (leb b'A' c && leb c b'Z')

abbrev is_percent : Option ℕ → Bool
is_percent none = false
is_percent (some c) = c == b'%'

-- The loop of `stripDesktopExecPlaceholders` over the runes, with `skipNext` and the rune before. The source looks at
-- the byte before and the byte after, for a percent sign or a letter: these are runes of one byte.
unfoldable pub strip_loop : Bool → Option ℕ → List ℕ → List ℕ
strip_loop skip_next before [] = []
strip_loop true before (r ∷ rest) =
    let later = strip_loop false (some r) rest in
    if is_percent before && (not (r == b'%') && not (is_alpha r)) then b'%' ∷ r ∷ later else later
strip_loop false before (r ∷ []) = r ∷ []
strip_loop false before (r ∷ next ∷ rest) =
    let skipped = strip_loop true (some r) (next ∷ rest) in
    let kept = strip_loop false (some r) (next ∷ rest) in
    if r == b'%'
    then (if next == b'%' then b'%' ∷ skipped else if is_alpha next then skipped else r ∷ kept)
    else r ∷ kept

-- `stripDesktopExecPlaceholders`
unfoldable pub strip_placeholders : Bytes → Bytes
unfolding strip_loop runes encode_runes
strip_placeholders exec = encode_runes (strip_loop false none (runes exec))

unfoldable pub any_ade : List Bytes → Bool
any_ade [] = false
any_ade (part ∷ parts) = equal_fold (trim_space part) (text "ADE") || any_ade parts

-- `containsADE`
unfoldable pub contains_ade : Bytes → Bool
unfolding any_ade
contains_ade value = any_ade (split b';' value)

-- The variables of the loop of `parseDesktopProgram`.
pub record DesktopState : Type 0 where
  pub cfg : ProgramConfig
  pub in_entry : Bool
  pub hidden : Bool

abbrev with_cfg : ProgramConfig → DesktopState → DesktopState
with_cfg cfg s = record s { cfg = cfg }

-- The switch of `parseDesktopProgram`, on the key in lower case.
unfoldable pub apply_desktop : Environ → User → Bytes → Bytes → DesktopState → DesktopState
unfolding strip_placeholders contains_ade
apply_desktop env user key value s =
    let cfg = s.cfg in
    let low = to_lower value in
    if bytes_eq key (text "exec")
    then with_cfg (record cfg { exec = expand_program_var env user (strip_placeholders value) }) s
    else if bytes_eq key (text "hidden")
    then (if equal_fold value (text "true") || bytes_eq value (text "1")
        then record s { hidden = true }
        else s)
    else if bytes_eq key (text "onlyshowin")
    then (if not (bytes_eq value []) && not (contains_ade value)
        then with_cfg (record cfg { enabled = false }) s
        else s)
    else if bytes_eq key (text "notshowin")
    then (if contains_ade value then with_cfg (record cfg { enabled = false }) s else s)
    else if bytes_eq key (text "x-ade-phase")
    then (if bytes_eq low phase_early || bytes_eq low phase_post
        then with_cfg (record cfg { phase = low }) s
        else s)
    else if bytes_eq key (text "x-ade-priority")
    then with_cfg (record cfg { priority = int_or cfg.priority value }) s
    else if bytes_eq key (text "x-ade-depends-on")
    then with_cfg (record cfg { depends_on = parse_comma_list value }) s
    else if bytes_eq key (text "x-ade-health-check")
    then with_cfg (record cfg { health_check = value }) s
    else if bytes_eq key (text "x-ade-start-delay")
    then with_cfg (record cfg { start_delay = int_or cfg.start_delay value }) s
    else s

abbrev pub apply_pair : Environ → User → Option (Bytes × Bytes) → DesktopState → DesktopState
apply_pair env user none s = s
apply_pair env user (some (key, value)) s =
    apply_desktop env user (to_lower (trim_space key)) (trim_space value) s

-- One round of the loop of `parseDesktopProgram`.
unfoldable pub desktop_line : Environ → User → Bytes → DesktopState → DesktopState
unfolding apply_desktop
desktop_line env user raw s =
    let line = trim_space raw in
    if bytes_eq line [] || has_prefix (text "#") line
    then s
    else if has_prefix (text "[") line && has_suffix (text "]") line
    then record s { in_entry = equal_fold line (text "[Desktop Entry]") }
    else if not s.in_entry
    then s
    else apply_pair env user (cut b'=' line) s

-- The loop of `parseDesktopProgram`.
unfoldable pub desktop_lines : Environ → User → List Bytes → DesktopState → DesktopState
unfolding desktop_line
desktop_lines env user [] s = s
desktop_lines env user (raw ∷ lines) s = desktop_lines env user lines (desktop_line env user raw s)

-- What opening a .desktop file and scanning it gives: its lines, and whether the scanner ended with an
-- error.
pub data DesktopAnswer : Type 0 where
  unreadable : DesktopAnswer
  scanned : List Bytes → Bool → DesktopAnswer

abbrev pub desktop_start : Bytes → DesktopState
desktop_start name = record {
  cfg = default_config name (text "desktop");
  in_entry = false;
  hidden = false;
}

abbrev pub desktop_end : DesktopState → ProgramConfig
desktop_end s = if s.hidden then record (s.cfg) { enabled = false } else s.cfg

-- `parseDesktopProgram`
unfoldable pub parse_desktop_program :
    Environ → User → Bytes → DesktopAnswer → Result ParseError ProgramConfig
unfolding desktop_lines
parse_desktop_program env user name DesktopAnswer.unreadable = err ParseError.read_failed
parse_desktop_program env user name (DesktopAnswer.scanned lines failed) =
    let s = desktop_lines env user lines (desktop_start name) in
    if failed then err ParseError.scan_failed else require_exec (desktop_end s)
