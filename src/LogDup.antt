-- ===== src/LogDup.antt =====
-- internal/logdup/logdup.go: `scanLines`, on all bytes that the pipe of a daemon gives. Each line goes to the log
-- and to the daemon's LogBuffer.
pub mod Lines
pub mod Pipes
mod Tests
use a_kerno.Common.{
  ℕ, ◌+◌, ◌*◌, Bytes, List, [], ◌∷◌, ◌++◌, Option, none, some, Bool, true, false, ◌==◌, length,
  if◌then◌else◌,
}
use mathlib.Core.List.{reverse}
use a_kerno.LogBuffer.{LogBuffer, append}

-- The last `\r` of a line is dropped by `bufio.ScanLines`.
abbrev pub drop_return : Bytes → Bytes
drop_return line = elim (reverse line) [
  | [] ↦ []
  | c ∷ cs ↦ if c == b'\r' then reverse cs else line
]

-- `scanner.Buffer(make([]byte, 64*1024), 2*1024*1024)`
abbrev pub max_token : ℕ
max_token = 2 * 1024 * 1024

-- What is left at the end of the output is a line too.
abbrev pub last_line : Bytes → List Bytes
last_line [] = []
last_line (b ∷ line) = drop_return (b ∷ line) ∷ []

-- The lines that the scanner gives, `line` being read so far; it stops with an error that is ignored when
-- the buffer is full without a newline.
unfoldable pub scan_from : ℕ → Bytes → Bytes → List Bytes
scan_from limit line [] = last_line line
scan_from limit line (c ∷ rest) =
    let next = drop_return line ∷ scan_from limit [] rest in
    let longer = scan_from limit (line ++ c ∷ []) rest in
    if c == b'\n' then next else if length line + 1 == limit then [] else longer

-- `scanLines`
unfoldable pub scan_lines : Bytes → List Bytes
unfolding scan_from
scan_lines output = scan_from max_token [] output
