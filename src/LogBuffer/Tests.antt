-- ===== src/LogBuffer/Tests.antt =====
-- Runs of the log buffer, and its theorems at concrete inputs.
use a_kerno.Common.{◌≡◌, refl, Bytes, text, List, [], ◌∷◌, some, take, if◌then◌else◌, true}
use a_kerno.Common.Int.{ℤ, pos, pos_part, is_positive}
use a_kerno.LogBuffer.{LogBuffer, new, append, tail, tail_loop, index}
use a_kerno.LogBuffer.Contents.{contents}
use a_kerno.LogBuffer.Appends.{append_all, last_lines, tail-append_all}

abbrev four_lines : List Bytes
four_lines = text "a" ∷ text "b" ∷ text "c" ∷ text "d" ∷ []

-- Three lines held after four, the next write at index 1.
abbrev wrapped : LogBuffer
wrapped = record { lines = text "d" ∷ text "b" ∷ text "c" ∷ []; max_size = 3; pos = 1; full = true }

append_all_runs : append_all (new (pos 3)) four_lines ≡ some wrapped
unfolding append_all append new
append_all_runs = refl

-- Two lines are asked for: `Tail` gives the two oldest.
tail_is_oldest : tail wrapped (pos 2) ≡ some (text "b" ∷ text "c" ∷ [])
unfolding tail tail_loop index
tail_is_oldest = refl

tail-append_all_example :
    (lb : LogBuffer) × (append_all (new (pos 3)) four_lines ≡ some lb)
    × (contents lb ≡ last_lines (new (pos 3)).max_size four_lines)
    × ((r : ℤ)
        → tail lb r
          ≡ some (
              take
                (if is_positive r then pos_part r else 50)
                (last_lines (new (pos 3)).max_size four_lines)))
tail-append_all_example = tail-append_all (pos 3) four_lines
