-- ===== src/LogBuffer.antt =====
-- internal/daemon/logbuffer.go: the ring buffer of a daemon's last log lines.
-- The lock is not modelled: each operation runs alone under it.
pub mod Indexing
pub mod Contents
pub mod Appends
mod Tests
use a_kerno.Common.{
  ℕ, zero, suc, ◌+◌, ◌-◌, Bytes, List, [], ◌∷◌, Option, none, some, Bool, true, false, ltb, leb,
  length, get_elem?, set, replicate, if◌then◌else◌, map,
}
use a_kerno.Common.Int.{ℤ, pos_part, is_positive}

pub record LogBuffer : Type 0 where
  pub lines : List Bytes
  pub max_size : ℕ
  pub pos : ℕ  -- next write position
  pub full : Bool

-- `NewLogBuffer`
unfoldable pub new : ℤ → LogBuffer
new requested =
    let max_size = if is_positive requested then pos_part requested else 1 in
    record { lines = replicate max_size []; max_size = max_size; pos = 0; full = false }

-- `Append`; `none` is the panic of a write out of range.
unfoldable pub append : LogBuffer → Bytes → Option LogBuffer
append lb line =
    let written = set lb.lines lb.pos line in
    if ltb lb.pos (length lb.lines)
    then some (
        if leb lb.max_size (lb.pos + 1)
        then record lb { lines = written; pos = 0; full = true }
        else record lb { lines = written; pos = lb.pos + 1 })
    else none

-- `Len`
pub len : LogBuffer → ℕ
len lb = if lb.full then lb.max_size else lb.pos

-- The index of line `i` of `size`: `lb.pos - size + i`, brought back into the buffer.
pub index : LogBuffer → ℕ → ℕ → ℕ
index lb size i =
    let from_start =
      if ltb (lb.pos + i) size then lb.pos + i + lb.max_size - size else lb.pos + i - size in
    if leb lb.max_size from_start then from_start - lb.max_size else from_start

abbrev prepend : Option Bytes → Option (List Bytes) → Option (List Bytes)
prepend none rest = none
prepend (some line) none = none
prepend (some line) (some rest) = some (line ∷ rest)

-- The loop of `Tail`, `n` rounds from round `i` on; `none` is the panic of a read out of range.
pub tail_loop : LogBuffer → ℕ → ℕ → ℕ → Option (List Bytes)
tail_loop lb size i zero = some []
tail_loop lb size i (suc n) =
    prepend (get_elem? lb.lines (index lb size i)) (tail_loop lb size (suc i) n)

-- `Tail`
pub tail : LogBuffer → ℤ → Option (List Bytes)
unfolding len
tail lb requested =
    let n = if is_positive requested then pos_part requested else 50 in
    let size = len lb in tail_loop lb size 0 (if ltb size n then size else n)

-- `Clear`
pub clear : LogBuffer → LogBuffer
clear lb = record lb { pos = 0; full = false; lines = map (λ _. []) lb.lines }
