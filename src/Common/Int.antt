-- ===== src/Common/Int.antt =====
-- Signed integers over the native numbers, and Go's `int64` as a 64-bit pattern.
use Prim.Native.Nat.{ℕ, suc, ◌+◌, ◌-◌, ◌%◌, ◌^◌, ◌<◌, ◌≤◌}
use mathlib.Core.Path.{◌≡◌}
use mathlib.Core.Bool.{Bool, true}
use native.Mathlib.Omega.{arith}
use a_kerno.Common.Tests.{ltb, ◌==◌, if◌then◌else◌}

-- `negsuc n` is -(n + 1).
pub data ℤ : Type 0 where
  pos : ℕ → ℤ
  negsuc : ℕ → ℤ

abbrev pub pos_part : ℤ → ℕ
pos_part (pos n) = n
pos_part (negsuc n) = 0

abbrev pub neg_part : ℤ → ℕ
neg_part (pos n) = 0
neg_part (negsuc n) = suc n

abbrev pub ltb_ℤ : ℤ → ℤ → Bool
ltb_ℤ a b = ltb (pos_part a + neg_part b) (pos_part b + neg_part a)

abbrev pub eqb_ℤ : ℤ → ℤ → Bool
eqb_ℤ a b = (pos_part a + neg_part b) == (pos_part b + neg_part a)

-- `int64(w)` of a `uint64`: the number that a bit pattern stands for.
abbrev pub int64 : ℕ → ℤ
int64 w = if ltb w (2 ^ 63) then pos w else negsuc (2 ^ 64 - w - 1)

-- `uint64(v)` of an `int64`.
abbrev pub uint64 : ℤ → ℕ
uint64 (pos n) = n % 2 ^ 64
uint64 (negsuc n) = 2 ^ 64 - 1 - n % 2 ^ 64

-- The values of Go's `int64`.
abbrev pub IsInt64 : ℤ → Type 0
IsInt64 v = (pos_part v < 2 ^ 63) × (neg_part v ≤ 2 ^ 63)

pub int64-uint64 : (v : ℤ) → IsInt64 v → int64 (uint64 v) ≡ v
int64-uint64 (pos n) h = ground arith
int64-uint64 (negsuc n) h = ground arith

pub uint64-lt : (v : ℤ) → uint64 v < 2 ^ 64
uint64-lt (pos n) = omega arith
uint64-lt (negsuc n) = omega arith

-- `0 < n`
abbrev pub is_positive : ℤ → Bool
is_positive n = ltb_ℤ (pos 0) n

pub eqb_ℤ_sound : (a b : ℤ) → eqb_ℤ a b ≡ true → a ≡ b
eqb_ℤ_sound (pos a) (pos b) h = ground arith
eqb_ℤ_sound (pos a) (negsuc b) h = absurd (ground arith)
eqb_ℤ_sound (negsuc a) (pos b) h = absurd (ground arith)
eqb_ℤ_sound (negsuc a) (negsuc b) h = ground arith
