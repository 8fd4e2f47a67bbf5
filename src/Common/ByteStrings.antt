-- ===== src/Common/ByteStrings.antt =====
-- Go strings and byte slices: both are sequences of bytes here, each byte a number.
use Prim.Native.Char.{code}
use Prim.Native.String.{String}
use Prim.Native.Nat.{ℕ}
use mathlib.Core.Path.{◌≡◌, refl}
use mathlib.Core.Logic.{◌↔◌}
use mathlib.Core.Bool.{Bool, true, false, ◌&&◌, ◌||◌}
use mathlib.Core.List.{List, [], ◌∷◌}
use native.Mathlib.Omega.{arith}
use a_kerno.Common.Tests.{◌==◌, ltb}

abbrev pub Bytes : Type 0
Bytes = List ℕ

-- The bytes of an ASCII literal of the source.
abbrev pub text : String → Bytes
text String.[] = []
text (String.◌∷◌ c s) = code c ∷ text s

-- `a == b` on strings.
unfoldable pub bytes_eq : Bytes → Bytes → Bool
bytes_eq [] [] = true
bytes_eq [] (y ∷ ys) = false
bytes_eq (x ∷ xs) [] = false
bytes_eq (x ∷ xs) (y ∷ ys) = x == y && bytes_eq xs ys

bytes_eq_sound : (a b : Bytes) → bytes_eq a b ≡ true → a ≡ b
unfolding bytes_eq
bytes_eq_sound [] [] h = refl
bytes_eq_sound [] (y ∷ ys) h = ground arith
bytes_eq_sound (x ∷ xs) [] h = ground arith
bytes_eq_sound (x ∷ xs) (y ∷ ys) h = ground (arith, bytes_eq_sound xs ys)

pub bytes_eq_refl : (a : Bytes) → bytes_eq a a ≡ true
unfolding bytes_eq
bytes_eq_refl [] = refl
bytes_eq_refl (x ∷ xs) = ground (arith, bytes_eq_refl xs)

pub bytes_eq_iff : (a b : Bytes) → (bytes_eq a b ≡ true) ↔ (a ≡ b)
bytes_eq_iff a b = (bytes_eq_sound a b, λ e. ground (arith, bytes_eq_refl a))

-- `a < b` on strings: byte by byte.
unfoldable pub bytes_less : Bytes → Bytes → Bool
bytes_less a [] = false
bytes_less [] (y ∷ ys) = true
bytes_less (x ∷ xs) (y ∷ ys) = ltb x y || (x == y && bytes_less xs ys)

pub bytes_less_asym : (a b : Bytes) → bytes_less a b ≡ true → bytes_less b a ≡ false
unfolding bytes_less
bytes_less_asym [] [] h = refl
bytes_less_asym (x ∷ xs) [] h = ground arith
bytes_less_asym [] (y ∷ ys) h = refl
bytes_less_asym (x ∷ xs) (y ∷ ys) h = ground (arith, bytes_less_asym xs ys)
