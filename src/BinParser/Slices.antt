-- ===== src/BinParser/Slices.antt =====
-- Go's slice expressions and the little-endian words of encoding/binary, with their laws.
use a_kerno.Common.{
  ℕ, zero, suc, ◌+◌, ◌-◌, ◌*◌, ◌/◌, ◌%◌, ◌^◌, ◌<◌, ◌≡◌, refl, ap, Bytes, List, [], ◌∷◌, ◌++◌,
  Option, none, some, ◌&&◌, leb, length, take, drop, if◌then◌else◌, arith,
}

-- `xs[lo:hi]`, `none` where Go panics.
abbrev pub slice : ℕ → ℕ → Bytes → Option Bytes
slice lo hi xs =
    if leb lo hi && leb hi (length xs) then some (take (hi - lo) (drop lo xs)) else none

-- `xs[lo:]`
abbrev pub slice_from : ℕ → Bytes → Option Bytes
slice_from lo xs = if leb lo (length xs) then some (drop lo xs) else none

-- `binary.LittleEndian.PutUint32` and `PutUint64` write `n` = 4 and 8 bytes.
unfoldable pub le_encode : ℕ → ℕ → Bytes
le_encode zero x = []
le_encode (suc n) x = (x % 256) ∷ le_encode n (x / 256)

-- `binary.LittleEndian.Uint32` and `Uint64` read 4 and 8 bytes.
unfoldable pub le_decode : Bytes → ℕ
le_decode [] = 0
le_decode (b ∷ bs) = b + 256 * le_decode bs

pub length-le_encode : (n x : ℕ) → length (le_encode n x) ≡ n
unfolding le_encode
length-le_encode zero x = refl
length-le_encode (suc n) x = ap suc (length-le_encode n (x / 256))

pub le_decode-le_encode_32 : (x : ℕ) → x < 2 ^ 32 → le_decode (le_encode 4 x) ≡ x
unfolding le_encode le_decode
le_decode-le_encode_32 x h = omega arith

pub le_decode-le_encode_64 : (x : ℕ) → x < 2 ^ 64 → le_decode (le_encode 8 x) ≡ x
unfolding le_encode le_decode
le_decode-le_encode_64 x h = omega arith

module _ {ℓ} {A : Type ℓ} where
  pub take-append_self : (n : ℕ) (xs ys : List A) → n ≡ length xs → take n (xs ++ ys) ≡ xs
  take-append_self zero [] ys h = refl
  take-append_self zero (x ∷ xs) ys h = absurd (omega arith)
  take-append_self (suc n) [] ys h = absurd (omega arith)
  take-append_self (suc n) (x ∷ xs) ys h = ap (λ t. x ∷ t) (take-append_self n xs ys (omega arith))

  pub drop-append_self : (n : ℕ) (xs ys : List A) → n ≡ length xs → drop n (xs ++ ys) ≡ ys
  drop-append_self zero [] ys h = refl
  drop-append_self zero (x ∷ xs) ys h = absurd (omega arith)
  drop-append_self (suc n) [] ys h = absurd (omega arith)
  drop-append_self (suc n) (x ∷ xs) ys h = drop-append_self n xs ys (omega arith)

  pub take_all : (n : ℕ) (xs : List A) → n ≡ length xs → take n xs ≡ xs
  take_all zero [] h = refl
  take_all zero (x ∷ xs) h = absurd (omega arith)
  take_all (suc n) [] h = refl
  take_all (suc n) (x ∷ xs) h = ap (λ t. x ∷ t) (take_all n xs (omega arith))
