-- ===== src/Cmdlist/Numbers.antt =====
-- parser/parser.go, `parseValue`: the range of the numbers that it accepts.
use a_kerno.Common.{
  ℕ, zero, suc, Bytes, [], ◌∷◌, Option, none, some, ◌≡◌, arith, ◌==◌, Bool-cases, inl, inr,
}
use mathlib.Core.Path.{subst}
use a_kerno.Common.Int.{ℤ, IsInt64}
use a_kerno.Cmdlist.{parse_int, magnitude, positive, negative}

abbrev IsBounded : Option ℤ → Type 0
IsBounded none = Unit
IsBounded (some n) = IsInt64 n

positive-IsBounded : (o : Option ℕ) → IsBounded (positive o)
positive-IsBounded none = tt
positive-IsBounded (some n) = ground arith

negative-IsBounded : (o : Option ℕ) → IsBounded (negative o)
negative-IsBounded none = tt
negative-IsBounded (some zero) = ground arith
negative-IsBounded (some (suc n)) = ground arith

parse_int-IsBounded : (s : Bytes) → IsBounded (parse_int s)
unfolding parse_int
parse_int-IsBounded [] = tt
parse_int-IsBounded (c ∷ cs) = elim (Bool-cases (c == b'-')) [
  | inl minus ↦ rw minus (negative-IsBounded (magnitude cs))
  | inr no_minus ↦ rw no_minus (elim (Bool-cases (c == b'+')) [
    | inl plus ↦ rw plus (positive-IsBounded (magnitude cs))
    | inr no_plus ↦ rw no_plus (positive-IsBounded (magnitude (c ∷ cs)))
  ])
]

-- A line that is read as a number gives one that an `int64` holds.
pub parse_int-IsInt64 : (s : Bytes) (n : ℤ) → parse_int s ≡ some n → IsInt64 n
parse_int-IsInt64 s n h = subst IsBounded h (parse_int-IsBounded s)
