-- ===== src/Cmdlist/Decimal.antt =====
-- Numbers in the replies of parser/parser.go, read back by its `parseValue`.
use a_kerno.Common.{
  ℕ, zero, suc, ◌+◌, ◌-◌, ◌*◌, ◌/◌, ◌%◌, ◌<◌, ◌≤◌, ◌≡◌, refl, ◌∙◌, ap, Bytes, [], ◌∷◌, ◌++◌, Option,
  none, some, ◌&&◌, ltb, leb, arith, ltb→lt, if◌then◌else◌, Bool-cases, inl, inr,
}
use a_kerno.Common.Int.{ℤ, pos, negsuc, IsInt64}
use a_kerno.Cmdlist.{digits, magnitude, parse_int, decimal_from, decimal}

-- One more digit of a number that may have failed.
abbrev next_digit : Option ℕ → ℕ → Option ℕ
next_digit none c = none
next_digit (some n) c = if leb b'0' c && leb c b'9' then some (n * 10 + (c - b'0')) else none

digits-append : (m : ℕ) (xs : Bytes) (c : ℕ) → digits m (xs ++ c ∷ []) ≡ next_digit (digits m xs) c
unfolding digits
digits-append m [] c = refl
digits-append m (x ∷ xs) c = ground (arith, digits-append (m * 10 + (x - b'0')) xs c)

last_digit : (q r n : ℕ) → r < 10 → q * 10 + r ≡ n → next_digit (some q) (b'0' + r) ≡ some n
last_digit q r n h e = ground (arith, h, e)

digits-decimal_from : (fuel n : ℕ) → n < fuel → digits 0 (decimal_from fuel n) ≡ some n
unfolding decimal_from digits
digits-decimal_from zero n h = absurd (omega (arith, h))
digits-decimal_from (suc fuel) n h = elim (Bool-cases (ltb n 10)) [
  | inl small ↦
      let low = ltb→lt n 10 small in
      rw (small, decimal_from) (last_digit 0 (n % 10) n (omega arith) (omega (arith, low)))
  | inr large ↦
      let high : 10 ≤ n = ground (arith, large) in
      let rest = digits-decimal_from fuel (n / 10) (omega (arith, h, high)) in
      rw (large, decimal_from)
        (digits-append 0 (decimal_from fuel (n / 10)) (b'0' + n % 10)
          ∙ rw rest (last_digit (n / 10) (n % 10) n (omega arith) (omega arith)))
]

-- The text of a number begins with a digit.
decimal_from-head :
    (fuel n : ℕ) → (d : ℕ) × (rest : Bytes) × (decimal_from (suc fuel) n ≡ d ∷ rest) × (b'0' ≤ d)
unfolding decimal_from
decimal_from-head zero n = elim (Bool-cases (ltb n 10)) [
  | inl small ↦ (b'0' + n % 10, [], rw (small, decimal_from) refl, omega arith)
  | inr large ↦ (b'0' + n % 10, [], rw (large, decimal_from) refl, omega arith)
]
decimal_from-head (suc fuel) n = elim (Bool-cases (ltb n 10)) [
  | inl small ↦ (b'0' + n % 10, [], rw (small, decimal_from) refl, omega arith)
  | inr large ↦
      let (d, rest, e, low) = decimal_from-head fuel (n / 10) in
      let more = ap (λ front. front ++ (b'0' + n % 10) ∷ []) e in
      (d, rest ++ (b'0' + n % 10) ∷ [], rw (large, decimal_from) more, low)
]

magnitude-decimal_from : (n : ℕ) → magnitude (decimal_from (suc n) n) ≡ some n
unfolding magnitude
magnitude-decimal_from n =
    let (d, rest, e, low) = decimal_from-head n n in
    let read = digits-decimal_from (suc n) n (omega arith) in rw e (rw e at read)

-- Every number of an int64 that a reply holds is read back from its decimal text.
pub parse_int-decimal : (v : ℤ) → IsInt64 v → parse_int (decimal v) ≡ some v
unfolding parse_int decimal magnitude
parse_int-decimal (pos n) h =
    let (d, rest, e, low) = decimal_from-head n n in
    let read : magnitude (d ∷ rest) ≡ some n = rw e at (magnitude-decimal_from n) in
    rw e (ground (arith, h, low, read))
parse_int-decimal (negsuc n) h = rw (magnitude-decimal_from (suc n), parse_int) (ground (arith, h))
