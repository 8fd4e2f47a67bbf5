-- ===== src/Text/Utf8.antt =====
-- Strings as runes: what `for range` of Go gives for a string, and what `WriteRune` writes for a rune.
use a_kerno.Common.{
  ℕ, zero, suc, ◌+◌, ◌-◌, ◌*◌, ◌/◌, ◌%◌, Bytes, List, [], ◌∷◌, ◌++◌, Bool, ◌&&◌, ◌==◌, ltb, leb,
  length, get_or, if◌then◌else◌,
}

abbrev is_within : ℕ → ℕ → ℕ → Bool
is_within lo hi c = leb lo c && leb c hi

abbrev is_continuation : ℕ → Bool
is_continuation c = is_within 128 191 c

-- The second byte of a rune of three or four bytes, which excludes longer forms than needed, surrogates and
-- numbers above 0x10FFFF.
abbrev is_second : ℕ → ℕ → Bool
is_second first c =
    let lo = if first == 0xE0 then 0xA0 else if first == 0xF0 then 0x90 else 0x80 in
    let hi = if first == 0xED then 0x9F else if first == 0xF4 then 0x8F else 0xBF in
    is_within lo hi c

-- U+FFFD, which stands for a byte that belongs to no rune.
abbrev pub rune_error : ℕ
rune_error = 0xFFFD

-- The rune that a byte begins, with the number of bytes after it that belong to the rune.
abbrev pub decode_rune : ℕ → Bytes → ℕ × ℕ
decode_rune c cs =
    let c₁ = get_or cs 0 0 in
    let c₂ = get_or cs 1 0 in
    let c₃ = get_or cs 2 0 in
    if ltb c 128
    then (c, 0)
    else if is_within 0xC2 0xDF c && is_continuation c₁
    then ((c - 0xC0) * 64 + (c₁ - 128), 1)
    else if is_within 0xE0 0xEF c && is_second c c₁ && is_continuation c₂
    then (((c - 0xE0) * 64 + (c₁ - 128)) * 64 + (c₂ - 128), 2)
    else if is_within 0xF0 0xF4 c && is_second c c₁ && is_continuation c₂ && is_continuation c₃
    then ((((c - 0xF0) * 64 + (c₁ - 128)) * 64 + (c₂ - 128)) * 64 + (c₃ - 128), 3)
    else (rune_error, 0)

-- The runes of a text after some bytes that belong to the rune before.
unfoldable pub runes_from : ℕ → Bytes → List ℕ
runes_from skip [] = []
runes_from (suc skip) (c ∷ cs) = runes_from skip cs
runes_from zero (c ∷ cs) = let (rune, more) = decode_rune c cs in rune ∷ runes_from more cs

unfoldable pub runes : Bytes → List ℕ
unfolding runes_from
runes s = runes_from 0 s

unfoldable pub encode_rune : ℕ → Bytes
encode_rune r =
    if ltb r 0x80
    then r ∷ []
    else if ltb r 0x800
    then (0xC0 + r / 64) ∷ (0x80 + r % 64) ∷ []
    else if ltb r 0x10000
    then (0xE0 + r / 4096) ∷ (0x80 + (r / 64) % 64) ∷ (0x80 + r % 64) ∷ []
    else (0xF0 + r / 262144)
      ∷ (0x80 + (r / 4096) % 64)
      ∷ (0x80 + (r / 64) % 64)
      ∷ (0x80 + r % 64)
      ∷ []

unfoldable pub encode_runes : List ℕ → Bytes
unfolding encode_rune
encode_runes [] = []
encode_runes (r ∷ rs) = encode_rune r ++ encode_runes rs

-- `utf8.RuneCountInString`
unfoldable pub rune_count : Bytes → ℕ
unfolding runes
rune_count s = length (runes s)
