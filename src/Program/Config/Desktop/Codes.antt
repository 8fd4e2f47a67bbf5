-- ===== src/Program/Config/Desktop/Codes.antt =====
-- internal/program/config.go: the field codes of an Exec line against a reading by pairs.
use a_kerno.Common.{
  ℕ, ◌≡◌, refl, ap, Bool, ltb, ◌||◌, Bytes, List, [], ◌∷◌, Option, none, some, false, arith, ◌&&◌,
  ◌==◌, if◌then◌else◌,
}
use a_kerno.Program.Config.Desktop.{strip_loop, strip_placeholders}
use a_kerno.Text.Utf8.{runes, encode_runes}

-- An ASCII letter, which makes a field code after a percent sign.
unfoldable pub is_letter : ℕ → Bool
is_letter c = (ltb 64 c && ltb c 91) || (ltb 96 c && ltb c 123)

-- The runes without the field codes, read from the left: two percent signs stand for one, a percent sign
-- and a letter for nothing, and any other rune for itself.
unfoldable pub without_codes : List ℕ → List ℕ
unfolding is_letter
without_codes [] = []
without_codes (c ∷ []) = c ∷ []
without_codes (c ∷ d ∷ rest) =
    let pair_passed = without_codes rest in
    let one_passed = without_codes (d ∷ rest) in
    if c == b'%' && d == b'%'
    then b'%' ∷ pair_passed
    else if c == b'%' && is_letter d
    then pair_passed
    else c ∷ one_passed

strip_loop-without_codes :
    (before : Option ℕ) (s : List ℕ) → strip_loop false before s ≡ without_codes s
unfolding strip_loop without_codes is_letter
strip_loop-without_codes before [] = refl
strip_loop-without_codes before (c ∷ []) = refl
strip_loop-without_codes before (c ∷ d ∷ rest) =
    ground
      (arith, strip_loop-without_codes (some d) rest, strip_loop-without_codes (some c) (d ∷ rest))

-- stripDesktopExecPlaceholders, with its flag and its look at the rune before, gives on every Exec line
-- what reading its runes by pairs gives: `%%` as `%`, a percent sign with an ASCII letter as nothing, any other rune
-- as itself, where a byte that belongs to no rune counts as U+FFFD.
pub strip_placeholders-without_codes :
    (exec : Bytes) → strip_placeholders exec ≡ encode_runes (without_codes (runes exec))
unfolding strip_placeholders
strip_placeholders-without_codes exec = ap encode_runes (strip_loop-without_codes none (runes exec))
