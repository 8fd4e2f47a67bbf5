-- ===== src/Text.antt =====
-- The functions of Go's `strings` that the code uses, on ASCII text. A pattern is not empty.
pub mod Utf8
pub mod Laws
use a_kerno.Common.{
  ℕ, zero, suc, ◌+◌, ◌-◌, Bytes, bytes_eq, List, [], ◌∷◌, ◌++◌, Option, none, some, Bool, true,
  false, ◌&&◌, ◌||◌, ◌==◌, leb, length, drop, map, if◌then◌else◌,
}
use mathlib.Core.List.{reverse}

-- `strings.HasPrefix`
unfoldable pub has_prefix : Bytes → Bytes → Bool
has_prefix [] s = true
has_prefix (p ∷ ps) [] = false
has_prefix (p ∷ ps) (c ∷ s) = c == p && has_prefix ps s

-- `strings.HasSuffix`
unfoldable pub has_suffix : Bytes → Bytes → Bool
unfolding has_prefix
has_suffix suffix s = has_prefix (reverse suffix) (reverse s)

abbrev pub is_space : ℕ → Bool
is_space c = c == 32 || (leb 9 c && leb c 13)

unfoldable pub trim_left : Bytes → Bytes
trim_left [] = []
trim_left (c ∷ cs) = let rest = trim_left cs in if is_space c then rest else c ∷ cs

-- `strings.TrimSpace`
unfoldable pub trim_space : Bytes → Bytes
unfolding trim_left
trim_space s = reverse (trim_left (reverse (trim_left s)))

-- The replacements from a place on, `skip` bytes of an occurrence being still to pass.
unfoldable pub replace_from : Bytes → Bytes → ℕ → Bytes → Bytes
unfolding has_prefix
replace_from old new skip [] = []
replace_from old new (suc skip) (c ∷ s) = replace_from old new skip s
replace_from old new zero (c ∷ s) =
    let replaced = new ++ replace_from old new (length old - 1) s in
    let kept = c ∷ replace_from old new 0 s in if has_prefix old (c ∷ s) then replaced else kept

-- `strings.ReplaceAll`
unfoldable pub replace_all : Bytes → Bytes → Bytes → Bytes
unfolding replace_from
replace_all old new s = replace_from old new 0 s

-- The pieces between the separators, `piece` being the one at hand.
unfoldable pub split_from : ℕ → Bytes → Bytes → List Bytes
split_from sep piece [] = piece ∷ []
split_from sep piece (c ∷ s) =
    let next = piece ∷ split_from sep [] s in
    let longer = split_from sep (piece ++ c ∷ []) s in if c == sep then next else longer

-- `strings.Split` at one byte
unfoldable pub split : ℕ → Bytes → List Bytes
unfolding split_from
split sep s = split_from sep [] s

-- `strings.Join`
unfoldable pub join : Bytes → List Bytes → Bytes
join separator [] = []
join separator (part ∷ []) = part
join separator (part ∷ next ∷ parts) = part ++ (separator ++ join separator (next ∷ parts))

-- The pieces of a text that is written with `fmt.Sprintf`, one after the other.
abbrev pub concat : List Bytes → Bytes
concat [] = []
concat (piece ∷ []) = piece
concat (piece ∷ next ∷ pieces) = piece ++ concat (next ∷ pieces)

unfoldable pub cut_from : ℕ → Bytes → Bytes → Option (Bytes × Bytes)
cut_from sep before [] = none
cut_from sep before (c ∷ s) =
    let later = cut_from sep (before ++ c ∷ []) s in if c == sep then some (before, s) else later

-- `strings.Cut` at one byte; `none` where it is not found.
unfoldable pub cut : ℕ → Bytes → Option (Bytes × Bytes)
unfolding cut_from
cut sep s = cut_from sep [] s

abbrev pub is_upper : ℕ → Bool
is_upper c = leb b'A' c && leb c b'Z'

abbrev pub is_lower : ℕ → Bool
is_lower c = leb b'a' c && leb c b'z'

abbrev pub lower : ℕ → ℕ
lower c = if is_upper c then c + 32 else c

-- `strings.ToLower`
unfoldable pub to_lower : Bytes → Bytes
to_lower s = map lower s

-- `strings.EqualFold`
unfoldable pub equal_fold : Bytes → Bytes → Bool
unfolding to_lower
equal_fold a b = bytes_eq (to_lower a) (to_lower b)

-- `strings.TrimSuffix`
unfoldable pub trim_suffix : Bytes → Bytes → Bytes
unfolding has_suffix
trim_suffix suffix s = if has_suffix suffix s then reverse (drop (length suffix) (reverse s)) else s

-- `filepath.Ext` of a name without separators: from its last dot on.
unfoldable pub ext : Bytes → Bytes
unfolding cut
ext name = elim (cut b'.' (reverse name)) [
  | none ↦ []
  | some (after, before) ↦ b'.' ∷ reverse after
]
