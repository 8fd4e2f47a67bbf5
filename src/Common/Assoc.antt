-- ===== src/Common/Assoc.antt =====
-- Go maps with string keys, as association lists: one entry for a key, in order of insertion.
use mathlib.Core.Path.{◌≡◌, refl}
use mathlib.Core.Option.{Option, none, some}
use mathlib.Core.List.{List, [], ◌∷◌}
use native.Mathlib.Omega.{arith}
use mathlib.Core.Logic.{inl, inr}
use a_kerno.Common.Tests.{if◌then◌else◌, Bool-cases}
use a_kerno.Common.ByteStrings.{Bytes, bytes_eq, bytes_eq_iff}

abbrev pub Assoc : Type 0 → Type 0
Assoc V = List (Bytes × V)

module _ {V : Type 0} where
  -- `m[k]`
  unfoldable pub lookup : Bytes → Assoc V → Option V
  lookup k [] = none
  lookup k ((j, v) ∷ m) = if bytes_eq j k then some v else lookup k m

  -- `m[k] = v`
  unfoldable pub insert : Bytes → V → Assoc V → Assoc V
  insert k v [] = (k, v) ∷ []
  insert k v ((j, w) ∷ m) = if bytes_eq j k then (k, v) ∷ m else (j, w) ∷ insert k v m

  -- `delete(m, k)`
  unfoldable pub delete : Bytes → Assoc V → Assoc V
  delete k [] = []
  delete k ((j, w) ∷ m) = let rest = delete k m in if bytes_eq j k then rest else (j, w) ∷ rest

  pub lookup-insert :
      (k j : Bytes) (v : V) (m : Assoc V)
      → lookup j (insert k v m) ≡ (if bytes_eq k j then some v else lookup j m)
  unfolding lookup insert
  lookup-insert k j v [] = refl
  lookup-insert k j v ((i, w) ∷ m) =
      ground (arith, bytes_eq_iff k j, bytes_eq_iff i k, bytes_eq_iff i j, lookup-insert k j v m)

  pub lookup-delete :
      (k j : Bytes) (m : Assoc V)
      → lookup j (delete k m) ≡ (if bytes_eq k j then none else lookup j m)
  unfolding lookup delete
  lookup-delete k j [] = ground arith
  lookup-delete k j ((i, w) ∷ m) =
      ground (arith, bytes_eq_iff k j, bytes_eq_iff i k, bytes_eq_iff i j, lookup-delete k j m)

  -- Every key at most once.
  abbrev pub IsFresh : Bytes → Assoc V → Type 0
  IsFresh k m = lookup k m ≡ none

  abbrev pub HasDistinctKeys : Assoc V → Type 0
  HasDistinctKeys [] = Unit
  HasDistinctKeys ((k, v) ∷ m) = IsFresh k m × HasDistinctKeys m

  pub insert-HasDistinctKeys :
      (k : Bytes) (v : V) (m : Assoc V) → HasDistinctKeys m → HasDistinctKeys (insert k v m)
  unfolding insert lookup
  insert-HasDistinctKeys k v [] h = ground arith
  insert-HasDistinctKeys k v ((j, w) ∷ m) h = elim (Bool-cases (bytes_eq j k)) [
    | inl same ↦ rw same (ground (arith, h, (bytes_eq_iff j k).0 same))
    | inr differ ↦ rw differ (
      ground (arith, differ, h, lookup-insert k j v m, bytes_eq_iff k j, bytes_eq_iff j k),
      insert-HasDistinctKeys k v m h.1,
    )
  ]
