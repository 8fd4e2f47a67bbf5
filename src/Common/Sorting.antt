-- ===== src/Common/Sorting.antt =====
-- `sort.Slice(xs, less)`. The library promises no order among equal elements; the model keeps theirs,
-- and the theorems say no more than that the result is a permutation with no descent.
use mathlib.Core.Path.{◌≡◌}
use mathlib.Core.Bool.{Bool, true, false}
use mathlib.Core.List.{List, [], ◌∷◌, Perm}
use mathlib.Core.List.Perm
use mathlib.Core.Logic.{◌≢◌, inl, inr}
use native.Mathlib.Omega.{arith}
use a_kerno.Common.Tests.{if◌then◌else◌, if-holds, Bool-cases}

module _ {A : Type 0} (less : A → A → Bool) where
  unfoldable pub insert_sorted : A → List A → List A
  insert_sorted x [] = x ∷ []
  insert_sorted x (y ∷ ys) = if less y x then y ∷ insert_sorted x ys else x ∷ y ∷ ys

  unfoldable pub sort : List A → List A
  unfolding insert_sorted
  sort [] = []
  sort (x ∷ xs) = insert_sorted x (sort xs)

  -- No element is less than the one before it.
  abbrev pub IsSorted : List A → Type 0
  IsSorted [] = Unit
  IsSorted (x ∷ []) = Unit
  IsSorted (x ∷ y ∷ ys) = (less y x ≡ false) × IsSorted (y ∷ ys)

  insert_sorted-perm : (x : A) (ys : List A) → Perm (insert_sorted x ys) (x ∷ ys)
  unfolding insert_sorted
  insert_sorted-perm x [] = Perm.refl (x ∷ [])
  insert_sorted-perm x (y ∷ ys) = elim (Bool-cases (less y x)) [
    | inl before ↦ rw before (Perm.trans (Perm.cons y (insert_sorted-perm x ys)) (Perm.swap x y ys))
    | inr after ↦ rw after (Perm.refl (x ∷ y ∷ ys))
  ]

  pub sort-perm : (xs : List A) → Perm (sort xs) xs
  unfolding sort
  sort-perm [] = Perm.refl []
  sort-perm (x ∷ xs) = Perm.trans (insert_sorted-perm x (sort xs)) (Perm.cons x (sort-perm xs))

module _ {A : Type 0} (less : A → A → Bool)
    (asym : (a b : A) → less a b ≡ true → less b a ≡ false) where
  insert_sorted-IsSorted :
      (x : A) (ys : List A) → IsSorted less ys → IsSorted less (insert_sorted less x ys)
  unfolding insert_sorted
  insert_sorted-IsSorted x [] h = tt
  insert_sorted-IsSorted x (y ∷ []) h = ground (arith, asym y x)
  insert_sorted-IsSorted x (y ∷ z ∷ zs) h =
      let ih = insert_sorted-IsSorted x (z ∷ zs) h.1 in
      elim (Bool-cases (less y x)) [
        | inr after ↦ rw after (after, h)
        | inl before ↦ rw before (elim (Bool-cases (less z x)) [
          | inl further ↦ rw further (h.0, rw further at ih)
          | inr here ↦ rw here (asym y x before, (here, h.1))
        ])
      ]

  pub sort-IsSorted : (xs : List A) → IsSorted less (sort less xs)
  unfolding sort
  sort-IsSorted [] = tt
  sort-IsSorted (x ∷ xs) = insert_sorted-IsSorted x (sort less xs) (sort-IsSorted xs)

abbrev pub AllOf : {A : Type 0} → (A → Type 0) → List A → Type 0
AllOf P [] = Unit
AllOf P (x ∷ xs) = P x × AllOf P xs

module _ {A : Type 0} (less : A → A → Bool) (P : A → Type 0) where
  AllOf-insert_sorted : (x : A) (ys : List A) → AllOf P (insert_sorted less x ys) → P x × AllOf P ys
  unfolding insert_sorted
  AllOf-insert_sorted x [] h = h
  AllOf-insert_sorted x (y ∷ ys) h = elim (Bool-cases (less y x)) [
    | inl before ↦
        let split : P y × AllOf P (insert_sorted less x ys) = rw before at h in
        let (own, rest) = AllOf-insert_sorted x ys split.1 in (own, (split.0, rest))
    | inr after ↦ let split : P x × AllOf P (y ∷ ys) = rw after at h in (split.0, split.1)
  ]

  -- What holds of every element of a sorted list holds of every element of the list.
  pub AllOf-sort : (xs : List A) → AllOf P (sort less xs) → AllOf P xs
  unfolding sort
  AllOf-sort [] h = tt
  AllOf-sort (x ∷ xs) h =
      let (own, rest) = AllOf-insert_sorted x (sort less xs) h in (own, AllOf-sort xs rest)

  insert_sorted-AllOf : (x : A) (ys : List A) → P x → AllOf P ys → AllOf P (insert_sorted less x ys)
  unfolding insert_sorted
  insert_sorted-AllOf x [] own h = (own, tt)
  insert_sorted-AllOf x (y ∷ ys) own h =
      if-holds (AllOf P) (less y x) (y ∷ insert_sorted less x ys) (x ∷ y ∷ ys)
        (h.0, insert_sorted-AllOf x ys own h.1) (own, h)

  pub sort-AllOf : (xs : List A) → AllOf P xs → AllOf P (sort less xs)
  unfolding sort
  sort-AllOf [] h = tt
  sort-AllOf (x ∷ xs) h = insert_sorted-AllOf x (sort less xs) h.0 (sort-AllOf xs h.1)

module _ {A : Type 0} (less : A → A → Bool) where
  insert_sorted-ne_nil : (x : A) (ys : List A) → insert_sorted less x ys ≢ []
  unfolding insert_sorted
  insert_sorted-ne_nil x [] = cc
  insert_sorted-ne_nil x (y ∷ ys) =
      if-holds (λ (zs : List A). zs ≢ []) (less y x) (y ∷ insert_sorted less x ys) (x ∷ y ∷ ys) (cc)
        (cc)

  pub sort-ne_nil : (x : A) (xs : List A) → sort less (x ∷ xs) ≢ []
  unfolding sort
  sort-ne_nil x xs = insert_sorted-ne_nil x (sort less xs)
