-- ===== src/LogBuffer/Indexing.antt =====
-- Elements of prefixes, suffixes and joined lists.
use a_kerno.Common.{
  ℕ, zero, suc, ◌+◌, ◌-◌, ◌≤◌, ◌<◌, ◌≡◌, refl, ap, sym, ◌∙◌, List, [], ◌∷◌, ◌++◌, some, length,
  get_elem?, set, take, drop, arith, ltb, if◌then◌else◌,
}
use native.Mathlib.Nat.{suc-add}

module _ {ℓ} {A : Type ℓ} where
  pub get_elem?-append :
      (xs ys : List A) (i : ℕ)
      → get_elem? (xs ++ ys) i
        ≡ (if ltb i (length xs) then get_elem? xs i else get_elem? ys (i - length xs))
  get_elem?-append [] ys i = let e : i - 0 ≡ i = omega arith in ground (arith, e)
  get_elem?-append (x ∷ xs) ys zero = ground arith
  get_elem?-append (x ∷ xs) ys (suc i) = ground (arith, get_elem?-append xs ys i)

  pub get_elem?-take : (n i : ℕ) (xs : List A) → i < n → get_elem? (take n xs) i ≡ get_elem? xs i
  get_elem?-take zero i xs h = absurd (omega arith)
  get_elem?-take (suc n) i [] h = refl
  get_elem?-take (suc n) zero (x ∷ xs) h = refl
  get_elem?-take (suc n) (suc i) (x ∷ xs) h = get_elem?-take n i xs (omega arith)

  pub get_elem?-drop : (n i : ℕ) (xs : List A) → get_elem? (drop n xs) i ≡ get_elem? xs (n + i)
  get_elem?-drop zero i xs = ap (get_elem? xs) (omega arith)
  get_elem?-drop (suc n) i [] = refl
  get_elem?-drop (suc n) i (x ∷ xs) = ground (arith, get_elem?-drop n i xs)

  -- Where an element stands, the list goes on with it.
  pub drop-eq-cons :
      (i : ℕ) (xs : List A) (x : A) → get_elem? xs i ≡ some x → drop i xs ≡ x ∷ drop (suc i) xs
  drop-eq-cons zero [] x h = ground arith
  drop-eq-cons zero (y ∷ ys) x h = ground arith
  drop-eq-cons (suc i) [] x h = ground arith
  drop-eq-cons (suc i) (y ∷ ys) x h = drop-eq-cons i ys x h

  pub get_elem?-exists : (i : ℕ) (xs : List A) → i < length xs → (x : A) × (get_elem? xs i ≡ some x)
  get_elem?-exists i [] h = absurd (omega arith)
  get_elem?-exists zero (x ∷ xs) h = (x, refl)
  get_elem?-exists (suc i) (x ∷ xs) h = get_elem?-exists i xs (omega arith)

  pub take-suc-set :
      (i : ℕ) (xs : List A) (x : A)
      → i < length xs
      → take (suc i) (set xs i x) ≡ take i xs ++ x ∷ []
  take-suc-set i [] x h = absurd (omega arith)
  take-suc-set zero (y ∷ ys) x h = refl
  take-suc-set (suc i) (y ∷ ys) x h = ap (λ t. y ∷ t) (take-suc-set i ys x (omega arith))

  pub drop-suc-set : (i : ℕ) (xs : List A) (x : A) → drop (suc i) (set xs i x) ≡ drop (suc i) xs
  drop-suc-set i [] x = refl
  drop-suc-set zero (y ∷ ys) x = refl
  drop-suc-set (suc i) (y ∷ ys) x = drop-suc-set i ys x

  pub take_all : (n : ℕ) (xs : List A) → length xs ≤ n → take n xs ≡ xs
  take_all zero [] h = refl
  take_all zero (x ∷ xs) h = absurd (omega arith)
  take_all (suc n) [] h = refl
  take_all (suc n) (x ∷ xs) h = ap (λ t. x ∷ t) (take_all n xs (omega arith))

  pub drop_all : (n : ℕ) (xs : List A) → length xs ≤ n → drop n xs ≡ []
  drop_all zero [] h = refl
  drop_all zero (x ∷ xs) h = absurd (omega arith)
  drop_all (suc n) [] h = refl
  drop_all (suc n) (x ∷ xs) h = drop_all n xs (omega arith)

  pub drop-append : (n : ℕ) (xs ys : List A) → n ≤ length xs → drop n (xs ++ ys) ≡ drop n xs ++ ys
  drop-append zero xs ys h = refl
  drop-append (suc n) [] ys h = absurd (omega arith)
  drop-append (suc n) (x ∷ xs) ys h = drop-append n xs ys (omega arith)

  pub drop-drop : (n m : ℕ) (xs : List A) → drop n (drop m xs) ≡ drop (m + n) xs
  drop-drop n zero xs = ap (λ k. drop k xs) (omega arith)
  drop-drop n (suc m) [] = drop_all n [] (omega arith) ∙ sym (drop_all (suc m + n) [] (omega arith))
  drop-drop n (suc m) (x ∷ xs) = rw suc-add (drop-drop n m xs)
