-- ===== src/Text/Laws.antt =====
-- Laws of the text functions.
use a_kerno.Common.{
  ℕ, suc, ◌-◌, ◌≡◌, refl, ap, Bytes, [], ◌∷◌, ◌++◌, Bool, true, false, not, ◌&&◌, arith, ◌==◌,
  length,
}
use a_kerno.Text.{has_prefix, replace_from, replace_all}

-- No byte of the text is `b`.
abbrev pub Lacks : ℕ → Bytes → Type 0
Lacks b [] = Unit
Lacks b (c ∷ s) = ((c == b) ≡ false) × Lacks b s

-- The same as a test, for texts that are written out.
abbrev pub lacks? : ℕ → Bytes → Bool
lacks? b [] = true
lacks? b (c ∷ s) = not (c == b) && lacks? b s

pub Lacks-sound : (b : ℕ) (s : Bytes) → lacks? b s ≡ true → Lacks b s
Lacks-sound b [] h = tt
Lacks-sound b (c ∷ s) h = ground (arith, h, Lacks-sound b s)

replace_from-Lacks : (p : ℕ) (ps new s : Bytes) → Lacks p s → replace_from (p ∷ ps) new 0 s ≡ s
unfolding replace_from has_prefix
replace_from-Lacks p ps new [] h = refl
replace_from-Lacks p ps new (c ∷ s) h = ground (arith, h, replace_from-Lacks p ps new s h.1)

-- A text without the first byte of the pattern is left as it is.
pub replace_all-Lacks : (p : ℕ) (ps new s : Bytes) → Lacks p s → replace_all (p ∷ ps) new s ≡ s
unfolding replace_all
replace_all-Lacks p ps new s h = replace_from-Lacks p ps new s h

replace_from-skip :
    (old new pre s : Bytes)
    → replace_from old new (length pre) (pre ++ s) ≡ replace_from old new 0 s
unfolding replace_from
replace_from-skip old new [] s = refl
replace_from-skip old new (c ∷ pre) s = replace_from-skip old new pre s

has_prefix-append : (pre s : Bytes) → has_prefix pre (pre ++ s) ≡ true
unfolding has_prefix
has_prefix-append [] s = refl
has_prefix-append (p ∷ ps) s = ground (arith, has_prefix-append ps s)

-- An occurrence at the head is replaced.
pub replace_all-head :
    (p : ℕ) (ps new s : Bytes)
    → replace_all (p ∷ ps) new ((p ∷ ps) ++ s) ≡ new ++ replace_all (p ∷ ps) new s
unfolding replace_all replace_from has_prefix
replace_all-head p ps new s =
    let rest : suc (length ps) - 1 ≡ length ps = omega arith in
    rw (has_prefix-append (p ∷ ps) s, replace_from, rest)
      (ap (λ t. new ++ t) (replace_from-skip (p ∷ ps) new ps s))

replace_from-append :
    (p : ℕ) (ps new pre s : Bytes)
    → Lacks p pre
    → replace_from (p ∷ ps) new 0 (pre ++ s) ≡ pre ++ replace_from (p ∷ ps) new 0 s
unfolding replace_from has_prefix
replace_from-append p ps new [] s h = refl
replace_from-append p ps new (c ∷ pre) s h =
    ground (arith, h, replace_from-append p ps new pre s h.1)

-- A front without the first byte of the pattern is passed over.
pub replace_all-append :
    (p : ℕ) (ps new pre s : Bytes)
    → Lacks p pre
    → replace_all (p ∷ ps) new (pre ++ s) ≡ pre ++ replace_all (p ∷ ps) new s
unfolding replace_all
replace_all-append p ps new pre s h = replace_from-append p ps new pre s h
