-- ===== src/LogBuffer/Appends.antt =====
-- What `Append` and `Clear` do to a valid buffer: a log buffer refines the last `max_size` lines of
-- everything that was appended.
use a_kerno.Common.{
  ℕ, suc, ◌+◌, ◌-◌, ◌<◌, ◌≡◌, refl, ap, sym, ◌∙◌, Bytes, List, [], ◌∷◌, ◌++◌, Option, some, none,
  Bool, true, false, length, set, take, drop, arith, leb, if◌then◌else◌, length-append, length-take,
  length-drop, length-set, length-replicate, length-map, append_assoc, append-nil, Bool-cases, inl,
  inr,
}
use a_kerno.Common.Int.{ℤ, pos_part, is_positive}
use a_kerno.LogBuffer.{LogBuffer, new, append, clear, tail}
use a_kerno.LogBuffer.Indexing.{
  get_elem?-exists, drop-eq-cons, take-suc-set, drop-suc-set, take_all, drop_all, drop-append,
  drop-drop,
}
use a_kerno.LogBuffer.Contents.{IsValid, window, contents, tail_lem}

-- The last `n` lines.
abbrev pub last_lines : ℕ → List Bytes → List Bytes
last_lines n xs = drop (length xs - n) xs

pub new-IsValid : (n : ℤ) → IsValid (new n) × (contents (new n) ≡ [])
unfolding new contents
new-IsValid n =
    let m : ℕ = if is_positive n then pos_part n else 1 in
    (record { storage = length-replicate m []; pos_in = ground arith }, refl)

-- The buffer after a write that is in range.
abbrev written : LogBuffer → Bytes → LogBuffer
written lb line =
    if leb lb.max_size (lb.pos + 1)
    then record lb { lines = set lb.lines lb.pos line; pos = 0; full = true }
    else record lb { lines = set lb.lines lb.pos line; pos = lb.pos + 1 }

append-written :
    (lb : LogBuffer) (line : Bytes) → IsValid lb → append lb line ≡ some (written lb line)
unfolding append
append-written lb line v = ground arith

written-IsValid : (lb : LogBuffer) (line : Bytes) → IsValid lb → IsValid (written lb line)
written-IsValid lb line v = ground (arith, length-set lb.lines lb.pos line)

module _ (p : ℕ) (lines : List Bytes) (x : Bytes) (h : p < length lines) where
  take-set : take (suc p) (set lines p x) ≡ take p lines ++ x ∷ []
  take-set = take-suc-set p lines x h

  length-full : length ((drop p lines ++ take p lines) ++ x ∷ []) - length lines ≡ 1
  length-full = omega (
    arith,
    length-append (drop p lines ++ take p lines) (x ∷ []),
    length-append (drop p lines) (take p lines),
    length-drop p lines,
    length-take p lines,
  )

  set-last : suc p ≡ length lines → set lines p x ≡ take p lines ++ x ∷ []
  set-last e =
      sym (take_all (suc p) (set lines p x) (omega (arith, length-set lines p x))) ∙ take-set

  length-part : length (take p lines ++ x ∷ []) - length lines ≡ 0
  length-part = omega (arith, length-append (take p lines) (x ∷ []), length-take p lines)

  -- A write at `p` after which the next one is at `p + 1`.
  window-grow :
      (full : Bool)
      → window full (suc p) (set lines p x)
        ≡ last_lines (length lines) (window full p lines ++ x ∷ [])
  window-grow false = rw (length-part, take-set)
  window-grow true =
      let (y, there) = get_elem?-exists p lines h in
      rw (length-full, take-set, drop-suc-set p lines x, drop-eq-cons p lines y there)
        (sym (append_assoc (drop (suc p) lines) (take p lines) (x ∷ [])))

  -- The write that fills the last place.
  window-wrap :
      (full : Bool)
      → suc p ≡ length lines
      → set lines p x ++ [] ≡ last_lines (length lines) (window full p lines ++ x ∷ [])
  window-wrap false e = rw (length-part, append-nil) (set-last e)
  window-wrap true e =
      let (y, there) = get_elem?-exists p lines h in
      rw (length-full, append-nil, drop-eq-cons p lines y there)
        (rw (drop_all (suc p) lines (omega arith)) (set-last e))

contents-written :
    (lb : LogBuffer) (line : Bytes)
    → IsValid lb
    → contents (written lb line) ≡ last_lines lb.max_size (contents lb ++ line ∷ [])
unfolding contents
contents-written lb line v =
    let p = lb.pos in
    let h : p < length lb.lines = omega arith in
    elim (Bool-cases (leb lb.max_size (p + 1))) [
      | inl wraps ↦ ground (arith, wraps, window-wrap p lb.lines line h lb.full)
      | inr grows ↦ ground (arith, grows, window-grow p lb.lines line h lb.full)
    ]

max_size-written : (lb : LogBuffer) (line : Bytes) → (written lb line).max_size ≡ lb.max_size
max_size-written lb line = ground arith

last_lines-append :
    (n : ℕ) (h : List Bytes) (x : Bytes)
    → last_lines n (last_lines n h ++ x ∷ []) ≡ last_lines n (h ++ x ∷ [])
last_lines-append n h x =
    let k = length h - n in
    rw (← drop-append k h (x ∷ []) (omega arith), drop-drop)
      (ap (λ i. drop i (h ++ x ∷ []))
        (omega (arith, length-append h (x ∷ []), length-drop k (h ++ x ∷ []))))

-- Appending the lines of a list, in order.
unfoldable pub append_all : LogBuffer → List Bytes → Option LogBuffer
append_all lb [] = some lb
append_all lb (x ∷ xs) = elim (append lb x) [ none ↦ none | some lb' ↦ append_all lb' xs ]

append_all-cons :
    (lb : LogBuffer) (x : Bytes) (xs : List Bytes) {lb' : LogBuffer}
    → append lb x ≡ some lb'
    → append_all lb (x ∷ xs) ≡ append_all lb' xs
unfolding append_all
append_all-cons lb x xs e = rw (e, append_all)

append_all-contents :
    (lb : LogBuffer) (old xs : List Bytes)
    → IsValid lb
    → contents lb ≡ last_lines lb.max_size old
    → (lb' : LogBuffer) × (append_all lb xs ≡ some lb')
      × IsValid lb'
      × (contents lb' ≡ last_lines lb.max_size (old ++ xs))
unfolding append_all
append_all-contents lb old [] v h = (lb, refl, v, rw append-nil h)
append_all-contents lb old (x ∷ xs) v h =
    let lb₁ = written lb x in
    let now : contents lb₁ ≡ last_lines lb₁.max_size (old ++ x ∷ []) =
      rw (max_size-written lb x, contents-written lb x v, h)
        (last_lines-append lb.max_size old x) in
    let (lb', runs, valid, holds) =
      append_all-contents lb₁ (old ++ x ∷ []) xs (written-IsValid lb x v) now in
    (
      lb',
      append_all-cons lb x xs (append-written lb x v) ∙ runs,
      valid,
      holds
          ∙ rw (max_size-written lb x) (ap (last_lines lb.max_size) (append_assoc old (x ∷ []) xs)),
    )

-- A buffer to which the lines `h` were appended never panics; it holds the last `max_size` lines of
-- `h`, and `Tail(r)` returns the first `r` of those, the oldest ones, or the first 50 if `r` is not
-- positive.
pub tail-append_all :
    (n : ℤ) (h : List Bytes)
    → (lb : LogBuffer) × (append_all (new n) h ≡ some lb)
      × (contents lb ≡ last_lines (new n).max_size h)
      × ((r : ℤ)
          → tail lb r
            ≡ some
                (take (if is_positive r then pos_part r else 50) (last_lines (new n).max_size h)))
tail-append_all n h =
    let (valid, empty) = new-IsValid n in
    let start : contents (new n) ≡ last_lines (new n).max_size [] =
      empty ∙ sym (drop_all (0 - (new n).max_size) [] (omega arith)) in
    let (lb, runs, v, holds) = append_all-contents (new n) [] h valid start in
    (
      lb,
      runs,
      holds,
      λ r.
          tail_lem lb r v
          ∙ ap (λ ls. some (take (if is_positive r then pos_part r else 50) ls)) holds,
    )

-- `Clear` leaves a valid buffer that holds nothing.
pub clear-IsValid : (lb : LogBuffer) → IsValid lb → IsValid (clear lb) × (contents (clear lb) ≡ [])
unfolding clear contents
clear-IsValid lb v = (
  ground (arith, length-map lb.lines (λ (l : Bytes). let none_left : Bytes = [] in none_left)),
  refl,
)
