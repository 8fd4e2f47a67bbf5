-- ===== src/LogBuffer/Contents.antt =====
-- The lines that a log buffer holds, oldest first, and what `Tail` returns of them.
use a_kerno.Common.{
  ℕ, zero, suc, ◌+◌, ◌-◌, ◌≤◌, ◌<◌, ◌≡◌, refl, ap, Bytes, List, ◌++◌, some, Bool, true, false,
  length, get_elem?, take, drop, arith, ltb, if◌then◌else◌, length-append, length-take, length-drop,
  sym, ◌∙◌, inl, inr, Bool-cases,
}
use a_kerno.Common.Int.{ℤ, pos_part, is_positive}
use a_kerno.LogBuffer.{LogBuffer, len, index, tail_loop, tail}
use a_kerno.LogBuffer.Indexing.{
  get_elem?-append, get_elem?-take, get_elem?-drop, drop-eq-cons, get_elem?-exists, take_all,
}

pub record IsValid (lb : LogBuffer) : Type 0 where
  pub storage : length lb.lines ≡ lb.max_size
  pub pos_in : lb.pos < lb.max_size

-- The lines of a buffer whose next write is at `p`, oldest first.
abbrev pub window : Bool → ℕ → List Bytes → List Bytes
window true p lines = drop p lines ++ take p lines
window false p lines = take p lines

unfoldable pub contents : LogBuffer → List Bytes
contents lb = window lb.full lb.pos lb.lines

-- `Len` counts the lines that are held.
pub length-contents : (lb : LogBuffer) → IsValid lb → length (contents lb) ≡ len lb
unfolding contents len
length-contents lb v = ground (
  arith,
  length-append (drop lb.pos lb.lines) (take lb.pos lb.lines),
  length-take lb.pos lb.lines,
  length-drop lb.pos lb.lines,
)

-- Line `i` of the contents stands at the index that `Tail` computes.
get_elem?-index :
    (lb : LogBuffer) (i : ℕ)
    → IsValid lb
    → i < len lb
    → get_elem? lb.lines (index lb (len lb) i) ≡ get_elem? (contents lb) i
unfolding contents len index
get_elem?-index lb i v h = ground (
  arith,
  length-drop lb.pos lb.lines,
  get_elem?-append (drop lb.pos lb.lines) (take lb.pos lb.lines) i,
  get_elem?-take lb.pos i lb.lines,
  get_elem?-drop lb.pos i lb.lines,
  get_elem?-take lb.pos (i - length (drop lb.pos lb.lines)) lb.lines,
)

tail_loop_lem :
    (lb : LogBuffer) (i n : ℕ)
    → IsValid lb
    → i + n ≤ len lb
    → tail_loop lb (len lb) i n ≡ some (take n (drop i (contents lb)))
unfolding tail_loop
tail_loop_lem lb i zero v h = refl
tail_loop_lem lb i (suc n) v h =
    let (line, there) = get_elem?-exists i (contents lb) (omega (arith, length-contents lb v)) in
    rw (
      tail_loop_lem lb (suc i) n v (omega arith),
      get_elem?-index lb i v (omega arith),
      there,
      drop-eq-cons i (contents lb) line there,
    )

-- `Tail(n)` never panics on a valid buffer, and returns the first `n` lines of the contents, that
-- is the oldest ones; all of them if there are no more than `n`; the first 50 if `n` is not positive.
pub tail_lem :
    (lb : LogBuffer) (n : ℤ)
    → IsValid lb
    → tail lb n ≡ some (take (if is_positive n then pos_part n else 50) (contents lb))
unfolding tail
tail_lem lb n v =
    let m : ℕ = if is_positive n then pos_part n else 50 in
    elim (Bool-cases (ltb (len lb) m)) [
      | inl more ↦ rw more (
          rw (tail_loop_lem lb 0 (len lb) v (omega arith)) (
            ap some (
              take_all (len lb) (contents lb) (omega (arith, length-contents lb v))
              ∙ sym (take_all m (contents lb) (ground (arith, length-contents lb v))))))
      | inr fits ↦ rw fits (tail_loop_lem lb 0 m v (ground arith))
    ]
