-- ===== src/LogDup/Lines.antt =====
-- The lines of a daemon's output as `scanLines` of internal/logdup/logdup.go gives them.
use a_kerno.Common.{
  ℕ, ◌+◌, ◌<◌, ◌≤◌, ◌≡◌, refl, sym, ◌∙◌, ap, Bytes, List, [], ◌∷◌, ◌++◌, append_assoc, append-nil,
  false, ◌==◌, length, length-append, arith, Bool-cases, inl, inr,
}
use a_kerno.Text.Laws.{Lacks}
use a_kerno.LogDup.{drop_return, max_token, scan_from, scan_lines}

-- Each line with a newline.
unfoldable pub unlines : List Bytes → Bytes
unlines [] = []
unlines (line ∷ lines) = line ++ b'\n' ∷ unlines lines

-- Lines without a newline, without a carriage return at their end, and shorter than the scanner's limit.
abbrev pub AllShort : ℕ → List Bytes → Type 0
AllShort limit [] = Unit
AllShort limit (line ∷ lines) =
    (Lacks b'\n' line × (drop_return line ≡ line) × (length line < limit)) × AllShort limit lines

scan_from-line :
    (limit : ℕ) (line xs rest : Bytes)
    → Lacks b'\n' xs
    → length line + length xs < limit
    → scan_from limit line (xs ++ b'\n' ∷ rest) ≡ drop_return (line ++ xs) ∷ scan_from limit [] rest
unfolding scan_from
scan_from-line limit line [] rest h short = rw (append-nil line) refl
scan_from-line limit line (x ∷ xs) rest h short =
    let longer = length-append line (x ∷ []) in
    let goes_on : (length line + 1 == limit) ≡ false = ground (arith, short) in
    rw (h.0, goes_on, scan_from)
      (scan_from-line limit (line ++ x ∷ []) xs rest h.1 (omega (arith, longer, short))
        ∙ ap (λ l. drop_return l ∷ scan_from limit [] rest) (append_assoc line (x ∷ []) xs))

scan_from-long :
    (limit : ℕ) (line xs rest : Bytes)
    → Lacks b'\n' xs
    → length line < limit
    → limit ≤ length line + length xs
    → scan_from limit line (xs ++ rest) ≡ []
unfolding scan_from
scan_from-long limit line [] rest h short long = absurd (omega (arith, short, long))
scan_from-long limit line (x ∷ xs) rest h short long =
    elim (Bool-cases (length line + 1 == limit)) [
      | inl full ↦ rw (h.0, full, scan_from) refl
      | inr fits ↦
          let longer = length-append line (x ∷ []) in
          rw (h.0, fits, scan_from)
            (scan_from-long limit (line ++ x ∷ []) xs rest h.1 (ground (arith, longer, short, fits))
              (omega (arith, longer, long)))
    ]

scan_from-unlines :
    (limit : ℕ) (lines : List Bytes) (rest : Bytes)
    → AllShort limit lines
    → scan_from limit [] (unlines lines ++ rest) ≡ lines ++ scan_from limit [] rest
unfolding unlines
scan_from-unlines limit [] rest h = refl
scan_from-unlines limit (line ∷ lines) rest h =
    ap (scan_from limit []) (append_assoc line (b'\n' ∷ unlines lines) rest)
    ∙ scan_from-line limit [] line (unlines lines ++ rest) h.0.0 (omega (arith, h.0.2))
    ∙ rw h.0.1 (ap (λ ls. line ∷ ls) (scan_from-unlines limit lines rest h.1))

-- The scanner, whatever its limit is, gives back the lines of an output, for lines without a newline or a
-- carriage return at their end that are shorter than the limit; and from a line on that is not shorter,
-- it gives nothing of what follows.
pub scan_from_lem :
    (limit : ℕ) (lines : List Bytes) (long rest : Bytes)
    → 0 < limit
    → AllShort limit lines
    → Lacks b'\n' long
    → limit ≤ length long
    → (scan_from limit [] (unlines lines) ≡ lines)
      × (scan_from limit [] (unlines lines ++ (long ++ rest)) ≡ lines)
unfolding scan_from
scan_from_lem limit lines long rest positive h lacks huge = (
  ap (scan_from limit []) (sym (append-nil (unlines lines)))
      ∙ scan_from-unlines limit lines [] h
      ∙ append-nil lines,
  scan_from-unlines limit lines (long ++ rest) h
      ∙ rw (scan_from-long limit [] long rest lacks (omega (arith, positive)) (omega (arith, huge)))
          (append-nil lines),
)

-- `scanLines` gives back the lines of an output, if they are shorter than 2 MiB.
pub scan_lines-unlines :
    (lines : List Bytes) → AllShort max_token lines → scan_lines (unlines lines) ≡ lines
unfolding scan_lines scan_from
scan_lines-unlines lines h =
    ap (scan_from max_token []) (sym (append-nil (unlines lines)))
    ∙ scan_from-unlines max_token lines [] h
    ∙ append-nil lines
