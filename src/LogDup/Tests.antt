-- ===== src/LogDup/Tests.antt =====
-- Examples of the scanner.
use a_kerno.Common.{◌≡◌, refl, text, [], ◌∷◌, ◌++◌, arith, true, false, err}
use a_kerno.LogDup.Pipes.{duplicate, no_ends, DuplicateError}
use a_kerno.LogDup.{scan_from}
use a_kerno.LogDup.Lines.{unlines, scan_from_lem}

last_part : scan_from 9 [] (text "one\r\ntwo") ≡ text "one" ∷ text "two" ∷ []
unfolding scan_from
last_part = refl

scan_from_lem_example :
    (scan_from 4 [] (unlines (text "one" ∷ [])) ≡ text "one" ∷ [])
    × (scan_from 4 [] (unlines (text "one" ∷ []) ++ (text "four" ++ text "\ntwo\n"))
        ≡ text "one" ∷ [])
scan_from_lem_example =
    scan_from_lem 4 (text "one" ∷ []) (text "four") (text "\ntwo\n") (omega arith)
      (((refl, (refl, (refl, tt))), refl, omega arith), tt) (refl, (refl, (refl, (refl, tt))))
      (omega arith)

-- The second pipe cannot be made: the first is closed again.
second_fails :
    duplicate (record { first = true; second = false }) (text "web")
    ≡ (err (DuplicateError.stderr_pipe (text "web")), no_ends)
unfolding duplicate
second_fails = refl
