-- ===== src/LogDup/Pipes.antt =====
-- `Duplicate` and `LogWriters.Close` of internal/logdup/logdup.go: two pipes, and for each a goroutine that scans what
-- the daemon writes. The goroutines take turns by a schedule, line by line: the callback of a line appends to
-- the daemon's log buffer under its lock.
use a_kerno.Common.{
  Bytes, List, [], ◌∷◌, ◌++◌, ◌≡◌, refl, Option, some, Bool, true, false, if◌then◌else◌, if-holds,
  Result, ok, err, take,
}
use a_kerno.Common.Int.{ℤ, pos_part, is_positive}
use a_kerno.LogBuffer.{LogBuffer, new, tail}
use a_kerno.LogBuffer.Contents.{contents}
use a_kerno.LogBuffer.Appends.{last_lines, append_all, tail-append_all}
use a_kerno.LogDup.{max_token, scan_lines}
use a_kerno.LogDup.Lines.{unlines, AllShort, scan_lines-unlines}

-- Which ends of the two pipes are open in a-kerno.
pub record Ends : Type 0 where
  pub out_read : Bool
  pub out_write : Bool
  pub err_read : Bool
  pub err_write : Bool

abbrev pub no_ends : Ends
no_ends = record { out_read = false; out_write = false; err_read = false; err_write = false }

-- The error holds the name of the daemon.
pub data DuplicateError : Type 0 where
  stdout_pipe stderr_pipe : Bytes → DuplicateError

-- `LogWriters`: the ends that it holds, and the prefix that its goroutines put before the lines of the log.
pub record LogWriters : Type 0 where
  pub ends : Ends
  pub prefix : Bytes

-- Whether the first and the second pipe can be made.
pub record PipesEnv : Type 0 where
  pub first : Bool
  pub second : Bool

-- `Duplicate`, with the ends that are open when it returns.
unfoldable pub duplicate : PipesEnv → Bytes → Result DuplicateError LogWriters × Ends
duplicate env name =
    let all : Ends = record {
      out_read = true;
      out_write = true;
      err_read = true;
      err_write = true;
    } in
    let first : Ends = record no_ends { out_read = true; out_write = true } in
    if env.first
    then if env.second
      then (ok (record { ends = all; prefix = b'[' ∷ name ++ (b']' ∷ b' ' ∷ []) }), all)
      else (
        err (DuplicateError.stderr_pipe name),
        record first { out_read = false; out_write = false },
      )
    else (err (DuplicateError.stdout_pipe name), no_ends)

-- The order in which the lines of the two goroutines arrive; when the schedule is used up, stdout comes first.
unfoldable pub interleave : List Bool → List Bytes → List Bytes → List Bytes
interleave [] outs errs = outs ++ errs
interleave (turn ∷ schedule) [] errs = errs
interleave (turn ∷ schedule) (x ∷ outs) [] = x ∷ outs
interleave (true ∷ schedule) (x ∷ outs) (y ∷ errs) = x ∷ interleave schedule outs (y ∷ errs)
interleave (false ∷ schedule) (x ∷ outs) (y ∷ errs) = y ∷ interleave schedule (x ∷ outs) errs

-- `Close`: the write ends are closed, both goroutines come to the end of their pipes, and the read ends are closed. The
-- log buffer has then taken every line of the bytes that the daemon has written; `none` is a panic.
unfoldable pub close : List Bool → Bytes → Bytes → LogWriters → LogBuffer → Option LogBuffer × Ends
unfolding interleave
close schedule stdout stderr w lb =
    let written = record (w.ends) { out_write = false; err_write = false } in
    (
      append_all lb (interleave schedule (scan_lines stdout) (scan_lines stderr)),
      record written { out_read = false; err_read = false },
    )

-- `zs` holds the lines of `xs` and those of `ys`, each in their order.
pub data Interleaves : List Bytes → List Bytes → List Bytes → Type 0 where
  none_left : Interleaves [] [] []
  from_stdout :
      (x : Bytes) {xs ys zs : List Bytes} → Interleaves xs ys zs → Interleaves (x ∷ xs) ys (x ∷ zs)
  from_stderr :
      (y : Bytes) {xs ys zs : List Bytes} → Interleaves xs ys zs → Interleaves xs (y ∷ ys) (y ∷ zs)

Interleaves-stderr : (ys : List Bytes) → Interleaves [] ys ys
Interleaves-stderr [] = none_left
Interleaves-stderr (y ∷ ys) = from_stderr y (Interleaves-stderr ys)

Interleaves-append : (xs ys : List Bytes) → Interleaves xs ys (xs ++ ys)
Interleaves-append [] ys = Interleaves-stderr ys
Interleaves-append (x ∷ xs) ys = from_stdout x (Interleaves-append xs ys)

Interleaves-stdout : (xs : List Bytes) → Interleaves xs [] xs
Interleaves-stdout [] = none_left
Interleaves-stdout (x ∷ xs) = from_stdout x (Interleaves-stdout xs)

Interleaves-interleave :
    (schedule : List Bool) (xs ys : List Bytes) → Interleaves xs ys (interleave schedule xs ys)
unfolding interleave
Interleaves-interleave [] xs ys = Interleaves-append xs ys
Interleaves-interleave (turn ∷ schedule) [] ys = Interleaves-stderr ys
Interleaves-interleave (turn ∷ schedule) (x ∷ xs) [] = Interleaves-stdout (x ∷ xs)
Interleaves-interleave (true ∷ schedule) (x ∷ xs) (y ∷ ys) =
    from_stdout x (Interleaves-interleave schedule xs (y ∷ ys))
Interleaves-interleave (false ∷ schedule) (x ∷ xs) (y ∷ ys) =
    from_stderr y (Interleaves-interleave schedule (x ∷ xs) ys)

-- The ends after `Duplicate`, and after `Close` if it succeeded.
abbrev pub AreClosed :
    List Bool → Bytes → Bytes → LogBuffer → Result DuplicateError LogWriters × Ends → Type 0
AreClosed schedule stdout stderr lb (err e, ends) = ends ≡ no_ends
AreClosed schedule stdout stderr lb (ok w, ends) =
    (ends ≡ w.ends) × ((close schedule stdout stderr w lb).1 ≡ no_ends)

-- No end of a pipe is left open: neither by an error of Duplicate nor after Close.
pub duplicate-AreClosed :
    (env : PipesEnv) (name : Bytes) (schedule : List Bool) (stdout stderr : Bytes) (lb : LogBuffer)
    → AreClosed schedule stdout stderr lb (duplicate env name)
unfolding duplicate close
duplicate-AreClosed env name schedule stdout stderr lb =
    let P = AreClosed schedule stdout stderr lb in
    if-holds P env.first _ _ (if-holds P env.second _ _ (refl, refl) refl) refl

-- Whatever a daemon writes to its two pipes, in lines of less than 2 MiB, and in whatever order the goroutines run: after
-- Close a new log buffer has taken each line of both once, those of each pipe in their order; it holds the last of them,
-- and Tail returns the oldest of those.
pub close_lem :
    (schedule : List Bool) (outs errs : List Bytes) (w : LogWriters) (n : ℤ)
    → AllShort max_token outs
    → AllShort max_token errs
    → (zs : List Bytes) × (lb : LogBuffer) × Interleaves outs errs zs
      × ((close schedule (unlines outs) (unlines errs) w (new n)).0 ≡ some lb)
      × (contents lb ≡ last_lines (new n).max_size zs)
      × ((r : ℤ)
          → tail lb r
            ≡ some
                (take (if is_positive r then pos_part r else 50) (last_lines (new n).max_size zs)))
unfolding close
close_lem schedule outs errs w n short_outs short_errs =
    let zs = interleave schedule outs errs in
    let (lb, runs, holds, tails) = tail-append_all n zs in
    (
      zs,
      lb,
      Interleaves-interleave schedule outs errs,
      rw (scan_lines-unlines outs short_outs, scan_lines-unlines errs short_errs) runs,
      holds,
      tails,
    )
