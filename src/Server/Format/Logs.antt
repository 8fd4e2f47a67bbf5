-- ===== src/Server/Format/Logs.antt =====
-- The way of a line from a daemon to a client: internal/logdup/logdup.go reads it from a pipe, internal/daemon/logbuffer.go
-- holds it, and the command `logs` of internal/server/handlers.go sends it.
use a_kerno.Common.{
  ℕ, zero, suc, ◌-◌, ◌<◌, ◌≡◌, ◌≢◌, refl, sym, ap, ◌∙◌, Bytes, bytes_eq, text, List, [], ◌∷◌, ◌++◌,
  Option, some, Bool, true, false, length, length-take, length-drop, take, drop, arith,
  if◌then◌else◌, Bool-cases, inl, inr,
}
use mathlib.Core.Path.{subst}
use a_kerno.Common.Int.{ℤ, negsuc, pos, pos_part, is_positive}
use a_kerno.Common.Assoc.{lookup, insert}
use a_kerno.Common.Sorting.{AllOf}
use a_kerno.Text.{split_from, join}
use a_kerno.Text.Laws.{Lacks, Lacks-sound}
use a_kerno.LogBuffer.{new, tail}
use a_kerno.LogBuffer.Appends.{last_lines}
use a_kerno.LogDup.{max_token}
use a_kerno.LogDup.Lines.{unlines, AllShort}
use a_kerno.LogDup.Pipes.{
  LogWriters, Interleaves, from_stdout, from_stderr, none_left, close, close_lem,
}
use a_kerno.BinParser.Types.{BinCommand}
use a_kerno.Client.{Call, request, requested_lines}
use a_kerno.Daemon.Types.{Daemon}
use a_kerno.Daemon.Manager.{get, default_log_buffer_size}
use a_kerno.Server.Replies.{Server, CommandEnv}
use a_kerno.Server.Handlers.{on_logs, line_count}
use a_kerno.Server.Dispatch.{dispatch_bin, bin_attr, bin_attr_int}
use a_kerno.Server.Dispatch.Sessions.{received}
use a_kerno.Server.Format.{Texts, number}
use a_kerno.Server.Format.Messages.{bin_message}
use a_kerno.Server.Format.Attributes.{split_from-line, Lacks-append, decimal-Lacks}
use a_kerno.Server.Format.Bodies.{join_lines-eq-join, split_from-join}

-- The lines that a client asks for, out of everything that was written: the oldest of the last 4096.
abbrev pub shown_lines : ℤ → List Bytes → List Bytes
shown_lines lines zs =
    take (pos_part (requested_lines lines)) (last_lines default_log_buffer_size zs)

Interleaves-Lacks :
    {xs ys zs : List Bytes}
    → Interleaves xs ys zs
    → AllShort max_token xs
    → AllShort max_token ys
    → AllOf (Lacks b'\n') zs
Interleaves-Lacks none_left hx hy = tt
Interleaves-Lacks (from_stdout x i) hx hy = (hx.0.0, Interleaves-Lacks i hx.1 hy)
Interleaves-Lacks (from_stderr y i) hx hy = (hy.0.0, Interleaves-Lacks i hx hy.1)

take-AllOf : {A : Type 0} (P : A → Type 0) (n : ℕ) (xs : List A) → AllOf P xs → AllOf P (take n xs)
take-AllOf P zero xs h = tt
take-AllOf P (suc n) [] h = tt
take-AllOf P (suc n) (x ∷ xs) h = (h.0, take-AllOf P n xs h.1)

drop-AllOf : {A : Type 0} (P : A → Type 0) (n : ℕ) (xs : List A) → AllOf P xs → AllOf P (drop n xs)
drop-AllOf P zero xs h = h
drop-AllOf P (suc n) [] h = tt
drop-AllOf P (suc n) (x ∷ xs) h = drop-AllOf P n xs h.1

-- A daemon whose log buffer gives some lines for the count of a client.
on_logs-message :
    (texts : Texts) (cmd : BinCommand) (name : Bytes) (count : Option ℤ) (s : Server) (d : Daemon)
    (line : Bytes) (shown : List Bytes)
    → get s.manager name ≡ some d
    → tail d.logs (line_count count) ≡ some (line ∷ shown)
    → AllOf (Lacks b'\n') (line ∷ shown)
    → let (reply, s') = on_logs name count s in
      split_from b'\n' [] (bin_message texts cmd s' reply)
      ≡ (text "lines=" ++ number (length (line ∷ shown))) ∷ line ∷ shown
unfolding on_logs bin_message
on_logs-message texts cmd name count s d line shown found held h =
    let count_text = text "lines=" ++ number (length (line ∷ shown)) in
    let lacks : Lacks b'\n' count_text =
      Lacks-append b'\n' (text "lines=") (number (length (line ∷ shown)))
        (Lacks-sound b'\n' (text "lines=") refl) (decimal-Lacks (pos (length (line ∷ shown)))) in
    let joined = join (text "\n") (line ∷ shown) in
    rw (found, held, on_logs)
      (ap (λ j. split_from b'\n' [] (count_text ++ b'\n' ∷ j)) (join_lines-eq-join (line ∷ shown))
        ∙ split_from-line b'\n' [] count_text joined lacks
        ∙ ap (λ ls. count_text ∷ ls) (split_from-join line shown h))

requested_lines-positive : (lines : ℤ) → is_positive (requested_lines lines) ≡ true
requested_lines-positive lines = elim (Bool-cases (is_positive lines)) [
  | inl more ↦ simp more refl
  | inr less ↦ simp less refl
]

-- The request of a client runs the handler with the number of lines that it asks for.
dispatch_bin-logs :
    (env : CommandEnv) (lines_first : Bool) (name : Bytes) (lines : ℤ) (s : Server)
    → name ≢ []
    → dispatch_bin env (received (request (Call.logs lines_first name lines))) s
      ≡ on_logs name (some (requested_lines lines)) s
unfolding dispatch_bin bin_attr bin_attr_int request lookup insert bytes_eq
dispatch_bin-logs env lines_first [] lines s named = absurd (named refl)
dispatch_bin-logs env true (c ∷ cs) lines s named = refl
dispatch_bin-logs env false (c ∷ cs) lines s named = refl

cons_of_length :
    (xs : List Bytes) → 0 < length xs → (x : Bytes) × (rest : List Bytes) × (xs ≡ x ∷ rest)
cons_of_length [] h = absurd (omega (arith, h))
cons_of_length (x ∷ xs) h = (x, xs, refl)

shown_lines-cons :
    (n m : ℕ) (z : Bytes) (zs : List Bytes)
    → 0 < n
    → 0 < m
    → (line : Bytes) × (shown : List Bytes) × (take n (last_lines m (z ∷ zs)) ≡ line ∷ shown)
shown_lines-cons n m z zs hn hm =
    let k = length (z ∷ zs) - m in
    cons_of_length (take n (drop k (z ∷ zs)))
      (omega (arith, length-take n (drop k (z ∷ zs)), length-drop k (z ∷ zs)))

Interleaves-cons :
    {xs ys zs : List Bytes}
    → Interleaves xs ys zs
    → xs ++ ys ≢ []
    → (z : Bytes) × (rest : List Bytes) × (zs ≡ z ∷ rest)
Interleaves-cons none_left h = absurd (h refl)
Interleaves-cons (from_stdout x {zs} i) h = (x, zs, refl)
Interleaves-cons (from_stderr y {zs} i) h = (y, zs, refl)

pos_part-pos : (n : ℤ) → is_positive n ≡ true → 0 < pos_part n
pos_part-pos (pos n) h = ground (arith, h)
pos_part-pos (negsuc n) h = absurd (ground (arith, h))

-- The command `logs` for a daemon whose log buffer holds the last lines of something that was written.
logs-message :
    (texts : Texts) (env : CommandEnv) (lines_first : Bool) (name : Bytes) (lines : ℤ) (s : Server)
    (d : Daemon) (z : Bytes) (zs : List Bytes)
    → AllOf (Lacks b'\n') (z ∷ zs)
    → ((r : ℤ)
        → tail d.logs r
          ≡ some (
              take
                (if is_positive r then pos_part r else 50)
                (last_lines default_log_buffer_size (z ∷ zs))))
    → name ≢ []
    → get s.manager name ≡ some d
    → let cmd = received (request (Call.logs lines_first name lines)) in
      let (reply, s') = dispatch_bin env cmd s in
      split_from b'\n' [] (bin_message texts cmd s' reply)
      ≡ (text "lines=" ++ number (length (shown_lines lines (z ∷ zs)))) ∷ shown_lines lines (z ∷ zs)
logs-message texts env lines_first name lines s d z zs lacks tails named found =
    let n = requested_lines lines in
    let positive = requested_lines-positive lines in
    let all = z ∷ zs in
    let (line, shown, first) =
      shown_lines-cons (pos_part n) default_log_buffer_size z zs (pos_part-pos n positive)
        (omega arith) in
    let shown_lacks : AllOf (Lacks b'\n') (shown_lines lines all) =
      take-AllOf (Lacks b'\n') (pos_part n) (last_lines default_log_buffer_size all)
        (drop-AllOf (Lacks b'\n') (length all - default_log_buffer_size) all lacks) in
    let held : tail d.logs (line_count (some n)) ≡ some (shown_lines lines all) =
      ap (tail d.logs) (ap (λ b. if b then n else pos 50) positive)
      ∙ tails n
      ∙ ap
          (λ b. some (take (if b then pos_part n else 50) (last_lines default_log_buffer_size all)))
          positive in
    let cmd = received (request (Call.logs lines_first name lines)) in
    rw (dispatch_bin-logs env lines_first name lines s named, first)
      (on_logs-message texts cmd name (some n) s d line shown found (held ∙ ap some first)
        (subst (AllOf (Lacks b'\n')) first shown_lacks))

-- From a daemon to a client: if a daemon has written some lines to its two pipes, each shorter than 2 MiB, and its log
-- buffer has taken them, a client that asks for its log over the binary protocol is sent, after a first line with
-- their number, the oldest lines that it asked for of the last 4096 of an interleaving of both outputs.
pub logs-shown :
    (texts : Texts) (env : CommandEnv) (schedule : List Bool) (outs errs : List Bytes)
    (w : LogWriters) (lines_first : Bool) (name : Bytes) (lines : ℤ) (s : Server) (d : Daemon)
    → AllShort max_token outs
    → AllShort max_token errs
    → outs ++ errs ≢ []
    → (close schedule (unlines outs) (unlines errs) w (new (pos default_log_buffer_size))).0
      ≡ some d.logs
    → name ≢ []
    → get s.manager name ≡ some d
    → (zs : List Bytes) × Interleaves outs errs zs
      × (let cmd = received (request (Call.logs lines_first name lines)) in
          let (reply, s') = dispatch_bin env cmd s in
          split_from b'\n' [] (bin_message texts cmd s' reply)
          ≡ (text "lines=" ++ number (length (shown_lines lines zs))) ∷ shown_lines lines zs)
unfolding new
logs-shown texts env schedule outs errs w lines_first name lines s d short_outs short_errs some_line
      closed named found =
    let (zs, lb, i, runs, holds, tails) =
      close_lem schedule outs errs w (pos default_log_buffer_size) short_outs short_errs in
    let same : lb ≡ d.logs = ground (arith, runs, closed) in
    let (z, rest, cons) = Interleaves-cons i some_line in
    (
      z ∷ rest,
      subst (Interleaves outs errs) cons i,
      logs-message texts env lines_first name lines s d z rest
          (subst (AllOf (Lacks b'\n')) cons (Interleaves-Lacks i short_outs short_errs))
          (λ r.
            ap (λ b. tail b r) (sym same)
            ∙ tails r
            ∙ ap
                (λ ls. some (
                  take (if is_positive r then pos_part r else 50)
                    (last_lines default_log_buffer_size ls)))
                cons)
          named found,
    )
