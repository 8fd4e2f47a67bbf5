-- ===== src/Server/Format/Bodies.antt =====
-- The bodies of the replies of internal/server/response.go and handlers.go, read back line by line.
use a_kerno.Common.{
  ℕ, ◌-◌, ◌≡◌, ◌≢◌, refl, sym, ap, ◌∙◌, Bytes, bytes_less_asym, text, List, [], ◌∷◌, ◌++◌,
  append_assoc, append-nil, map, true, replicate, zero, suc,
}
use mathlib.Core.List.{Perm}
use a_kerno.Common.Int.{pos}
use a_kerno.Common.Sorting.{
  sort, sort-perm, sort-AllOf, sort-ne_nil, sort-IsSorted, IsSorted, AllOf,
}
use a_kerno.Text.{join, split_from, concat}
use a_kerno.Text.Utf8.{rune_count}
use a_kerno.Text.Laws.{Lacks, lacks?, Lacks-sound}
use a_kerno.Daemon.Types.{Daemon, state_name}
use a_kerno.Server.Format.{
  Texts, number, pad_right, pad_left, uptime_text, daemon_pieces, daemon_line, by_daemon_name,
  format_daemon_list,
}
use a_kerno.Server.Format.Messages.{join_from, join_lines}
use a_kerno.Server.Format.Attributes.{
  split_from-line, Lacks-append, decimal-Lacks, state_name-Lacks, IsPlain,
}

join_from-eq-join :
    (result : Bytes) (lines : List Bytes)
    → join_from result lines ≡ join (text "\n") (result ∷ lines)
unfolding join_from join
join_from-eq-join result [] = refl
join_from-eq-join result (line ∷ []) = refl
join_from-eq-join result (line ∷ next ∷ lines) =
    join_from-eq-join (result ++ (text "\n" ++ line)) (next ∷ lines)
    ∙ append_assoc result (text "\n" ++ line) (text "\n" ++ join (text "\n") (next ∷ lines))

-- `joinLines` is `strings.Join` at newlines.
pub join_lines-eq-join : (lines : List Bytes) → join_lines lines ≡ join (text "\n") lines
unfolding join_lines join
join_lines-eq-join [] = refl
join_lines-eq-join (line ∷ lines) = join_from-eq-join line lines

split_from-end :
    (sep : ℕ) (piece line : Bytes)
    → Lacks sep line
    → split_from sep piece line ≡ (piece ++ line) ∷ []
unfolding split_from
split_from-end sep piece [] h = ap (λ p. p ∷ []) (sym (append-nil piece))
split_from-end sep piece (c ∷ line) h =
    rw (h.0, split_from)
      (split_from-end sep (piece ++ c ∷ []) line h.1
        ∙ ap (λ p. p ∷ []) (append_assoc piece (c ∷ []) line))

-- Lines that are joined at newlines are got back by splitting there.
pub split_from-join :
    (line : Bytes) (lines : List Bytes)
    → AllOf (Lacks b'\n') (line ∷ lines)
    → split_from b'\n' [] (join (text "\n") (line ∷ lines)) ≡ line ∷ lines
unfolding join
split_from-join line [] h = split_from-end b'\n' [] line h.0
split_from-join line (next ∷ lines) h =
    split_from-line b'\n' [] line (join (text "\n") (next ∷ lines)) h.0
    ∙ ap (λ ls. line ∷ ls) (split_from-join next lines h.1)

spaces-Lacks : (n : ℕ) → Lacks b'\n' (replicate n b' ')
spaces-Lacks zero = tt
spaces-Lacks (suc n) = (refl, spaces-Lacks n)

pad_right-Lacks : (n : ℕ) (s : Bytes) → Lacks b'\n' s → Lacks b'\n' (pad_right n s)
unfolding pad_right
pad_right-Lacks n s h =
    Lacks-append b'\n' s (replicate (n - rune_count s) b' ') h (spaces-Lacks (n - rune_count s))

pad_left-Lacks : (n : ℕ) (s : Bytes) → Lacks b'\n' s → Lacks b'\n' (pad_left n s)
unfolding pad_left
pad_left-Lacks n s h =
    Lacks-append b'\n' (replicate (n - rune_count s) b' ') s (spaces-Lacks (n - rune_count s)) h

concat-Lacks : (pieces : List Bytes) → AllOf (Lacks b'\n') pieces → Lacks b'\n' (concat pieces)
concat-Lacks [] h = tt
concat-Lacks (piece ∷ []) h = h.0
concat-Lacks (piece ∷ next ∷ pieces) h =
    Lacks-append b'\n' piece (concat (next ∷ pieces)) h.0 (concat-Lacks (next ∷ pieces) h.1)

-- A text of the format string.
literal : (s : Bytes) → lacks? b'\n' s ≡ true → Lacks b'\n' s
literal s h = Lacks-sound b'\n' s h

daemon_line-Lacks :
    (texts : Texts) (d : Daemon) → IsPlain texts d → Lacks b'\n' (daemon_line texts d)
unfolding daemon_line
daemon_line-Lacks texts d v = concat-Lacks (daemon_pieces texts d) (
  pad_right-Lacks 16 d.name v.name,
  (
    literal (text " ") refl,
    (
      pad_left-Lacks 6 (number d.pid) (decimal-Lacks (pos d.pid)),
      (
        literal (text "  ") refl,
        (
          pad_right-Lacks 10 (state_name d.state) (state_name-Lacks d.state),
          (
            literal (text " uptime=") refl,
            (
              pad_right-Lacks 10 (uptime_text texts d) v.uptime,
              (
                literal (text " restarts=") refl,
                (
                  decimal-Lacks (pos d.restart_count),
                  (literal (text " policy=") refl, (v.policy, tt)),
                ),
              ),
            ),
          ),
        ),
      ),
    ),
  ),
)

lines-Lacks :
    (texts : Texts) (ds : List Daemon)
    → AllOf (IsPlain texts) ds
    → AllOf (Lacks b'\n') (map (daemon_line texts) ds)
lines-Lacks texts [] h = tt
lines-Lacks texts (d ∷ ds) h = (daemon_line-Lacks texts d h.0, lines-Lacks texts ds h.1)

split_from-map :
    (texts : Texts) (ds : List Daemon)
    → ds ≢ []
    → AllOf (IsPlain texts) ds
    → split_from b'\n' [] (join (text "\n") (map (daemon_line texts) ds))
      ≡ map (daemon_line texts) ds
split_from-map texts [] some_daemon h = absurd (some_daemon refl)
split_from-map texts (d ∷ ds) some_daemon h =
    split_from-join (daemon_line texts d) (map (daemon_line texts) ds)
      (lines-Lacks texts (d ∷ ds) h)

-- The list of some daemons whose texts have no newline has one line for each of them, the line of that daemon, and the
-- names do not descend from line to line.
pub split-format_daemon_list :
    (texts : Texts) (d : Daemon) (ds : List Daemon)
    → AllOf (IsPlain texts) (d ∷ ds)
    → let sorted = sort by_daemon_name (d ∷ ds) in
      (split_from b'\n' [] (format_daemon_list texts (d ∷ ds)) ≡ map (daemon_line texts) sorted)
      × Perm sorted (d ∷ ds)
      × IsSorted by_daemon_name sorted
unfolding format_daemon_list
split-format_daemon_list texts d ds h = (
  split_from-map texts (sort by_daemon_name (d ∷ ds)) (sort-ne_nil by_daemon_name d ds)
      (sort-AllOf by_daemon_name (IsPlain texts) (d ∷ ds) h),
  sort-perm by_daemon_name (d ∷ ds),
  sort-IsSorted by_daemon_name (λ a b. bytes_less_asym a.name b.name) (d ∷ ds),
)
