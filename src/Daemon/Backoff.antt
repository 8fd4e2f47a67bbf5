-- ===== src/Daemon/Backoff.antt =====
-- `ShouldRestart`, `NextRestartDelay` and `ResetRestartBackoff` of internal/daemon/restart.go.
use native.Mathlib.Decide.{ℕ_discrete}
use a_kerno.Common.{
  ℕ, zero, suc, ◌+◌, ◌-◌, ◌*◌, ◌%◌, ◌^◌, ◌≤◌, ◌<◌, ◌≡◌, refl, Bool, true, false, not, ltb, ◌==◌,
  if◌then◌else◌, arith, min, ◌&&◌,
}
use a_kerno.Common.Int.{ℤ, pos, pos_part, int64, uint64, ltb_ℤ, eqb_ℤ, eqb_ℤ_sound, is_positive}
use a_kerno.Daemon.Types.{Daemon, RestartPolicy, is_running}

-- `exit_err` is `exitErr != nil`.
unfoldable pub by_policy : RestartPolicy → ℕ → Bool → Bool
by_policy RestartPolicy.always count exit_err = true
by_policy RestartPolicy.on_failure count exit_err = exit_err
by_policy RestartPolicy.once count exit_err = count == 0
by_policy RestartPolicy.disabled count exit_err = false
by_policy (RestartPolicy.other s) count exit_err = false

-- `ShouldRestart`
unfoldable pub should_restart : Daemon → Bool → Bool
unfolding by_policy
should_restart d exit_err = by_policy d.config.restart d.restart_count exit_err

abbrev pub second : ℕ
second = 10 ^ 9

-- `NextRestartDelay` in nanoseconds. The product is an `int64`; `of_large_float` is what the
-- platform's conversion makes of a `float64` that is too large for one, from 2 ^ 63 on.
module _ (of_large_float : ℤ) where
  unfoldable pub float_to_int64 : ℕ → ℤ
  float_to_int64 n = if ltb n 63 then pos (2 ^ n) else of_large_float

  unfoldable pub next_restart_delay : ℤ → ℤ
  unfolding float_to_int64
  next_restart_delay restart_count =
      let delay = int64 (uint64 (float_to_int64 (pos_part restart_count)) * second % 2 ^ 64) in
      if not (is_positive restart_count)
      then pos second
      else if ltb_ℤ (pos (30 * second)) delay
      then pos (30 * second)
      else delay

-- `ResetRestartBackoff`, at the time `now`.
unfoldable pub reset_restart_backoff : ℕ → Daemon → Daemon
reset_restart_backoff now d =
    if not (is_running d.state)
    then d
    else if ltb (60 * second) (now - d.started_at)
    then record d { restart_count = 0 }
    else d

-- A test at each count of an interval of `rounds` counts from `from` on.
each_from : ℕ → ℕ → (ℕ → Bool) → Bool
each_from from zero test = true
each_from from (suc rounds) test = test from && each_from (suc from) rounds test

each_from_holds :
    (from rounds : ℕ) (test : ℕ → Bool)
    → each_from from rounds test ≡ true
    → (n : ℕ) → from ≤ n
    → n < from + rounds
    → test n ≡ true
unfolding each_from
each_from_holds from zero test h n lo hi = absurd (omega arith)
each_from_holds from (suc rounds) test h n lo hi = elim (ℕ_discrete from n) [
  | yes e ↦ rw (← e) (ground arith)
  | no ne ↦ each_from_holds (suc from) rounds test (ground arith) n (omega arith) (omega arith)
]

module _ (of_large_float : ℤ) where
  capped_table :
      each_from 0 34
        (λ n. eqb_ℤ (next_restart_delay of_large_float (pos n)) (pos (min (2 ^ n) 30 * second)))
      ≡ true
  unfolding each_from next_restart_delay
  capped_table = refl

  collapsed_table :
      each_from 55 8 (λ n. eqb_ℤ (next_restart_delay of_large_float (pos n)) (pos 0)) ≡ true
  unfolding each_from next_restart_delay
  collapsed_table = refl

  -- Up to 33 restarts the delay is 2 ^ n seconds, and 30 seconds at most.
  pub next_restart_delay-capped :
      (n : ℕ) → n ≤ 33 → next_restart_delay of_large_float (pos n) ≡ pos (min (2 ^ n) 30 * second)
  next_restart_delay-capped n h =
      eqb_ℤ_sound _ _ (each_from_holds 0 34 _ capped_table n (omega arith) (omega arith))

  -- From 55 to 62 restarts the product of the seconds wraps to 0: there is no delay at all.
  pub next_restart_delay-collapses :
      (n : ℕ) → 55 ≤ n → n ≤ 62 → next_restart_delay of_large_float (pos n) ≡ pos 0
  next_restart_delay-collapses n lo hi =
      eqb_ℤ_sound _ _ (each_from_holds 55 8 _ collapsed_table n lo (omega arith))
