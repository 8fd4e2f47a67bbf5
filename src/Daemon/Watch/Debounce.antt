-- ===== src/Daemon/Watch/Debounce.antt =====
-- The debounce of `WatchConfig` in internal/daemon/manager.go: reloads are a second apart, and a change is
-- followed by one.
use a_kerno.Common.{
  ℕ, ◌+◌, ◌≤◌, ◌≡◌, refl, List, [], ◌∷◌, Option, none, some, false, leb, leb→le, arith, Bool-cases,
  inl, inr,
}
use a_kerno.Daemon.Watch.{WatchEvent, debounce_interval, watch}

-- The events are in the order of their times, from `now` on.
abbrev pub InTime : ℕ → List (ℕ × WatchEvent) → Type 0
InTime now [] = Unit
InTime now ((time, e) ∷ events) = (now ≤ time) × InTime time events

-- Each reload is at least the debounce interval after the one before it, the first at least at `from`.
abbrev pub AllSpaced : ℕ → List ℕ → Type 0
AllSpaced from [] = Unit
AllSpaced from (time ∷ times) = (from ≤ time) × AllSpaced (time + debounce_interval) times

-- The timer, if it is set, is due at `from` or later.
abbrev DueFrom : ℕ → Option ℕ → Type 0
DueFrom from none = Unit
DueFrom from (some due) = from ≤ due

-- `from` is at most an interval after `now`: a change at `now` or later is due at `from` or later.
watch-AllSpaced :
    (from now : ℕ) (timer : Option ℕ) (events : List (ℕ × WatchEvent))
    → InTime now events
    → from ≤ now + debounce_interval
    → DueFrom from timer
    → AllSpaced from (watch timer events)
unfolding watch
watch-AllSpaced from now none [] h le due = tt
watch-AllSpaced from now (some d) [] h le due = (due, tt)
watch-AllSpaced from now none ((time, WatchEvent.changed) ∷ events) h le due =
    watch-AllSpaced from time (some (time + debounce_interval)) events h.1 (omega (arith, h.0, le))
      (omega (arith, h.0, le))
watch-AllSpaced from now (some d) ((time, WatchEvent.changed) ∷ events) h le due =
    elim (Bool-cases (leb d time)) [
      | inl before ↦
          let early = leb→le d time before in
          rw before (
            due,
            watch-AllSpaced (d + debounce_interval) time (some (time + debounce_interval)) events
                h.1 (omega (arith, early)) (omega (arith, early)),
          )
      | inr after ↦ rw after (
          watch-AllSpaced from time (some (time + debounce_interval)) events h.1
            (omega (arith, h.0, le)) (omega (arith, h.0, le)))
    ]
watch-AllSpaced from now none ((time, WatchEvent.other) ∷ events) h le due =
    watch-AllSpaced from time none events h.1 (omega (arith, h.0, le)) tt
watch-AllSpaced from now (some d) ((time, WatchEvent.other) ∷ events) h le due =
    elim (Bool-cases (leb d time)) [
      | inl before ↦
          let early = leb→le d time before in
          rw before (
            due,
            watch-AllSpaced (d + debounce_interval) time none events h.1 (omega (arith, early)) tt,
          )
      | inr after ↦
          rw after (watch-AllSpaced from time (some d) events h.1 (omega (arith, h.0, le)) due)
    ]
watch-AllSpaced from now none ((time, WatchEvent.ended) ∷ events) h le due = tt
watch-AllSpaced from now (some d) ((time, WatchEvent.ended) ∷ events) h le due =
    elim (Bool-cases (leb d time)) [ inl before ↦ rw before (due, tt) | inr after ↦ rw after tt ]
watch-AllSpaced from now none ((time, WatchEvent.closed) ∷ events) h le due = tt
watch-AllSpaced from now (some d) ((time, WatchEvent.closed) ∷ events) h le due = (due, tt)

-- Every event comes while the timer is set, which a change sets again.
abbrev pub Burst : ℕ → List (ℕ × WatchEvent) → Type 0
Burst due [] = Unit
Burst due ((time, WatchEvent.changed) ∷ events) =
    (leb due time ≡ false) × Burst (time + debounce_interval) events
Burst due ((time, WatchEvent.other) ∷ events) = (leb due time ≡ false) × Burst due events
Burst due ((time, WatchEvent.ended) ∷ events) = ⊥
Burst due ((time, WatchEvent.closed) ∷ events) = ⊥

-- The interval after the last change.
abbrev pub last_due : ℕ → List (ℕ × WatchEvent) → ℕ
last_due due [] = due
last_due due ((time, WatchEvent.changed) ∷ events) = last_due (time + debounce_interval) events
last_due due ((time, _) ∷ events) = last_due due events

watch-Burst :
    (due : ℕ) (events : List (ℕ × WatchEvent))
    → Burst due events
    → watch (some due) events ≡ last_due due events ∷ []
unfolding watch
watch-Burst due [] h = refl
watch-Burst due ((time, WatchEvent.changed) ∷ events) h =
    rw h.0 (watch-Burst (time + debounce_interval) events h.1)
watch-Burst due ((time, WatchEvent.other) ∷ events) h = rw h.0 (watch-Burst due events h.1)
watch-Burst due ((time, WatchEvent.ended) ∷ events) h = absurd h
watch-Burst due ((time, WatchEvent.closed) ∷ events) h = absurd h

-- From a change on, with the events in time: the first reload comes no sooner than the debounce interval
-- after the change, and reloads are at least the interval apart; and if each event comes less than the
-- interval after the last change before it and none ends the watch, there is one reload, the interval after
-- the last change.
pub watch_lem :
    (time : ℕ) (events : List (ℕ × WatchEvent))
    → InTime time events
    → AllSpaced (time + debounce_interval) (watch none ((time, WatchEvent.changed) ∷ events))
      × (Burst (time + debounce_interval) events
          → watch none ((time, WatchEvent.changed) ∷ events)
            ≡ last_due (time + debounce_interval) events ∷ [])
unfolding watch
watch_lem time events h =
    let due = time + debounce_interval in
    (
      watch-AllSpaced due time (some due) events h (omega arith) (omega arith),
      watch-Burst due events,
    )
