-- ===== src/Daemon/Watch/Tests.antt =====
-- A burst of changes and a late one.
use a_kerno.Common.{ℕ, ◌≡◌, refl, List, [], ◌∷◌, none, arith}
use a_kerno.Daemon.Watch.{WatchEvent, watch}
use a_kerno.Daemon.Watch.Debounce.{AllSpaced, Burst, last_due, watch_lem}

abbrev events : List (ℕ × WatchEvent)
events = (300, WatchEvent.changed) ∷ (400, WatchEvent.other) ∷ (1200, WatchEvent.changed) ∷ []

-- A change after the reload leads to another one, unless the context ends before it.
late_change :
    watch none
      ((0, WatchEvent.changed) ∷ (1500, WatchEvent.changed) ∷ (2000, WatchEvent.ended) ∷ [])
    ≡ 1000 ∷ []
unfolding watch
late_change = refl

watch_lem_example :
    AllSpaced 1000 (watch none ((0, WatchEvent.changed) ∷ events))
    × (Burst 1000 events
        → watch none ((0, WatchEvent.changed) ∷ events) ≡ last_due 1000 events ∷ [])
watch_lem_example = watch_lem 0 events (omega arith, (omega arith, (omega arith, tt)))
