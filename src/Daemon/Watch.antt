-- ===== src/Daemon/Watch.antt =====
-- internal/daemon/manager.go: the loop of `WatchConfig`. The events of fsnotify come with their times, in
-- milliseconds; a timer of `time.AfterFunc` is the time at which it runs `reloadConfig`, and a timer whose
-- time has come before an event has run.
pub mod Debounce
mod Tests
use a_kerno.Common.{
  ℕ, ◌+◌, List, [], ◌∷◌, ◌++◌, Option, none, some, Bool, true, false, leb, if◌then◌else◌,
}

-- `changed` is a write or a create, `other` any other event or an error, `ended` the end of the context,
-- `closed` a closed channel of the watcher.
pub data WatchEvent : Type 0 where
  changed other ended closed : WatchEvent

-- `debounceInterval`
abbrev pub debounce_interval : ℕ
debounce_interval = 1000

-- The reload of a timer that nothing stops.
abbrev pub fired : Option ℕ → List ℕ
fired none = []
fired (some due) = due ∷ []

-- The reload of a timer by the time `now`, and the timer that is left.
abbrev pub ran : ℕ → Option ℕ → List ℕ
ran now none = []
ran now (some due) = if leb due now then due ∷ [] else []

abbrev pub left : ℕ → Option ℕ → Option ℕ
left now none = none
left now (some due) = if leb due now then none else some due

-- The times of the reloads, `timer` being set: the end of the context stops a timer, and a closed channel
-- leaves it.
unfoldable pub watch : Option ℕ → List (ℕ × WatchEvent) → List ℕ
watch timer [] = fired timer
watch timer ((now, WatchEvent.changed) ∷ events) =
    ran now timer ++ watch (some (now + debounce_interval)) events
watch timer ((now, WatchEvent.other) ∷ events) = ran now timer ++ watch (left now timer) events
watch timer ((now, WatchEvent.ended) ∷ events) = ran now timer
watch timer ((now, WatchEvent.closed) ∷ events) = fired timer
