-- ===== src/Server/Serving/Ending.antt =====
-- Stop of internal/server/server.go ends: no run goes on for ever, and none is stuck before Stop has returned.
use a_kerno.Common.{◌≡◌, ◌⊎◌, List, [], ◌∷◌, some, true}
use a_kerno.Server.Replies.{Server}
use a_kerno.Server.Connection.Turns.{Connection}
use a_kerno.Server.Serving.{Stopping, Host, Event, step}
use a_kerno.Server.Serving.Draining.{IsStuck}

-- The events in which a goroutine of the server goes on of itself.
abbrev pub IsGoroutine : Event → Type 0
IsGoroutine Event.loop_turn = Unit
IsGoroutine Event.accept_error = Unit
IsGoroutine (Event.handler i env) = Unit
IsGoroutine Event.stop_wait = Unit
IsGoroutine _ = ⊥

-- A step of some goroutine is possible.
abbrev pub CanStep : Host → Type 0
CanStep h = (e : Event) × IsGoroutine e × (h' : Host) × (step e h ≡ some h')

-- Some handler waits for ever for a lock.
abbrev pub AnyStuck : List Connection → Type 0
AnyStuck [] = ⊥
AnyStuck (c ∷ cs) = IsStuck c.mode ⊎ AnyStuck cs

-- Stop has returned, the process has crashed, a handler waits for a lock, or some goroutine can go on.
abbrev pub EndsOrGoesOn : Host → Type 0
EndsOrGoesOn h =
    (h.stopping ≡ Stopping.returned) ⊎ ((h.crashed ≡ true) ⊎ (AnyStuck h.connections ⊎ CanStep h))
