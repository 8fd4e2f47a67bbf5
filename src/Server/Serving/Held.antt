-- ===== src/Server/Serving/Held.antt =====
-- The clients that keep Stop of internal/server/server.go from returning.
use a_kerno.Common.{
  ℕ, zero, suc, ◌≡◌, ◌≢◌, ◌⊎◌, ◌∙◌, Bytes, List, [], ◌∷◌, ◌++◌, Option, none, some, Bool, ◌==◌,
  get_elem?, if-holds, ok, arith, Option-cases, inl, inr,
}
use mathlib.Core.Path.{subst}
use a_kerno.Server.Replies.{Server}
use a_kerno.Server.Connection.Turns.{Connection, Turn, connection_turn}
use a_kerno.Server.Serving.{
  LoopState, Stopping, Host, ListenEnv, start_server, replace_at, Event, loop_step, connect_step,
  accept_error_step, handler_step, stop_step, stop_wait_step, step_of, run_events,
}
use a_kerno.Server.Serving.Counting.{run_events-IsQuiet}
use a_kerno.Server.Serving.Runs.{Holds, run_events-kept, run_events-append}
use a_kerno.Server.Serving.Clients.{IsHeld, NextHeld, TurnHeld, connection_turn-held}

abbrev AnyHeld : List Connection → Type 0
AnyHeld [] = ⊥
AnyHeld (c ∷ cs) = IsHeld c ⊎ AnyHeld cs

AnyHeld-append : (cs ds : List Connection) → AnyHeld cs → AnyHeld (cs ++ ds)
AnyHeld-append [] ds h = absurd h
AnyHeld-append (c ∷ cs) ds (inl h) = inl h
AnyHeld-append (c ∷ cs) ds (inr h) = inr (AnyHeld-append cs ds h)

AnyHeld-replace_at :
    (i : ℕ) (c : Connection) (next : Option Connection) (cs : List Connection)
    → get_elem? cs i ≡ some c
    → (IsHeld c → NextHeld next)
    → AnyHeld cs
    → AnyHeld (replace_at i next cs)
AnyHeld-replace_at i c next [] found keep h = absurd h
AnyHeld-replace_at zero c none (x ∷ cs) found keep (inl h) =
    absurd (keep (subst IsHeld (ground (arith, found)) h))
AnyHeld-replace_at zero c (some c') (x ∷ cs) found keep (inl h) =
    inl (keep (subst IsHeld (ground (arith, found)) h))
AnyHeld-replace_at zero c none (x ∷ cs) found keep (inr h) = h
AnyHeld-replace_at zero c (some c') (x ∷ cs) found keep (inr h) = inr h
AnyHeld-replace_at (suc i) c next (x ∷ cs) found keep (inl h) = inl h
AnyHeld-replace_at (suc i) c next (x ∷ cs) found keep (inr h) =
    inr (AnyHeld-replace_at i c next cs found keep h)

AnyHeld-at :
    (i : ℕ) (c : Connection) (cs : List Connection)
    → get_elem? cs i ≡ some c
    → IsHeld c
    → AnyHeld cs
AnyHeld-at i c [] found h = absurd (ground (arith, found))
AnyHeld-at zero c (x ∷ cs) found h = inl (subst IsHeld (ground (arith, found)) h)
AnyHeld-at (suc i) c (x ∷ cs) found h = inr (AnyHeld-at i c cs found h)

abbrev HostHeld : Host → Type 0
HostHeld h = AnyHeld h.connections

module _ (h : Host) (v : HostHeld h) where
  loop_step-held : (l : LoopState) → Holds HostHeld (loop_step l h)
  unfolding loop_step
  loop_step-held LoopState.checking = if-holds HostHeld h.server.is_cancelled _ _ v v
  loop_step-held LoopState.accepting = tt
  loop_step-held LoopState.ended = tt

  accept_error_step-held : (l : LoopState) → Holds HostHeld (accept_error_step l h)
  unfolding accept_error_step
  accept_error_step-held LoopState.checking = tt
  accept_error_step-held LoopState.ended = tt
  accept_error_step-held LoopState.accepting =
      if-holds HostHeld h.is_open _ _ (if-holds HostHeld h.server.is_cancelled _ _ v v) v

  connect_step-held :
      (l : LoopState) (stream : Bytes) (hangs_up : Bool)
      → Holds HostHeld (connect_step l stream hangs_up h)
  unfolding connect_step
  connect_step-held LoopState.checking stream hangs_up = tt
  connect_step-held LoopState.ended stream hangs_up = tt
  connect_step-held LoopState.accepting stream hangs_up =
      if-holds (Holds HostHeld) h.is_open _ _ (AnyHeld-append h.connections _ v) tt

  handler_step-held :
      (i : ℕ) (c : Connection) (t : Option Turn)
      → get_elem? h.connections i ≡ some c
      → (IsHeld c → TurnHeld t)
      → Holds HostHeld (handler_step i t h)
  unfolding handler_step
  handler_step-held i c none found keep = tt
  handler_step-held i c (some t) found keep =
      AnyHeld-replace_at i c t.next h.connections found keep v

  stop_step-held : (s : Stopping) → Holds HostHeld (stop_step s h)
  unfolding stop_step
  stop_step-held Stopping.not_called = v
  stop_step-held Stopping.waiting = tt
  stop_step-held Stopping.returned = tt

  stop_wait_step-held : (s : Stopping) → Holds HostHeld (stop_wait_step s h)
  unfolding stop_wait_step
  stop_wait_step-held Stopping.not_called = tt
  stop_wait_step-held Stopping.returned = tt
  stop_wait_step-held Stopping.waiting = if-holds (Holds HostHeld) (h.wg == 0) _ _ v tt

step_of-held : (e : Event) (h : Host) → HostHeld h → Holds HostHeld (step_of e h)
unfolding step_of handler_step
step_of-held Event.loop_turn h v = loop_step-held h v h.loop
step_of-held (Event.connect stream hangs_up) h v = connect_step-held h v h.loop stream hangs_up
step_of-held Event.accept_error h v = accept_error_step-held h v h.loop
step_of-held (Event.handler i env) h v = elim (Option-cases (get_elem? h.connections i)) [
  | inl missing ↦ rw (missing, step_of) tt
  | inr (c, found) ↦
      rw (found, step_of)
        (handler_step-held h v i c (connection_turn env c h.server) found
          (connection_turn-held env h.server c))
]
step_of-held Event.cancel h v = if-holds (Holds HostHeld) h.server.is_cancelled _ _ tt v
step_of-held Event.stop h v = stop_step-held h v h.stopping
step_of-held Event.stop_wait h v = stop_wait_step-held h v h.stopping

-- Once a client has connected that greets with TXT01, even if it hangs up, or one that sends nothing and stays,
-- or once a handler waits for a lock that it holds itself, Stop never returns, whatever the others do and in whatever order the goroutines run.
pub stop-held :
    (env : ListenEnv) (s : Server) (before after : List Event) (h₀ h h' : Host) (i : ℕ)
    (c : Connection)
    → start_server env s ≡ ok h₀
    → run_events before h₀ ≡ some h
    → get_elem? h.connections i ≡ some c
    → IsHeld c
    → run_events after h ≡ some h'
    → h'.stopping ≢ Stopping.returned
stop-held env s before after h₀ h h' i c started reached found held run back =
    let any =
      run_events-kept HostHeld step_of-held after h h' (AnyHeld-at i c h.connections found held)
        run in
    let (shut, over, no_handler, quiet, removed) =
      run_events-IsQuiet env s (before ++ after) h₀ h' started
        (run_events-append before after h₀ h reached ∙ run) back in
    subst AnyHeld no_handler any
