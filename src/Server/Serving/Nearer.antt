-- ===== src/Server/Serving/Nearer.antt =====
-- Each step after the call of Stop of internal/server/server.go brings the server nearer to its end: what is left
-- of the accept loop, of the handlers and of Stop itself, counted in `steps_left`.
use a_kerno.Common.{
  ℕ, ◌+◌, ◌*◌, ◌<◌, ◌≤◌, ◌≡◌, refl, ap, Bytes, List, [], ◌∷◌, some, Bool, false, ◌==◌, length,
  get_elem?, if◌then◌else◌, if-holds, if-holds_of, arith, Bool-cases, Option-cases, inl, inr,
}
use mathlib.Core.Path.{subst}
use a_kerno.Server.Connection.Turns.{Connection, TurnEnv, connection_turn}
use a_kerno.Server.Serving.{
  LoopState, Stopping, Host, Event, loop_step, connect_step, accept_error_step, handler_step,
  stop_step, stop_wait_step, step_of, step, run_events,
}
use a_kerno.Server.Serving.Runs.{Holds, step-kept}
use a_kerno.Server.Serving.Draining.{
  AllFinite, all_turns_left, connection_turn-shrinks, connection_turn-stuck, replace_at-shrinks,
  IsFinite-at,
}

abbrev pub WasCalled : Stopping → Type 0
WasCalled Stopping.not_called = ⊥
WasCalled _ = Unit

-- Stop was called, and every client that is connected will hang up and does not use the text protocol.
pub record IsStopping (h : Host) : Type 0 where
  pub called : WasCalled h.stopping
  pub shut : h.is_open ≡ false
  pub finite : AllFinite h.connections

abbrev pub loop_left : LoopState → ℕ
loop_left LoopState.checking = 2
loop_left LoopState.accepting = 1
loop_left LoopState.ended = 0

abbrev pub stop_left : Stopping → ℕ
stop_left Stopping.waiting = 1
stop_left _ = 0

-- A bound on the steps: a turn of a handler may bring the end of the context with it.
abbrev pub steps_left : Host → ℕ
steps_left h =
    loop_left h.loop
    + 2 * all_turns_left h.connections
    + (if h.server.is_cancelled then 0 else 1)
    + stop_left h.stopping

-- A host from which fewer than `n` steps lead on.
pub record IsNearer (n : ℕ) (h : Host) : Type 0 where
  pub stopping : IsStopping h
  pub fewer : steps_left h < n

module _ (h : Host) (v : IsStopping h) where
  loop_step-IsNearer :
      (l : LoopState) → h.loop ≡ l → Holds (IsNearer (steps_left h)) (loop_step l h)
  unfolding loop_step
  loop_step-IsNearer LoopState.checking e =
      if-holds (IsNearer (steps_left h)) h.server.is_cancelled _ _
        (record {
          stopping = record { called = v.called; shut = v.shut; finite = v.finite };
          fewer = omega (arith, ap loop_left e);
        })
        (record {
          stopping = record { called = v.called; shut = v.shut; finite = v.finite };
          fewer = omega (arith, ap loop_left e);
        })
  loop_step-IsNearer LoopState.accepting e = tt
  loop_step-IsNearer LoopState.ended e = tt

  accept_error_step-IsNearer :
      (l : LoopState) → h.loop ≡ l → Holds (IsNearer (steps_left h)) (accept_error_step l h)
  unfolding accept_error_step
  accept_error_step-IsNearer LoopState.checking e = tt
  accept_error_step-IsNearer LoopState.ended e = tt
  accept_error_step-IsNearer LoopState.accepting e =
      if-holds_of (IsNearer (steps_left h)) h.is_open _ _
        (λ opened. absurd (ground (arith, opened, v.shut)))
        (λ shut. record {
          stopping = record { called = v.called; shut = v.shut; finite = v.finite };
          fewer = omega (arith, ap loop_left e);
        })

  connect_step-IsNearer :
      (l : LoopState) (stream : Bytes) (hangs_up : Bool)
      → Holds (IsNearer (steps_left h)) (connect_step l stream hangs_up h)
  unfolding connect_step
  connect_step-IsNearer LoopState.checking stream hangs_up = tt
  connect_step-IsNearer LoopState.ended stream hangs_up = tt
  connect_step-IsNearer LoopState.accepting stream hangs_up = simp v.shut tt

  cancelled_left : (b : Bool) → (if b then 0 else 1) ≤ 1
  cancelled_left b = ground arith

  handler_step-IsNearer :
      (i : ℕ) (env : TurnEnv) (c : Connection)
      → get_elem? h.connections i ≡ some c
      → Holds (IsNearer (steps_left h)) (handler_step i (connection_turn env c h.server) h)
  unfolding handler_step
  handler_step-IsNearer i env c found =
      let finite = IsFinite-at i c h.connections found v.finite in
      elim (connection_turn-shrinks env c h.server finite) [
        | inl stuck ↦ rw (connection_turn-stuck env c h.server stuck) tt
        | inr (t, taken, shrinks) ↦
            let (all_finite, less) =
              replace_at-shrinks i c t.next h.connections found v.finite shrinks in
            rw taken (record {
              stopping = record { called = v.called; shut = v.shut; finite = all_finite };
              fewer = omega (arith, less, cancelled_left t.server.is_cancelled);
            })
      ]

  stop_wait_step-IsNearer :
      (s : Stopping) → h.stopping ≡ s → Holds (IsNearer (steps_left h)) (stop_wait_step s h)
  unfolding stop_wait_step
  stop_wait_step-IsNearer Stopping.not_called e = tt
  stop_wait_step-IsNearer Stopping.returned e = tt
  stop_wait_step-IsNearer Stopping.waiting e =
      if-holds (Holds (IsNearer (steps_left h))) (h.wg == 0) _ _
        (record {
          stopping = record { called = tt; shut = v.shut; finite = v.finite };
          fewer = omega (arith, ap stop_left e);
        })
        tt

  stop_step-IsNearer :
      (s : Stopping) → WasCalled s → Holds (IsNearer (steps_left h)) (stop_step s h)
  unfolding stop_step
  stop_step-IsNearer Stopping.not_called called = absurd called
  stop_step-IsNearer Stopping.waiting called = tt
  stop_step-IsNearer Stopping.returned called = tt

-- Every step after the call of Stop brings the server nearer to the end.
step_of-IsNearer :
    (e : Event) (h : Host) → IsStopping h → Holds (IsNearer (steps_left h)) (step_of e h)
unfolding step_of handler_step
step_of-IsNearer Event.loop_turn h v = loop_step-IsNearer h v h.loop refl
step_of-IsNearer (Event.connect stream hangs_up) h v =
    connect_step-IsNearer h v h.loop stream hangs_up
step_of-IsNearer Event.accept_error h v = accept_error_step-IsNearer h v h.loop refl
step_of-IsNearer (Event.handler i env) h v = elim (Option-cases (get_elem? h.connections i)) [
  | inl missing ↦ rw (missing, step_of) tt
  | inr (c, found) ↦ rw (found, step_of) (handler_step-IsNearer h v i env c found)
]
step_of-IsNearer Event.cancel h v = elim (Bool-cases h.server.is_cancelled) [
  | inl done ↦ simp done tt
  | inr goes_on ↦ simp goes_on (record {
    stopping = record { called = v.called; shut = v.shut; finite = v.finite };
    fewer = omega arith;
  })
]
step_of-IsNearer Event.stop h v = stop_step-IsNearer h v h.stopping v.called
step_of-IsNearer Event.stop_wait h v = stop_wait_step-IsNearer h v h.stopping refl

pub run_events-IsStopping :
    (es : List Event) (h h' : Host)
    → IsStopping h
    → run_events es h ≡ some h'
    → IsStopping h' × (length es + steps_left h' ≤ steps_left h)
unfolding run_events
run_events-IsStopping [] h h' v run =
    let same : h ≡ h' = ground (arith, run) in
    (subst IsStopping same v, omega (arith, ap steps_left same))
run_events-IsStopping (e ∷ es) h h' v run = elim (Option-cases (step e h)) [
  | inl blocked ↦ absurd (ground (arith, run, blocked))
  | inr (h₁, taken) ↦
      let nearer =
        subst (Holds (IsNearer (steps_left h))) taken
          (step-kept (IsNearer (steps_left h)) e h (step_of-IsNearer e h v)) in
      let (stopping, few) =
        run_events-IsStopping es h₁ h' nearer.stopping (rw (taken, run_events) at run) in
      (stopping, omega (arith, nearer.fewer, few))
]
