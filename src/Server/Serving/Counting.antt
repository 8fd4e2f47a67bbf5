-- ===== src/Server/Serving/Counting.antt =====
-- The wait group of internal/server/server.go and what the return of Stop means.
use a_kerno.Common.{
  ℕ, zero, suc, ◌+◌, ◌≡◌, refl, sym, ap, ◌∙◌, Bytes, List, [], ◌∷◌, Option, none, some, Bool, true,
  false, ◌==◌, ==_iff, length, length-append, get_elem?, if◌then◌else◌, ok, arith, if-holds,
  Bool-cases, Option-cases, inl, inr,
}
use mathlib.Core.Path.{subst}
use a_kerno.Server.Replies.{Server}
use a_kerno.Server.Connection.{Output}
use a_kerno.Server.Connection.Turns.{Mode, Connection, Turn, connection_turn}
use a_kerno.Server.Serving.{
  LoopState, Stopping, Host, ListenEnv, listening, start_server, replace_at, after_turn, Event,
  loop_ends, loop_step, connect_step, accept_error_step, handler_step, stop_step, stop_wait_step,
  step_of, run_events,
}
use a_kerno.Server.Serving.Runs.{Holds, run_events-kept}

-- 1 while the accept loop runs.
abbrev pub live : LoopState → ℕ
live LoopState.ended = 0
live _ = 1

-- What each stage of Stop has done.
abbrev pub IsAt : Stopping → Host → Type 0
IsAt Stopping.not_called h = Unit
IsAt Stopping.waiting h = h.is_open ≡ false
IsAt Stopping.returned h = (h.is_open ≡ false) × (h.wg ≡ 0) × (h.socket_file ≡ false)

-- The wait group counts the goroutines that run.
pub record IsCounted (h : Host) : Type 0 where
  pub counted : h.wg ≡ live h.loop + length h.connections
  pub stop : IsAt h.stopping h

length-replace_at-some :
    (i : ℕ) (c c' : Connection) (cs : List Connection)
    → get_elem? cs i ≡ some c
    → length (replace_at i (some c') cs) ≡ length cs
length-replace_at-some i c c' [] e = refl
length-replace_at-some zero c c' (x ∷ cs) e = refl
length-replace_at-some (suc i) c c' (x ∷ cs) e = ground (arith, length-replace_at-some i c c' cs e)

length-replace_at-none :
    (i : ℕ) (c : Connection) (cs : List Connection)
    → get_elem? cs i ≡ some c
    → suc (length (replace_at i none cs)) ≡ length cs
length-replace_at-none i c [] e = absurd (ground (arith, e))
length-replace_at-none zero c (x ∷ cs) e = refl
length-replace_at-none (suc i) c (x ∷ cs) e = ground (arith, length-replace_at-none i c cs e)

-- A step that keeps the listener and the socket file, and starts no goroutine after the last one.
IsAt-kept :
    (s : Stopping) (h h' : Host)
    → h'.is_open ≡ h.is_open
    → h'.socket_file ≡ h.socket_file
    → (h.wg ≡ 0 → h'.wg ≡ 0)
    → IsAt s h
    → IsAt s h'
IsAt-kept Stopping.not_called h h' eo ef ew v = tt
IsAt-kept Stopping.waiting h h' eo ef ew v = ground arith
IsAt-kept Stopping.returned h h' eo ef ew v = ground (arith, ew v.1)

IsAt-open : (s : Stopping) (h h' : Host) → h.is_open ≡ true → IsAt s h → IsAt s h'
IsAt-open Stopping.not_called h h' eo v = tt
IsAt-open Stopping.waiting h h' eo v = absurd (ground arith)
IsAt-open Stopping.returned h h' eo v = absurd (ground arith)

module _ (h : Host) (v : IsCounted h) where
  loop_ends-IsCounted : live h.loop ≡ 1 → IsCounted (loop_ends h)
  loop_ends-IsCounted e = record {
    counted = omega (arith, v.counted, e);
    stop = IsAt-kept h.stopping h (loop_ends h) refl refl (λ z. omega (arith, z)) v.stop;
  }

  to_loop : LoopState → Host
  to_loop l = record h { loop = l }

  to_loop-IsCounted : (l : LoopState) → live l ≡ live h.loop → IsCounted (to_loop l)
  unfolding to_loop
  to_loop-IsCounted l e = record {
    counted = v.counted ∙ ap (λ n. n + length h.connections) (sym e);
    stop = IsAt-kept h.stopping h (to_loop l) refl refl (λ z. z) v.stop;
  }

  loop_step-IsCounted : (l : LoopState) → h.loop ≡ l → Holds IsCounted (loop_step l h)
  unfolding loop_step to_loop
  loop_step-IsCounted LoopState.checking e =
      if-holds IsCounted h.server.is_cancelled (loop_ends h) (to_loop LoopState.accepting)
        (loop_ends-IsCounted (ap live e)) (to_loop-IsCounted LoopState.accepting (sym (ap live e)))
  loop_step-IsCounted LoopState.accepting e = tt
  loop_step-IsCounted LoopState.ended e = tt

  accept_error_step-IsCounted :
      (l : LoopState) → h.loop ≡ l → Holds IsCounted (accept_error_step l h)
  unfolding accept_error_step to_loop
  accept_error_step-IsCounted LoopState.checking e = tt
  accept_error_step-IsCounted LoopState.ended e = tt
  accept_error_step-IsCounted LoopState.accepting e =
      let ends = loop_ends-IsCounted (ap live e) in
      let back = to_loop-IsCounted LoopState.checking (sym (ap live e)) in
      let cancelled = h.server.is_cancelled in
      let retried = if cancelled then loop_ends h else to_loop LoopState.checking in
      if-holds IsCounted h.is_open retried (loop_ends h)
        (if-holds IsCounted cancelled (loop_ends h) (to_loop LoopState.checking) ends back) ends

  connect_step-IsCounted :
      (l : LoopState) (stream : Bytes) (hangs_up : Bool)
      → h.loop ≡ l
      → Holds IsCounted (connect_step l stream hangs_up h)
  unfolding connect_step
  connect_step-IsCounted LoopState.checking stream hangs_up e = tt
  connect_step-IsCounted LoopState.ended stream hangs_up e = tt
  connect_step-IsCounted LoopState.accepting stream hangs_up e = elim (Bool-cases h.is_open) [
    | inr shut ↦ rw (shut, connect_step) tt
    | inl open_yet ↦
        let c : Connection = record { stream = stream; hangs_up = hangs_up; mode = Mode.fresh } in
        let running : live h.loop ≡ 1 = ap live e in
        rw (open_yet, connect_step)
          (record {
            counted = omega (arith, v.counted, running, length-append h.connections (c ∷ []));
            stop = IsAt-open h.stopping h _ open_yet v.stop;
          })
  ]

  after_turn-IsCounted :
      (i : ℕ) (c : Connection) (next : Option Connection) (outputs : List Output) (s : Server)
      → get_elem? h.connections i ≡ some c
      → IsCounted (after_turn i (record { next = next; outputs = outputs; server = s }) h)
  after_turn-IsCounted i c none outputs s found = record {
    counted = omega (arith, v.counted, length-replace_at-none i c h.connections found);
    stop = IsAt-kept h.stopping h _ refl refl (λ z. omega (arith, z)) v.stop;
  }
  after_turn-IsCounted i c (some c') outputs s found = record {
    counted = omega (arith, v.counted, length-replace_at-some i c c' h.connections found);
    stop = IsAt-kept h.stopping h _ refl refl (λ z. z) v.stop;
  }

  handler_step-IsCounted :
      (i : ℕ) (c : Connection) (t : Option Turn)
      → get_elem? h.connections i ≡ some c
      → Holds IsCounted (handler_step i t h)
  unfolding handler_step
  handler_step-IsCounted i c none found = tt
  handler_step-IsCounted i c (some t) found =
      after_turn-IsCounted i c t.next t.outputs t.server found

  cancel-IsCounted : Holds IsCounted (step_of Event.cancel h)
  unfolding step_of
  cancel-IsCounted = elim (Bool-cases h.server.is_cancelled) [
    | inl done ↦ rw (done, step_of) tt
    | inr goes_on ↦
        rw (goes_on, step_of)
          (record {
            counted = v.counted;
            stop = IsAt-kept h.stopping h _ refl refl (λ z. z) v.stop;
          })
  ]

  stop_step-IsCounted : (s : Stopping) → Holds IsCounted (stop_step s h)
  unfolding stop_step
  stop_step-IsCounted Stopping.not_called = record { counted = v.counted; stop = refl }
  stop_step-IsCounted Stopping.waiting = tt
  stop_step-IsCounted Stopping.returned = tt

  stop_wait_step-IsCounted : (s : Stopping) → IsAt s h → Holds IsCounted (stop_wait_step s h)
  unfolding stop_wait_step
  stop_wait_step-IsCounted Stopping.not_called shut = tt
  stop_wait_step-IsCounted Stopping.returned shut = tt
  stop_wait_step-IsCounted Stopping.waiting shut = elim (Bool-cases (h.wg == 0)) [
    | inr busy ↦ rw (busy, stop_wait_step) tt
    | inl quiet ↦
        rw (quiet, stop_wait_step)
          (record { counted = v.counted; stop = (shut, (==_iff h.wg 0).0 quiet, refl) })
  ]

pub step_of-IsCounted : (e : Event) (h : Host) → IsCounted h → Holds IsCounted (step_of e h)
unfolding step_of handler_step
step_of-IsCounted Event.loop_turn h v = loop_step-IsCounted h v h.loop refl
step_of-IsCounted (Event.connect stream hangs_up) h v =
    connect_step-IsCounted h v h.loop stream hangs_up refl
step_of-IsCounted Event.accept_error h v = accept_error_step-IsCounted h v h.loop refl
step_of-IsCounted (Event.handler i env) h v = elim (Option-cases (get_elem? h.connections i)) [
  | inl missing ↦ rw (missing, step_of) tt
  | inr (c, found) ↦
      rw (found, step_of) (handler_step-IsCounted h v i c (connection_turn env c h.server) found)
]
step_of-IsCounted Event.cancel h v = cancel-IsCounted h v
step_of-IsCounted Event.stop h v = stop_step-IsCounted h v h.stopping
step_of-IsCounted Event.stop_wait h v = stop_wait_step-IsCounted h v h.stopping v.stop

listening-IsCounted : (s : Server) → IsCounted (listening s)
listening-IsCounted s = record { counted = refl; stop = tt }

pub started-IsCounted :
    (env : ListenEnv) (s : Server) (h : Host) → start_server env s ≡ ok h → IsCounted h
unfolding start_server
started-IsCounted env s h started =
    let host = listening (record s { is_cancelled = env.parent_done }) in
    let same : host ≡ h = ground (arith, started) in
    subst IsCounted same (listening-IsCounted (record s { is_cancelled = env.parent_done }))

no_goroutine :
    (l : LoopState) (cs : List Connection)
    → live l + length cs ≡ 0
    → (l ≡ LoopState.ended) × (cs ≡ [])
no_goroutine LoopState.checking cs e = absurd (omega (arith, e))
no_goroutine LoopState.accepting cs e = absurd (omega (arith, e))
no_goroutine LoopState.ended [] e = (refl, refl)
no_goroutine LoopState.ended (c ∷ cs) e = absurd (omega (arith, e))

-- In every state that a started server reaches, whatever its clients do and in whatever order its goroutines
-- run: once Stop has returned, the listener is closed, the accept loop has ended, no handler of a connection
-- runs, the wait group is at zero and the socket file has been removed.
pub run_events-IsQuiet :
    (env : ListenEnv) (s : Server) (es : List Event) (h h' : Host)
    → start_server env s ≡ ok h
    → run_events es h ≡ some h'
    → h'.stopping ≡ Stopping.returned
    → (h'.is_open ≡ false)
      × (h'.loop ≡ LoopState.ended)
      × (h'.connections ≡ [])
      × (h'.wg ≡ 0)
      × (h'.socket_file ≡ false)
run_events-IsQuiet env s es h h' started run back =
    let v =
      run_events-kept IsCounted step_of-IsCounted es h h' (started-IsCounted env s h started) run in
    let (shut, none_left, removed) = subst (λ r. IsAt r h') back v.stop in
    let (loop_over, no_handler) = no_goroutine h'.loop h'.connections (sym v.counted ∙ none_left) in
    (shut, loop_over, no_handler, none_left, removed)
