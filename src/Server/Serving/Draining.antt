-- ===== src/Server/Serving/Draining.antt =====
-- The handlers of internal/server/server.go come to an end, for clients that hang up and do not use the text protocol.
use a_kerno.Common.{
  ℕ, zero, suc, ◌+◌, ◌<◌, ◌≡◌, refl, sym, Bytes, bytes_eq, text, List, [], ◌∷◌, Option, none, some,
  Bool, true, false, ◌&&◌, ◌||◌, ◌⊎◌, ◌==◌, ltb, length, length-drop, take, drop, get_elem?,
  if-holds, ok, err, arith, Option-cases, Result-cases, inl, inr,
}
use mathlib.Core.Path.{subst}
use a_kerno.BinParser.Types.{ReadError}
use a_kerno.BinParser.Read.{read_command}
use a_kerno.BinParser.Progress.{Advances, read_command-Advances}
use a_kerno.Cmdlist.{HeaderError, new_parser}
use a_kerno.Server.Replies.{Server}
use a_kerno.Server.Dispatch.{cmd_shutdown, cmd_stop_program}
use a_kerno.Server.Connection.Turns.{
  Mode, Connection, TurnEnv, Turn, text_header, choose_mode, on_read_error, binary_turn, turn_in,
  connection_turn,
}
use a_kerno.Server.Serving.{replace_at}

-- The header of the stream is none of the text protocol.
abbrev pub IsNoText : Bytes → Type 0
IsNoText stream = (e : HeaderError) × (new_parser (take 5 stream) ≡ err e)

abbrev pub FiniteIn : Mode → Bytes → Type 0
FiniteIn Mode.fresh stream = IsNoText stream
FiniteIn Mode.binary stream = Unit
FiniteIn Mode.stuck stream = Unit
FiniteIn (Mode.text_mode r t) stream = ⊥

-- A client that hangs up at some time and does not use the text protocol.
abbrev pub IsFinite : Connection → Type 0
IsFinite c = (c.hangs_up ≡ true) × FiniteIn c.mode c.stream

abbrev pub AllFinite : List Connection → Type 0
AllFinite [] = Unit
AllFinite (c ∷ cs) = IsFinite c × AllFinite cs

-- A bound on the turns of a handler.
abbrev pub turns_left : Mode → Bytes → ℕ
turns_left Mode.fresh stream = 2 + length stream
turns_left _ stream = 1 + length stream

turns_left-pos : (m : Mode) (stream : Bytes) → 0 < turns_left m stream
turns_left-pos Mode.fresh stream = omega arith
turns_left-pos Mode.binary stream = omega arith
turns_left-pos Mode.stuck stream = omega arith
turns_left-pos (Mode.text_mode r t) stream = omega arith

abbrev pub all_turns_left : List Connection → ℕ
all_turns_left [] = 0
all_turns_left (c ∷ cs) = turns_left c.mode c.stream + all_turns_left cs

abbrev pub NextShrinks : Connection → Option Connection → Type 0
NextShrinks c none = Unit
NextShrinks c (some c') = IsFinite c' × (turns_left c'.mode c'.stream < turns_left c.mode c.stream)

abbrev pub IsStuck : Mode → Type 0
IsStuck Mode.stuck = Unit
IsStuck _ = ⊥

-- A turn that comes nearer to the end of its handler, which is blocked only if it waits for a lock.
abbrev TurnShrinks : Connection → Option Turn → Type 0
TurnShrinks c none = IsStuck c.mode
TurnShrinks c (some t) = NextShrinks c t.next

module _ (env : TurnEnv) (stream : Bytes) (s : Server) where
  with_mode : Mode → Connection
  with_mode m = record { stream = stream; hangs_up = true; mode = m }

  choose_mode-shrinks :
      IsNoText stream
      → TurnShrinks (with_mode Mode.fresh) (choose_mode env (with_mode Mode.fresh) s)
  unfolding choose_mode with_mode text_header
  choose_mode-shrinks (e, no_text) =
      let c = with_mode Mode.fresh in
      let binary : Connection = record {
        stream = drop 4 stream;
        hangs_up = true;
        mode = Mode.binary;
      } in
      let shrinks : NextShrinks c (some binary) =
        ((refl, tt), omega (arith, length-drop 4 stream)) in
      if-holds (TurnShrinks c) (ltb (length stream) 4) _ _ tt (
        if-holds (TurnShrinks c) (bytes_eq (take 4 stream) (text "BIN1")) _ _
          (if-holds (NextShrinks c) env.write_fails none (some binary) tt shrinks)
          (if-holds (TurnShrinks c) (ltb (length stream) 5) _ _ tt (rw (no_text, text_header) tt)))

  on_read_error-shrinks :
      (e : ReadError)
      → TurnShrinks (with_mode Mode.binary) (on_read_error (with_mode Mode.binary) e s)
  unfolding on_read_error with_mode
  on_read_error-shrinks ReadError.eof = tt
  on_read_error-shrinks ReadError.unexpected_eof = tt
  on_read_error-shrinks (ReadError.read_payload n) = tt
  on_read_error-shrinks (ReadError.cmd_too_short n) = tt
  on_read_error-shrinks (ReadError.attr_frame e) = tt
  on_read_error-shrinks ReadError.end_without_cmd = tt
  on_read_error-shrinks (ReadError.unknown_frame_type n) = tt
  on_read_error-shrinks ReadError.out_of_fuel = tt

  binary_turn-shrinks :
      TurnShrinks (with_mode Mode.binary) (binary_turn env (with_mode Mode.binary) s)
  unfolding binary_turn with_mode
  binary_turn-shrinks = elim (Result-cases (read_command stream)) [
    | inr (e, failed) ↦ rw (failed, binary_turn) (on_read_error-shrinks e)
    | inl ((cmd, rest), got) ↦
        let later : Connection = record { stream = rest; hangs_up = true; mode = Mode.binary } in
        let shorter : Advances (length stream) (ok (cmd, rest)) =
          subst (Advances (length stream)) got (read_command-Advances stream) in
        let less : length rest < length stream = omega (arith, shorter) in
        rw (got, binary_turn)
          (if-holds (λ (t : Turn). NextShrinks (with_mode Mode.binary) t.next)
            (cmd.code == cmd_stop_program && env.lock_waits) _ _ ((refl, tt), omega (arith, less))
            (if-holds (NextShrinks (with_mode Mode.binary))
              (cmd.code == cmd_shutdown || env.write_fails) none (some later) tt
              ((refl, tt), omega (arith, less))))
  ]

turn_in-shrinks :
    (env : TurnEnv) (stream : Bytes) (hangs_up : Bool) (m : Mode) (s : Server)
    → let c : Connection = record { stream = stream; hangs_up = hangs_up; mode = m } in
      IsFinite c → TurnShrinks c (turn_in m env c s)
unfolding turn_in with_mode
turn_in-shrinks env stream false m s h = absurd (ground (arith, h.0))
turn_in-shrinks env stream true Mode.fresh s h = choose_mode-shrinks env stream s h.1
turn_in-shrinks env stream true Mode.binary s h = binary_turn-shrinks env stream s
turn_in-shrinks env stream true Mode.stuck s h = tt
turn_in-shrinks env stream true (Mode.text_mode r t) s h = absurd h.1

-- The handler of such a client waits for a lock, or has a turn that brings it nearer to its end.
pub connection_turn-shrinks :
    (env : TurnEnv) (c : Connection) (s : Server)
    → IsFinite c
    → IsStuck c.mode ⊎ ((t : Turn) × (connection_turn env c s ≡ some t) × NextShrinks c t.next)
unfolding connection_turn
connection_turn-shrinks env c s h =
    let shrinks = turn_in-shrinks env c.stream c.hangs_up c.mode s h in
    elim (Option-cases (turn_in c.mode env c s)) [
      | inl blocked ↦ inl (subst (TurnShrinks c) blocked shrinks)
      | inr (t, taken) ↦ inr (t, taken, subst (TurnShrinks c) taken shrinks)
    ]

turn_in-stuck :
    (m : Mode) (env : TurnEnv) (c : Connection) (s : Server) → IsStuck m → turn_in m env c s ≡ none
unfolding turn_in
turn_in-stuck Mode.fresh env c s h = absurd h
turn_in-stuck Mode.binary env c s h = absurd h
turn_in-stuck Mode.stuck env c s h = refl
turn_in-stuck (Mode.text_mode r t) env c s h = absurd h

pub connection_turn-stuck :
    (env : TurnEnv) (c : Connection) (s : Server) → IsStuck c.mode → connection_turn env c s ≡ none
unfolding connection_turn
connection_turn-stuck env c s h = turn_in-stuck c.mode env c s h

-- The handlers after the turn of one of them.
pub replace_at-shrinks :
    (i : ℕ) (c : Connection) (next : Option Connection) (cs : List Connection)
    → get_elem? cs i ≡ some c
    → AllFinite cs
    → NextShrinks c next
    → AllFinite (replace_at i next cs) × (all_turns_left (replace_at i next cs) < all_turns_left cs)
replace_at-shrinks i c next [] found h k = absurd (ground (arith, found))
replace_at-shrinks zero c none (x ∷ cs) found h k =
    (h.1, omega (arith, turns_left-pos x.mode x.stream))
replace_at-shrinks zero c (some c') (x ∷ cs) found h k =
    let same : x ≡ c = ground (arith, found) in
    let shorter : NextShrinks x (some c') = subst (λ y. NextShrinks y (some c')) (sym same) k in
    ((shorter.0, h.1), omega (arith, shorter.1))
replace_at-shrinks (suc i) c next (x ∷ cs) found h k =
    let (finite, less) = replace_at-shrinks i c next cs found h.1 k in
    ((h.0, finite), omega (arith, less))

pub IsFinite-at :
    (i : ℕ) (c : Connection) (cs : List Connection)
    → get_elem? cs i ≡ some c
    → AllFinite cs
    → IsFinite c
IsFinite-at i c [] found h = absurd (ground (arith, found))
IsFinite-at zero c (x ∷ cs) found h = subst IsFinite (ground (arith, found)) h.0
IsFinite-at (suc i) c (x ∷ cs) found h = IsFinite-at i c cs found h.1
