-- ===== src/Server/Serving/Clients.antt =====
-- The clients whose handler in internal/server/server.go never returns, turn by turn.
use a_kerno.Common.{
  ℕ, suc, ◌<◌, ◌≡◌, ◌⊎◌, refl, sym, Bytes, bytes_eq, text, [], ◌∷◌, ◌++◌, Option, none, some, Bool,
  true, false, ltb, lt→ltb, length, take, if-holds_of, err, arith, inl, inr,
}
use mathlib.Core.Path.{subst}
use a_kerno.BinParser.Types.{ReadError}
use a_kerno.BinParser.Read.{read_command, read_loop, read_round, read_frame, read_full}
use a_kerno.Cmdlist.{new_parser}
use a_kerno.Text.Laws.{Lacks}
use a_kerno.Server.Replies.{Server, CommandEnv}
use a_kerno.Server.Connection.{Reader, TextState, feed, read}
use a_kerno.Server.Connection.Modes.{take-Lacks}
use a_kerno.Server.Connection.Turns.{
  Mode, Connection, TurnEnv, Turn, text_header, choose_mode, binary_turn, on_read_error, text_turn,
  turn_in, connection_turn,
}

-- By the mode of its handler: a client that greets with TXT01, or one that sends nothing and stays, or one whose
-- handler waits for a lock.
abbrev pub HeldIn : Mode → Bytes → Bool → Type 0
HeldIn Mode.fresh stream hangs_up =
    ((rest : Bytes) × (stream ≡ text "TXT01" ++ rest)) ⊎ ((hangs_up ≡ false) × (length stream < 4))
HeldIn Mode.binary stream hangs_up = (stream ≡ []) × (hangs_up ≡ false)
HeldIn Mode.stuck stream hangs_up = Unit
HeldIn (Mode.text_mode r t) stream hangs_up = (r.header ≡ text "TXT01") × (t.closed ≡ false)

abbrev pub IsHeld : Connection → Type 0
IsHeld c = HeldIn c.mode c.stream c.hangs_up

abbrev pub NextHeld : Option Connection → Type 0
NextHeld none = ⊥
NextHeld (some c) = IsHeld c

-- A turn that is blocked, or after which the client is held.
abbrev pub TurnHeld : Option Turn → Type 0
TurnHeld none = Unit
TurnHeld (some t) = NextHeld t.next

read_command-nil : read_command [] ≡ err ReadError.eof
unfolding read_command read_loop read_round read_frame read_full
read_command-nil = refl

feed-open :
    (env : ℕ → CommandEnv) (bytes : Bytes) (t : TextState)
    → Lacks b'\n' bytes
    → t.closed ≡ false
    → (feed env bytes t).closed ≡ false
unfolding feed
feed-open env [] t h e = e
feed-open env (c ∷ cs) t h e =
    ground (arith, h, e, feed-open env cs (record t { line = t.line ++ c ∷ [] }) h.1)

text-Lacks : Lacks b'\n' (text "TXT01")
text-Lacks = (refl, (refl, (refl, (refl, (refl, tt)))))

module _ (env : TurnEnv) (s : Server) where
  choose_mode-text :
      (rest : Bytes) (hangs_up : Bool)
      → TurnHeld (
          choose_mode env
            (record { stream = text "TXT01" ++ rest; hangs_up = hangs_up; mode = Mode.fresh })
            s)
  unfolding choose_mode text_header new_parser bytes_eq feed
  choose_mode-text rest hangs_up =
      let long₄ : ltb (suc (suc (suc (suc (suc (length rest)))))) 4 ≡ false = ground arith in
      let long₅ : ltb (suc (suc (suc (suc (suc (length rest)))))) 5 ≡ false = ground arith in
      rw (long₄, long₅, choose_mode) (refl, refl)

  choose_mode-silent :
      (stream : Bytes)
      → length stream < 4
      → TurnHeld
          (choose_mode env (record { stream = stream; hangs_up = false; mode = Mode.fresh }) s)
  unfolding choose_mode
  choose_mode-silent stream short = rw (lt→ltb (length stream) 4 short, choose_mode) tt

  binary_turn-silent :
      TurnHeld (binary_turn env (record { stream = []; hangs_up = false; mode = Mode.binary }) s)
  unfolding binary_turn on_read_error
  binary_turn-silent = rw (read_command-nil, binary_turn) tt

  text_turn-held :
      (c : Connection) (conn : Bytes) (t : TextState)
      → t.closed ≡ false
      → TurnHeld (text_turn env c (record { header = text "TXT01"; conn = conn }) t s)
  unfolding text_turn read
  text_turn-held c conn t opened =
      let chunk = take env.room (text "TXT01") in
      let t' = feed env.commands chunk (record t { server = s; written = [] }) in
      let r : Reader = record { header = text "TXT01"; conn = conn } in
      let next : Connection = record c { mode = Mode.text_mode r t' } in
      let still : t'.closed ≡ false =
        feed-open env.commands chunk (record t { server = s; written = [] })
          (take-Lacks b'\n' env.room (text "TXT01") text-Lacks) opened in
      if-holds_of NextHeld t'.closed none (some next) (λ over. cc (still, over))
        (λ goes_on. (refl, still))

  turn_in-held :
      (m : Mode) (stream : Bytes) (hangs_up : Bool)
      → HeldIn m stream hangs_up
      → TurnHeld (turn_in m env (record { stream = stream; hangs_up = hangs_up; mode = m }) s)
  unfolding turn_in
  turn_in-held Mode.fresh stream hangs_up (inl (rest, greets)) =
      subst
        (λ b.
          TurnHeld
            (choose_mode env (record { stream = b; hangs_up = hangs_up; mode = Mode.fresh }) s))
        (sym greets) (choose_mode-text rest hangs_up)
  turn_in-held Mode.fresh stream true (inr (stays, short)) = absurd (ground (arith, stays))
  turn_in-held Mode.fresh stream false (inr (stays, short)) = choose_mode-silent stream short
  turn_in-held Mode.binary stream true (empty, stays) = absurd (ground (arith, stays))
  turn_in-held Mode.binary stream false (empty, stays) =
      subst
        (λ b.
          TurnHeld
            (binary_turn env (record { stream = b; hangs_up = false; mode = Mode.binary }) s))
        (sym empty) binary_turn-silent
  turn_in-held Mode.stuck stream hangs_up h = tt
  turn_in-held (Mode.text_mode r t) stream hangs_up (e, opened) =
      let c : Connection = record {
        stream = stream;
        hangs_up = hangs_up;
        mode = Mode.text_mode r t;
      } in
      subst (λ b. TurnHeld (text_turn env c (record { header = b; conn = r.conn }) t s)) (sym e)
        (text_turn-held c r.conn t opened)

  pub connection_turn-held : (c : Connection) → IsHeld c → TurnHeld (connection_turn env c s)
  unfolding connection_turn
  connection_turn-held c h = turn_in-held c.mode c.stream c.hangs_up h
