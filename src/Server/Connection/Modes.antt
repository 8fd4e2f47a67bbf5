-- ===== src/Server/Connection/Modes.antt =====
-- What a connection of internal/server/server.go does in its two modes.
use a_kerno.Common.{
  ℕ, zero, suc, ◌≡◌, refl, ap, Bytes, bytes_eq, text, List, [], ◌∷◌, ◌++◌, false, ltb, length, take,
  arith,
}
use a_kerno.BinParser.Types.{BinCommand}
use a_kerno.Cmdlist.{new_parser}
use a_kerno.Text.Laws.{Lacks}
use a_kerno.Server.Replies.{Server, CommandEnv}
use a_kerno.Server.Dispatch.Sessions.{
  request_stream, AllFit, run_requests, handle_bin_connection-request_stream,
}
use a_kerno.Server.Connection.{
  read, TextState, feed, text_reads, text_start, text_connection, bin_outputs, handle_connection,
}

feed-Lacks :
    (env : ℕ → CommandEnv) (bytes : Bytes) (t : TextState)
    → Lacks b'\n' bytes
    → ((feed env bytes t).written ≡ t.written) × ((feed env bytes t).server ≡ t.server)
unfolding feed
feed-Lacks env [] t h = (refl, refl)
feed-Lacks env (c ∷ cs) t h =
    ground (arith, h, feed-Lacks env cs (record t { line = t.line ++ c ∷ [] }) h.1)

pub take-Lacks : (b n : ℕ) (bytes : Bytes) → Lacks b bytes → Lacks b (take n bytes)
take-Lacks b zero bytes h = tt
take-Lacks b (suc n) [] h = tt
take-Lacks b (suc n) (c ∷ cs) h = (h.0, take-Lacks b n cs h.1)

text_reads-header :
    (env : ℕ → CommandEnv) (rooms : List ℕ) (c : ℕ) (cs conn : Bytes) (t : TextState)
    → Lacks b'\n' (c ∷ cs)
    → let after = text_reads env rooms (record { header = c ∷ cs; conn = conn }) t in
      (after.written ≡ t.written) × (after.server ≡ t.server)
unfolding text_reads read
text_reads-header env [] c cs conn t h = (refl, refl)
text_reads-header env (room ∷ rooms) c cs conn t h =
    let fed = feed env (take room (c ∷ cs)) t in
    let (written, server) =
      feed-Lacks env (take room (c ∷ cs)) t (take-Lacks b'\n' room (c ∷ cs) h) in
    let (later, later_server) = text_reads-header env rooms c cs conn fed h in
    ground (arith, written, server, later, later_server)

-- However often a text connection with the header TXT01 is read, and whatever the client sends after the
-- header, the server writes nothing and runs no command.
pub handle_connection-text :
    (env : ℕ → CommandEnv) (rooms : List ℕ) (rest : Bytes) (s : Server)
    → handle_connection env rooms (text "TXT01" ++ rest) s ≡ ([], s)
unfolding handle_connection text_connection read feed new_parser bytes_eq
handle_connection-text env rooms rest s =
    let (written, server) =
      text_reads-header env rooms b'T' (text "XT01") rest (text_start s)
        (refl, (refl, (refl, (refl, (refl, tt))))) in
    let long₄ : ltb (suc (suc (suc (suc (suc (length rest)))))) 4 ≡ false = ground arith in
    let long₅ : ltb (suc (suc (suc (suc (suc (length rest)))))) 5 ≡ false = ground arith in
    rw (long₄, long₅, written, server, handle_connection, text_connection) refl

-- On the magic BIN1 and the bytes that a client writes for some commands, a connection acknowledges the
-- mode and then writes what running the commands one after the other gives: for commands whose
-- attributes and data fit into frames, and however the text mode would read.
pub handle_connection-binary :
    (env : ℕ → CommandEnv) (rooms : List ℕ) (cs : List BinCommand) (s : Server)
    → AllFit cs
    → handle_connection env rooms (text "BIN1" ++ request_stream cs) s
      ≡ bin_outputs (run_requests env 0 cs s)
unfolding handle_connection bytes_eq
handle_connection-binary env rooms cs s fit =
    let long : ltb (suc (suc (suc (suc (length (request_stream cs)))))) 4 ≡ false = ground arith in
    rw (long, handle_connection)
      (ap bin_outputs (handle_bin_connection-request_stream env cs s fit))
