-- ===== src/Server/Connection.antt =====
-- `handleConnection` and `bytesReader` of internal/server/server.go: the protocol is told by the first four
-- bytes. A text connection reads through a buffer; `rooms` is the free space of the buffer at each of its
-- reads, so that a run of the model is what the connection has done after those reads.
pub mod Modes
pub mod Turns
mod Tests
use a_kerno.Common.{
  ℕ, zero, suc, ◌-◌, Bytes, bytes_eq, text, List, [], ◌∷◌, ◌++◌, map, Bool, true, false, ◌==◌, ltb,
  length, take, drop, if◌then◌else◌, Result, ok, err,
}
use a_kerno.Cmdlist.{Value, Line, classify, HeaderError, new_parser}
use a_kerno.Server.Replies.{Server, CommandEnv, Reply}
use a_kerno.Server.Dispatch as Dispatch
use a_kerno.Server.Dispatch.{dispatch, handle_bin_connection}

-- What a connection writes.
pub data Output : Type 0 where
  ack : Output
  bin : Dispatch.Written → Output
  reply : Reply → Output
  invalid_header : Output
  parse_error : Bytes → Output

-- `io.MultiReader(bytesReader(header), conn)`
pub record Reader : Type 0 where
  pub header : Bytes
  pub conn : Bytes

-- `Read` with room for some bytes: `bytesReader.Read` gives the bytes of the header and keeps them, and only
-- an empty header lets the connection be read.
unfoldable pub read : ℕ → Reader → Bytes × Reader
read room r = elim r.header [
  | [] ↦ (take room r.conn, record r { conn = drop room r.conn })
  | c ∷ cs ↦ (take room (c ∷ cs), r)
]

-- The loop of a text connection: the line at hand, the values of the command at hand, what is written,
-- and whether the connection is closed.
pub record TextState : Type 0 where
  pub line : Bytes
  pub stack : List Value
  pub written : List Output
  pub server : Server
  pub closed : Bool
  pub count : ℕ

-- A whole line, in `ParseCommand` and in the loop around it.
unfoldable pub end_line : (ℕ → CommandEnv) → Line → TextState → TextState
end_line env Line.skipped t = t
end_line env (Line.value v) t = record t { stack = t.stack ++ v ∷ [] }
end_line env (Line.bad s) t = record t {
  written = t.written ++ Output.parse_error s ∷ [];
  closed = true;
}
end_line env (Line.verb name) t =
    let (r, s) = dispatch (env t.count) (record { name = name; args = t.stack }) t.server in
    record t {
      stack = [];
      written = t.written ++ Output.reply r ∷ [];
      server = s;
      closed = bytes_eq name (text "shutdown");
      count = suc t.count;
    }

unfoldable pub feed : (ℕ → CommandEnv) → Bytes → TextState → TextState
feed env [] t = t
feed env (c ∷ cs) t =
    let ended = end_line env (classify t.line) (record t { line = [] }) in
    let longer = record t { line = t.line ++ c ∷ [] } in
    if t.closed then t else feed env cs (if c == b'\n' then ended else longer)

-- The reads of a text connection.
unfoldable pub text_reads : (ℕ → CommandEnv) → List ℕ → Reader → TextState → TextState
text_reads env [] r t = t
text_reads env (room ∷ rooms) r t =
    let (chunk, r') = read room r in
    if t.closed then t else text_reads env rooms r' (feed env chunk t)

abbrev pub text_start : Server → TextState
text_start s = record { line = []; stack = []; written = []; server = s; closed = false; count = 0 }

-- The size of the buffer of `bufio.NewReader`.
abbrev pub buffer_size : ℕ
buffer_size = 4096

abbrev after_header :
    (ℕ → CommandEnv)
    → List ℕ
    → Result HeaderError (Bytes × Bytes)
    → Reader
    → Server
    → List Output × Server
after_header env rooms (err e) r s = (Output.invalid_header ∷ [], s)
after_header env rooms (ok (version, buffered)) r s =
    let t = text_reads env rooms r (feed env buffered (text_start s)) in (t.written, t.server)

-- The text mode of `handleConnection`, on the stream from its first byte on: the first read of the buffer
-- gives the header, which `NewParser` takes.
unfoldable pub text_connection : (ℕ → CommandEnv) → List ℕ → Bytes → Server → List Output × Server
text_connection env rooms stream s =
    let (first, r) = read buffer_size (record { header = take 5 stream; conn = drop 5 stream }) in
    if ltb (length stream) 5
    then (Output.invalid_header ∷ [], s)
    else after_header env rooms (new_parser first) r s

abbrev pub bin_outputs : List Dispatch.Written × Server → List Output × Server
bin_outputs (written, s) = (Output.ack ∷ map Output.bin written, s)

-- `handleConnection`
unfoldable pub handle_connection : (ℕ → CommandEnv) → List ℕ → Bytes → Server → List Output × Server
handle_connection env rooms stream s =
    if ltb (length stream) 4
    then ([], s)
    else if bytes_eq (take 4 stream) (text "BIN1")
    then bin_outputs (handle_bin_connection env (drop 4 stream) s)
    else text_connection env rooms stream s
