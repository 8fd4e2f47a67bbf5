-- ===== src/Server/Format/Attributes.antt =====
-- The attributes of the replies of internal/server/response.go and handlers.go, read back from their lines.
use a_kerno.Common.{
  ℕ, zero, suc, ◌+◌, ◌%◌, ◌/◌, ltb, if-holds, ◌≡◌, refl, sym, ap, ◌∙◌, Bytes, text, List, [], ◌∷◌,
  ◌++◌, append_assoc, append-nil, Option, none, some, Bool, true, not, ◌&&◌, bytes_eq, arith,
}
use a_kerno.Common.Int.{ℤ, pos, negsuc}
use a_kerno.Text.{split_from, cut, cut_from}
use a_kerno.Text.Laws.{Lacks, lacks?, Lacks-sound}
use a_kerno.Cmdlist.{decimal, decimal_from}
use a_kerno.Daemon.Types.{Daemon, DaemonState, is_running, state_name}
use a_kerno.Server.Format.{Texts, number, policy_name, uptime_text, socket_ok, format_daemon_status}

-- A reader of a block of attributes: each line that has a colon is a key, and after the colon and a space, its
-- value.
abbrev pub Attribute : Type 0
Attribute = Bytes × Bytes

abbrev drop_space : Bytes → Bytes
drop_space [] = []
drop_space (c ∷ value) = value

unfoldable pub attribute_of : Option (Bytes × Bytes) → List Attribute
attribute_of none = []
attribute_of (some (key, value)) = (key, drop_space value) ∷ []

unfoldable pub attributes_of : List Bytes → List Attribute
unfolding attribute_of
attributes_of [] = []
attributes_of (line ∷ lines) = attribute_of (cut b':' line) ++ attributes_of lines

unfoldable pub read_attributes : Bytes → List Attribute
unfolding attributes_of
read_attributes block = attributes_of (split_from b'\n' [] block)

-- A block of attributes.
abbrev pub block : List Attribute → Bytes
block [] = []
block ((key, value) ∷ attributes) = key ++ (text ": " ++ (value ++ (text "\n" ++ block attributes)))

-- Keys have no colon and no newline, and values no newline.
abbrev pub AllPlain : List Attribute → Type 0
AllPlain [] = Unit
AllPlain ((key, value) ∷ attributes) =
    (Lacks b':' key × Lacks b'\n' key × Lacks b'\n' value) × AllPlain attributes

pub split_from-line :
    (sep : ℕ) (piece line rest : Bytes)
    → Lacks sep line
    → split_from sep piece (line ++ sep ∷ rest) ≡ (piece ++ line) ∷ split_from sep [] rest
unfolding split_from
split_from-line sep piece [] rest h = ground (arith, append-nil piece)
split_from-line sep piece (c ∷ line) rest h =
    rw (h.0, split_from)
      (split_from-line sep (piece ++ c ∷ []) line rest h.1
        ∙ ap (λ p. p ∷ split_from sep [] rest) (append_assoc piece (c ∷ []) line))

cut_from-key :
    (sep : ℕ) (before key rest : Bytes)
    → Lacks sep key
    → cut_from sep before (key ++ sep ∷ rest) ≡ some (before ++ key, rest)
unfolding cut_from
cut_from-key sep before [] rest h = ground (arith, append-nil before)
cut_from-key sep before (c ∷ key) rest h =
    rw (h.0, cut_from)
      (cut_from-key sep (before ++ c ∷ []) key rest h.1
        ∙ ap (λ p. some (p, rest)) (append_assoc before (c ∷ []) key))

pub Lacks-append : (b : ℕ) (xs ys : Bytes) → Lacks b xs → Lacks b ys → Lacks b (xs ++ ys)
Lacks-append b [] ys hx hy = hy
Lacks-append b (x ∷ xs) ys hx hy = (hx.0, Lacks-append b xs ys hx.1 hy)

-- What is written as a block is read back.
pub read_attributes-block :
    (attributes : List Attribute)
    → AllPlain attributes
    → read_attributes (block attributes) ≡ attributes
unfolding read_attributes attributes_of attribute_of split_from cut cut_from
read_attributes-block [] h = refl
read_attributes-block ((key, value) ∷ attributes) h =
    let line = key ++ (text ": " ++ value) in
    let same : block ((key, value) ∷ attributes) ≡ line ++ b'\n' ∷ block attributes =
      sym (append_assoc key (text ": " ++ value) (b'\n' ∷ block attributes)) in
    let lacks : Lacks b'\n' line =
      Lacks-append b'\n' key (text ": " ++ value) h.0.1 (refl, (refl, h.0.2)) in
    let one : split_from b'\n' [] (line ++ b'\n' ∷ block attributes)
        ≡ line ∷ split_from b'\n' [] (block attributes) =
      split_from-line b'\n' [] line (block attributes) lacks in
    rw (same, one)
      (rw (cut_from-key b':' [] key (b' ' ∷ value) h.0.0)
        (ap (λ rest. (key, value) ∷ rest) (read_attributes-block attributes h.1)))

decimal_from-Lacks : (fuel n : ℕ) → Lacks b'\n' (decimal_from fuel n)
unfolding decimal_from
decimal_from-Lacks zero n = tt
decimal_from-Lacks (suc fuel) n =
    let last : Lacks b'\n' ((b'0' + n % 10) ∷ []) = (ground arith, tt) in
    if-holds (Lacks b'\n') (ltb n 10) ((b'0' + n % 10) ∷ []) _ last (
      Lacks-append b'\n' (decimal_from fuel (n / 10)) ((b'0' + n % 10) ∷ [])
        (decimal_from-Lacks fuel (n / 10)) last)

-- A number has no newline.
pub decimal-Lacks : (n : ℤ) → Lacks b'\n' (decimal n)
unfolding decimal
decimal-Lacks (pos n) = decimal_from-Lacks (suc n) n
decimal-Lacks (negsuc n) = (refl, decimal_from-Lacks (suc (suc n)) (suc n))

pub state_name-Lacks : (s : DaemonState) → Lacks b'\n' (state_name s)
state_name-Lacks DaemonState.stopped = Lacks-sound b'\n' (state_name DaemonState.stopped) refl
state_name-Lacks DaemonState.starting = Lacks-sound b'\n' (state_name DaemonState.starting) refl
state_name-Lacks DaemonState.running = Lacks-sound b'\n' (state_name DaemonState.running) refl
state_name-Lacks DaemonState.failed = Lacks-sound b'\n' (state_name DaemonState.failed) refl
state_name-Lacks DaemonState.disabled = Lacks-sound b'\n' (state_name DaemonState.disabled) refl

socket_ok-Lacks : (d : Daemon) → Lacks b'\n' (socket_ok d)
socket_ok-Lacks d =
    if-holds (Lacks b'\n') (is_running d.state && not (bytes_eq d.config.socket [])) (text "true")
      (text "false") (Lacks-sound b'\n' (text "true") refl) (Lacks-sound b'\n' (text "false") refl)

-- A daemon whose texts are lines: those of the configuration come from lines of a file.
pub record IsPlain (texts : Texts) (d : Daemon) : Type 0 where
  pub name : Lacks b'\n' d.name
  pub uptime : Lacks b'\n' (uptime_text texts d)
  pub policy : Lacks b'\n' (policy_name d.config.restart)
  pub socket : Lacks b'\n' d.config.socket
  pub exec : Lacks b'\n' d.config.exec

-- What the status of a daemon says.
abbrev pub status_attributes : Texts → Daemon → List Attribute
status_attributes texts d =
    (text "cmd", text "status")
    ∷ (text "name", d.name)
    ∷ (text "status", state_name d.state)
    ∷ (text "pid", number d.pid)
    ∷ (text "pgid", number d.pgid)
    ∷ (text "exit_code", decimal (negsuc 0))
    ∷ (text "uptime", uptime_text texts d)
    ∷ (text "restarts", number d.restart_count)
    ∷ (text "restart_policy", policy_name d.config.restart)
    ∷ (text "order", decimal d.config.order)
    ∷ (text "socket", d.config.socket)
    ∷ (text "socket_ok", socket_ok d)
    ∷ (text "exec", d.config.exec)
    ∷ []

abbrev plain_keys : List Attribute → Bool
plain_keys [] = true
plain_keys ((key, value) ∷ attributes) =
    lacks? b':' key && lacks? b'\n' key && plain_keys attributes

-- The values of a block, each a line.
abbrev PlainValues : List Attribute → Type 0
PlainValues [] = Unit
PlainValues ((key, value) ∷ attributes) = Lacks b'\n' value × PlainValues attributes

AllPlain-of :
    (attributes : List Attribute)
    → plain_keys attributes ≡ true
    → PlainValues attributes
    → AllPlain attributes
AllPlain-of [] keys values = tt
AllPlain-of ((key, value) ∷ attributes) keys values = (
  (
    Lacks-sound b':' key (ground (arith, keys)),
    Lacks-sound b'\n' key (ground (arith, keys)),
    values.0,
  ),
  AllPlain-of attributes (ground (arith, keys)) values.1,
)

-- The status of a daemon whose texts have no newline is read back from its lines: a client that splits each line at
-- its first colon has the thirteen attributes, whatever colons the command, the socket or the name have.
pub read_attributes-format_daemon_status :
    (texts : Texts) (d : Daemon)
    → IsPlain texts d
    → read_attributes (format_daemon_status texts d) ≡ status_attributes texts d
unfolding format_daemon_status
read_attributes-format_daemon_status texts d v = read_attributes-block (status_attributes texts d) (
    AllPlain-of (status_attributes texts d) refl (
      Lacks-sound b'\n' (text "status") refl,
      (
        v.name,
        (
          state_name-Lacks d.state,
          (
            decimal-Lacks (pos d.pid),
            (
              decimal-Lacks (pos d.pgid),
              (
                decimal-Lacks (negsuc 0),
                (
                  v.uptime,
                  (
                    decimal-Lacks (pos d.restart_count),
                    (
                      v.policy,
                      (decimal-Lacks d.config.order, (v.socket, (socket_ok-Lacks d, (v.exec, tt)))),
                    ),
                  ),
                ),
              ),
            ),
          ),
        ),
      ),
    ))
