-- ===== src/Server/Format.antt =====
-- internal/server/response.go: the texts that describe the daemons.
pub mod Errors
pub mod Replies
pub mod Messages
pub mod Attributes
pub mod Bodies
pub mod Logs
mod Tests
use a_kerno.Common.{
  ℕ, ◌-◌, Bytes, bytes_eq, bytes_less, text, List, [], ◌∷◌, ◌++◌, map, Option, none, some, Bool,
  true, false, not, ◌&&◌, ◌==◌, length, replicate, if◌then◌else◌,
}
use a_kerno.Text.Utf8.{rune_count}
use a_kerno.Common.Int.{ℤ, pos, negsuc}
use a_kerno.Common.Sorting.{sort}
use a_kerno.Text.{join, concat}
use a_kerno.Cmdlist.{decimal}
use a_kerno.Daemon.Types.{Daemon, RestartPolicy, is_running, state_name}

-- Texts of other packages: `%q` of a string; `time.Since(t).Truncate(time.Second)` of a time that is not zero, and
-- the zero duration; a duration; the errors of the system and of a context. `pipe_error` is what logdup.Duplicate
-- returned, which says which of its two pipes could not be made.
pub record Texts : Type 0 where
  pub quote : Bytes → Bytes
  pub since : ℕ → Bytes
  pub no_time : Bytes
  pub duration : ℤ → Bytes
  pub os_error : Bytes
  pub pipe_error : Bytes → Bytes
  pub context_error : Bytes

-- `%d` of a number that is not negative.
abbrev pub number : ℕ → Bytes
number n = decimal (pos n)

-- `%-16s` and its kin
unfoldable pub pad_right : ℕ → Bytes → Bytes
pad_right width s = s ++ replicate (width - rune_count s) b' '

-- `%6s`
unfoldable pub pad_left : ℕ → Bytes → Bytes
pad_left width s = replicate (width - rune_count s) b' ' ++ s

-- `string(d.Config.Restart)`
abbrev pub policy_name : RestartPolicy → Bytes
policy_name RestartPolicy.always = text "always"
policy_name RestartPolicy.on_failure = text "on-failure"
policy_name RestartPolicy.once = text "once"
policy_name RestartPolicy.disabled = text "disabled"
policy_name (RestartPolicy.other s) = s

-- The uptime of a daemon that runs and has a start time.
abbrev pub uptime_text : Texts → Daemon → Bytes
uptime_text texts d =
    if is_running d.state && not (d.started_at == 0) then texts.since d.started_at else text "-"

-- The parts of a line of `formatDaemonList`.
abbrev pub daemon_pieces : Texts → Daemon → List Bytes
daemon_pieces texts d =
    pad_right 16 d.name
    ∷ text " "
    ∷ pad_left 6 (number d.pid)
    ∷ text "  "
    ∷ pad_right 10 (state_name d.state)
    ∷ text " uptime="
    ∷ pad_right 10 (uptime_text texts d)
    ∷ text " restarts="
    ∷ number d.restart_count
    ∷ text " policy="
    ∷ policy_name d.config.restart
    ∷ []

-- A line of `formatDaemonList`
unfoldable pub daemon_line : Texts → Daemon → Bytes
unfolding pad_right pad_left
daemon_line texts d = concat (daemon_pieces texts d)

abbrev pub by_daemon_name : Daemon → Daemon → Bool
by_daemon_name a b = bytes_less a.name b.name

-- `formatDaemonList`
unfoldable pub format_daemon_list : Texts → List Daemon → Bytes
unfolding sort
format_daemon_list texts [] = text "(no daemons configured)"
format_daemon_list texts (d ∷ ds) =
    join (text "\n") (map (daemon_line texts) (sort by_daemon_name (d ∷ ds)))

abbrev pub socket_ok : Daemon → Bytes
socket_ok d =
    if is_running d.state && not (bytes_eq d.config.socket []) then text "true" else text "false"

-- `formatDaemonStatus`
unfoldable pub format_daemon_status : Texts → Daemon → Bytes
format_daemon_status texts d = concat (
    text "cmd: status\nname: "
    ∷ d.name
    ∷ text "\nstatus: "
    ∷ state_name d.state
    ∷ text "\npid: "
    ∷ number d.pid
    ∷ text "\npgid: "
    ∷ number d.pgid
    ∷ text "\nexit_code: "
    ∷ decimal (negsuc 0)
    ∷ text "\nuptime: "
    ∷ uptime_text texts d
    ∷ text "\nrestarts: "
    ∷ number d.restart_count
    ∷ text "\nrestart_policy: "
    ∷ policy_name d.config.restart
    ∷ text "\norder: "
    ∷ decimal d.config.order
    ∷ text "\nsocket: "
    ∷ d.config.socket
    ∷ text "\nsocket_ok: "
    ∷ socket_ok d
    ∷ text "\nexec: "
    ∷ d.config.exec
    ∷ text "\n"
    ∷ [])
