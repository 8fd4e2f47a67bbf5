-- ===== src/Config.antt =====
-- internal/config/config.go: the paths that a-kerno works with, from the environment. The user's id and
-- home directory, which `user.Current` gives, are arguments; an unset variable is empty.
pub mod Paths
mod Tests
use a_kerno.Common.{
  Bytes, bytes_eq, text, List, [], ◌∷◌, ◌++◌, Option, none, some, Bool, true, false, not, ◌||◌,
  drop, if◌then◌else◌,
}
use mathlib.Core.List.{reverse}
use a_kerno.Common.Assoc.{Assoc, insert}
use a_kerno.Text.{has_prefix, replace_all, split, join}

-- `os.Getenv` of each variable.
pub record Environ : Type 0 where
  pub config_home : Bytes
  pub runtime_dir : Bytes
  pub kerno_sock : Bytes
  pub indexd_sock : Bytes
  pub skripto_sock : Bytes
  pub tondujo_sock : Bytes
  pub dosierago_sock : Bytes
  pub xdg_runtime_dir : Bytes

-- The user's id and home directory.
pub record User : Type 0 where
  pub uid : Bytes
  pub home : Bytes

-- `envOrDefault`, on the value of the variable.
abbrev pub env_or_default : Bytes → Bytes → Bytes
env_or_default value default = if not (bytes_eq value []) then value else default

-- `adeRuntimeDir`
abbrev pub ade_runtime_dir : Environ → User → Bytes
ade_runtime_dir env user =
    if not (bytes_eq env.runtime_dir []) then env.runtime_dir else text "/tmp/ade-" ++ user.uid

abbrev pub xdg_runtime : Environ → User → Bytes
xdg_runtime env user =
    if bytes_eq env.xdg_runtime_dir [] then text "/run/user/" ++ user.uid else env.xdg_runtime_dir

-- The placeholders of `expandVar`, one after the other.
unfoldable pub expand_placeholders : Environ → User → Bytes → Bytes
expand_placeholders env user s =
    let s₁ = replace_all (text "${UID}") user.uid s in
    let s₂ = replace_all (text "${HOME}") user.home s₁ in
    let s₃ = replace_all (text "${XDG_RUNTIME_DIR}") (xdg_runtime env user) s₂ in
    replace_all (text "${ADE_RUNTIME_DIR}") (ade_runtime_dir env user) s₃

-- A leading `~` is the home directory.
abbrev pub expand_tilde : User → Bytes → Bytes
expand_tilde user path = if has_prefix (text "~") path then user.home ++ drop 1 path else path

-- `expandVar`
unfoldable pub expand_var : Environ → User → Bytes → Bytes
expand_var env user path = expand_placeholders env user (expand_tilde user path)

abbrev pub default_config_home : Bytes
default_config_home = text "~/.config/ade"

abbrev pub default_runtime_dir : Bytes
default_runtime_dir = text "/tmp/ade-${UID}"

abbrev pub default_kerno_sock : Bytes
default_kerno_sock = text "${ADE_RUNTIME_DIR}/kerno"

-- One component of a path on those before it, the last one first, as `filepath.Clean` reads it.
abbrev pub push_component : Bool → List Bytes → Bytes → List Bytes
push_component rooted done part =
    if bytes_eq part [] || bytes_eq part (text ".")
    then done
    else if not (bytes_eq part (text ".."))
    then part ∷ done
    else elim done [
      | [] ↦ if rooted then [] else part ∷ []
      | last ∷ before ↦ if bytes_eq last (text "..") then part ∷ last ∷ before else before
    ]

unfoldable pub clean_components : Bool → List Bytes → List Bytes → List Bytes
clean_components rooted done [] = done
clean_components rooted done (part ∷ parts) =
    clean_components rooted (push_component rooted done part) parts

-- `filepath.Clean`
unfoldable pub clean : Bytes → Bytes
unfolding clean_components
clean path =
    let rooted = has_prefix (text "/") path in
    let parts = reverse (clean_components rooted [] (split b'/' path)) in
    let joined = join (text "/") parts in
    if rooted then text "/" ++ joined else if bytes_eq joined [] then text "." else joined

-- `filepath.Join` of a directory and a name that is not empty.
unfoldable pub join_path : Bytes → Bytes → Bytes
unfolding clean
join_path dir name = clean (if bytes_eq dir [] then name else dir ++ (text "/" ++ name))

pub record Config : Type 0 where
  pub config_home : Bytes
  pub runtime_dir : Bytes
  pub kerno_sock : Bytes
  pub daemons_ini : Bytes
  pub kerno_ini : Bytes
  pub autostart_dir : Bytes
  pub daemon_sockets : Assoc Bytes

abbrev pub add_socket : Environ → User → Bytes → Bytes → Assoc Bytes → Assoc Bytes
add_socket env user name value sockets =
    if not (bytes_eq value []) then insert name (expand_var env user value) sockets else sockets

-- `collectSockets`
unfoldable pub collect_sockets : Environ → User → Assoc Bytes
collect_sockets env user = add_socket env user (text "a-dosierago") env.dosierago_sock (
    add_socket env user (text "a-tondujo") env.tondujo_sock (
      add_socket env user (text "a-skripto") env.skripto_sock
        (add_socket env user (text "a-lancxo") env.indexd_sock [])))

-- `KernoSock`, with its second default.
abbrev pub kerno_sock_path : Environ → User → Bytes
kerno_sock_path env user =
    let path = expand_var env user (env_or_default env.kerno_sock default_kerno_sock) in
    if bytes_eq path [] then expand_var env user default_kerno_sock else path

-- `Init`, once the user is known.
unfoldable pub init : Environ → User → Config
unfolding expand_var
init env user =
    let home = expand_var env user (env_or_default env.config_home default_config_home) in
    record {
      config_home = home;
      runtime_dir = expand_var env user (env_or_default env.runtime_dir default_runtime_dir);
      kerno_sock = kerno_sock_path env user;
      daemons_ini = join_path home (text "daemons.ini");
      kerno_ini = join_path home (text "a-kerno.ini");
      autostart_dir = join_path home (text "autostart");
      daemon_sockets = collect_sockets env user;
    }
