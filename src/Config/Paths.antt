-- ===== src/Config/Paths.antt =====
-- The management socket of internal/config/config.go and the runtime directory it should stand in.
use a_kerno.Common.{◌≡◌, refl, Bytes, bytes_eq, text, [], ◌∷◌, ◌++◌, false}
use a_kerno.Config.{
  Environ, User, ade_runtime_dir, xdg_runtime, expand_placeholders, expand_var, default_kerno_sock,
  init,
}
use a_kerno.Text.{has_prefix, replace_all, replace_from}
use a_kerno.Text.Laws.{Lacks, replace_all-Lacks}

-- A path with nothing to expand: no `$` in it and no `~` before it.
abbrev pub Plain : Bytes → Type 0
Plain path = Lacks b'$' path × (has_prefix (text "~") path ≡ false)

pub expand_var-Plain :
    (env : Environ) (user : User) (path : Bytes) → Plain path → expand_var env user path ≡ path
unfolding expand_var expand_placeholders
expand_var-Plain env user path (lacks, head) =
    rw
      (
        head,
        replace_all-Lacks b'$' (text "{UID}") user.uid path lacks,
        replace_all-Lacks b'$' (text "{HOME}") user.home path lacks,
        replace_all-Lacks b'$' (text "{XDG_RUNTIME_DIR}") (xdg_runtime env user) path lacks,
        replace_all-Lacks b'$' (text "{ADE_RUNTIME_DIR}") (ade_runtime_dir env user) path lacks,
      )
      refl

expand_var-default_kerno_sock :
    (env : Environ) (user : User)
    → expand_var env user default_kerno_sock ≡ ade_runtime_dir env user ++ text "/kerno"
unfolding expand_var expand_placeholders replace_all replace_from has_prefix
expand_var-default_kerno_sock env user = refl

nonempty : (path : Bytes) → bytes_eq (path ++ text "/kerno") [] ≡ false
unfolding bytes_eq
nonempty [] = refl
nonempty (c ∷ path) = refl

-- With ADE_KERNO_SOCK unset, the management socket is named `kerno` in the text that ADE_RUNTIME_DIR
-- holds (or in the default directory), whatever in that text is still to be expanded.
pub default_socket-raw :
    (env : Environ) (user : User)
    → env.kerno_sock ≡ []
    → (init env user).kerno_sock ≡ ade_runtime_dir env user ++ text "/kerno"
unfolding init bytes_eq expand_placeholders
default_socket-raw env user unset =
    let path = expand_var-default_kerno_sock env user in
    rw (unset, path, nonempty (ade_runtime_dir env user)) refl

runtime_dir-Plain :
    (env : Environ) (user : User)
    → Plain env.runtime_dir
    → bytes_eq env.runtime_dir [] ≡ false
    → (init env user).runtime_dir ≡ env.runtime_dir
unfolding init
runtime_dir-Plain env user plain set = rw set (expand_var-Plain env user env.runtime_dir plain)

-- With ADE_KERNO_SOCK unset and ADE_RUNTIME_DIR set to a path that holds no `$` and does not begin
-- with `~`, the management socket is named `kerno` in the runtime directory.
pub default_socket-runtime_dir :
    (env : Environ) (user : User)
    → env.kerno_sock ≡ []
    → Plain env.runtime_dir
    → bytes_eq env.runtime_dir [] ≡ false
    → (init env user).kerno_sock ≡ (init env user).runtime_dir ++ text "/kerno"
default_socket-runtime_dir env user unset plain set =
    let named = default_socket-raw env user unset in
    let named_in : (init env user).kerno_sock ≡ env.runtime_dir ++ text "/kerno" =
      rw (set) at named in
    rw (runtime_dir-Plain env user plain set) named_in
