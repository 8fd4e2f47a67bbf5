-- ===== src/Config/Tests.antt =====
-- Examples for internal/config.
use a_kerno.Common.{◌≡◌, refl, Bytes, text, [], ◌∷◌, bytes_eq}
use a_kerno.Common.Assoc.{insert}
use a_kerno.Text.{has_prefix, replace_all, replace_from, split, split_from, join}
use a_kerno.Config.{
  Environ, User, expand_var, expand_placeholders, join_path, clean, clean_components,
  collect_sockets, init,
}

abbrev user : User
user = record { uid = text "7"; home = text "/home/u" }

abbrev with_runtime_dir : Bytes → Environ
with_runtime_dir dir = record {
  config_home = [];
  runtime_dir = dir;
  kerno_sock = [];
  indexd_sock = text "~/indexd";
  skripto_sock = [];
  tondujo_sock = [];
  dosierago_sock = [];
  xdg_runtime_dir = [];
}

expanded : expand_var (with_runtime_dir []) user (text "~/a/${UID}") ≡ text "/home/u/a/7"
unfolding expand_var expand_placeholders replace_all replace_from has_prefix bytes_eq
expanded = refl

joined : join_path (text "/a/./b/../c/") (text "x") ≡ text "/a/c/x"
unfolding join_path clean clean_components split split_from join has_prefix bytes_eq
joined = refl

one_socket :
    collect_sockets (with_runtime_dir []) user ≡ (text "a-lancxo", text "/home/u/indexd") ∷ []
unfolding collect_sockets expand_var expand_placeholders replace_all replace_from has_prefix
    bytes_eq insert
one_socket = refl

-- The runtime directory of the same environment is another path.
expanded_runtime_dir :
    (init (with_runtime_dir (text "~/run")) user).runtime_dir ≡ text "/home/u/run"
unfolding init expand_var expand_placeholders replace_all replace_from has_prefix bytes_eq
expanded_runtime_dir = refl
