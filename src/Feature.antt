-- ===== src/Feature.antt =====
-- internal/feature/registry.go: the registry of ADE features. The lock is not modelled.
pub mod Laws
mod Tests
use a_kerno.Common.{
  Bytes, bytes_less, text, List, [], ◌∷◌, ◌++◌, Option, none, some, Bool, true, false, map,
  if◌then◌else◌,
}
use a_kerno.Common.Assoc.{Assoc, lookup, insert}
use a_kerno.Common.Sorting.{sort}
use a_kerno.Text.{join}

pub record Feature : Type 0 where
  pub name : Bytes
  pub version : Bytes
  pub socket : Bytes
  pub ready : Bool

abbrev pub Registry : Type 0
Registry = Assoc Feature

-- `NewRegistry`
abbrev pub new_registry : Registry
new_registry = []

-- `Register`
unfoldable pub register : Bytes → Bytes → Bytes → Registry → Registry
register name version socket r =
    insert name (record { name = name; version = version; socket = socket; ready = false }) r

abbrev pub update : Bytes → Bool → Option Feature → Registry → Registry
update name ready none r = r
update name ready (some f) r = insert name (record f { ready = ready }) r

-- `SetReady`
unfoldable pub set_ready : Bytes → Bool → Registry → Registry
set_ready name ready r = update name ready (lookup name r) r

-- `Get`
unfoldable pub get : Registry → Bytes → Option Feature
get r name = lookup name r

abbrev pub by_name : Feature → Feature → Bool
by_name a b = bytes_less a.name b.name

-- `List`
unfoldable pub list_features : Registry → List Feature
list_features r = sort by_name (map (λ entry. entry.1) r)

abbrev pub export_feature : Feature → Bytes
export_feature f =
    f.name ++ (text ":" ++ (f.version ++ (text ":" ++ (if f.ready then text "1" else text "0"))))

-- `ExportEnv`
unfoldable pub export_env : Registry → Bytes
unfolding list_features join
export_env r = join (text ",") (map export_feature (list_features r))
