-- ===== src/Feature/Laws.antt =====
-- What the operations of internal/feature/registry.go do to each name, and the order of its listing.
use mathlib.Core.List.{Perm}
use a_kerno.Common.{
  ◌≡◌, refl, Bytes, bytes_eq, bytes_eq_iff, bytes_less_asym, map, Option, none, some, Bool, false,
  if◌then◌else◌, arith,
}
use a_kerno.Common.Assoc.{lookup, lookup-insert}
use a_kerno.Common.Sorting.{IsSorted, sort-perm, sort-IsSorted}
use a_kerno.Feature.{Feature, Registry, register, set_ready, update, get, by_name, list_features}

-- `Register` makes the named feature new and not ready, and leaves the others.
pub get-register :
    (name other version socket : Bytes) (r : Registry)
    → get (register name version socket r) other ≡ (
        if bytes_eq name other
        then some (record { name = name; version = version; socket = socket; ready = false })
        else get r other)
unfolding get register
get-register name other version socket r = lookup-insert name other _ r

abbrev pub marked : Bool → Option Feature → Option Feature
marked ready none = none
marked ready (some f) = some (record f { ready = ready })

get-update :
    (name other : Bytes) (ready : Bool) (found : Option Feature) (r : Registry)
    → lookup name r ≡ found
    → lookup other (update name ready found r)
      ≡ (if bytes_eq name other then marked ready found else lookup other r)
get-update name other ready none r h = ground (arith, bytes_eq_iff name other)
get-update name other ready (some f) r h = lookup-insert name other (record f { ready = ready }) r

-- `SetReady` marks the named feature if it is registered, changes nothing else of it, and leaves
-- every other name as it was.
pub get-set_ready :
    (name other : Bytes) (ready : Bool) (r : Registry)
    → get (set_ready name ready r) other
      ≡ (if bytes_eq name other then marked ready (get r name) else get r other)
unfolding get set_ready
get-set_ready name other ready r = get-update name other ready (lookup name r) r refl

-- `List` returns the registered features, each once, with no name before a smaller one.
pub list_features_lem :
    (r : Registry)
    → IsSorted by_name (list_features r) × Perm (list_features r) (map (λ entry. entry.1) r)
unfolding list_features
list_features_lem r =
    let features = map (λ (entry : Bytes × Feature). entry.1) r in
    (
      sort-IsSorted by_name (λ a b. bytes_less_asym a.name b.name) features,
      sort-perm by_name features,
    )
