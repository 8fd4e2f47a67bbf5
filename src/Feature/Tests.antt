-- ===== src/Feature/Tests.antt =====
-- Runs of the feature registry, and its theorems at concrete inputs.
use a_kerno.Common.{◌≡◌, refl, bytes_less, text, [], ◌∷◌, true, false}
use a_kerno.Common.Sorting.{sort}
use a_kerno.Feature.{Feature, Registry, export_env}

abbrev web : Feature
web = record { name = text "web"; version = text "0.0.0"; socket = []; ready = true }

abbrev two_features : Registry
two_features =
    (text "web", web) ∷ (text "index", record web { name = text "index"; ready = false }) ∷ []

export_runs : export_env two_features ≡ text "index:0.0.0:0,web:0.0.0:1"
unfolding export_env sort bytes_less
export_runs = refl
