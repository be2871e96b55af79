-- ===== src/Manifest/Examples.antt =====
-- The manifest theorems at a manifest with one layer and one override.
use odoo_forge.Base.{String, ◌≡◌, ◌≢◌, ◌↔◌, true, [], ◌∷◌, none, some, ok, ◌⊎◌}
use odoo_forge.Base.Lists.{All}
use odoo_forge.Manifest.{Manifest, Layer, git, enterprise, community, Lockfile, MaterializedState}
use odoo_forge.Manifest.Drift.{detect_drift, is_clean}
use odoo_forge.Manifest.Drift.Clean.{detect_drift-clean_iff, IsInPlace}
use odoo_forge.Manifest.Composition.{compose, chain, layer_name}
use odoo_forge.Manifest.Composition.Coherence.{
  compose-ok_iff, IsForCommunity, IsDistinct, IsOverride,
}

abbrev sale : Layer
sale = git (record {
  name = "sale";
  repos = record { url = "a.git"; ref = "19.0" } ∷ [];
  category = "custom";
})

abbrev shop : Manifest
shop = record {
  name = "shop";
  odoo_version = "19.0";
  edition = community;
  core = record { url = "odoo.git"; ref = none };
  enterprise_source = none;
  layers = sale ∷ [];
  client = record { addons_path = "addons"; python_requirements = none };
  overrides = record { layer = "sale"; repo = "a.git"; fork = "b.git"; ref = "fix" } ∷ [];
  workspace = none;
  backend = none;
  mount_priority = [];
}

abbrev lock : Lockfile
lock = record {
  schema_version = 2;
  generated_from = "h1";
  git_layers =
      record { name = "sale"; repos = record { url = "b.git"; ref = "fix"; commit = "c1" } ∷ [] }
      ∷ [];
  published_layers = [];
}

abbrev checkout : MaterializedState
checkout = record {
  layers = record { name = "sale"; repos = record { url = "b.git"; commit = "c0" } ∷ [] } ∷ [];
}

abbrev hash : Manifest → String
hash _ = "h1"

detect_drift-clean_iff_example :
    (is_clean (detect_drift hash shop (some lock) (some checkout)) ≡ true) ↔ (
      (l : Lockfile) × (some lock ≡ some l)
      × (l.generated_from ≡ "h1")
      × IsInPlace l (some checkout))
detect_drift-clean_iff_example = detect_drift-clean_iff hash shop (some lock) (some checkout)

compose-ok_iff_example : (compose shop ≡ ok (chain shop)) ↔ (
    All (λ l. layer_name l ≢ "core") (sale ∷ [])
    × ((community ≡ enterprise) ⊎ All IsForCommunity (sale ∷ []))
    × IsDistinct shop.overrides
    × All (IsOverride (sale ∷ [])) shop.overrides)
compose-ok_iff_example = compose-ok_iff shop
