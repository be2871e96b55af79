-- ===== src/Manifest/Planning.antt =====
-- Concrete locks and plans (odoo_forge/manifest/locking.py, projection.py), and the theorems at them.
use odoo_forge.Base.Equality.{string_dec}
use odoo_forge.Manifest.Composition.{check_edition, check_overrides, check_reserved_layer_names}
use odoo_forge.Base.{arith, ◌≡◌, refl, String, true, false, ℕ, List, [], ◌∷◌, none, some, ok, map}
use odoo_forge.Base.Effects.{pure}
use odoo_forge.Manifest.{Manifest, Layer, git, published, enterprise, Lockfile}
use odoo_forge.Manifest.Drift.{manifest_lock_drift}
use odoo_forge.Manifest.Locking.{Providers, build_lock}
use odoo_forge.Manifest.Structure.{validate_lock_structure}
use odoo_forge.Manifest.Locked.{IsExact, build_lock-valid}
use odoo_forge.Manifest.Projection.{
  WorkspacePlanEntry, UnlockPlan, plan_projection, plan_unlock, default_container_roots,
}
use odoo_forge.Base.Lists.{All}
use odoo_forge.Base.FilePath.{FilePath}
use odoo_forge.Manifest.Mounts.{ScannedRepo, MountEvidence, materialize_state}
use odoo_forge.Manifest.View.{Scan, build_mount_planning_view}
use odoo_forge.Manifest.Backed.{IsBacked, build_mount_planning_view-IsBacked}
use odoo_forge.Manifest.Placed.{facts, locked_repos, plan_projection_complete}

abbrev sale : Layer
sale = git (record {
  name = "sale";
  repos = record { url = "a.git"; ref = "19.0" } ∷ [];
  category = "custom";
})

abbrev theme : Layer
theme = published (record {
  name = "theme";
  source = "registry/theme";
  version = "1";
  category = "design";
  requires_enterprise = true;
})

abbrev shop : Manifest
shop = record {
  name = "shop";
  odoo_version = "19.0";
  edition = enterprise;
  core = record { url = "odoo.git"; ref = none };
  enterprise_source = some (record { url = "ent.git"; ref = some "e" });
  layers = sale ∷ theme ∷ [];
  client = record { addons_path = "addons"; python_requirements = none };
  overrides = record { layer = "sale"; repo = "a.git"; fork = "b.git"; ref = "fix" } ∷ [];
  workspace = none;
  backend = none;
  mount_priority = [];
}

abbrev providers : Providers ℕ String
providers = record {
  resolve_ref = λ url ref. pure "c";
  resolve = λ source version. pure (record { source = source; version = version; digest = "d" });
  is_digest = λ d. true;
}

providers-IsExact : IsExact providers
providers-IsExact = record { exact = λ source version w r h. ground arith }

abbrev hash : Manifest → String
hash m = "h"

abbrev lock : Lockfile
lock = record {
  schema_version = 2;
  generated_from = "h";
  git_layers =
      record { name = "core"; repos = record { url = "odoo.git"; ref = "19.0"; commit = "c" } ∷ [] }
      ∷ record {
        name = "enterprise";
        repos = record { url = "ent.git"; ref = "e"; commit = "c" } ∷ [];
      }
      ∷ record { name = "sale"; repos = record { url = "b.git"; ref = "fix"; commit = "c" } ∷ [] }
      ∷ [];
  published_layers =
      record { name = "theme"; source = "registry/theme"; version = "1"; digest = "d" } ∷ [];
}

locks : (build_lock providers hash shop 0).0 ≡ ok lock
unfolding build_lock check_reserved_layer_names string_dec check_edition check_overrides
locks = refl

build_lock-valid_example :
    (validate_lock_structure shop lock ≡ ok tt) × (manifest_lock_drift hash shop (some lock) ≡ [])
build_lock-valid_example = build_lock-valid providers providers-IsExact hash shop 0 lock locks

abbrev name_of : String → String
name_of url = url

plan_projection_complete_example :
    (steps : List WorkspacePlanEntry) × (plan_projection name_of shop lock
        (default_container_roots shop)
      ≡ ok steps)
    × (map facts steps ≡ locked_repos lock.git_layers)
plan_projection_complete_example =
    plan_projection_complete name_of shop lock build_lock-valid_example.0

abbrev unlocked : UnlockPlan
unlocked = record {
  source = "mnt" ∷ "custom" ∷ "default" ∷ "sale" ∷ "b.git" ∷ [];
  dest = "mnt" ∷ "worktrees" ∷ "sale" ∷ "b.git" ∷ [];
  branch = "unlock/sale/b.git";
}

unlocks : plan_unlock name_of shop "sale" "a.git" (default_container_roots shop) ≡ ok unlocked
unfolding plan_unlock default_container_roots
unlocks = refl

abbrev checkout_of : FilePath → String → ScannedRepo
checkout_of path url = record { path = path; url = url; commit = "c" }

abbrev scan : Scan
scan = record {
  scanned =
      checkout_of ("mnt" ∷ "community" ∷ "core" ∷ "odoo.git" ∷ []) "odoo.git"
      ∷ checkout_of ("mnt" ∷ "worktrees" ∷ "sale" ∷ "b.git" ∷ []) "b.git"
      ∷ checkout_of ("mnt" ∷ "custom" ∷ "default" ∷ "sale" ∷ "b.git" ∷ []) "b.git"
      ∷ checkout_of ("mnt" ∷ "enterprise" ∷ "enterprise" ∷ "ent.git" ∷ []) "ent.git"
      ∷ [];
  state = record {
    layers =
        record { name = "core"; repos = record { url = "odoo.git"; commit = "c" } ∷ [] }
        ∷ record { name = "sale"; repos = record { url = "b.git"; commit = "c" } ∷ [] }
        ∷ record { name = "enterprise"; repos = record { url = "ent.git"; commit = "c" } ∷ [] }
        ∷ [];
  };
  roots = default_container_roots shop;
  container_roots = none;
}

abbrev shop_mounts : List MountEvidence
shop_mounts =
    record {
      layer = "core";
      url = "odoo.git";
      source_path = "mnt" ∷ "community" ∷ "core" ∷ "odoo.git" ∷ [];
      container_path = "mnt" ∷ "community" ∷ "core" ∷ "odoo.git" ∷ [];
      read_only = true;
    }
    ∷ record {
      layer = "enterprise";
      url = "ent.git";
      source_path = "mnt" ∷ "enterprise" ∷ "enterprise" ∷ "ent.git" ∷ [];
      container_path = "mnt" ∷ "enterprise" ∷ "enterprise" ∷ "ent.git" ∷ [];
      read_only = true;
    }
    ∷ record {
      layer = "sale";
      url = "b.git";
      source_path = "mnt" ∷ "worktrees" ∷ "sale" ∷ "b.git" ∷ [];
      container_path = "mnt" ∷ "custom" ∷ "default" ∷ "sale" ∷ "b.git" ∷ [];
      read_only = false;
    }
    ∷ []

views : build_mount_planning_view hash name_of shop (some lock) scan ≡ ok shop_mounts
unfolding build_mount_planning_view validate_lock_structure odoo_forge.Manifest.Composition.compose
    check_reserved_layer_names check_edition check_overrides odoo_forge.Base.Equality.list_dec
    plan_projection odoo_forge.Manifest.Mounts.container_paths default_container_roots
views = refl

materializes : materialize_state scan.scanned (default_container_roots shop) ≡ ok scan.state
unfolding materialize_state default_container_roots
materializes = refl

build_mount_planning_view-IsBacked_example :
    All (IsBacked scan.scanned (locked_repos lock.git_layers)) shop_mounts
build_mount_planning_view-IsBacked_example =
    build_mount_planning_view-IsBacked hash name_of shop lock scan shop_mounts views
