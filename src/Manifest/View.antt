-- ===== src/Manifest/View.antt =====
-- odoo_forge/manifest/projection.py: `build_mount_planning_view`, and the check of the materialized
-- state against the mounts.
use odoo_forge.Base.{
  String, Bool, ◌&&◌, List, [], ◌∷◌, map, Option, none, some, Result, ok, err, ◌==◌, string_eq,
  is_empty, length,
}
use odoo_forge.Base.Equality.{string_dec}
use odoo_forge.Base.Text.{nat_eq, nat_dec}
use odoo_forge.Base.Dict.{Dict, lookup, put}
use odoo_forge.Base.Lists.{contains, all}
use odoo_forge.Base.Sorting.{sort}
use odoo_forge.Base.Results.{◌>>=◌, ◌>>◌, ensure}
use odoo_forge.Manifest.{Manifest, Lockfile, MaterializedRepo, MaterializedLayer, MaterializedState}
use odoo_forge.Manifest.Drift.{manifest_lock_drift}
use odoo_forge.Manifest.Structure.{validate_lock_structure, pair_dec}
use odoo_forge.Manifest.Projection.{
  WorkspacePlanEntry, Roots, default_container_roots, plan_projection,
}
use odoo_forge.Manifest.Mounts.{
  ScannedRepo, MountEvidence, Identity, identity_eq, identity_le, MountError, lock_required,
  manifest_drift, duplicate_identities, conflicting_paths, duplicate_materialized,
  materialized_drift, materialized_mismatch, expected_of, are_distinct, projected, structured,
  or_fail, container_paths, admit_all, check_commits, mount_all,
}

-- the two loops of `_validate_materialized_state` that read the state
unfoldable pub state_repos :
    String → List MaterializedRepo → Dict Identity String → Result MountError (Dict Identity String)
unfolding lookup put pair_dec
state_repos layer [] actual = ok actual
state_repos layer (repo ∷ repos) actual = elim (lookup (layer, repo.url) actual) [
  | some _ ↦ err (duplicate_materialized (layer, repo.url))
  | none ↦ state_repos layer repos (put (layer, repo.url) repo.commit actual)
]

unfoldable pub state_layers :
    List MaterializedLayer → Dict Identity String → Result MountError (Dict Identity String)
unfolding state_repos
state_layers [] actual = ok actual
state_layers (layer ∷ layers) actual = do
  next ← state_repos layer.name layer.repos actual
  state_layers layers next

-- `set(actual) == set(expected)`
unfoldable pub same_keys : {A B : Type 0} → Dict Identity A → Dict Identity B → Bool
unfolding contains all pair_dec
same_keys a b =
    all (λ e. contains (map (λ f. f.0) b) e.0) a && all (λ f. contains (map (λ e. e.0) a) f.0) b

unfoldable pub check_expected :
    Dict Identity String → Dict Identity WorkspacePlanEntry → Result MountError (Unit {0})
unfolding lookup pair_dec string_dec
check_expected actual [] = ok tt
check_expected actual ((identity, step) ∷ steps) = do
  commit ← or_fail (materialized_drift identity) (lookup identity actual)
  ensure (commit == step.commit) (materialized_drift identity)
  check_expected actual steps

-- _validate_materialized_state
unfoldable pub validate_materialized_state :
    MaterializedState → Dict Identity WorkspacePlanEntry → Result MountError (Unit {0})
unfolding state_layers same_keys check_expected
validate_materialized_state state expected = do
  actual ← state_layers state.layers []
  ensure (same_keys actual expected) materialized_mismatch
  check_expected actual expected

-- What `build_mount_planning_view` is given besides the manifest and the lock.
pub record Scan : Type 0 where
  pub scanned : List ScannedRepo
  pub state : MaterializedState
  pub roots : Roots
  pub container_roots : Option Roots

-- the table of the container, or else the default one
unfoldable pub or_default : Manifest → Option Roots → Roots
unfolding default_container_roots
or_default m none = default_container_roots m
or_default m (some roots) = roots

module _ (compute_manifest_hash : Manifest → String) (repo_name : String → String) where
  -- the checks of the lock, and the steps by repository
  unfoldable pub expected_steps :
      Manifest → Lockfile → Roots → Result MountError (Dict Identity WorkspacePlanEntry)
  unfolding manifest_lock_drift expected_of nat_dec are_distinct
  expected_steps m lock container_roots = do
    ensure (is_empty (manifest_lock_drift compute_manifest_hash m (some lock))) manifest_drift
    structured (validate_lock_structure m lock)
    steps ← projected (plan_projection repo_name m lock (default_container_roots m))
    let expected = expected_of steps []
    ensure (length expected == length steps) duplicate_identities
    paths ← container_paths repo_name container_roots steps
    ensure (are_distinct paths) conflicting_paths
    ok expected

  unfoldable pub planned_mounts :
      Scan → Roots → Dict Identity WorkspacePlanEntry → Result MountError (List MountEvidence)
  unfolding admit_all check_commits mount_all sort identity_le validate_materialized_state
  planned_mounts scan container_roots expected = do
    sources ← admit_all repo_name expected scan.roots [] scan.scanned
    check_commits repo_name expected sources
    mounts ←
        mount_all repo_name container_roots sources (sort (λ a b. identity_le a.0 b.0) expected)
    validate_materialized_state scan.state expected
    ok mounts

  -- build_mount_planning_view
  unfoldable pub build_mount_planning_view :
      Manifest → Option Lockfile → Scan → Result MountError (List MountEvidence)
  unfolding expected_steps planned_mounts or_default
  build_mount_planning_view m none scan = err lock_required
  build_mount_planning_view m (some lock) scan = do
    expected ← expected_steps m lock (or_default m scan.container_roots)
    planned_mounts scan (or_default m scan.container_roots) expected
