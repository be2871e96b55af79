-- ===== src/Manifest/Drift.antt =====
-- odoo_forge/manifest/drift.py: manifest against lock, and lock against what is materialized. The hash
-- of a manifest (SHA-256 of JSON) is a parameter.
pub mod Clean
use odoo_forge.Base.{
  String, Bool, true, false, not, ◌&&◌, List, [], ◌∷◌, ◌++◌, Option, none, some, is_empty,
  if◌then◌else◌, ◌==◌, string_eq,
}
use odoo_forge.Manifest.{
  Manifest, Lockfile, ResolvedRepo, ResolvedGitLayer, MaterializedRepo, MaterializedLayer,
  MaterializedState,
}

pub data DriftKind : Type 0 where
  manifest_lock_hash missing_lock not_materialized commit_mismatch : DriftKind

pub record DriftEntry : Type 0 where
  pub kind : DriftKind
  pub layer : Option String
  pub repo : Option String
  pub expected : Option String
  pub actual : Option String

pub record DriftReport : Type 0 where
  pub manifest_lock_drift : List DriftEntry
  pub lock_state_drift : List DriftEntry

unfoldable pub is_clean : DriftReport → Bool
is_clean r = is_empty r.manifest_lock_drift && is_empty r.lock_state_drift

or_earlier : {A : Type 0} → Option A → Bool → A → Option A
or_earlier (some b) test a = some b
or_earlier none true a = some a
or_earlier none false a = none

-- {layer.name: layer for layer in layers}.get(name): the last of a name
unfoldable pub layer_named : String → List MaterializedLayer → Option MaterializedLayer
unfolding or_earlier
layer_named name [] = none
layer_named name (l ∷ layers) = or_earlier (layer_named name layers) (l.name == name) l

-- {repo.url: repo for repo in repos}.get(url)
unfoldable pub repo_at : String → List MaterializedRepo → Option MaterializedRepo
unfolding or_earlier
repo_at url [] = none
repo_at url (r ∷ repos) = or_earlier (repo_at url repos) (r.url == url) r

repo_drift : String → ResolvedRepo → Option MaterializedRepo → List DriftEntry
repo_drift layer repo none =
    record {
      kind = not_materialized;
      layer = some layer;
      repo = some repo.url;
      expected = none;
      actual = none;
    }
    ∷ []
repo_drift layer repo (some found) =
    if not (found.commit == repo.commit)
    then record {
      kind = commit_mismatch;
      layer = some layer;
      repo = some repo.url;
      expected = some repo.commit;
      actual = some found.commit;
    }
      ∷ []
    else []

-- the inner loop of `_lock_state_drift`
unfoldable pub repos_drift : String → List MaterializedRepo → List ResolvedRepo → List DriftEntry
unfolding repo_drift
repos_drift layer found [] = []
repos_drift layer found (repo ∷ repos) =
    repo_drift layer repo (repo_at repo.url found) ++ repos_drift layer found repos

layer_drift : ResolvedGitLayer → Option MaterializedLayer → List DriftEntry
unfolding repos_drift
layer_drift locked none =
    record {
      kind = not_materialized;
      layer = some locked.name;
      repo = none;
      expected = none;
      actual = none;
    }
    ∷ []
layer_drift locked (some found) = repos_drift locked.name found.repos locked.repos

unfoldable pub layers_drift : List MaterializedLayer → List ResolvedGitLayer → List DriftEntry
unfolding layer_drift
layers_drift found [] = []
layers_drift found (locked ∷ layers) =
    layer_drift locked (layer_named locked.name found) ++ layers_drift found layers

-- _lock_state_drift
unfoldable pub lock_state_drift : Option Lockfile → Option MaterializedState → List DriftEntry
unfolding layers_drift
lock_state_drift none state = []
lock_state_drift (some lock) none = []
lock_state_drift (some lock) (some state) = layers_drift state.layers lock.git_layers

module _ (compute_manifest_hash : Manifest → String) where
  -- _manifest_lock_drift
  unfoldable pub manifest_lock_drift : Manifest → Option Lockfile → List DriftEntry
  manifest_lock_drift m none =
      record { kind = missing_lock; layer = none; repo = none; expected = none; actual = none } ∷ []
  manifest_lock_drift m (some lock) =
      if not (lock.generated_from == compute_manifest_hash m)
      then record {
        kind = manifest_lock_hash;
        layer = none;
        repo = none;
        expected = some (compute_manifest_hash m);
        actual = some lock.generated_from;
      }
        ∷ []
      else []

  unfoldable pub detect_drift : Manifest → Option Lockfile → Option MaterializedState → DriftReport
  detect_drift m lock state = record {
    manifest_lock_drift = manifest_lock_drift m lock;
    lock_state_drift = lock_state_drift lock state;
  }
