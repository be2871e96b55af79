-- ===== src/Manifest/Structure.antt =====
-- `_validate_lock_structure` of odoo_forge/manifest/projection.py: whether a lock is of its manifest.
use odoo_forge.Base.{
  String, not, ◌||◌, List, [], ◌∷◌, ◌++◌, map, Option, none, some, Result, ok, err, if◌then◌else◌,
  ◌==◌, Eq, string_eq,
}
use odoo_forge.Base.Equality.{string_dec, list_dec, list_eq}
use odoo_forge.Manifest.{
  GitRepo, SourceLayer, Layer, published, git, Override, Manifest, ResolvedRepo, ResolvedGitLayer,
  ResolvedPublishedLayer, Lockfile,
}
use odoo_forge.Manifest.Composition.{CompositionError, ChainEntry, compose}
use odoo_forge.Manifest.Locking.{resolve_default_ref, override_at, effective}

-- A name with its repositories, each an address and a reference.
pub record GitShape : Type 0 where
  pub name : String
  pub repos : List (String × String)

pub record PublishedShape : Type 0 where
  pub name : String
  pub source : String
  pub version : String

unfoldable pub pair_dec : Discrete (String × String)
pair_dec = hlevel string_dec

unfoldable pub git_shape_dec : Discrete GitShape
git_shape_dec = hlevel (string_dec, list_dec pair_dec)

unfoldable pub published_shape_dec : Discrete PublishedShape
published_shape_dec = hlevel string_dec

instance abbrev pub git_shape_eq : Eq GitShape
git_shape_eq = record { dec = git_shape_dec }

instance abbrev pub published_shape_eq : Eq PublishedShape
published_shape_eq = record { dec = published_shape_dec }

-- MountPlanningError, and what composition raises
pub data StructureError : Type 0 where
  incoherent : CompositionError → StructureError
  structural_mismatch : StructureError

unfoldable pub expected_source : String → SourceLayer → String → GitShape
unfolding resolve_default_ref
expected_source name layer version = record {
  name = name;
  repos = (layer.url, resolve_default_ref layer version) ∷ [];
}

unfoldable pub expected_repos : String → List Override → List GitRepo → List (String × String)
unfolding override_at effective
expected_repos layer overrides [] = []
expected_repos layer overrides (repo ∷ repos) =
    effective repo (override_at layer repo.url overrides) ∷ expected_repos layer overrides repos

unfoldable pub expected_git : List Override → List Layer → List GitShape
unfolding expected_repos
expected_git overrides [] = []
expected_git overrides (git l ∷ layers) =
    record { name = l.name; repos = expected_repos l.name overrides l.repos }
    ∷ expected_git overrides layers
expected_git overrides (published l ∷ layers) = expected_git overrides layers

unfoldable pub expected_published : List Layer → List PublishedShape
expected_published [] = []
expected_published (git l ∷ layers) = expected_published layers
expected_published (published l ∷ layers) =
    record { name = l.name; source = l.source; version = l.version } ∷ expected_published layers

unfoldable pub expected_enterprise : String → Option SourceLayer → List GitShape
unfolding expected_source
expected_enterprise version none = []
expected_enterprise version (some layer) = expected_source "enterprise" layer version ∷ []

unfoldable pub expected_layers : Manifest → List GitShape
unfolding expected_source expected_enterprise expected_git
expected_layers m =
    expected_source "core" m.core m.odoo_version
      ∷ expected_enterprise m.odoo_version m.enterprise_source
    ++ expected_git m.overrides m.layers

abbrev pub repo_shape : ResolvedRepo → String × String
repo_shape r = (r.url, r.ref)

abbrev pub git_shape : ResolvedGitLayer → GitShape
git_shape l = record { name = l.name; repos = map repo_shape l.repos }

abbrev pub published_shape : ResolvedPublishedLayer → PublishedShape
published_shape l = record { name = l.name; source = l.source; version = l.version }

unfoldable pub compared : Manifest → Lockfile → Result StructureError (Unit {0})
unfolding expected_layers expected_published git_shape_dec published_shape_dec
compared m lock =
    if not (expected_layers m == map git_shape lock.git_layers)
      || not (expected_published m.layers == map published_shape lock.published_layers)
    then err structural_mismatch
    else ok tt

unfoldable pub after_composition :
    Manifest
    → Lockfile
    → Result CompositionError (List ChainEntry)
    → Result StructureError (Unit {0})
unfolding compared
after_composition m lock (ok _) = compared m lock
after_composition m lock (err e) = err (incoherent e)

-- _validate_lock_structure
unfoldable pub validate_lock_structure : Manifest → Lockfile → Result StructureError (Unit {0})
unfolding after_composition
validate_lock_structure m lock = after_composition m lock (compose m)
