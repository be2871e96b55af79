-- ===== src/Manifest/Locking.antt =====
-- odoo_forge/manifest/locking.py and resolution.py: a coherent manifest pinned to commits and digests.
-- The two providers, the hash of a manifest and the pattern of a digest are parameters.
use odoo_forge.Base.{
  String, Bool, true, false, ◌&&◌, List, [], ◌∷◌, ◌++◌, Option, none, some, Result, ok, err,
  if◌then◌else◌, ◌==◌, string_eq,
}
use odoo_forge.Base.Effects.{Exec, pure, raise, ◌>>=◌, ◌>>◌}
use odoo_forge.Manifest.{
  GitRepo, SourceLayer, Layer, PublishedLayer, GitLayer, published, git, Override, Manifest,
  ResolvedRepo, ResolvedGitLayer, ResolvedPublishedLayer, Lockfile,
}
use odoo_forge.Manifest.Composition.{CompositionError, ChainEntry, compose}

-- PublishedArtifactResolution
pub record PublishedArtifactResolution : Type 0 where
  pub source : String
  pub version : String
  pub digest : String

-- What a lock ends in: an incoherent manifest, a provider's failure, or a digest that is refused.
pub data LockError (Fault : Type 0) : Type 0 where
  incoherent : CompositionError → LockError Fault
  resolution : Fault → LockError Fault
  invalid_digest : LockError Fault

-- SourceProvider and PublishedArtifactResolver
pub record Providers (W Fault : Type 0) : Type 0 where
  pub resolve_ref : String → String → Exec W Fault String
  pub resolve : String → String → Exec W Fault PublishedArtifactResolution
  pub is_digest : String → Bool

-- resolve_default_ref
unfoldable pub resolve_default_ref : SourceLayer → String → String
resolve_default_ref layer version = elim layer.ref [ none ↦ version | some ref ↦ ref ]

unfoldable pub or_later : Option Override → Bool → Override → Option Override
or_later (some o) test first = some o
or_later none true first = some first
or_later none false first = none

-- {(o.layer, o.repo): o for o in manifest.overrides}.get((layer, url)): the last of a key
unfoldable pub override_at : String → String → List Override → Option Override
unfolding or_later
override_at layer url [] = none
override_at layer url (o ∷ overrides) =
    or_later (override_at layer url overrides) (o.layer == layer && o.repo == url) o

-- what an override leaves of a repository: its address and its reference
unfoldable pub effective : GitRepo → Option Override → String × String
effective repo none = (repo.url, repo.ref)
effective repo (some o) = (o.fork, o.ref)

module _ {W Fault : Type 0} (providers : Providers W Fault) where
  abbrev pub Locking : Type 0 → Type 0
  Locking A = Exec W (LockError Fault) A

  abbrev pub provided : {A : Type 0} → Exec W Fault A → Locking A
  provided m w =
      let (r, after) = m w in (elim r [ ok a ↦ ok a | err e ↦ err (resolution e) ], after)

  unfoldable pub pinned : String × String → Locking ResolvedRepo
  pinned at = do
    commit ← provided (providers.resolve_ref at.0 at.1)
    pure (record { url = at.0; ref = at.1; commit = commit })

  -- _resolve_core, _resolve_enterprise
  unfoldable pub resolve_source : String → SourceLayer → String → Locking ResolvedGitLayer
  unfolding pinned resolve_default_ref
  resolve_source name layer version = do
    repo ← pinned (layer.url, resolve_default_ref layer version)
    pure (record { name = name; repos = repo ∷ [] })

  -- _resolve_repo
  unfoldable pub resolve_repo : String → List Override → GitRepo → Locking ResolvedRepo
  unfolding pinned override_at effective
  resolve_repo layer overrides repo = pinned (effective repo (override_at layer repo.url overrides))

  unfoldable pub resolve_repos : String → List Override → List GitRepo → Locking (List ResolvedRepo)
  unfolding resolve_repo
  resolve_repos layer overrides [] = pure []
  resolve_repos layer overrides (repo ∷ repos) = do
    first ← resolve_repo layer overrides repo
    rest ← resolve_repos layer overrides repos
    pure (first ∷ rest)

  -- _resolve_git_layer
  unfoldable pub resolve_git_layer : List Override → GitLayer → Locking ResolvedGitLayer
  unfolding resolve_repos
  resolve_git_layer overrides layer = do
    repos ← resolve_repos layer.name overrides layer.repos
    pure (record { name = layer.name; repos = repos })

  unfoldable pub resolve_published : PublishedLayer → Locking ResolvedPublishedLayer
  resolve_published layer = do
    found ← provided (providers.resolve layer.source layer.version)
    if providers.is_digest found.digest
        then pure (record {
          name = layer.name;
          source = found.source;
          version = found.version;
          digest = found.digest;
        })
        else raise invalid_digest

  -- the loop of `build_lock` over the layers of the manifest
  unfoldable pub resolve_layers :
      List Override → List Layer → Locking (List ResolvedGitLayer × List ResolvedPublishedLayer)
  unfolding resolve_git_layer resolve_published
  resolve_layers overrides [] = pure ([], [])
  resolve_layers overrides (git layer ∷ layers) = do
    first ← resolve_git_layer overrides layer
    rest ← resolve_layers overrides layers
    pure (first ∷ rest.0, rest.1)
  resolve_layers overrides (published layer ∷ layers) = do
    first ← resolve_published layer
    rest ← resolve_layers overrides layers
    pure (rest.0, first ∷ rest.1)

  unfoldable pub resolve_enterprise : String → Option SourceLayer → Locking (List ResolvedGitLayer)
  unfolding resolve_source
  resolve_enterprise version none = pure []
  resolve_enterprise version (some layer) = do
    resolved ← resolve_source "enterprise" layer version
    pure (resolved ∷ [])

  -- build_lock, once the manifest composes
  unfoldable pub resolve_manifest : (Manifest → String) → Manifest → Locking Lockfile
  unfolding resolve_source resolve_enterprise resolve_layers
  resolve_manifest compute_manifest_hash m = do
    core ← resolve_source "core" m.core m.odoo_version
    enterprise ← resolve_enterprise m.odoo_version m.enterprise_source
    layers ← resolve_layers m.overrides m.layers
    pure (record {
      schema_version = 2;
      generated_from = compute_manifest_hash m;
      git_layers = core ∷ enterprise ++ layers.0;
      published_layers = layers.1;
    })

  unfoldable pub coherent : Result CompositionError (List ChainEntry) → Locking (Unit {0})
  coherent (ok _) = pure tt
  coherent (err e) = raise (incoherent e)

  -- build_lock
  unfoldable pub build_lock : (Manifest → String) → Manifest → Locking Lockfile
  unfolding compose coherent resolve_manifest
  build_lock compute_manifest_hash m = do
    coherent (compose m)
    resolve_manifest compute_manifest_hash m
