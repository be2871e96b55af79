-- ===== src/Manifest/Locked.antt =====
-- A lock that `build_lock` (odoo_forge/manifest/locking.py) returns passes what
-- odoo_forge/manifest/projection.py asks of a lock before it plans mounts.
use odoo_forge.Base.{
  ◌≡◌, refl, ap, String, List, [], ◌∷◌, ◌++◌, map, Option, none, some, Result, ok, err, ==_iff,
  string_eq,
}
use mathlib.Core.List.{map-append}
use odoo_forge.Base.Equality.{list_eq}
use odoo_forge.Base.Effects.{Exec, pure, ◌>>=◌}
use odoo_forge.Base.Hoare.{
  After, Hoare, returned, pure_rule, raise_rule, if_rule, bind_rule, weaken_post,
}
use odoo_forge.Manifest.{
  GitRepo, SourceLayer, Layer, PublishedLayer, GitLayer, published, git, Override, Manifest,
  ResolvedGitLayer, ResolvedPublishedLayer, Lockfile,
}
use odoo_forge.Manifest.Composition.{CompositionError, ChainEntry, compose}
use odoo_forge.Manifest.Drift.{manifest_lock_drift}
use odoo_forge.Manifest.Locking
use odoo_forge.Manifest.Locking.{
  Providers, PublishedArtifactResolution, LockError, resolution, build_lock, effective, override_at,
  resolve_default_ref,
}
use odoo_forge.Manifest.Structure
use odoo_forge.Manifest.Structure.{
  StructureError, validate_lock_structure, repo_shape, git_shape, published_shape, expected_repos,
  expected_git, expected_published, expected_enterprise, expected_source, expected_layers,
  git_shape_eq, published_shape_eq,
}

module _ {W Fault : Type 0} where
  -- What a step returns, if it returns.
  abbrev pub Gives : {A : Type 0} → Exec W (LockError Fault) A → (A → Type 0) → Type 0
  Gives m K = Hoare (λ _. Unit {0}) m (λ a _. K a) (λ _. Unit {0})

  then_gives :
      {A B : Type 0} {m : Exec W (LockError Fault) A} {f : A → Exec W (LockError Fault) B}
      {K : A → Type 0} {R : B → Type 0}
      → Gives m K
      → ((a : A) → K a → Gives (f a) R)
      → Gives (m >>= f) R
  then_gives first rest = bind_rule first (λ a. record { holds = λ s k. (rest a k).holds s tt })

  given : {A : Type 0} {K : A → Type 0} (a : A) → K a → Gives (pure a) K
  given a k = pure_rule a (λ s _. k)

module _ {W Fault A : Type 0} (providers : Providers W Fault) where
  answered :
      (K : A → Type 0) (r : Result Fault A) (s : W)
      → ((a : A) → r ≡ ok a → K a)
      → After {S = W} {E = LockError Fault}
          (λ a _. K a)
          (λ _. Unit {0})
          (elim r [ ok a ↦ ok a | err e ↦ err (resolution e) ])
          s
  answered K (ok a) s known = known a refl
  answered K (err e) s known = tt

  provided_gives :
      (port : Exec W Fault A) (K : A → Type 0)
      → ((w : W) (a : A) → (port w).0 ≡ ok a → K a)
      → Gives (Locking.provided providers port) K
  provided_gives port K known = record { holds = λ s _. answered K (port s).0 (port s).1 (known s) }

module _ {W Fault A : Type 0} {K : Type 0} {R : A → Type 0} {m : Exec W (LockError Fault) A} where
  -- What was known before is known after.
  framed_gives : K → Gives m R → Gives m (λ a. K × R a)
  framed_gives k h = weaken_post (λ a s r. (k, r)) h

-- The resolver answers with the source and the version that it was asked for.
pub record IsExact {W Fault : Type 0} (providers : Providers W Fault) : Type 0 where
  pub exact :
      (source version : String) (w : W) (r : PublishedArtifactResolution)
      → (providers.resolve source version w).0 ≡ ok r
      → (r.source ≡ source) × (r.version ≡ version)

module _ {W Fault : Type 0} (providers : Providers W Fault) (honest : IsExact providers) where
  pinned_gives :
      (at : String × String) → Gives (Locking.pinned providers at) (λ r. repo_shape r ≡ at)
  unfolding Locking.pinned
  pinned_gives at =
      then_gives {K = λ _. Unit {0}}
        (provided_gives providers (providers.resolve_ref at.0 at.1) (λ _. Unit {0}) (λ _ _ _. tt))
        (λ commit _. given (record { url = at.0; ref = at.1; commit = commit }) refl)

  source_gives :
      (name : String) (layer : SourceLayer) (version : String)
      → Gives
          (Locking.resolve_source providers name layer version)
          (λ l. git_shape l ≡ expected_source name layer version)
  unfolding Locking.resolve_source expected_source
  source_gives name layer version =
      then_gives (pinned_gives (layer.url, resolve_default_ref layer version))
        (λ repo shape. given _ (ap (λ at. record { name = name; repos = at ∷ [] }) shape))

  repos_give :
      (layer : String) (overrides : List Override) (repos : List GitRepo)
      → Gives
          (Locking.resolve_repos providers layer overrides repos)
          (λ rs. map repo_shape rs ≡ expected_repos layer overrides repos)
  unfolding Locking.resolve_repos expected_repos Locking.resolve_repo
  repos_give layer overrides [] = given _ refl
  repos_give layer overrides (repo ∷ repos) =
      then_gives (pinned_gives (effective repo (override_at layer repo.url overrides))) (λ r first.
        then_gives (repos_give layer overrides repos) (λ rs rest. given _ (cons first rest)))
    where
      cons : {A : Type 0} {x y : A} {xs ys : List A} → x ≡ y → xs ≡ ys → x ∷ xs ≡ y ∷ ys
      cons p q = cc (p, q)

  git_gives :
      (overrides : List Override) (layer : GitLayer)
      → Gives (Locking.resolve_git_layer providers overrides layer) (λ l.
        git_shape l
        ≡ record { name = layer.name; repos = expected_repos layer.name overrides layer.repos })
  unfolding Locking.resolve_git_layer
  git_gives overrides layer =
      then_gives (repos_give layer.name overrides layer.repos)
        (λ repos shape. given _ (ap (λ at. record { name = layer.name; repos = at }) shape))

  published_gives :
      (layer : PublishedLayer)
      → Gives (Locking.resolve_published providers layer) (λ l.
        published_shape l
        ≡ record { name = layer.name; source = layer.source; version = layer.version })
  unfolding Locking.resolve_published
  published_gives layer =
      then_gives
        (provided_gives providers (providers.resolve layer.source layer.version)
          (λ r. (r.source ≡ layer.source) × (r.version ≡ layer.version))
          (honest.exact layer.source layer.version))
        (λ found same.
          if_rule (providers.is_digest found.digest)
            (λ _.
              given
                (record {
                  name = layer.name;
                  source = found.source;
                  version = found.version;
                  digest = found.digest;
                })
                (cc (same.0, same.1)))
            (λ _. raise_rule _ (λ s _. tt)))

  -- The layers of both kinds, as the manifest expects them.
  abbrev Fits :
      List Override → List Layer → List ResolvedGitLayer × List ResolvedPublishedLayer → Type 0
  Fits overrides layers r =
      (map git_shape r.0 ≡ expected_git overrides layers)
      × (map published_shape r.1 ≡ expected_published layers)

  layers_give :
      (overrides : List Override) (layers : List Layer)
      → Gives (Locking.resolve_layers providers overrides layers) (Fits overrides layers)
  unfolding Locking.resolve_layers expected_git expected_published
  layers_give overrides [] = given _ (refl, refl)
  layers_give overrides (git layer ∷ layers) =
      then_gives (git_gives overrides layer) (λ first shape.
        then_gives (layers_give overrides layers)
          (λ rest fits. given (first ∷ rest.0, rest.1) (cc (shape, fits.0), fits.1)))
  layers_give overrides (published layer ∷ layers) =
      then_gives (published_gives layer) (λ first shape.
        then_gives (layers_give overrides layers)
          (λ rest fits. given (rest.0, first ∷ rest.1) (fits.0, cc (shape, fits.1))))

  enterprise_gives :
      (version : String) (layer : Option SourceLayer)
      → Gives
          (Locking.resolve_enterprise providers version layer)
          (λ ls. map git_shape ls ≡ expected_enterprise version layer)
  unfolding Locking.resolve_enterprise expected_enterprise
  enterprise_gives version none = given [] refl
  enterprise_gives version (some layer) =
      then_gives (source_gives "enterprise" layer version)
        (λ resolved shape. given (resolved ∷ []) (ap (λ l. l ∷ []) shape))

  -- A lock of the manifest: its hash, and its layers.
  record IsLockOf (hash : Manifest → String) (m : Manifest) (lock : Lockfile) : Type 0 where
    from_manifest : lock.generated_from ≡ hash m
    git_fits : map git_shape lock.git_layers ≡ expected_layers m
    published_fits : map published_shape lock.published_layers ≡ expected_published m.layers

  joined :
      (m : Manifest) (core : ResolvedGitLayer) (enterprise others : List ResolvedGitLayer)
      → git_shape core ≡ expected_source "core" m.core m.odoo_version
      → map git_shape enterprise ≡ expected_enterprise m.odoo_version m.enterprise_source
      → map git_shape others ≡ expected_git m.overrides m.layers
      → map git_shape (core ∷ enterprise ++ others) ≡ expected_layers m
  unfolding expected_layers
  joined m core enterprise others c e o = rw (map-append git_shape enterprise others, c, e, o)

  manifest_gives :
      (hash : Manifest → String) (m : Manifest)
      → Gives (Locking.resolve_manifest providers hash m) (IsLockOf hash m)
  unfolding Locking.resolve_manifest
  manifest_gives hash m = then_gives (source_gives "core" m.core m.odoo_version) (λ core c.
      then_gives (enterprise_gives m.odoo_version m.enterprise_source) (λ enterprise e.
        then_gives (layers_give m.overrides m.layers) (λ layers fits. given _ (record {
          from_manifest = refl;
          git_fits = joined m core enterprise layers.0 c e fits.0;
          published_fits = fits.1;
        }))))

  coherent_gives :
      (r : Result CompositionError (List ChainEntry))
      → Gives (Locking.coherent providers r) (λ _. (c : List ChainEntry) × (r ≡ ok c))
  unfolding Locking.coherent
  coherent_gives (ok c) = given tt (c, refl)
  coherent_gives (err e) = raise_rule _ (λ s _. tt)

  lock_gives :
      (hash : Manifest → String) (m : Manifest)
      → Gives
          (build_lock providers hash m)
          (λ lock. ((c : List ChainEntry) × (compose m ≡ ok c)) × IsLockOf hash m lock)
  unfolding build_lock
  lock_gives hash m =
      then_gives (coherent_gives (compose m))
        (λ _ coherent. framed_gives coherent (manifest_gives hash m))

  structure_of :
      (hash : Manifest → String) (m : Manifest) (lock : Lockfile)
      → ((c : List ChainEntry) × (compose m ≡ ok c)) × IsLockOf hash m lock
      → validate_lock_structure m lock ≡ ok tt
  unfolding validate_lock_structure Structure.after_composition Structure.compared
  structure_of hash m lock h = rw (
    h.0.1,
    h.1.git_fits,
    h.1.published_fits,
    (==_iff (expected_layers m) (expected_layers m)).1 refl,
    (==_iff (expected_published m.layers) (expected_published m.layers)).1 refl,
  )

  fresh :
      (hash : Manifest → String) (m : Manifest) (lock : Lockfile)
      → IsLockOf hash m lock
      → manifest_lock_drift hash m (some lock) ≡ []
  unfolding manifest_lock_drift
  fresh hash m lock h = rw ((==_iff lock.generated_from (hash m)).1 h.from_manifest)

  -- With a resolver that answers with the source and the version that it was asked for, a lock that
  -- `build_lock` returns passes the structural validation that mount planning makes against the
  -- manifest, overrides included, and shows no drift from it.
  pub build_lock-valid :
      (hash : Manifest → String) (m : Manifest) (w : W) (lock : Lockfile)
      → (build_lock providers hash m w).0 ≡ ok lock
      → (validate_lock_structure m lock ≡ ok tt) × (manifest_lock_drift hash m (some lock) ≡ [])
  build_lock-valid hash m w lock e =
      let h = returned _ (λ _. Unit {0}) _ _ ((lock_gives hash m).holds w tt) e in
      (structure_of hash m lock h, fresh hash m lock h.1)
