-- ===== src/Manifest/Projection.antt =====
-- odoo_forge/manifest/projection.py: where the layers of a manifest are mounted, the plan that places
-- the locked repositories, and the promotion of one of them. The name that a repository's address
-- gives to its directory (`_repo_name`, over `urllib`) is a parameter.
use Prim.Native.String.{◌++◌ as text_append}
use odoo_forge.Base.{
  String, not, ◌&&◌, List, [], ◌∷◌, ◌++◌, map, Option, none, some, Result, ok, err, if◌then◌else◌,
  ◌==◌, string_eq,
}
use odoo_forge.Base.Equality.{string_dec}
use odoo_forge.Base.Dict.{Dict, lookup, put}
use odoo_forge.Base.FilePath.{FilePath, ◌//◌}
use odoo_forge.Base.Lists.{contains, find}
use odoo_forge.Base.Sorting.{sort, text_le}
use odoo_forge.Base.Effects.{Exec, pure, ◌>>◌}
use odoo_forge.Manifest.{
  SourceLayer, Layer, published, git, Override, Manifest, ResolvedRepo, ResolvedGitLayer, Lockfile,
}

-- ProjectionError, and the KeyError of a table of roots that lacks one.
pub data ProjectionError : Type 0 where
  orphaned_layer undeclared_repo missing_root : String → ProjectionError

pub record WorkspacePlanEntry : Type 0 where
  pub mount_root : String
  pub layer : String
  pub url : String
  pub commit : String
  pub target_path : FilePath

pub record UnlockPlan : Type 0 where
  pub source : FilePath
  pub dest : FilePath
  pub branch : String

-- CoreLayer | EnterpriseLayer | GitLayer | PublishedLayer
pub data AnyLayer : Type 0 where
  core enterprise : SourceLayer → AnyLayer
  declared : Layer → AnyLayer

abbrev pub Roots : Type 0
Roots = Dict String FilePath

abbrev pub category_of : Layer → String
category_of (published l) = l.category
category_of (git l) = l.category

-- _custom_category_folder
unfoldable pub custom_category_folder : String → String
unfolding string_dec
custom_category_folder category = if category == "custom" then "default" else category

-- _custom_root_key
unfoldable pub custom_root_key : String → String
unfolding custom_category_folder
custom_root_key category = text_append "custom/" (custom_category_folder category)

unfoldable pub distinct : List String → List String
unfolding contains string_dec
distinct [] = []
distinct (s ∷ ss) = let rest = distinct ss in if contains ss s then rest else s ∷ rest

unfoldable pub put_categories : FilePath → List String → Roots → Roots
unfolding put custom_root_key custom_category_folder ◌//◌
put_categories base [] roots = roots
put_categories base (c ∷ cs) roots =
    put_categories base cs
      (put (custom_root_key c) (base // "custom" // custom_category_folder c) roots)

unfoldable pub system_roots : FilePath → Roots
unfolding ◌//◌
system_roots base =
    ("community", base // "community")
    ∷ ("enterprise", base // "enterprise")
    ∷ ("worktrees", base // "worktrees")
    ∷ []

-- build_mount_roots
unfoldable pub build_mount_roots : FilePath → Option Manifest → Roots
unfolding system_roots put_categories sort distinct put
build_mount_roots base none = put "custom" (base // "custom") (system_roots base)
build_mount_roots base (some m) =
    put_categories base (sort text_le (distinct (map category_of m.layers))) (system_roots base)

abbrev pub container_mount_base : FilePath
container_mount_base = "mnt" ∷ []

-- _default_container_roots
unfoldable pub default_container_roots : Manifest → Roots
unfolding build_mount_roots
default_container_roots m = build_mount_roots container_mount_base (some m)

-- classify_root
unfoldable pub classify_root : AnyLayer → String
unfolding custom_root_key
classify_root (core _) = "community"
classify_root (enterprise _) = "enterprise"
classify_root (declared l) = custom_root_key (category_of l)

unfoldable pub name_of : Layer → String
name_of (published l) = l.name
name_of (git l) = l.name

unfoldable pub put_layers : List Layer → Dict String AnyLayer → Dict String AnyLayer
unfolding put name_of
put_layers [] d = d
put_layers (l ∷ layers) d = put_layers layers (put (name_of l) (declared l) d)

unfoldable pub with_enterprise : Option SourceLayer → Dict String AnyLayer → Dict String AnyLayer
unfolding put
with_enterprise none d = d
with_enterprise (some l) d = put "enterprise" (enterprise l) d

-- manifest_layers_by_name
unfoldable pub layers_by_name : Manifest → Dict String AnyLayer
unfolding put_layers with_enterprise put
layers_by_name m =
    put_layers m.layers (with_enterprise m.enterprise_source (("core", core m.core) ∷ []))

-- the lookup of a table that raises
unfoldable pub or_missing : String → Option FilePath → Result ProjectionError FilePath
or_missing key none = err (missing_root key)
or_missing key (some path) = ok path

unfoldable pub root_at : Roots → String → Result ProjectionError FilePath
unfolding or_missing
root_at roots key = or_missing key (lookup key roots)

module _ (repo_name : String → String) where
  unfoldable pub layer_steps :
      String → String → FilePath → List ResolvedRepo → List WorkspacePlanEntry
  unfolding ◌//◌
  layer_steps root layer base [] = []
  layer_steps root layer base (repo ∷ repos) =
      record {
        mount_root = root;
        layer = layer;
        url = repo.url;
        commit = repo.commit;
        target_path = base // layer // repo_name repo.url;
      }
      ∷ layer_steps root layer base repos

  unfoldable pub and_then_steps :
      Result ProjectionError (List WorkspacePlanEntry)
      → Result ProjectionError (List WorkspacePlanEntry)
      → Result ProjectionError (List WorkspacePlanEntry)
  and_then_steps (err e) rest = err e
  and_then_steps (ok steps) (err e) = err e
  and_then_steps (ok steps) (ok more) = ok (steps ++ more)

  unfoldable pub steps_at :
      String
      → String
      → List ResolvedRepo
      → Result ProjectionError FilePath
      → Result ProjectionError (List WorkspacePlanEntry)
  unfolding layer_steps
  steps_at root layer repos (err e) = err e
  steps_at root layer repos (ok base) = ok (layer_steps root layer base repos)

  -- the table of roots is read once a repository is placed
  unfoldable pub placed_repos :
      Roots → String → String → List ResolvedRepo → Result ProjectionError (List WorkspacePlanEntry)
  unfolding root_at steps_at
  placed_repos roots root layer [] = ok []
  placed_repos roots root layer (r ∷ repos) = steps_at root layer (r ∷ repos) (root_at roots root)

  -- the steps of one locked layer
  unfoldable pub placed :
      Roots → ResolvedGitLayer → Option AnyLayer → Result ProjectionError (List WorkspacePlanEntry)
  unfolding classify_root placed_repos
  placed roots locked none = err (orphaned_layer locked.name)
  placed roots locked (some layer) =
      placed_repos roots (classify_root layer) locked.name locked.repos

  unfoldable pub place :
      Dict String AnyLayer
      → Roots
      → List ResolvedGitLayer
      → Result ProjectionError (List WorkspacePlanEntry)
  unfolding placed and_then_steps lookup
  place names roots [] = ok []
  place names roots (locked ∷ layers) =
      and_then_steps (placed roots locked (lookup locked.name names)) (place names roots layers)

  -- plan_projection
  unfoldable pub plan_projection :
      Manifest → Lockfile → Roots → Result ProjectionError (List WorkspacePlanEntry)
  unfolding place layers_by_name
  plan_projection m lock roots = place (layers_by_name m) roots lock.git_layers

  declared_urls : AnyLayer → List String
  declared_urls (core l) = l.url ∷ []
  declared_urls (enterprise l) = l.url ∷ []
  declared_urls (declared (git l)) = map (λ r. r.url) l.repos
  declared_urls (declared (published l)) = []

  -- the fork of the first override of the layer's repository, if there is one
  effective_url : List Override → String → String → String
  unfolding find
  effective_url overrides layer url =
      elim (find (λ o. o.layer == layer && o.repo == url) overrides) [
        | none ↦ url
        | some o ↦ o.fork
      ]

  unlock_at :
      String
      → String
      → FilePath
      → Result ProjectionError FilePath
      → Result ProjectionError UnlockPlan
  unfolding ◌//◌
  unlock_at layer name source (err e) = err e
  unlock_at layer name source (ok worktrees) = ok (record {
    source = source // layer // name;
    dest = worktrees // layer // name;
    branch = text_append "unlock/" (text_append layer (text_append "/" name));
  })

  unlock_from :
      Roots → String → String → Result ProjectionError FilePath → Result ProjectionError UnlockPlan
  unfolding unlock_at root_at
  unlock_from roots layer name (err e) = err e
  unlock_from roots layer name (ok base) = unlock_at layer name base (root_at roots "worktrees")

  unlock_layer :
      Manifest → Roots → String → String → Option AnyLayer → Result ProjectionError UnlockPlan
  unfolding declared_urls effective_url contains unlock_from root_at classify_root
  unlock_layer m roots layer url none = err (orphaned_layer layer)
  unlock_layer m roots layer url (some matched) =
      if not (contains (declared_urls matched) url)
      then err (undeclared_repo layer)
      else unlock_from roots layer (repo_name (effective_url m.overrides layer url))
          (root_at roots (classify_root matched))

  -- plan_unlock
  unfoldable pub plan_unlock :
      Manifest → String → String → Roots → Result ProjectionError UnlockPlan
  unfolding unlock_layer layers_by_name lookup
  plan_unlock m layer url roots = unlock_layer m roots layer url (lookup layer (layers_by_name m))

  -- project_workspace, over any `checkout`
  unfoldable pub project_workspace :
      {W Fault : Type 0}
      → (String → String → FilePath → Exec W Fault (Unit {0}))
      → List WorkspacePlanEntry
      → Exec W Fault (Unit {0})
  project_workspace checkout [] = pure tt
  project_workspace checkout (step ∷ steps) = do
    checkout step.url step.commit step.target_path
    project_workspace checkout steps
