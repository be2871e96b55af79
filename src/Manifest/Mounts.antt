-- ===== src/Manifest/Mounts.antt =====
-- odoo_forge/manifest/projection.py: scanned checkouts as a materialized state, and the mounts that a
-- lock, the scan and the state agree on.
use odoo_forge.Base.{
  String, Bool, true, false, not, ◌&&◌, List, [], ◌∷◌, ◌++◌, map, Option, none, some, Result, ok,
  err, if◌then◌else◌, ◌==◌, Eq, string_eq,
}
use odoo_forge.Base.Equality.{string_dec, list_dec, list_eq}
use odoo_forge.Base.Dict.{Dict, lookup, put, values}
use odoo_forge.Base.FilePath.{FilePath, ◌//◌, relative_to}
use odoo_forge.Base.Lists.{contains}
use odoo_forge.Base.Sorting.{text_le}
use odoo_forge.Base.Results.{◌>>=◌, ◌>>◌, ensure}
use odoo_forge.Manifest.{MaterializedRepo, MaterializedState}
use odoo_forge.Manifest.Structure.{StructureError, pair_dec}
use odoo_forge.Manifest.Projection.{ProjectionError, WorkspacePlanEntry, Roots, root_at}

pub record ScannedRepo : Type 0 where
  pub path : FilePath
  pub url : String
  pub commit : String

pub record MountEvidence : Type 0 where
  pub layer : String
  pub url : String
  pub source_path : FilePath
  pub container_path : FilePath
  pub read_only : Bool

-- A layer and the address of a repository.
abbrev pub Identity : Type 0
Identity = String × String

instance abbrev pub identity_eq : Eq Identity
identity_eq = record { dec = pair_dec }

unfoldable pub path_dec : Discrete FilePath
path_dec = list_dec string_dec

instance abbrev pub path_eq : Eq FilePath
path_eq = record { dec = path_dec }

-- MountPlanningError and ScanError, and what the parts raise.
pub data MountError : Type 0 where
  lock_required manifest_drift duplicate_identities conflicting_paths : MountError
  structure : StructureError → MountError
  projection : ProjectionError → MountError
  unmatched_path : FilePath → MountError
  unexpected incoherent_path duplicate_evidence commit_drift missing_evidence :
      Identity → MountError
  duplicate_materialized materialized_drift : Identity → MountError
  materialized_mismatch : MountError

-- _match_root_and_layer, at the path relative to one root
unfoldable pub matched_parts : String → List String → Option (String × String)
matched_parts root (layer ∷ _ ∷ _) = some (root, layer)
matched_parts root _ = none

unfoldable pub or_next_root :
    String → Option (List String) → Option (String × String) → Option (String × String)
unfolding matched_parts
or_next_root root none next = next
or_next_root root (some parts) next = matched_parts root parts

-- _match_root_and_layer
unfoldable pub match_root_and_layer : FilePath → Roots → Option (String × String)
unfolding or_next_root relative_to
match_root_and_layer path [] = none
match_root_and_layer path ((root, base) ∷ roots) =
    or_next_root root (relative_to path base) (match_root_and_layer path roots)

abbrev pub ByLayer : Type 0
ByLayer = Dict String (Dict String MaterializedRepo)

unfoldable pub or_empty : Option (Dict String MaterializedRepo) → Dict String MaterializedRepo
or_empty none = []
or_empty (some d) = d

-- layers.setdefault(layer, {})[repo.url] = MaterializedRepo(…)
unfoldable pub set_repo : String → ScannedRepo → ByLayer → ByLayer
unfolding put lookup or_empty
set_repo layer repo layers =
    put layer
      (put repo.url (record { url = repo.url; commit = repo.commit })
        (or_empty (lookup layer layers)))
      layers

-- What the first loop of `materialize_state` has gathered.
pub record Gathered : Type 0 where
  pub layers : ByLayer
  pub worktree_entries : List (String × ScannedRepo)

unfoldable pub gather_repo :
    Gathered → ScannedRepo → Option (String × String) → Result MountError Gathered
unfolding set_repo string_dec
gather_repo g repo none = err (unmatched_path repo.path)
gather_repo g repo (some (root, layer)) = ok (
    if root == "worktrees"
    then record g { worktree_entries = g.worktree_entries ++ (layer, repo) ∷ [] }
    else record g { layers = set_repo layer repo g.layers })

unfoldable pub gather : Roots → List ScannedRepo → Gathered → Result MountError Gathered
unfolding gather_repo match_root_and_layer
gather roots [] g = ok g
gather roots (repo ∷ scanned) g = do
  next ← gather_repo g repo (match_root_and_layer repo.path roots)
  gather roots scanned next

unfoldable pub promote : List (String × ScannedRepo) → ByLayer → ByLayer
unfolding set_repo
promote [] layers = layers
promote ((layer, repo) ∷ entries) layers = promote entries (set_repo layer repo layers)

-- materialize_state
unfoldable pub materialize_state : List ScannedRepo → Roots → Result MountError MaterializedState
unfolding gather promote
materialize_state scanned roots = do
  g ← gather roots scanned (record { layers = []; worktree_entries = [] })
  ok (record {
    layers =
        map (λ e. record { name = e.0; repos = values e.1 }) (promote g.worktree_entries g.layers);
  })

abbrev pub identity_of : WorkspacePlanEntry → Identity
identity_of step = (step.layer, step.url)

-- {(step.layer, step.url): step for step in plan.steps}
unfoldable pub expected_of :
    List WorkspacePlanEntry → Dict Identity WorkspacePlanEntry → Dict Identity WorkspacePlanEntry
unfolding put pair_dec
expected_of [] d = d
expected_of (step ∷ steps) d = expected_of steps (put (identity_of step) step d)

unfoldable pub are_distinct : List FilePath → Bool
unfolding contains path_dec
are_distinct [] = true
are_distinct (p ∷ ps) = not (contains ps p) && are_distinct ps

-- The evidence of one repository: at most one checkout of each kind.
pub record Sources : Type 0 where
  pub worktree : Option ScannedRepo
  pub read_only : Option ScannedRepo

abbrev pub is_none : {A : Type 0} → Option A → Bool
is_none none = true
is_none (some _) = false

unfoldable pub or_none : Option Sources → Sources
or_none none = record { worktree = none; read_only = none }
or_none (some s) = s

-- worktree, or else read_only
unfoldable pub authoritative : Sources → Option ScannedRepo
authoritative s = elim s.worktree [ some r ↦ some r | none ↦ s.read_only ]

abbrev pub projected : {A : Type 0} → Result ProjectionError A → Result MountError A
projected (ok a) = ok a
projected (err e) = err (projection e)

abbrev pub structured : Result StructureError (Unit {0}) → Result MountError (Unit {0})
structured (ok _) = ok tt
structured (err e) = err (structure e)

abbrev pub or_fail : {A : Type 0} → MountError → Option A → Result MountError A
or_fail e none = err e
or_fail e (some a) = ok a

unfoldable pub identity_le : Identity → Identity → Bool
unfolding string_dec
identity_le a b = if a.0 == b.0 then text_le a.1 b.1 else text_le a.0 b.0

module _ (repo_name : String → String) where
  unfoldable pub container_path : Roots → WorkspacePlanEntry → Result MountError FilePath
  unfolding root_at ◌//◌
  container_path container_roots step = do
    base ← projected (root_at container_roots step.mount_root)
    ok (base // step.layer // repo_name step.url)

  unfoldable pub container_paths :
      Roots → List WorkspacePlanEntry → Result MountError (List FilePath)
  unfolding container_path
  container_paths container_roots [] = ok []
  container_paths container_roots (step ∷ steps) = do
    first ← container_path container_roots step
    rest ← container_paths container_roots steps
    ok (first ∷ rest)

  unfoldable pub put_source :
      Bool
      → Identity
      → ScannedRepo
      → Dict Identity Sources
      → Result MountError (Dict Identity Sources)
  unfolding lookup put pair_dec or_none
  put_source is_worktree identity repo sources =
      let found = or_none (lookup identity sources) in
      if is_worktree
      then (do
        ensure (is_none found.worktree) (duplicate_evidence identity)
        ok (put identity (record found { worktree = some repo }) sources))
      else (do
        ensure (is_none found.read_only) (duplicate_evidence identity)
        ok (put identity (record found { read_only = some repo }) sources))

  -- one turn of the loop over the scanned checkouts
  unfoldable pub admit :
      Dict Identity WorkspacePlanEntry
      → Roots
      → Dict Identity Sources
      → ScannedRepo
      → Result MountError (Dict Identity Sources)
  unfolding match_root_and_layer lookup pair_dec root_at ◌//◌ path_dec put_source string_dec
  admit expected roots sources repo = do
    match ← or_fail (unmatched_path repo.path) (match_root_and_layer repo.path roots)
    let identity : Identity = (match.1, repo.url)
    step ← or_fail (unexpected identity) (lookup identity expected)
    base ←
        projected (root_at roots (if match.0 == "worktrees" then "worktrees" else step.mount_root))
    ensure (repo.path == base // match.1 // repo_name repo.url) (incoherent_path identity)
    put_source (match.0 == "worktrees") identity repo sources

  unfoldable pub admit_all :
      Dict Identity WorkspacePlanEntry
      → Roots
      → Dict Identity Sources
      → List ScannedRepo
      → Result MountError (Dict Identity Sources)
  unfolding admit
  admit_all expected roots sources [] = ok sources
  admit_all expected roots sources (repo ∷ scanned) = do
    next ← admit expected roots sources repo
    admit_all expected roots next scanned

  -- the loop that compares the selected commits with the locked ones
  unfoldable pub check_commits :
      Dict Identity WorkspacePlanEntry → Dict Identity Sources → Result MountError (Unit {0})
  unfolding authoritative lookup pair_dec string_dec
  check_commits expected [] = ok tt
  check_commits expected ((identity, found) ∷ sources) = do
    selected ← or_fail (missing_evidence identity) (authoritative found)
    step ← or_fail (unexpected identity) (lookup identity expected)
    ensure (selected.commit == step.commit) (commit_drift identity)
    check_commits expected sources

  unfoldable pub mount :
      Roots
      → Dict Identity Sources
      → Identity
      → WorkspacePlanEntry
      → Result MountError MountEvidence
  unfolding lookup pair_dec or_none authoritative container_path
  mount container_roots sources identity step = do
    let found = or_none (lookup identity sources)
    evidence ← or_fail (missing_evidence identity) (authoritative found)
    target ← container_path container_roots step
    ok (record {
      layer = step.layer;
      url = step.url;
      source_path = evidence.path;
      container_path = target;
      read_only = is_none found.worktree;
    })

  unfoldable pub mount_all :
      Roots
      → Dict Identity Sources
      → Dict Identity WorkspacePlanEntry
      → Result MountError (List MountEvidence)
  unfolding mount
  mount_all container_roots sources [] = ok []
  mount_all container_roots sources ((identity, step) ∷ steps) = do
    first ← mount container_roots sources identity step
    rest ← mount_all container_roots sources steps
    ok (first ∷ rest)
