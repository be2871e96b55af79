-- ===== src/ControlPlane/Reconcile.antt =====
-- odoo_forge/control_plane/reconcile.py, odoo_forge/control_plane/models.py: the records of a scope
-- against what the backend shows. The registry is any, and the reader of statuses is a parameter.
pub mod Summary
pub mod Examples
use Prim.Native.String.{◌++◌ as text_append}
use odoo_forge.Base.{
  String, Bool, true, false, not, ◌&&◌, ◌||◌, List, [], ◌∷◌, map, Option, none, some, Result, ok,
  err, if◌then◌else◌, ◌==◌, Eq, string_eq, is_empty,
}
use odoo_forge.Base.Effects.{Exec}
use odoo_forge.Base.Lists.{any}
use odoo_forge.Base.Sorting.{sort, text_le}
use odoo_forge.Values.{InstancePointer, InstanceRecord, ProjectScope}
use odoo_forge.Registry.Port.{RegistryError, not_found, InstanceRegistry}
use odoo_forge.Backend.{InstanceRef, InstanceStatus, network_name}

pub data ReconciliationOutcome : Type 0 where
  fresh drifted stale_unverified empty persistence_error partial_failure : ReconciliationOutcome

unfoldable pub outcome_dec : Discrete ReconciliationOutcome
outcome_dec = hlevel

instance abbrev pub outcome_eq : Eq ReconciliationOutcome
outcome_eq = record { dec = outcome_dec }

pub record ReconciliationRow : Type 0 where
  pub stored : InstanceRecord
  pub live : Option InstanceStatus
  pub outcome : ReconciliationOutcome
  pub detail : Option String

pub record ReconciliationResult : Type 0 where
  pub outcome : ReconciliationOutcome
  pub rows : List ReconciliationRow
  pub detail : Option String

-- What the registry and the backend keep.
pub record Observed (R B : Type 0) : Type 0 where
  pub registry : R
  pub backend : B

-- _status_outcome
unfoldable pub status_outcome : InstanceStatus → ReconciliationOutcome
status_outcome s =
    if not s.odoo.running || not s.postgres.running
    then drifted
    else if not s.odoo.ready || not s.postgres.ready
    then drifted
    else fresh

abbrev is_stale : ReconciliationRow → Bool
is_stale row = row.outcome == stale_unverified

abbrev is_usable : ReconciliationRow → Bool
is_usable row = not (row.outcome == stale_unverified)

unfoldable pub mark_partial : ReconciliationRow → ReconciliationRow
unfolding outcome_dec
mark_partial row =
    if row.outcome == stale_unverified then record row { outcome = partial_failure } else row

-- the second half of `_reconcile`
unfoldable pub summarize : List ReconciliationRow → ReconciliationResult
unfolding any outcome_dec mark_partial
summarize rows =
    if any is_stale rows && any is_usable rows
    then record { outcome = partial_failure; rows = map mark_partial rows; detail = none }
    else if any (λ row. row.outcome == drifted) rows
    then record { outcome = drifted; rows = rows; detail = none }
    else if any is_stale rows
    then record { outcome = stale_unverified; rows = rows; detail = none }
    else record { outcome = fresh; rows = rows; detail = none }

unfoldable pub by_instance : InstanceRecord → InstanceRecord → Bool
by_instance r s = text_le r.pointer.instance_id s.pointer.instance_id

module _ {R B E : Type 0} (registry : InstanceRegistry R)
    (status : InstanceRef → Exec B E InstanceStatus) (lower digest : String → String) where
  -- _instance_ref: no handle where it raises
  unfoldable pub instance_ref : InstanceRecord → Option InstanceRef
  unfolding network_name
  instance_ref r =
      if not (r.resource.resource_kind == "instance")
        || not (
            r.resource.identifier
            == network_name lower digest r.pointer.scope.project_id r.pointer.instance_id)
      then none
      else some (record {
        project = r.pointer.scope.project_id;
        instance_name = r.pointer.instance_id;
        network = r.resource.identifier;
        postgres_container = text_append r.resource.identifier "-db";
        odoo_container = text_append r.resource.identifier "-odoo";
      })

  pub observed_row : InstanceRecord → Result E InstanceStatus → ReconciliationRow
  observed_row r (err e) = record {
    stored = r;
    live = none;
    outcome = stale_unverified;
    detail = some "live status could not be verified";
  }
  observed_row r (ok live) = record {
    stored = r;
    live = some live;
    outcome = status_outcome live;
    detail = none;
  }

  pub row_at : InstanceRecord → Option InstanceRef → B → ReconciliationRow × B
  unfolding observed_row
  row_at r none b = (
    record {
      stored = r;
      live = none;
      outcome = stale_unverified;
      detail = some "resource handle could not be verified";
    },
    b,
  )
  row_at r (some ref) b = let (answer, after) = status ref b in (observed_row r answer, after)

  -- _reconcile_row
  unfoldable pub reconcile_row : InstanceRecord → B → ReconciliationRow × B
  unfolding row_at
  reconcile_row r = row_at r (instance_ref r)

  unfoldable pub reconcile_rows : List InstanceRecord → B → List ReconciliationRow × B
  reconcile_rows [] b = ([], b)
  reconcile_rows (r ∷ rs) b =
      let (row, after) = reconcile_row r b in
      let (rows, last) = reconcile_rows rs after in (row ∷ rows, last)

  -- _reconcile
  unfoldable pub reconcile : List InstanceRecord → B → ReconciliationResult × B
  unfolding sort by_instance
  reconcile records b =
      if is_empty records
      then (record { outcome = empty; rows = []; detail = none }, b)
      else (let (rows, after) = reconcile_rows (sort by_instance records) b in
          (summarize rows, after))

  abbrev unreadable : ReconciliationResult
  unreadable = record {
    outcome = persistence_error;
    rows = [];
    detail = some "instance registry could not be read";
  }

  listed : Result RegistryError (List InstanceRecord) → B → ReconciliationResult × B
  listed (ok records) b = reconcile records b
  listed (err e) b = (unreadable, b)

  read : Result RegistryError InstanceRecord → B → ReconciliationResult × B
  read (ok r) b = reconcile (r ∷ []) b
  read (err (not_found p)) b = (record { outcome = empty; rows = []; detail = none }, b)
  read (err e) b = (unreadable, b)

  -- Reconciler.list
  unfoldable pub list : ProjectScope → Observed R B → ReconciliationResult × Observed R B
  unfolding listed
  list scope o =
      let (records, kept) = registry.list scope o.registry in
      let (result, after) = listed records o.backend in
      (result, record { registry = kept; backend = after })

  -- Reconciler.get
  unfoldable pub get : InstancePointer → Observed R B → ReconciliationResult × Observed R B
  unfolding read
  get pointer o =
      let (found, kept) = registry.get pointer o.registry in
      let (result, after) = read found o.backend in
      (result, record { registry = kept; backend = after })
