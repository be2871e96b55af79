-- ===== src/Lifecycle/Checks.antt =====
-- The questions that odoo_forge/resource_lifecycle/service.py asks of records, observations and
-- quarantine histories: the functions below its class.
use odoo_forge.Base.{
  String, Bool, true, false, not, ◌&&◌, ◌||◌, List, [], ◌∷◌, Option, none, some, if◌then◌else◌,
  ◌==◌, string_eq, leb,
}
use odoo_forge.Base.Int.{ℤ, sub_ℕ, leb_ℤ}
use odoo_forge.Base.Lists.{contains, select}
use odoo_forge.Values.{
  DurableOperationIdentity, OwnershipReceipt, ProjectScope, InstanceRecord, identity_eq,
  ownership_eq, database_eq, scope_eq, pointer_eq, identity_dec, ownership_dec, database_dec,
  scope_dec, pointer_dec,
}
use odoo_forge.Lifecycle.{
  dev, qa, absent, invalid, class_eq, presence_eq, class_dec, presence_dec, Datetime,
  LifecyclePolicy, is_approved, ExpirationDecision, evaluate_expiration, QuarantineHistory,
  DatabaseObservation,
}

-- `receipt is None or receipt.operation == operation`
unfoldable pub unclaimed_or : DurableOperationIdentity → Option OwnershipReceipt → Bool
unfolding identity_dec
unclaimed_or operation none = true
unclaimed_or operation (some receipt) = receipt.operation == operation

-- `receipt is not None and receipt.operation == operation`
unfoldable pub claimed_by : DurableOperationIdentity → Option OwnershipReceipt → Bool
unfolding identity_dec
claimed_by operation none = false
claimed_by operation (some receipt) = receipt.operation == operation

unfoldable pub zombie_observed :
    ProjectScope → QuarantineHistory → Option DatabaseObservation → Bool
unfolding unclaimed_or scope_dec database_dec class_dec presence_dec
zombie_observed scope history none = true
zombie_observed scope history (some o) =
    o.scope == scope
    && o.ref == history.resource
    && o.resource_class == history.resource_class
    && o.evidence_digest == history.evidence_digest
    && o.ownership_valid
    && (o.presence == absent || o.presence == invalid)
    && unclaimed_or history.operation o.receipt

-- _confirmed_zombie
unfoldable pub confirmed_zombie :
    ProjectScope → LifecyclePolicy → QuarantineHistory → Option DatabaseObservation → Bool
unfolding zombie_observed scope_dec class_dec is_approved
confirmed_zombie scope policy history observation =
    if not (history.scope == scope)
      || not (history.pointer.scope == scope)
      || not (history.resource_class == dev || history.resource_class == qa)
      || not (is_approved policy history.resource_class)
    then false
    else zombie_observed scope history observation

-- _record_matches_history
unfoldable pub record_matches_history : InstanceRecord → QuarantineHistory → Bool
unfolding pointer_dec ownership_dec claimed_by
record_matches_history r history =
    r.pointer == history.pointer
    && r.resource.resource_kind == "database"
    && r.resource.identifier == history.resource.identifier
    && r.resource.ownership == history.resource.ownership
    && claimed_by history.operation r.receipt

-- the rest of _quarantine_wait_elapsed, at the time that it reads
unfoldable pub wait_elapsed_at : QuarantineHistory → ℤ → Datetime → Bool
wait_elapsed_at history wait current =
    if not history.quarantined_at.aware || not current.aware
    then false
    else leb history.quarantined_at.micros current.micros
      && leb_ℤ wait (sub_ℕ current.micros history.quarantined_at.micros)

-- _matching: the one observation with the identifier
the_only : List DatabaseObservation → Option DatabaseObservation
the_only (o ∷ []) = some o
the_only _ = none

unfoldable pub matching :
    List DatabaseObservation → DatabaseObservation → Option DatabaseObservation
unfolding the_only select
matching observations expected =
    the_only (select (λ o. o.ref.identifier == expected.ref.identifier) observations)

-- the rest of _eligible, at the time that it reads; no answer where the difference raises
unfoldable pub eligible_of : Option ExpirationDecision → Option Bool
eligible_of none = none
eligible_of (some d) = some (d.eligible && d.mutation_allowed)

unfoldable pub eligible_at :
    DatabaseObservation → LifecyclePolicy → Datetime → Datetime → Option Bool
unfolding eligible_of evaluate_expiration
eligible_at o policy last_activity now = eligible_of (
    evaluate_expiration
      (record {
        resource_id = o.ref.identifier;
        resource_class = o.resource_class;
        last_activity = last_activity;
      })
      now policy)

lineage_of : String → Option OwnershipReceipt → Option OwnershipReceipt → Bool
unfolding identity_dec contains
lineage_of id (some ours) (some theirs) =
    ours.operation == theirs.operation
    && contains ours.owned_resource_ids id
    && contains theirs.owned_resource_ids id
lineage_of id _ _ = false

-- _lineage_matches
unfoldable pub lineage_matches : InstanceRecord → DatabaseObservation → Bool
unfolding lineage_of
lineage_matches r o = lineage_of o.ref.identifier r.receipt o.receipt

operation_of : String → Option OwnershipReceipt → String
operation_of default (some receipt) = receipt.operation.operation_id
operation_of default none = default

-- _operation
unfoldable pub operation : InstanceRecord → String
unfolding operation_of
operation r = operation_of r.pointer.instance_id r.receipt
