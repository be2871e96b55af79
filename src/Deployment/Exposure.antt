-- ===== src/Deployment/Exposure.antt =====
-- Exposure intents, requests and results (odoo_forge/exposure/types.py,
-- odoo_forge/deployment_spec/types.py, odoo_forge/resource_ownership/types.py), with their validators. A
-- credential handle is only passed on: its type is a parameter.
use odoo_forge.Base.{
  String, Bool, false, not, ◌&&◌, ◌||◌, List, Option, none, some, if◌then◌else◌, ◌==◌, Eq,
  string_eq,
}
use odoo_forge.Base.Lists.{any}
use odoo_forge.Values.{
  DurableOperationIdentity, InstancePointer, ResourceRef, OwnershipReceipt, ProjectScope,
  identity_eq, scope_eq,
}
use odoo_forge.Durable.{RedactedEvidence}
use odoo_forge.Backend.{InstanceRef}

pub data RequirementPolicy : Type 0 where
  disabled required : RequirementPolicy

pub data RouteProtocol : Type 0 where
  http https : RouteProtocol

pub record ExposureIntent : Type 0 where
  pub hostname : String
  pub protocol : RouteProtocol
  pub dns : RequirementPolicy
  pub tls : RequirementPolicy

pub record DeploymentSpec : Type 0 where
  pub pointer : InstancePointer
  pub resource : ResourceRef
  pub odoo_version : String
  pub exposure : Option ExposureIntent

pub data ExposureOutcome : Type 0 where
  accepted in_progress ready failed reconciliation_required : ExposureOutcome

pub data ExposureCheckStatus : Type 0 where
  pending verified failed reconciliation_required : ExposureCheckStatus

unfoldable pub exposure_outcome_dec : Discrete ExposureOutcome
exposure_outcome_dec = hlevel

instance abbrev pub exposure_outcome_eq : Eq ExposureOutcome
exposure_outcome_eq = record { dec = exposure_outcome_dec }

pub record TenantAttribution : Type 0 where
  pub tenant_id : Option String

pub record OwnershipRecord : Type 0 where
  pub ref : ResourceRef
  pub attribution : Option TenantAttribution
  pub receipt : Option OwnershipReceipt

pub record ExposureResult : Type 0 where
  pub operation : DurableOperationIdentity
  pub outcome : ExposureOutcome
  pub routing_status : ExposureCheckStatus
  pub dns_status : ExposureCheckStatus
  pub is_ready : Bool
  pub tls_ready : Bool
  pub ownership : List OwnershipRecord
  pub evidence : List RedactedEvidence

pub record ExposureRequest (Credentials : Type 0) : Type 0 where
  pub instance_ref : InstanceRef
  pub deployment : DeploymentSpec
  pub scope : ProjectScope
  pub operation : DurableOperationIdentity
  pub ownership : List OwnershipRecord
  pub credential_handles : List Credentials

unfoldable pub check_dec : Discrete ExposureCheckStatus
check_dec = hlevel

instance abbrev pub check_eq : Eq ExposureCheckStatus
check_eq = record { dec = check_dec }

unfoldable pub protocol_dec : Discrete RouteProtocol
protocol_dec = hlevel

unfoldable pub policy_dec : Discrete RequirementPolicy
policy_dec = hlevel

instance abbrev pub protocol_eq : Eq RouteProtocol
protocol_eq = record { dec = protocol_dec }

instance abbrev pub policy_eq : Eq RequirementPolicy
policy_eq = record { dec = policy_dec }

-- record.receipt is not None and record.receipt.operation != operation
unfoldable pub is_foreign : DurableOperationIdentity → OwnershipRecord → Bool
is_foreign operation r = elim r.receipt [
  | none ↦ false
  | some receipt ↦ not (receipt.operation == operation)
]

-- ExposureIntent(…)
unfoldable pub exposure_intent : ExposureIntent → Option ExposureIntent
unfolding protocol_dec policy_dec
exposure_intent i =
    if i.hostname == ""
    then none
    else if i.protocol == https && i.tls == disabled
    then none
    else if i.protocol == http && i.tls == required
    then none
    else some i

-- ExposureRequest(…)
unfoldable pub exposure_request :
    {Credentials : Type 0} → ExposureRequest Credentials → Option (ExposureRequest Credentials)
unfolding any is_foreign
exposure_request r =
    if not (r.instance_ref.project == r.scope.project_id)
    then none
    else if not (r.deployment.pointer.scope == r.scope)
    then none
    else if any (is_foreign r.operation) r.ownership
    then none
    else some r

-- ExposureResult(…)
unfoldable pub exposure_result : ExposureResult → Option ExposureResult
unfolding any is_foreign exposure_outcome_dec check_dec
exposure_result r =
    if any (is_foreign r.operation) r.ownership
    then none
    else if r.tls_ready
    then none
    else if r.is_ready
        && (not (r.outcome == ready)
            || not (r.routing_status == verified)
            || not (r.dns_status == verified))
    then none
    else some r
