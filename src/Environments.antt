-- ===== src/Environments.antt =====
-- odoo_forge/data_environments/types.py: definitions of environments, and the requests, outcomes and
-- lineages of odoo_forge/data_environments/service.py.
pub mod Service
pub mod Protocol
pub mod Preflight
pub mod Runs
pub mod Examples
use odoo_forge.Base.{
  ℕ, String, Bool, true, false, not, ◌&&◌, ◌||◌, List, [], ◌∷◌, Option, none, some, Result, ok, err,
  if◌then◌else◌, ◌==◌, Eq, string_eq, leb,
}
use odoo_forge.Base.Lists.{any}
use odoo_forge.Base.Effects.{Exec, Session, perform, pure, raise, attempt, ◌>>=◌, ◌>>◌}
use odoo_forge.Values.{
  DurableOperationIdentity, DatabaseRef, ProjectScope, InstancePointer, InstanceRecord, scope_eq,
  scope_dec,
}
use odoo_forge.Registry.Port.{RegistryError, InstanceRegistry}
use odoo_forge.Artifacts.{CopyError}
use odoo_forge.Artifacts.Copy.{RawDataGrant, CoordinatedCopyResult, CopyRequest}

pub data EnvironmentLifecycle : Type 0 where
  active inactive : EnvironmentLifecycle

pub data EnvironmentOutcomeCode : Type 0 where
  succeeded refused failed : EnvironmentOutcomeCode

pub data EnvironmentFailureCode : Type 0 where
  authority_unavailable invalid_definition raw_grant_required : EnvironmentFailureCode
  recovery_point_unavailable recovery_restore_failed : EnvironmentFailureCode
  recovery_verification_failed mutation_failed operation_verification_failed :
      EnvironmentFailureCode

pub record EnvironmentRelationship : Type 0 where
  pub source_environment_id : String
  pub target_environment_id : String

-- EnvironmentRelationship.require_distinct_environments
unfoldable pub environment_relationship : EnvironmentRelationship → Option EnvironmentRelationship
environment_relationship r =
    if r.source_environment_id == r.target_environment_id then none else some r

pub record DataEnvironmentDefinition : Type 0 where
  pub environment_id : String
  pub owner : String
  pub scope : ProjectScope
  pub lifecycle : EnvironmentLifecycle
  pub policy_ref : String
  pub relationships : List EnvironmentRelationship

pub record EnvironmentOperationOutcome : Type 0 where
  pub code : EnvironmentOutcomeCode
  pub failure_code : Option EnvironmentFailureCode

-- EnvironmentOperationOutcome.require_fail_closed_state, of an outcome without a detail
unfoldable pub operation_outcome : EnvironmentOperationOutcome → Option EnvironmentOperationOutcome
operation_outcome o = elim o.code [
  | succeeded ↦ elim o.failure_code [ none ↦ some o | some _ ↦ none ]
  | _ ↦ elim o.failure_code [ none ↦ none | some _ ↦ some o ]
]

abbrev pub is_active : EnvironmentLifecycle → Bool
is_active active = true
is_active inactive = false

pub record DataEnvironmentOperationRequest (Source Spec Credentials : Type 0) : Type 0 where
  pub operation : DurableOperationIdentity
  pub source_environment_id : String
  pub target_environment_id : String
  pub target_pointer : InstancePointer
  pub target_ref : Option DatabaseRef
  pub source : Source
  pub spec : Spec
  pub credentials : Credentials
  pub actor : String
  pub intent : String
  pub request_raw_delivery : Bool

pub record DataEnvironmentLineage : Type 0 where
  pub actor : String
  pub intent : String
  pub source : String
  pub target : String
  pub policy : Option String
  pub recovery_point : Option String
  pub raw_grant : Option RawDataGrant

pub record DataEnvironmentOperationResult : Type 0 where
  pub outcome : EnvironmentOperationOutcome
  pub lineage : DataEnvironmentLineage
  pub copy_result : Option CoordinatedCopyResult
