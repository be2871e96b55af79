-- ===== src/Deployment.antt =====
-- Remote deployments (odoo_forge/remote_deployment.py). The two providers, the store of
-- operations and the recorder are parameters; a plan and a credential handle are only passed on: their types are
-- parameters.
pub mod Exposure
pub mod Evidence
pub mod Truth
pub mod Examples
use odoo_forge.Base.{
  ℕ, String, Bool, true, false, not, ◌&&◌, ◌||◌, List, [], ◌∷◌, Option, none, some, Result, ok, err,
  is_empty, if◌then◌else◌, ◌==◌, Eq, string_eq,
}
use odoo_forge.Base.Equality.{option_eq}
use odoo_forge.Base.Effects.{
  Exec, Session, perform, pure, raise, lift, attempt, require, ◌>>=◌, ◌>>◌,
}
use odoo_forge.Base.Lists.{all}
use odoo_forge.Values.{
  DurableOperationIdentity, InstancePointer, ResourceRef, OwnershipReceipt, ProjectScope,
  identity_eq, scope_eq,
}
use odoo_forge.Durable.{
  LifecycleState, state_dec, succeeded, failed, DurableOperationRecord, TerminalCommitBundle,
  RedactedEvidence, state_eq, is_terminal_outcome,
}
use odoo_forge.Backend.{InstanceRef}
use odoo_forge.Deployment.Exposure.{
  DeploymentSpec, ExposureIntent, OwnershipRecord, ExposureRequest, ExposureResult,
  exposure_request, is_foreign, ready, exposure_outcome_eq, exposure_outcome_dec,
}

pub record RemoteTargetFingerprint : Type 0 where
  pub host : String
  pub user : String
  pub port : ℕ
  pub host_key : String

-- RemoteDeploymentIncompleteError with its messages, a ValueError, and whatever a port raises.
pub data DeploymentError : Type 0 where
  ownership_inconsistent no_exposure_intent same_operation identity_inconsistent : DeploymentError
  runtime_incomplete runtime_not_succeeded exposure_not_composed exposure_incomplete :
      DeploymentError
  value_error : DeploymentError
  port_failed : String → DeploymentError

pub record RemoteDeploymentRequest (Credentials Plan : Type 0) : Type 0 where
  pub deployment : DeploymentSpec
  pub plan : Plan
  pub target : RemoteTargetFingerprint
  pub runtime_operation : DurableOperationIdentity
  pub exposure_operation : Option DurableOperationIdentity
  pub runtime_ownership : List OwnershipRecord
  pub exposure_credential_handles : List Credentials

pub record RemoteDeploymentReceipt : Type 0 where
  pub deployment : DeploymentSpec
  pub provider : String
  pub target : RemoteTargetFingerprint
  pub runtime_ref : Option InstanceRef
  pub runtime_operation : DurableOperationIdentity
  pub runtime_ownership : List OwnershipRecord
  pub runtime_terminal_record : DurableOperationRecord
  pub exposure_operation : Option DurableOperationIdentity
  pub exposure_result : Option ExposureResult
  pub exposure_ownership : List OwnershipRecord
  pub exposure_terminal_record : Option DurableOperationRecord
  pub outcome : LifecycleState

unfoldable pub is_final_commit : Option TerminalCommitBundle → LifecycleState → Bool
unfolding state_dec
is_final_commit none lifecycle = false
is_final_commit (some commit) lifecycle =
    commit.outcome == lifecycle
    && is_empty commit.residual_cleanup
    && not (is_empty commit.evidence)

-- _valid_terminal
unfoldable pub valid_terminal : DurableOperationRecord → DurableOperationIdentity → Bool
unfolding is_terminal_outcome
valid_terminal r operation =
    r.identity == operation
    && is_terminal_outcome r.lifecycle
    && is_final_commit r.terminal_commit r.lifecycle

pub data Call (Credentials Plan : Type 0) : Type 0 where
  run : Plan → Call Credentials Plan
  create_or_load : DurableOperationIdentity → Call Credentials Plan
  reconcile : ExposureRequest Credentials → Call Credentials Plan
  recorded : RemoteDeploymentReceipt → Call Credentials Plan

-- The providers, the store of operations and the recorder.
pub record Ports (W Credentials Plan : Type 0) : Type 0 where
  pub run_plan : Plan → Exec W DeploymentError InstanceRef
  pub load : DurableOperationIdentity → Exec W DeploymentError DurableOperationRecord
  pub recorder : RemoteDeploymentReceipt → Exec W DeploymentError (Unit {0})
  pub exposure_provider :
      Option (ExposureRequest Credentials → Exec W DeploymentError ExposureResult)

-- What the deployment of an exposure adds to a receipt.
pub record Exposed : Type 0 where
  pub result : Option ExposureResult
  pub terminal_record : Option DurableOperationRecord
  pub ownership : List OwnershipRecord

module _ {W Credentials Plan : Type 0} (ports : Ports W Credentials Plan)
    (request : RemoteDeploymentRequest Credentials Plan) where
  abbrev pub Step : Type 0 → Type 0
  Step A = Exec (Session W (Call Credentials Plan)) DeploymentError A

  abbrev pub load_record : DurableOperationIdentity → Step DurableOperationRecord
  load_record operation = perform (create_or_load operation) (ports.load operation)

  abbrev pub record_receipt : RemoteDeploymentReceipt → Step (Unit {0})
  record_receipt receipt = perform (recorded receipt) (ports.recorder receipt)

  unfoldable pub failure_receipt :
      Option DurableOperationIdentity
      → Option InstanceRef
      → DurableOperationRecord
      → DurableOperationRecord
      → RemoteDeploymentReceipt
  failure_receipt exposure_operation runtime_ref runtime_record r = record {
    deployment = request.deployment;
    provider = "vps";
    target = request.target;
    runtime_ref = runtime_ref;
    runtime_operation = request.runtime_operation;
    runtime_ownership = request.runtime_ownership;
    runtime_terminal_record = runtime_record;
    exposure_operation = exposure_operation;
    exposure_result = none;
    exposure_ownership = [];
    exposure_terminal_record = elim exposure_operation [ none ↦ none | some _ ↦ some r ];
    outcome = failed;
  }

  -- the record of the operation that failed
  pub failed_record :
      Option DurableOperationIdentity → DurableOperationRecord → Step DurableOperationRecord
  failed_record none runtime_record = pure runtime_record
  failed_record (some operation) runtime_record = load_record operation

  -- `exposure_operation or request.runtime_operation`
  abbrev pub failed_operation : Option DurableOperationIdentity → DurableOperationIdentity
  failed_operation none = request.runtime_operation
  failed_operation (some operation) = operation

  abbrev expected_lifecycle : Option DurableOperationIdentity → LifecycleState
  expected_lifecycle none = failed
  expected_lifecycle (some _) = succeeded

  unfoldable pub record_failed :
      Option DurableOperationIdentity
      → Option InstanceRef
      → DurableOperationRecord
      → DurableOperationRecord
      → Step (Unit {0})
  record_failed exposure_operation runtime_ref runtime_record r =
      if valid_terminal r (failed_operation exposure_operation) && r.lifecycle == failed
      then record_receipt (failure_receipt exposure_operation runtime_ref runtime_record r)
      else pure tt

  unfoldable pub after_runtime_record :
      Option DurableOperationIdentity
      → Option InstanceRef
      → DurableOperationRecord
      → Step (Unit {0})
  unfolding failed_record
  after_runtime_record exposure_operation runtime_ref runtime_record =
      if valid_terminal runtime_record request.runtime_operation
        && runtime_record.lifecycle == expected_lifecycle exposure_operation
      then (failed_record exposure_operation runtime_record >>= λ r.
          record_failed exposure_operation runtime_ref runtime_record r)
      else pure tt

  -- _record_validated_failure, of which nothing is raised
  unfoldable pub record_validated_failure :
      Option DurableOperationIdentity → Option InstanceRef → Step (Unit {0})
  record_validated_failure exposure_operation runtime_ref = do
    _ ← attempt (do
      runtime_record ← load_record request.runtime_operation
      after_runtime_record exposure_operation runtime_ref runtime_record)
    pure tt

  -- `except Exception: self._record_validated_failure(…); raise`
  unfoldable pub or_record_failure :
      {A : Type 0}
      → Option DurableOperationIdentity
      → Option InstanceRef
      → Result DeploymentError A
      → Step A
  or_record_failure exposure_operation runtime_ref (ok a) = pure a
  or_record_failure exposure_operation runtime_ref (err e) = do
    record_validated_failure exposure_operation runtime_ref
    raise e

  unfoldable pub is_exposed :
      ExposureResult → DurableOperationRecord → DurableOperationIdentity → Bool
  unfolding exposure_outcome_dec
  is_exposed result r operation =
      valid_terminal r operation
      && r.lifecycle == succeeded
      && result.operation == operation
      && result.outcome == ready
      && result.is_ready

  pub after_reconcile : DurableOperationIdentity → ExposureResult → Step Exposed
  after_reconcile operation result = do
    r ← load_record operation
    require (is_exposed result r operation) exposure_incomplete
    pure (record { result = some result; terminal_record = some r; ownership = result.ownership })

  unfoldable pub exposure_request_of :
      InstanceRef → DurableOperationIdentity → ExposureRequest Credentials
  exposure_request_of runtime_ref operation = record {
    instance_ref = runtime_ref;
    deployment = request.deployment;
    scope = request.deployment.pointer.scope;
    operation = operation;
    ownership = [];
    credential_handles = request.exposure_credential_handles;
  }

  pub reconciled :
      InstanceRef
      → DurableOperationIdentity
      → (ExposureRequest Credentials → Exec W DeploymentError ExposureResult)
      → ExposureRequest Credentials
      → Step Exposed
  unfolding after_reconcile
  reconciled runtime_ref operation provider asked = do
    answer ← attempt (perform (reconcile asked) (provider asked))
    result ← or_record_failure (some operation) (some runtime_ref) answer
    after_reconcile operation result

  pub expose_asked :
      InstanceRef
      → DurableOperationIdentity
      → (ExposureRequest Credentials → Exec W DeploymentError ExposureResult)
      → Option (ExposureRequest Credentials)
      → Step Exposed
  expose_asked runtime_ref operation provider none = raise value_error
  expose_asked runtime_ref operation provider (some asked) =
      reconciled runtime_ref operation provider asked

  pub expose_with :
      InstanceRef
      → Option (ExposureRequest Credentials → Exec W DeploymentError ExposureResult)
      → Option DurableOperationIdentity
      → Step Exposed
  unfolding expose_asked
  expose_with runtime_ref (some provider) (some operation) =
      expose_asked runtime_ref operation provider
        (exposure_request (exposure_request_of runtime_ref operation))
  expose_with runtime_ref _ _ = raise exposure_not_composed

  pub expose_for : InstanceRef → Option ExposureIntent → Step Exposed
  unfolding expose_with
  expose_for runtime_ref none =
      pure (record { result = none; terminal_record = none; ownership = [] })
  expose_for runtime_ref (some _) =
      expose_with runtime_ref ports.exposure_provider request.exposure_operation

  -- `if request.deployment.exposure is not None:`
  unfoldable pub expose : InstanceRef → Step Exposed
  unfolding expose_for
  expose runtime_ref = expose_for runtime_ref request.deployment.exposure

  unfoldable pub success_receipt :
      InstanceRef → DurableOperationRecord → Exposed → RemoteDeploymentReceipt
  success_receipt runtime_ref runtime_record exposed = record {
    deployment = request.deployment;
    provider = "vps";
    target = request.target;
    runtime_ref = some runtime_ref;
    runtime_operation = request.runtime_operation;
    runtime_ownership = request.runtime_ownership;
    runtime_terminal_record = runtime_record;
    exposure_operation = request.exposure_operation;
    exposure_result = exposed.result;
    exposure_ownership = exposed.ownership;
    exposure_terminal_record = exposed.terminal_record;
    outcome = succeeded;
  }

  unfoldable pub record_success :
      InstanceRef → DurableOperationRecord → Exposed → Step RemoteDeploymentReceipt
  record_success runtime_ref runtime_record exposed = do
    record_receipt (success_receipt runtime_ref runtime_record exposed)
    pure (success_receipt runtime_ref runtime_record exposed)

  unfoldable pub expose_recorded :
      InstanceRef → DurableOperationRecord → Step RemoteDeploymentReceipt
  expose_recorded runtime_ref runtime_record = do
    exposed ← expose runtime_ref
    record_success runtime_ref runtime_record exposed

  unfoldable pub is_requested : InstanceRef → Bool
  is_requested runtime_ref =
      runtime_ref.project == request.deployment.pointer.scope.project_id
      && runtime_ref.instance_name == request.deployment.pointer.instance_id
      && runtime_ref.network == request.deployment.resource.identifier

  pub checked_record : InstanceRef → DurableOperationRecord → Step RemoteDeploymentReceipt
  checked_record runtime_ref runtime_record = do
    require (valid_terminal runtime_record request.runtime_operation) runtime_incomplete
    require (runtime_record.lifecycle == succeeded) runtime_not_succeeded
    expose_recorded runtime_ref runtime_record

  pub after_run : InstanceRef → Step RemoteDeploymentReceipt
  after_run runtime_ref = do
    require (is_requested runtime_ref) identity_inconsistent
    runtime_record ← load_record request.runtime_operation
    checked_record runtime_ref runtime_record

  pub has_intent : Bool
  has_intent = elim request.deployment.exposure [ none ↦ false | some _ ↦ true ]

  pub has_operation : Bool
  has_operation = elim request.exposure_operation [ none ↦ false | some _ ↦ true ]

  pub start_run : Step RemoteDeploymentReceipt
  unfolding after_run
  start_run = do
    started ← attempt (perform (run request.plan) (ports.run_plan request.plan))
    runtime_ref ← or_record_failure none none started
    after_run runtime_ref

  pub is_owned : Bool
  unfolding is_foreign
  is_owned = all (λ r. not (is_foreign request.runtime_operation r)) request.runtime_ownership

  pub is_intended : Bool
  unfolding has_intent has_operation
  is_intended = has_intent || not has_operation

  pub is_distinct : Bool
  unfolding has_intent
  is_distinct = not (has_intent && request.exposure_operation == some request.runtime_operation)

  -- RemoteDeploymentCoordinator.deploy
  unfoldable pub deploy : Step RemoteDeploymentReceipt
  deploy = do
    require is_owned ownership_inconsistent
    require is_intended no_exposure_intent
    require is_distinct same_operation
    start_run
