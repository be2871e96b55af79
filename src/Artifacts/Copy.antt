-- ===== src/Artifacts/Copy.antt =====
-- odoo_forge/data_artifacts/coordinator.py: capture, anonymize and deliver as one operation. The two
-- capabilities, the database provider, the mask, the persistence of manifests and the clock are
-- parameters.
pub mod Reap
pub mod Outcome
pub mod Masked
pub mod Quiet
pub mod Permit
pub mod Gate
use odoo_forge.Base.{
  ℕ, ◌+◌, String, Bool, true, false, not, ◌&&◌, ◌||◌, List, [], ◌∷◌, ◌++◌, Option, none, some,
  Result, ok, err, if◌then◌else◌, ◌==◌, Eq, string_eq, leb,
}
use Prim.Native.String.{◌++◌ as text_append}
use odoo_forge.Base.Equality.{option_eq}
use odoo_forge.Base.Effects.{Exec, pure, raise, lift, attempt, modify, ◌>>=◌, ◌>>◌}
use odoo_forge.Base.Lists.{contains}
use odoo_forge.Values.{DurableOperationIdentity, DatabaseCreation}
use odoo_forge.Durable.{
  LifecycleState, accepted, in_progress, succeeded, failed, cleanup_required, Patterns,
  DurableError, RedactedEvidence, DurableCheckpoint, advance_lifecycle, save_checkpoint,
  build_terminal_commit, compensation_scope, ensure_compensation_target,
}
use odoo_forge.Artifacts.{
  RestoreSetComponent, RestoreSetManifest, RestoreReadiness, DiscardOutcome, residual_failure,
  integrity_failed, CopyError, raw_delivery_refused, anonymization_inconsistent, capture_integrity,
  capture_not_ready, assertion_failed, durable, Vocabulary, data_artifact_ref, database_digest,
  AnonymizationOutcome, evidence_of, apply_anonymization, digest_eq, outcome_eq, failure_eq,
  ArtifactDigest, ValidationFailureCode,
}

pub data Call : Type 0 where
  capture : Call
  mask : RestoreSetComponent → Call
  persist : String → RestoreSetManifest → Call
  validate discard restore : String → Call

pub record RawDataGrant : Type 0 where
  pub operation_id : String
  pub environment_id : String
  pub expires_at : ℕ
  pub audit_reference : String

pub record Ports (W Source Spec Credentials Rule : Type 0) : Type 0 where
  pub capture_source : Source → Exec W CopyError RestoreSetManifest
  pub mask_transform : RestoreSetComponent → List Rule → Exec W CopyError RestoreSetComponent
  pub manifest_persistence : String → RestoreSetManifest → Exec W CopyError (Unit {0})
  pub validate_for_restore : String → Exec W CopyError RestoreReadiness
  pub discard_ref : String → Exec W CopyError DiscardOutcome
  pub restore_database : Spec → String → Credentials → Exec W CopyError DatabaseCreation
  pub audited_exception_lookup : String → Option RedactedEvidence
  pub now : W → ℕ

-- What the ports keep, the calls made with whether they returned, the latest first, and the
-- coordinator's `last_state` and `checkpoints`.
pub record CopyState (W : Type 0) : Type 0 where
  pub world : W
  pub log : List (Call × Bool)
  pub last_state : LifecycleState
  pub checkpoints : List DurableCheckpoint

pub record CopyRequest (Source Spec Credentials Rule : Type 0) : Type 0 where
  pub source : Source
  pub spec : Spec
  pub rules : List Rule
  pub credentials : Credentials
  pub operation : DurableOperationIdentity
  pub request_raw_delivery : Bool
  pub retain_staged : Bool
  pub raw_grant : Option RawDataGrant
  pub raw_grant_environment_id : Option String

pub record CoordinatedCopyResult : Type 0 where
  pub creation : DatabaseCreation
  pub checkpoints : List DurableCheckpoint
  pub state : LifecycleState

abbrev pub returned : {A : Type 0} → Result CopyError A → Bool
returned (ok a) = true
returned (err e) = false

abbrev pub observe : {W A : Type 0} → Call → Exec W CopyError A → Exec (CopyState W) CopyError A
observe call port s =
    let (r, w) = port s.world in (r, record s { world = w; log = (call, returned r) ∷ s.log })

abbrev pub durably : {A : Type 0} → Result DurableError A → Result CopyError A
durably (ok a) = ok a
durably (err e) = err (durable e)

-- _is_matching_audited_grant
unfoldable pub is_matching_audited_grant : Option RedactedEvidence → String → Bool
is_matching_audited_grant none lineage_id = false
is_matching_audited_grant (some grant) lineage_id =
    grant.event == "anonymization_exception" && contains grant.references lineage_id

-- the test of a grant's operation, environment and expiry
unfoldable pub is_granted :
    DurableOperationIdentity → Option String → ℕ → Option RawDataGrant → Bool
is_granted operation environment_id now none = false
is_granted operation environment_id now (some grant) =
    grant.operation_id == operation.operation_id
    && some grant.environment_id == environment_id
    && not (leb grant.expires_at now)

-- whether a discard, as it ended, left something behind
unfoldable pub is_residual : Result CopyError DiscardOutcome → Bool
is_residual (err e) = true
is_residual (ok outcome) = outcome.code == residual_failure

module _ {W Source Spec Credentials Rule : Type 0} (v : Vocabulary) (p : Patterns)
    (ports : Ports W Source Spec Credentials Rule) where
  abbrev pub Step : Type 0 → Type 0
  Step A = Exec (CopyState W) CopyError A

  pub checkpoint : ℕ → String → RedactedEvidence → Step DurableCheckpoint
  unfolding save_checkpoint
  checkpoint revision phase evidence = do
    saved ← lift (durably (save_checkpoint revision phase evidence))
    modify (λ s. record s { checkpoints = s.checkpoints ++ saved ∷ [] })
    pure saved

  -- a checkpoint whose evidence names its phase and the lineage
  unfoldable pub phase_checkpoint : ℕ → String → String → String → Step DurableCheckpoint
  unfolding checkpoint
  phase_checkpoint revision phase summary lineage_id = do
    evidence ← lift (evidence_of p phase summary (lineage_id ∷ []))
    checkpoint revision phase evidence

  pub phase_checkpoint_if : Bool → ℕ → String → String → String → Step (Unit {0})
  phase_checkpoint_if false revision phase summary lineage_id = pure tt
  phase_checkpoint_if true revision phase summary lineage_id = do
    phase_checkpoint revision phase summary lineage_id
    pure tt

  grant_evidence : String → Option RawDataGrant → Result CopyError (Option RedactedEvidence)
  grant_evidence lineage_id none = ok (ports.audited_exception_lookup lineage_id)
  grant_evidence lineage_id (some grant) =
      elim (evidence_of p "anonymization_exception" "approved raw-data exception"
        (lineage_id ∷ grant.audit_reference ∷ [])) [ ok e ↦ ok (some e) | err e ↦ err e ]

  checked_grant : String → Option RedactedEvidence → Result CopyError RedactedEvidence
  unfolding is_matching_audited_grant
  checked_grant lineage_id grant =
      if is_matching_audited_grant grant lineage_id
      then elim grant [ none ↦ err assertion_failed | some e ↦ ok e ]
      else err raw_delivery_refused

  -- `if request_raw_delivery:`
  unfoldable pub raw_gate :
      CopyRequest Source Spec Credentials Rule → String → Step RedactedEvidence
  unfolding grant_evidence checked_grant
  raw_gate request lineage_id s =
      if is_granted request.operation request.raw_grant_environment_id (ports.now s.world)
        request.raw_grant
      then (lift (grant_evidence lineage_id request.raw_grant) >>= λ grant.
            lift (checked_grant lineage_id grant))
          s
      else raise raw_delivery_refused s

  -- The `try` and its `finally`, after the raw manifest is persisted under the shadow reference.
  pub supersede : ℕ → String → String → RestoreSetManifest → String → Step (Unit {0})
  unfolding phase_checkpoint_if is_residual
  supersede revision ref shadow masked lineage_id = do
    stored ← attempt (observe (persist ref masked) (ports.manifest_persistence ref masked))
    reaped ← attempt (observe (discard shadow) (ports.discard_ref shadow))
    phase_checkpoint_if (is_residual reaped) revision "raw_reap_residual"
        "raw pre-mask blob reap left a residual failure" lineage_id
    lift stored

  unfoldable pub shadow_of : String → String
  shadow_of restore_set_id = text_append restore_set_id "-preanonymize-raw"

  unfoldable pub replace_raw :
      ℕ → String → RestoreSetManifest → RestoreSetManifest → Step (Unit {0})
  unfolding supersede
  replace_raw revision ref captured masked = do
    shadow ← lift (data_artifact_ref v (shadow_of captured.restore_set_id))
    observe (persist shadow captured) (ports.manifest_persistence shadow captured)
    supersede revision ref shadow masked captured.lineage_id

  pub persist_masked : ℕ → String → RestoreSetManifest → RestoreSetManifest → Step (Unit {0})
  persist_masked revision ref captured masked =
      if database_digest masked.components == database_digest captured.components
      then observe (persist ref masked) (ports.manifest_persistence ref masked)
      else replace_raw revision ref captured masked

  -- what anonymizing leaves: its evidence, and the masked manifest
  unfoldable pub persist_outcome :
      ℕ
      → String
      → RestoreSetManifest
      → AnonymizationOutcome
      → Step (RedactedEvidence × Option RestoreSetManifest)
  unfolding persist_masked
  persist_outcome revision ref captured outcome = do
    persist_masked revision ref captured outcome.manifest
    pure (outcome.evidence, some outcome.manifest)

  pub anonymize :
      CopyRequest Source Spec Credentials Rule
      → ℕ
      → String
      → RestoreSetManifest
      → Step (RedactedEvidence × Option RestoreSetManifest)
  anonymize request revision ref captured = do
    outcome ←
        apply_anonymization v p (λ c rules. observe (mask c) (ports.mask_transform c rules))
          captured request.rules
    persist_outcome revision ref captured outcome

  unfoldable pub masked_or_raw :
      CopyRequest Source Spec Credentials Rule
      → ℕ
      → String
      → RestoreSetManifest
      → Step (RedactedEvidence × Option RestoreSetManifest)
  unfolding anonymize
  masked_or_raw request revision ref captured =
      if request.request_raw_delivery
      then (raw_gate request captured.lineage_id >>= λ grant. pure (grant, none))
      else anonymize request revision ref captured

  not_ready : Option ValidationFailureCode → CopyError
  not_ready none = assertion_failed
  not_ready (some code) =
      if code == integrity_failed then capture_integrity else capture_not_ready code

  unfoldable pub served_digest : Option RestoreSetManifest → Option ArtifactDigest
  served_digest none = none
  served_digest (some m) = database_digest m.components

  -- D11: what the store serves is what was masked
  unfoldable pub is_consistent : Option RestoreSetManifest → RestoreReadiness → Bool
  unfolding served_digest
  is_consistent none readiness = true
  is_consistent (some masked) readiness = elim (served_digest readiness.manifest) [
    | none ↦ false
    | some served ↦ some served == database_digest masked.components
  ]

  unfoldable pub verified :
      Option RestoreSetManifest → RestoreReadiness → Result CopyError (Unit {0})
  unfolding not_ready
  verified masked readiness =
      if not readiness.ready
      then err (not_ready readiness.failure_code)
      else if is_consistent masked readiness
      then ok tt
      else err anonymization_inconsistent

  -- D12: after a delivery, unless the staged reference is retained
  pub discard_staged : Bool → ℕ → String → String → Step (Unit {0})
  unfolding phase_checkpoint_if is_residual
  discard_staged true revision ref lineage_id = pure tt
  discard_staged false revision ref lineage_id = do
    discarded ← attempt (observe (discard ref) (ports.discard_ref ref))
    phase_checkpoint_if (is_residual discarded) revision "discard_on_success_residual"
        "discard-on-success left a residual failure" lineage_id

  pub conclude : DatabaseCreation → LifecycleState → Step CoordinatedCopyResult
  conclude creation state s =
      (ok (record { creation = creation; checkpoints = s.checkpoints; state = state }), s)

  unfoldable pub deliver :
      CopyRequest Source Spec Credentials Rule
      → ℕ
      → String
      → String
      → DurableCheckpoint
      → Step CoordinatedCopyResult
  unfolding discard_staged conclude
  deliver request revision ref lineage_id last = do
    creation ← observe (restore ref) (ports.restore_database request.spec ref request.credentials)
    commit ← lift (durably (build_terminal_commit revision succeeded (last.evidence ∷ []) []))
    modify (λ s. record s { last_state = commit.outcome })
    discard_staged request.retain_staged revision ref lineage_id
    conclude creation commit.outcome

  -- the body of the `try`, once the reference is there, in four stages
  unfoldable pub deliver_verified :
      CopyRequest Source Spec Credentials Rule
      → ℕ
      → String
      → RestoreSetManifest
      → Step CoordinatedCopyResult
  deliver_verified request revision ref captured = do
    last ←
        phase_checkpoint revision "integrity_verified" "digest re-verified before delivery"
          captured.lineage_id
    deliver request revision ref captured.lineage_id last

  unfoldable pub verify :
      CopyRequest Source Spec Credentials Rule
      → ℕ
      → String
      → RestoreSetManifest
      → Option RestoreSetManifest
      → Step CoordinatedCopyResult
  verify request revision ref captured masked = do
    readiness ← observe (validate ref) (ports.validate_for_restore ref)
    lift (verified masked readiness)
    deliver_verified request revision ref captured

  unfoldable pub record_masked :
      CopyRequest Source Spec Credentials Rule
      → ℕ
      → String
      → RestoreSetManifest
      → RedactedEvidence × Option RestoreSetManifest
      → Step CoordinatedCopyResult
  record_masked request revision ref captured (evidence, masked) = do
    checkpoint revision "anonymized" evidence
    verify request revision ref captured masked

  unfoldable pub process :
      CopyRequest Source Spec Credentials Rule
      → ℕ
      → String
      → RestoreSetManifest
      → Step CoordinatedCopyResult
  process request revision ref captured = do
    phase_checkpoint revision "captured" "capture completed" captured.lineage_id
    outcome ← masked_or_raw request revision ref captured
    record_masked request revision ref captured outcome

  -- the discard of `_compensate`, of which nothing is raised
  pub discard_owned : String → Option String → Step (Unit {0})
  discard_owned operation_id none = pure tt
  discard_owned operation_id (some ref) = do
    _ ← attempt (do
      scope ← lift (durably (compensation_scope p operation_id (ref ∷ [])))
      owned ← lift (durably (ensure_compensation_target scope ref))
      target ← lift (data_artifact_ref v owned)
      observe (discard target) (ports.discard_ref target))
    pure tt

  -- _compensate
  unfoldable pub compensate : String → ℕ → Option String → Step (Unit {0})
  unfolding discard_owned
  compensate operation_id revision ref = do
    evidence ← lift (
        evidence_of p "capture_copy_failed"
          "capture-anonymize-deliver operation failed before completion" [])
    commit ← lift (durably (build_terminal_commit revision failed (evidence ∷ []) []))
    (state, _) ← lift (durably (advance_lifecycle commit.outcome (revision + 1) cleanup_required))
    modify (λ s. record s { last_state = state })
    discard_owned operation_id ref

  pub captured_ref : Source → Step (RestoreSetManifest × String)
  captured_ref source = do
    captured ← observe capture (ports.capture_source source)
    ref ← lift (data_artifact_ref v captured.restore_set_id)
    pure (captured, ref)

  -- `except Exception: self._compensate(…); raise`
  unfoldable pub compensating :
      {A : Type 0} → String → ℕ → Option String → Result CopyError A → Step A
  compensating operation_id revision ref (ok a) = pure a
  compensating operation_id revision ref (err e) = do compensate operation_id revision ref; raise e

  unfoldable pub compensated_process :
      CopyRequest Source Spec Credentials Rule
      → ℕ
      → RestoreSetManifest × String
      → Step CoordinatedCopyResult
  unfolding compensating
  compensated_process request revision (captured, ref) = do
    result ← attempt (process request revision ref captured)
    compensating request.operation.operation_id revision (some ref) result

  -- DataArtifactCopyCoordinator.run
  unfoldable pub run : CopyRequest Source Spec Credentials Rule → Step CoordinatedCopyResult
  unfolding captured_ref compensating
  run request = do
    (state, revision) ← lift (durably (advance_lifecycle accepted 0 in_progress))
    modify (λ s. record s { last_state = state; checkpoints = [] })
    source ← attempt (captured_ref request.source)
    captured ← compensating request.operation.operation_id revision none source
    compensated_process request revision captured
