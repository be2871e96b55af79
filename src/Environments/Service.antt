-- ===== src/Environments/Service.antt =====
-- odoo_forge/data_environments/service.py: `DataEnvironmentService.run`, one copy of data into an
-- environment, behind its preflight and, for an existing target, a recovery point. The registries,
-- the grant authority, the provider, the coordinator, the resolver of policies and the clock are
-- parameters.
use odoo_forge.Base.{
  ℕ, String, Bool, true, false, not, ◌&&◌, ◌||◌, Option, none, some, Result, ok, err, if◌then◌else◌,
  ◌==◌, string_eq, leb,
}
use odoo_forge.Base.Lists.{any}
use odoo_forge.Base.Effects.{Exec, Session, perform, pure, raise, attempt, ◌>>=◌}
use odoo_forge.Values.{
  DurableOperationIdentity, DatabaseRef, InstancePointer, InstanceRecord, scope_eq, scope_dec,
}
use odoo_forge.Artifacts.Copy.{RawDataGrant, CoordinatedCopyResult}
use odoo_forge.Environments.{
  EnvironmentOutcomeCode, EnvironmentFailureCode, succeeded, refused, failed, authority_unavailable,
  invalid_definition, raw_grant_required, recovery_point_unavailable, recovery_restore_failed,
  recovery_verification_failed, mutation_failed, operation_verification_failed, is_active,
  DataEnvironmentDefinition, DataEnvironmentOperationRequest, DataEnvironmentLineage,
  DataEnvironmentOperationResult,
}

-- What the coordinator is asked for.
pub record CopyOrder (Source Spec Credentials Policy : Type 0) : Type 0 where
  pub source : Source
  pub spec : Spec
  pub policy : Policy
  pub credentials : Credentials
  pub operation : DurableOperationIdentity
  pub request_raw_delivery : Bool
  pub raw_grant : Option RawDataGrant
  pub raw_grant_environment_id : String

-- The collaborators over one world. A resolver that returns no policy, and a provider that returns no
-- recovery point, answer `none`. Every exception is caught, so one kind of fault is enough.
pub record Ports (W Fault Source Spec Credentials Policy : Type 0) : Type 0 where
  pub resolve : String → Exec W Fault DataEnvironmentDefinition
  pub get : InstancePointer → Exec W Fault InstanceRecord
  pub policy : String → Exec W Fault (Option Policy)
  pub authorize : String → String → Exec W Fault (Option RawDataGrant)
  pub acquire_recovery_point : DatabaseRef → Exec W Fault (Option String)
  pub restore_recovery_point : DatabaseRef → String → Exec W Fault (Unit {0})
  pub verify_recovery_point : DatabaseRef → String → Exec W Fault Bool
  pub copy : CopyOrder Source Spec Credentials Policy → Exec W Fault CoordinatedCopyResult
  pub verify_operation : CoordinatedCopyResult → Exec W Fault Bool
  pub now : W → ℕ × W
  pub target_id : Source → String

pub data Call (Order : Type 0) : Type 0 where
  resolve : String → Call Order
  get : InstancePointer → Call Order
  policy : String → Call Order
  authorize : String → String → Call Order
  now : Call Order
  acquire : DatabaseRef → Call Order
  copy : Order → Call Order
  verify : CoordinatedCopyResult → Call Order
  restore check : DatabaseRef → String → Call Order

-- _PreflightFailure
pub record PreflightFailure : Type 0 where
  pub code : EnvironmentFailureCode
  pub policy : Option String
  pub raw_grant : Option RawDataGrant

-- What a preflight that passes hands over.
pub record Prepared (Policy : Type 0) : Type 0 where
  pub definition : DataEnvironmentDefinition
  pub instance_record : InstanceRecord
  pub chosen : Policy
  pub grant : Option RawDataGrant
  pub point : Option String

abbrev pub matches_ref : InstanceRecord → Option DatabaseRef → Bool
matches_ref r none = true
matches_ref r (some ref) = r.resource.identifier == ref.identifier

abbrev pub has_receipt : InstanceRecord → Bool
has_receipt r = elim r.receipt [ none ↦ false | some _ ↦ true ]

-- whether the instance's record lets its database be the target
unfoldable pub is_target : InstanceRecord → Option DatabaseRef → Bool
is_target r ref = has_receipt r && matches_ref r ref

module _ {W Fault Source Spec Credentials Policy : Type 0}
    (ports : Ports W Fault Source Spec Credentials Policy)
    (request : DataEnvironmentOperationRequest Source Spec Credentials) where
  abbrev pub Order : Type 0
  Order = CopyOrder Source Spec Credentials Policy

  -- A step that catches: `E` is what it raises itself.
  abbrev pub Step : Type 0 → Type 0 → Type 0
  Step E A = Exec (Session W (Call Order)) E A

  -- `try: port() except Exception` with the outcome as a value
  abbrev pub tried : {E A : Type 0} → Call Order → Exec W Fault A → Step E (Result Fault A)
  tried call port = attempt (perform call port)

  -- the five tests of a definition
  unfoldable pub is_valid_definition : DataEnvironmentDefinition → Bool
  unfolding scope_dec any
  is_valid_definition d = not (
      not (d.environment_id == request.target_environment_id)
      || not (is_active d.lifecycle)
      || not (d.scope == request.target_pointer.scope)
      || not (
          any
            (λ r.
              r.source_environment_id == request.source_environment_id
              && r.target_environment_id == request.target_environment_id)
            d.relationships)
      || not (ports.target_id request.source == request.source_environment_id))

  abbrev pub refuse :
      {A : Type 0}
      → EnvironmentFailureCode
      → Option String
      → Option RawDataGrant
      → Step PreflightFailure A
  refuse code policy_ref grant =
      raise (record { code = code; policy = policy_ref; raw_grant = grant })

  unfoldable pub checked_definition :
      Result Fault DataEnvironmentDefinition → Step PreflightFailure DataEnvironmentDefinition
  unfolding is_valid_definition
  checked_definition (err e) = refuse authority_unavailable none none
  checked_definition (ok d) =
      if is_valid_definition d then pure d else refuse invalid_definition (some d.policy_ref) none

  unfoldable pub checked_record :
      DataEnvironmentDefinition → Result Fault InstanceRecord → Step PreflightFailure InstanceRecord
  unfolding is_target
  checked_record d (err e) = refuse authority_unavailable (some d.policy_ref) none
  checked_record d (ok r) =
      if is_target r request.target_ref
      then pure r
      else refuse invalid_definition (some d.policy_ref) none

  unfoldable pub checked_policy :
      DataEnvironmentDefinition → Result Fault (Option Policy) → Step PreflightFailure Policy
  checked_policy d (ok (some p)) = pure p
  checked_policy d _ = refuse invalid_definition (some d.policy_ref) none

  unfoldable pub checked_grant :
      DataEnvironmentDefinition
      → Result Fault (Option RawDataGrant)
      → Step PreflightFailure (Option RawDataGrant)
  checked_grant d (err e) = refuse raw_grant_required (some d.policy_ref) none
  checked_grant d (ok none) = refuse raw_grant_required (some d.policy_ref) none
  checked_grant d (ok (some grant)) =
      if not (grant.operation_id == request.operation.operation_id)
        || not (grant.environment_id == d.environment_id)
      then refuse raw_grant_required (some d.policy_ref) none
      else (do
        time ← perform now (λ w. let (time, after) = ports.now w in (ok time, after))
        if leb grant.expires_at time
            then refuse raw_grant_required (some d.policy_ref) none
            else pure (some grant))

  unfoldable pub grant_for : DataEnvironmentDefinition → Step PreflightFailure (Option RawDataGrant)
  unfolding checked_grant
  grant_for d =
      if request.request_raw_delivery
      then (do
        answer ←
            tried (authorize request.operation.operation_id d.environment_id)
              (ports.authorize request.operation.operation_id d.environment_id)
        checked_grant d answer)
      else pure none

  unfoldable pub checked_point :
      DataEnvironmentDefinition
      → Option RawDataGrant
      → Result Fault (Option String)
      → Step PreflightFailure (Option String)
  checked_point d grant (ok (some point)) = pure (some point)
  checked_point d grant _ = refuse recovery_point_unavailable (some d.policy_ref) grant

  unfoldable pub point_for :
      DataEnvironmentDefinition
      → Option RawDataGrant
      → Option DatabaseRef
      → Step PreflightFailure (Option String)
  unfolding checked_point
  point_for d grant none = pure none
  point_for d grant (some ref) = do
    answer ← tried (acquire ref) (ports.acquire_recovery_point ref)
    checked_point d grant answer

  -- _preflight
  unfoldable pub preflight : Step PreflightFailure (Prepared Policy)
  unfolding checked_definition checked_record checked_policy grant_for point_for
  preflight = do
    found ←
        tried (resolve request.target_environment_id) (ports.resolve request.target_environment_id)
    d ← checked_definition found
    read ← tried (get request.target_pointer) (ports.get request.target_pointer)
    r ← checked_record d read
    chosen ← tried (policy d.policy_ref) (ports.policy d.policy_ref)
    p ← checked_policy d chosen
    grant ← grant_for d
    point ← point_for d grant request.target_ref
    pure (record { definition = d; instance_record = r; chosen = p; grant = grant; point = point })

  -- _lineage
  unfoldable pub lineage :
      Option String → Option String → Option RawDataGrant → DataEnvironmentLineage
  lineage policy_ref point grant = record {
    actor = request.actor;
    intent = request.intent;
    source = request.source_environment_id;
    target = request.target_environment_id;
    policy = policy_ref;
    recovery_point = point;
    raw_grant = grant;
  }

  -- _result
  unfoldable pub result :
      EnvironmentOutcomeCode
      → EnvironmentFailureCode
      → Option String
      → Option String
      → Option RawDataGrant
      → DataEnvironmentOperationResult
  unfolding lineage
  result code failure policy_ref point grant = record {
    outcome = record { code = code; failure_code = some failure };
    lineage = lineage policy_ref point grant;
    copy_result = none;
  }

  unfoldable pub recovered : EnvironmentFailureCode → Result Fault Bool → EnvironmentFailureCode
  recovered failure (ok true) = failure
  recovered failure _ = recovery_verification_failed

  -- `run` catches all that its collaborators raise: what it raises itself has no value.
  abbrev pub Total : Type 0 → Type 0
  Total A = Step ⊥ A

  unfoldable pub after_restore :
      DatabaseRef
      → String
      → EnvironmentFailureCode
      → Result Fault (Unit {0})
      → Total EnvironmentFailureCode
  unfolding recovered
  after_restore ref point failure (err e) = pure recovery_restore_failed
  after_restore ref point failure (ok _) = do
    answer ← tried (check ref point) (ports.verify_recovery_point ref point)
    pure (recovered failure answer)

  -- a point is acquired only for a target reference
  unfoldable pub recovery :
      Option DatabaseRef → Option String → EnvironmentFailureCode → Total EnvironmentFailureCode
  unfolding after_restore
  recovery (some ref) (some point) failure = do
    answer ← tried (restore ref point) (ports.restore_recovery_point ref point)
    after_restore ref point failure answer
  recovery _ _ failure = pure failure

  -- _after_mutation_failure
  unfoldable pub after_mutation_failure :
      Prepared Policy → EnvironmentFailureCode → Total DataEnvironmentOperationResult
  unfolding recovery result
  after_mutation_failure p failure = do
    code ← recovery request.target_ref p.point failure
    pure (result failed code (some p.definition.policy_ref) p.point p.grant)

  unfoldable pub order_of : Prepared Policy → Order
  order_of p = record {
    source = request.source;
    spec = request.spec;
    policy = p.chosen;
    credentials = request.credentials;
    operation = request.operation;
    request_raw_delivery = request.request_raw_delivery;
    raw_grant = p.grant;
    raw_grant_environment_id = p.definition.environment_id;
  }

  unfoldable pub judged :
      Prepared Policy
      → CoordinatedCopyResult
      → Result Fault Bool
      → Total DataEnvironmentOperationResult
  unfolding after_mutation_failure lineage
  judged p copied (ok true) = pure (record {
    outcome = record { code = succeeded; failure_code = none };
    lineage = lineage (some p.definition.policy_ref) p.point p.grant;
    copy_result = some copied;
  })
  judged p copied _ = after_mutation_failure p operation_verification_failed

  unfoldable pub after_copy :
      Prepared Policy → Result Fault CoordinatedCopyResult → Total DataEnvironmentOperationResult
  unfolding after_mutation_failure judged
  after_copy p (err e) = after_mutation_failure p mutation_failed
  after_copy p (ok copied) = do
    verdict ← tried (verify copied) (ports.verify_operation copied)
    judged p copied verdict

  unfoldable pub after_preflight :
      Result PreflightFailure (Prepared Policy) → Total DataEnvironmentOperationResult
  unfolding result order_of after_copy
  after_preflight (err failure) =
      pure (result refused failure.code failure.policy none failure.raw_grant)
  after_preflight (ok p) = do
    copied ← tried (copy (order_of p)) (ports.copy (order_of p))
    after_copy p copied

  -- run
  unfoldable pub run : Total DataEnvironmentOperationResult
  unfolding preflight after_preflight
  run = do prepared ← attempt preflight; after_preflight prepared
