-- ===== src/Durable.antt =====
-- Durable operations (odoo_forge/durable_operations/types.py, odoo_forge/durable_operations/service.py
-- and the record of odoo_forge/ports/durable_operation_store.py): the lifecycle of an operation, its
-- redacted evidence, checkpoints, recovery planning and the terminal commit. The proofs are in the
-- modules below.
pub mod Transitions
pub mod Recovery
pub mod Evidence
pub mod Examples
use odoo_forge.Base.{
  ℕ, ◌+◌, String, Bool, true, false, not, ◌&&◌, ◌||◌, List, Option, none, some, Result, ok, err,
  is_empty, if◌then◌else◌, ltb, ◌==◌, string_eq, Eq,
}
use odoo_forge.Base.Lists.{all, contains}
use odoo_forge.Values.{DurableOperationIdentity}

pub data LifecycleState : Type 0 where
  accepted in_progress reconciliation_required terminal_pending : LifecycleState
  succeeded failed cleanup_required closed : LifecycleState

unfoldable pub state_dec : Discrete LifecycleState
state_dec = hlevel

instance abbrev pub state_eq : Eq LifecycleState
state_eq = record { dec = state_dec }

-- `replay_conflict` is ReplayConflictError; the next three are InvalidLifecycleTransitionError with
-- its three messages; the two after them are IncompleteTerminalCommitError.
pub data DurableError : Type 0 where
  replay_conflict : (operation_id recorded submitted : String) → DurableError
  cannot_regress : (current target : LifecycleState) → DurableError
  cannot_overwrite : (current target : LifecycleState) → DurableError
  uncommitted : (target : LifecycleState) → DurableError
  outcome_not_terminal evidence_missing : DurableError
  unsafe_compensation : (resource_id operation_id : String) → DurableError
  value_error : DurableError

-- The constructor's checks are `redacted_evidence`.
pub record RedactedEvidence : Type 0 where
  pub event : String
  pub summary : String
  pub references : List String

pub record CompensationScope : Type 0 where
  pub operation_id : String
  pub owned_resource_ids : List String

-- Python's `re` is not part of the program: its verdicts for the two patterns of types.py are
-- parameters.
pub record Patterns : Type 0 where
  pub safe_identifier : String → Bool
  pub sensitive : String → Bool

module _ (p : Patterns) where
  unfoldable pub is_safe_identifier : String → Bool
  is_safe_identifier value = p.safe_identifier value && not (p.sensitive value)

  unfoldable pub validate_redacted_text : String → Bool
  validate_redacted_text value = not (value == "" || p.sensitive value)

  -- RedactedEvidence(event=…, summary=…, references=…)
  unfoldable pub redacted_evidence :
      String → String → List String → Result DurableError RedactedEvidence
  unfolding is_safe_identifier validate_redacted_text all
  redacted_evidence event summary references =
      if validate_redacted_text event
        && validate_redacted_text summary
        && all is_safe_identifier references
      then ok (record { event = event; summary = summary; references = references })
      else err value_error

  -- CompensationScope(operation_id=…, owned_resource_ids=…)
  unfoldable pub compensation_scope : String → List String → Result DurableError CompensationScope
  unfolding is_safe_identifier all
  compensation_scope operation_id ids =
      if all is_safe_identifier ids
      then ok (record { operation_id = operation_id; owned_resource_ids = ids })
      else err value_error

unfoldable pub owns : CompensationScope → String → Bool
unfolding contains
owns scope resource_id = contains scope.owned_resource_ids resource_id

-- A revision is its value.
pub record DurableCheckpoint : Type 0 where
  pub revision : ℕ
  pub phase : String
  pub evidence : RedactedEvidence

pub data RecoveryAction : Type 0 where
  resume reconcile surface_residual no_recovery_required : RecoveryAction

-- The reasons are the texts of `plan_recovery`.
pub record RecoveryPlan : Type 0 where
  pub action : RecoveryAction
  pub revision : ℕ
  pub checkpoint : Option DurableCheckpoint
  pub reason : String

pub record TerminalCommitBundle : Type 0 where
  pub expected_revision : ℕ
  pub outcome : LifecycleState
  pub evidence : List RedactedEvidence
  pub residual_cleanup : List RedactedEvidence

unfoldable pub lifecycle_order : LifecycleState → ℕ
lifecycle_order accepted = 0
lifecycle_order in_progress = 1
lifecycle_order reconciliation_required = 2
lifecycle_order terminal_pending = 3
lifecycle_order succeeded = 4
lifecycle_order failed = 4
lifecycle_order cleanup_required = 5
lifecycle_order closed = 6

unfoldable pub is_terminal_outcome : LifecycleState → Bool
is_terminal_outcome succeeded = true
is_terminal_outcome failed = true
is_terminal_outcome _ = false

unfoldable pub is_resolved : LifecycleState → Bool
unfolding is_terminal_outcome
is_resolved closed = true
is_resolved state = is_terminal_outcome state

unfoldable pub is_post_commit : LifecycleState → Bool
unfolding is_terminal_outcome
is_post_commit cleanup_required = true
is_post_commit closed = true
is_post_commit state = is_terminal_outcome state

unfoldable pub next_revision : ℕ → ℕ
next_revision revision = revision + 1

unfoldable pub replay_or_conflict :
    DurableOperationIdentity → String → Result DurableError DurableOperationIdentity
replay_or_conflict recorded submitted =
    if recorded.request_digest == submitted
    then ok recorded
    else err (replay_conflict recorded.operation_id recorded.request_digest submitted)

unfoldable pub advance_lifecycle :
    LifecycleState → ℕ → LifecycleState → Result DurableError (LifecycleState × ℕ)
unfolding lifecycle_order is_terminal_outcome is_post_commit next_revision
advance_lifecycle current revision target =
    if ltb (lifecycle_order target) (lifecycle_order current)
    then err (cannot_regress current target)
    else if is_terminal_outcome current && is_terminal_outcome target && not (target == current)
    then err (cannot_overwrite current target)
    else if is_post_commit target && not (is_post_commit current)
    then err (uncommitted target)
    else ok (target, next_revision revision)

unfoldable pub save_checkpoint :
    ℕ → String → RedactedEvidence → Result DurableError DurableCheckpoint
save_checkpoint revision phase evidence =
    if phase == ""
    then err value_error
    else ok (record { revision = revision; phase = phase; evidence = evidence })

-- The two branches after the tests on the state.
resume_plan : ℕ → Option DurableCheckpoint → Bool → RecoveryPlan
unfolding next_revision
resume_plan revision none true = record {
  action = reconcile;
  revision = revision;
  checkpoint = none;
  reason = "mutation outcome is unknown without a durable checkpoint";
}
resume_plan revision (some checkpoint) _ = record {
  action = resume;
  revision = next_revision checkpoint.revision;
  checkpoint = some checkpoint;
  reason = "resume from durable checkpoint";
}
resume_plan revision none false = record {
  action = resume;
  revision = revision;
  checkpoint = none;
  reason = "no mutation has been attempted";
}

unfoldable pub plan_recovery :
    LifecycleState → ℕ → Option DurableCheckpoint → (mutation_attempted : Bool) → RecoveryPlan
unfolding is_resolved resume_plan
plan_recovery state revision checkpoint mutation_attempted =
    if is_resolved state
    then record {
      action = no_recovery_required;
      revision = revision;
      checkpoint = checkpoint;
      reason = "operation is already resolved";
    }
    else if state == cleanup_required
    then record {
      action = surface_residual;
      revision = revision;
      checkpoint = checkpoint;
      reason = "residual cleanup remains open";
    }
    else if state == reconciliation_required
    then record {
      action = reconcile;
      revision = revision;
      checkpoint = checkpoint;
      reason = "mutation outcome requires reconciliation";
    }
    else resume_plan revision checkpoint mutation_attempted

unfoldable pub build_terminal_commit :
    ℕ
    → LifecycleState
    → List RedactedEvidence
    → List RedactedEvidence
    → Result DurableError TerminalCommitBundle
unfolding is_terminal_outcome
build_terminal_commit expected_revision outcome evidence residual_cleanup =
    if not (is_terminal_outcome outcome)
    then err outcome_not_terminal
    else if is_empty evidence
    then err evidence_missing
    else ok (record {
      expected_revision = expected_revision;
      outcome = outcome;
      evidence = evidence;
      residual_cleanup = residual_cleanup;
    })

unfoldable pub ensure_compensation_target : CompensationScope → String → Result DurableError String
unfolding owns
ensure_compensation_target scope resource_id =
    if owns scope resource_id
    then ok resource_id
    else err (unsafe_compensation resource_id scope.operation_id)

pub record DurableOperationRecord : Type 0 where
  pub identity : DurableOperationIdentity
  pub revision : ℕ
  pub lifecycle : LifecycleState
  pub checkpoint : Option DurableCheckpoint
  pub terminal_commit : Option TerminalCommitBundle
  pub recovery_evidence : List RedactedEvidence

unfoldable pub is_residual_lifecycle : LifecycleState → Bool
is_residual_lifecycle cleanup_required = true
is_residual_lifecycle closed = true
is_residual_lifecycle _ = false

commit_agrees : Option TerminalCommitBundle → LifecycleState → Bool
unfolding is_residual_lifecycle
commit_agrees none lifecycle = true
commit_agrees (some commit) lifecycle =
    if is_empty commit.residual_cleanup
    then lifecycle == commit.outcome
    else is_residual_lifecycle lifecycle

-- DurableOperationRecord(…) with `__post_init__`
unfoldable pub operation_record :
    DurableOperationRecord → Result DurableError DurableOperationRecord
unfolding commit_agrees
operation_record r = if commit_agrees r.terminal_commit r.lifecycle then ok r else err value_error
