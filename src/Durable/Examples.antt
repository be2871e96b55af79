-- ===== src/Durable/Examples.antt =====
-- The durable-operation theorems at concrete operations.
use odoo_forge.Base.{
  ◌+◌, ◌≤◌, ◌≡◌, ◌≢◌, refl, ◌↔◌, true, false, none, some, [], ◌∷◌, ok, ◌⊎◌, is_empty,
}
use odoo_forge.Values.{DurableOperationIdentity}
use odoo_forge.Durable.{
  accepted, in_progress, terminal_pending, failed, cleanup_required, state_dec, advance_lifecycle,
  is_post_commit, is_terminal_outcome, lifecycle_order, Patterns, RedactedEvidence,
  DurableCheckpoint, plan_recovery, resume, surface_residual, no_recovery_required,
  TerminalCommitBundle, DurableOperationRecord, operation_record, build_terminal_commit,
}
use odoo_forge.Durable.Transitions.{
  Allowed, advance-iff-Allowed, Run, Run_monotone, Run-uncommitted, Run-outcome,
}
use odoo_forge.Durable.Recovery.{plan_recovery-resume_iff, plan_recovery-committed, IsUnderWay}

advance-iff-Allowed_example :
    (advance_lifecycle accepted 0 in_progress ≡ ok (in_progress, 1)) ↔ Allowed accepted in_progress
advance-iff-Allowed_example = advance-iff-Allowed accepted in_progress 0

abbrev working : Run accepted 0 2 terminal_pending 2
unfolding advance_lifecycle state_dec
working = Run.step terminal_pending (Run.step in_progress Run.here refl) refl

Run_monotone_example : (lifecycle_order accepted ≤ lifecycle_order terminal_pending) × (2 ≡ 0 + 2)
Run_monotone_example = Run_monotone working

Run-uncommitted_example : is_post_commit terminal_pending ≡ false
unfolding is_post_commit
Run-uncommitted_example = Run-uncommitted working refl

abbrev cleaning : Run failed 3 1 failed 4
unfolding advance_lifecycle state_dec
cleaning = Run.step failed Run.here refl

Run-outcome_example : failed ≡ failed
unfolding is_terminal_outcome
Run-outcome_example = Run-outcome cleaning refl refl

abbrev proof : RedactedEvidence
proof = record { event = "captured"; summary = "capture completed"; references = "set-1" ∷ [] }

abbrev captured : DurableCheckpoint
captured = record { revision = 4; phase = "captured"; evidence = proof }

plan_recovery-resume_iff_example :
    ((plan_recovery in_progress 5 (some captured) true).action ≡ resume)
    ↔ (IsUnderWay in_progress × ((some captured ≢ none) ⊎ (true ≡ false)))
plan_recovery-resume_iff_example = plan_recovery-resume_iff in_progress 5 (some captured) true

abbrev request : DurableOperationIdentity
request = record { operation_id = "op-1"; request_digest = "d1" }

abbrev owing : TerminalCommitBundle
owing = record {
  expected_revision = 3;
  outcome = failed;
  evidence = proof ∷ [];
  residual_cleanup = proof ∷ [];
}

abbrev surfaced : DurableOperationRecord
surfaced = record {
  identity = request;
  revision = 4;
  lifecycle = cleanup_required;
  checkpoint = none;
  terminal_commit = some owing;
  recovery_evidence = [];
}

plan_recovery-committed_example :
    ((cleanup_required ≡ cleanup_required)
      × (is_empty (proof ∷ []) ≡ false)
      × ((plan_recovery cleanup_required 4 none true).action ≡ surface_residual))
    ⊎ ((cleanup_required ≢ cleanup_required)
        × ((plan_recovery cleanup_required 4 none true).action ≡ no_recovery_required))
unfolding operation_record build_terminal_commit
plan_recovery-committed_example =
    plan_recovery-committed surfaced refl 3 failed (proof ∷ []) (proof ∷ []) owing refl refl 4 none
      true

-- A stand-in for Python's `re` on the inputs here: nothing is sensitive, every name is safe.
abbrev pub lenient : Patterns
lenient = record { safe_identifier = λ _. true; sensitive = λ _. false }
