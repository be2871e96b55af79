-- ===== src/Durable/Recovery.antt =====
-- What `plan_recovery` decides, and that it never restarts an operation whose commit is recorded
-- (odoo_forge/durable_operations/service.py, odoo_forge/ports/durable_operation_store.py).
use odoo_forge.Base.{
  ℕ, ◌+◌, ◌≡◌, ◌≢◌, refl, ◌↔◌, Bool, false, arith, Option, none, some, List, ok, ◌⊎◌, inl, inr,
  is_empty,
}
use odoo_forge.Durable.{
  LifecycleState, accepted, in_progress, terminal_pending, cleanup_required, state_dec,
  RedactedEvidence, DurableCheckpoint, resume, surface_residual, no_recovery_required,
  plan_recovery, TerminalCommitBundle, build_terminal_commit, DurableOperationRecord,
  operation_record,
}

-- Work that is under way, with no doubt about what it did.
abbrev pub IsUnderWay : LifecycleState → Type 0
IsUnderWay accepted = Unit
IsUnderWay in_progress = Unit
IsUnderWay terminal_pending = Unit
IsUnderWay _ = ⊥

-- Recovery resumes exactly if the work is under way, and either a checkpoint says where it stood or
-- no mutation was attempted.
pub plan_recovery-resume_iff :
    (state : LifecycleState) (revision : ℕ) (checkpoint : Option DurableCheckpoint)
    (attempted : Bool)
    → ((plan_recovery state revision checkpoint attempted).action ≡ resume)
      ↔ (IsUnderWay state × ((checkpoint ≢ none) ⊎ (attempted ≡ false)))
unfolding plan_recovery state_dec
plan_recovery-resume_iff state revision checkpoint attempted =
    (λ h. ground arith, λ h. ground arith)

-- Every plan keeps the checkpoint. A resumed operation with a checkpoint goes on from the
-- checkpoint's next revision; where there is no checkpoint or the plan is not to resume, the revision
-- stays.
pub plan_recovery-revision :
    (state : LifecycleState) (revision : ℕ) (checkpoint : Option DurableCheckpoint)
    (attempted : Bool)
    → ((plan_recovery state revision checkpoint attempted).checkpoint ≡ checkpoint)
      × (((c : DurableCheckpoint) × (checkpoint ≡ some c)
            × ((plan_recovery state revision checkpoint attempted).action ≡ resume)
            × ((plan_recovery state revision checkpoint attempted).revision ≡ c.revision + 1))
          ⊎ (((checkpoint ≡ none)
                ⊎ ((plan_recovery state revision checkpoint attempted).action ≢ resume))
              × ((plan_recovery state revision checkpoint attempted).revision ≡ revision)))
unfolding plan_recovery state_dec
plan_recovery-revision state revision none attempted = (ground arith, inr (inl refl, ground arith))
plan_recovery-revision accepted revision (some c) attempted = (refl, inl (c, refl, refl, refl))
plan_recovery-revision in_progress revision (some c) attempted = (refl, inl (c, refl, refl, refl))
plan_recovery-revision terminal_pending revision (some c) attempted =
    (refl, inl (c, refl, refl, refl))
plan_recovery-revision _ revision (some c) attempted = (refl, inr (inr (λ e. cc), refl))

-- A record that its constructor accepts, and whose commit was built by `build_terminal_commit`.
module _ (r : DurableOperationRecord) (checked : operation_record r ≡ ok r) (expected : ℕ)
    (outcome : LifecycleState) (evidence residual : List RedactedEvidence)
    (commit : TerminalCommitBundle) (recorded : r.terminal_commit ≡ some commit)
    (built : build_terminal_commit expected outcome evidence residual ≡ ok commit) where
  -- The recovery of a record that its constructor accepts, with a commit that `build_terminal_commit`
  -- has built, has nothing to do, or cleanup to surface; the latter exactly while the record stands at
  -- `cleanup_required`, and then the commit owes cleanup.
  pub plan_recovery-committed :
      (revision : ℕ) (checkpoint : Option DurableCheckpoint) (attempted : Bool)
      → ((r.lifecycle ≡ cleanup_required)
          × (is_empty residual ≡ false)
          × ((plan_recovery r.lifecycle revision checkpoint attempted).action ≡ surface_residual))
        ⊎ ((r.lifecycle ≢ cleanup_required)
            × ((plan_recovery r.lifecycle revision checkpoint attempted).action
                ≡ no_recovery_required))
  unfolding plan_recovery state_dec operation_record build_terminal_commit
  plan_recovery-committed revision checkpoint attempted = ground arith
