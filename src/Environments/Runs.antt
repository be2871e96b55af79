-- ===== src/Environments/Runs.antt =====
-- Every run of `DataEnvironmentService` (odoo_forge/data_environments/service.py) returns a result that
-- its calls tell.
use odoo_forge.Base.{
  ◌≡◌, refl, String, Bool, true, false, List, [], Option, none, some, Result, ok, err, string_eq,
}
use odoo_forge.Base.Hoare.{After, Hoare, pure_rule, bind_rule, attempt_cases}
use odoo_forge.Values.{DatabaseRef, scope_eq}
use odoo_forge.Artifacts.Copy.{CoordinatedCopyResult}
use odoo_forge.Environments.{
  EnvironmentFailureCode, failed, mutation_failed, operation_verification_failed,
  DataEnvironmentOperationRequest, DataEnvironmentOperationResult, operation_outcome,
}
use odoo_forge.Environments.Service
use odoo_forge.Environments.Service.{
  Ports, Prepared, PreflightFailure, CopyOrder, Call, resolve, get, policy, authorize, now, acquire,
  copy, verify, restore, check, run, preflight, order_of, result, is_valid_definition, is_target,
}
use odoo_forge.Environments.Protocol.{
  Phase, preparing, copied, delivered, approved, restored, IsCleared, Step, copy_new, copy_over,
  deliver_new, deliver_over, approve, disapprove, roll_back, confirm, start, world_after, Ends,
  refusing, succeeding, restoring, failing, Told,
}
use odoo_forge.Environments.Preflight
use odoo_forge.Environments.Preflight.{Point, new, existing, in_force}

module _ {W Fault Source Spec Credentials Policy : Type 0}
    (ports : Ports W Fault Source Spec Credentials Policy)
    (request : DataEnvironmentOperationRequest Source Spec Credentials) (w : W) where
  abbrev S : Type 0
  S = Preflight.S ports request w

  abbrev At : Phase → S → Type 0
  At = Preflight.At ports request w

  abbrev Never : S → Type 0
  Never = Preflight.Never ports request w

  -- The result as the calls tell it.
  abbrev Tells : DataEnvironmentOperationResult → S → Type 0
  Tells r s = Told ports request w s.calls r

  -- What a failed mutation ends in.
  record Ending (s : S) : Type 0 where
    end_phase : Phase
    for_failure :
        (r : DataEnvironmentOperationResult)
        → r.outcome.code ≡ failed
        → r.copy_result ≡ none
        → Ends request.target_ref r end_phase
    ended_at : At end_phase s

  restored-Ending :
      (ref : DatabaseRef) → request.target_ref ≡ some ref → (s : S) → At restored s → Ending s
  restored-Ending ref e s t = record {
    end_phase = restored;
    for_failure = λ r code no_copy. restoring (λ n. absurd (cc (n, e))) code no_copy;
    ended_at = t;
  }

  after_restore_rule :
      (ref : DatabaseRef) (point : String) (failure : EnvironmentFailureCode)
      (answer : Result Fault (Unit {0}))
      → request.target_ref ≡ some ref
      → Hoare
          (At restored)
          (Service.after_restore ports request ref point failure answer)
          (λ _. Ending)
          Never
  unfolding Service.after_restore
  after_restore_rule ref point failure (err e) t = pure_rule _ (restored-Ending ref t)
  after_restore_rule ref point failure (ok _) t =
      bind_rule
        (Preflight.tried_rule ports request w _ (ports.verify_recovery_point ref point) (λ w'. refl)
          (λ _. confirm))
        (λ answer.
          pure_rule (Service.recovered ports request failure answer) (restored-Ending ref t))

  recovery_rule :
      (ref : Option DatabaseRef) (point : Option String) (failure : EnvironmentFailureCode)
      {p : Phase}
      → request.target_ref ≡ ref
      → Point ref point p
      → Hoare
          (At (copied point))
          (Service.recovery ports request ref point failure)
          (λ _. Ending)
          Never
  unfolding Service.recovery
  recovery_rule _ _ failure e new = pure_rule failure (λ s t. record {
    end_phase = copied none;
    for_failure = λ r code no_copy. failing e code no_copy;
    ended_at = t;
  })
  recovery_rule _ _ failure e (existing {ref} {point}) =
      bind_rule
        (Preflight.tried_rule ports request w _ (ports.restore_recovery_point ref point)
          (λ w'. refl) (λ _. roll_back e))
        (λ answer. after_restore_rule ref point failure answer e)

  failure_rule :
      (p : Prepared Policy) (failure : EnvironmentFailureCode) {phase : Phase}
      → Point request.target_ref p.point phase
      → Hoare
          (At (copied p.point))
          (Service.after_mutation_failure ports request p failure)
          Tells
          Never
  unfolding Service.after_mutation_failure result operation_outcome
  failure_rule p failure point =
      bind_rule (recovery_rule request.target_ref p.point failure refl point) (λ code.
        pure_rule _ (λ s h. record {
          phase = h.end_phase;
          trail = h.ended_at.trail;
          ends = h.for_failure _ refl refl;
          accepted = refl;
        }))

  -- What the provider's verdict on a result comes to.
  abbrev with_verdict : Option String → CoordinatedCopyResult → Result Fault Bool → Phase
  with_verdict point c (ok true) = approved c
  with_verdict point c (ok false) = copied point
  with_verdict point c (err e) = copied point

  -- What the coordinator's answer comes to.
  abbrev with_answer : Option String → Result Fault CoordinatedCopyResult → Phase
  with_answer point (ok c) = delivered point c
  with_answer point (err e) = copied point

  judged_rule :
      (p : Prepared Policy) (c : CoordinatedCopyResult) (verdict : Result Fault Bool)
      {phase : Phase}
      → Point request.target_ref p.point phase
      → Hoare
          (At (with_verdict p.point c verdict))
          (Service.judged ports request p c verdict)
          Tells
          Never
  unfolding Service.judged operation_outcome
  judged_rule p c (ok true) point = pure_rule _ (λ s t. record {
    phase = approved c;
    trail = t.trail;
    ends = succeeding refl refl;
    accepted = refl;
  })
  judged_rule p c (ok false) point = failure_rule p operation_verification_failed point
  judged_rule p c (err e) point = failure_rule p operation_verification_failed point

  judge_step :
      (point : Option String) (c : CoordinatedCopyResult)
      (earlier : List (Call (CopyOrder Source Spec Credentials Policy)))
      (verdict : Result Fault Bool)
      → (ports.verify_operation c (world_after ports request w earlier)).0 ≡ verdict
      → Step ports request w earlier (delivered point c) (verify c) (with_verdict point c verdict)
  judge_step point c earlier (ok true) e = approve e
  judge_step point c earlier (ok false) e = disapprove
  judge_step point c earlier (err _) e = disapprove

  after_copy_rule :
      (p : Prepared Policy) (answer : Result Fault CoordinatedCopyResult) {phase : Phase}
      → Point request.target_ref p.point phase
      → Hoare
          (At (with_answer p.point answer))
          (Service.after_copy ports request p answer)
          Tells
          Never
  unfolding Service.after_copy
  after_copy_rule p (err e) point = failure_rule p mutation_failed point
  after_copy_rule p (ok c) point =
      bind_rule
        (Preflight.answer_rule ports request w {q = with_verdict p.point c} (verify c)
          (ports.verify_operation c) (λ w'. refl) (judge_step p.point c))
        (λ verdict. judged_rule p c verdict point)

  copy_step :
      (order : CopyOrder Source Spec Credentials Policy) (ref : Option DatabaseRef)
      (point : Option String) (phase : Phase)
      → request.target_ref ≡ ref
      → Point ref point phase
      → IsCleared request (in_force phase) order
      → (earlier : List (Call (CopyOrder Source Spec Credentials Policy)))
        (answer : Result Fault CoordinatedCopyResult)
      → (ports.copy order (world_after ports request w earlier)).0 ≡ answer
      → Step ports request w earlier phase (copy order) (with_answer point answer)
  copy_step order _ _ _ e new cleared earlier (ok c) h = deliver_new e cleared h
  copy_step order _ _ _ e new cleared earlier (err _) h = copy_new e cleared
  copy_step order _ _ _ e existing cleared earlier (ok c) h = deliver_over cleared h
  copy_step order _ _ _ e existing cleared earlier (err _) h = copy_over cleared

  after_preflight_rule :
      (r : Result PreflightFailure (Prepared Policy))
      → Hoare
          (After (Preflight.Passed ports request w) (Preflight.Stopped ports request w) r)
          (Service.after_preflight ports request r)
          Tells
          Never
  unfolding Service.after_preflight result operation_outcome
  after_preflight_rule (err failure) = pure_rule _ (λ s h. record {
    phase = h.stop_phase;
    trail = h.stopped_at.trail;
    ends = refusing h.early refl refl;
    accepted = refl;
  })
  after_preflight_rule (ok p) = record {
    holds = λ s h. (copied_rule h.point_for_target h.cleared).holds s h.passed_at;
  }
    where
      copied_rule :
          {phase : Phase}
          → Point request.target_ref p.point phase
          → IsCleared request (in_force phase) (order_of ports request p)
          → Hoare (At phase) (Service.after_preflight ports request (ok p)) Tells Never
      copied_rule {phase} point cleared =
          bind_rule
            (Preflight.answer_rule ports request w {q = with_answer p.point}
              (copy (order_of ports request p)) (ports.copy (order_of ports request p)) (λ w'. refl)
              (copy_step (order_of ports request p) request.target_ref p.point phase refl point
                cleared))
            (λ answer. after_copy_rule p answer point)

  run_rule : Hoare (At (preparing none)) (run ports request) Tells Never
  unfolding run
  run_rule =
      bind_rule (attempt_cases (Preflight.preflight_rule ports request w)) after_preflight_rule

value_of :
    {S A : Type 0} (Q : A → S → Type 0) (r : Result ⊥ A) (s : S)
    → After Q (λ _. ⊥) r s
    → (a : A) × (r ≡ ok a) × Q a s
value_of Q (ok a) s h = (a, refl, h)
value_of Q (err e) s h = absurd e

-- Whatever the collaborators answer or raise, a run returns a result whose outcome its class accepts,
-- and which its calls tell. It is refused before any data is copied; or it succeeded, with the result
-- that the coordinator has answered with and the provider has verified, and no restoration; or it failed after the copy, and then an existing target's
-- restoration to the recovery point that is held was tried after it. Data is copied onto an existing
-- target only once the provider has answered with a recovery point for it. Raw data is copied only with
-- a grant that the authority has answered with, for the operation and the target environment, and that
-- expires after the time that the clock has answered with next.
pub run-Told :
    {W Fault Source Spec Credentials Policy : Type 0}
    (ports : Ports W Fault Source Spec Credentials Policy)
    (request : DataEnvironmentOperationRequest Source Spec Credentials) (w : W)
    → (r : DataEnvironmentOperationResult) × ((run ports request
          (record { world = w; calls = [] })).0
        ≡ ok r)
      × Told ports request w (run ports request (record { world = w; calls = [] })).1.calls r
run-Told ports request w =
    value_of (λ r s. Told ports request w s.calls r) _ _
      ((run_rule ports request w).holds (record { world = w; calls = [] })
        (record { trail = start; world_is = refl }))
