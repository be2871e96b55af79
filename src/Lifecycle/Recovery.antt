-- ===== src/Lifecycle/Recovery.antt =====
-- odoo_forge/resource_lifecycle/service.py: `LifecycleService`, over its ports.
use odoo_forge.Base.{
  ℕ, zero, suc, ◌+◌, String, Bool, true, false, not, ◌&&◌, ◌||◌, List, [], ◌∷◌, map, Option, none,
  some, Result, ok, err, if◌then◌else◌, ◌==◌, string_eq, is_empty,
}
use odoo_forge.Base.Int.{ℤ, pos, ltb_ℤ}
use odoo_forge.Base.Lists.{select}
use odoo_forge.Base.Equality.{option_eq}
use odoo_forge.Base.Effects.{Exec, Session, perform, pure, raise, attempt, ◌>>=◌, ◌>>◌}
use odoo_forge.Values.{
  CreationReceipt, OwnershipReceipt, DatabaseRef, DatabaseCreation, ProjectScope, InstancePointer,
  InstanceRecord, created, receipt_eq, database_eq, scope_eq, record_eq, receipt_dec, database_dec,
  scope_dec, record_dec,
}
use odoo_forge.Registry.Port.{RegistryError, not_found}
use odoo_forge.Lifecycle.{
  LifecycleOutcome, quarantined, adopted, reconciled, deleted, cancelled, human_intervention,
  Datetime, LifecyclePolicy, LifecycleAuthorization, LifecycleResidual, QuarantineHistory,
  LifecycleJournalEvent, DatabaseObservation,
}
use odoo_forge.Lifecycle.Ports.{
  Ports, LifecycleError, registry_error, port_error, type_error, validation_error, assertion_error,
  Call, observe, get, quarantine, adopt, reconcile, delete, cleanup, append, utc_now,
}
use odoo_forge.Lifecycle.Checks.{
  confirmed_zombie, wait_elapsed_at, matching, eligible_at, lineage_matches, operation,
}

pub record RecoveryResult : Type 0 where
  pub outcome : LifecycleOutcome
  pub residuals : List LifecycleResidual

-- The arguments of `run` that every step reads.
pub record Run : Type 0 where
  pub scope : ProjectScope
  pub policy : LifecyclePolicy
  pub authorization : LifecycleAuthorization
  pub delete : Bool
  pub wait : ℤ
  pub now : Option Datetime

abbrev pub Service : Type 0 → Type 0 → Type 0 → Type 0
Service W Fault A = Exec (Session W Call) (LifecycleError Fault) A

module _ {W Fault : Type 0} where
  abbrev pub on_registry : {A : Type 0} → Exec W RegistryError A → Exec W (LifecycleError Fault) A
  on_registry m w =
      let (r, after) = m w in (elim r [ ok a ↦ ok a | err e ↦ err (registry_error e) ], after)

  abbrev pub on_port : {A : Type 0} → Exec W Fault A → Exec W (LifecycleError Fault) A
  on_port m w = let (r, after) = m w in (elim r [ ok a ↦ ok a | err e ↦ err (port_error e) ], after)

-- the codes that need no residual
unfoldable pub is_plain : String → Bool
is_plain code =
    code == "adopted" || code == "quarantined" || code == "registry-only" || code == "deleted"

unfoldable pub residuals_of : String → List String → List LifecycleResidual
unfolding is_plain
residuals_of code residuals =
    if is_empty residuals && not (is_plain code)
    then record { code = code; detail = code } ∷ []
    else map (λ value. record { code = code; detail = value }) residuals

-- no answer becomes the error
abbrev pub or_raise : {S E A : Type 0} → E → Option A → Exec S E A
or_raise e none = raise e
or_raise e (some a) = pure a

unfoldable pub event_of :
    Run
    → LifecycleOutcome
    → String
    → Option QuarantineHistory
    → List LifecycleResidual
    → String
    → LifecycleJournalEvent
event_of run outcome digest history residuals kind = record {
  policy = run.policy;
  evidence = record { source = "lifecycle"; digest = digest };
  authorization = run.authorization;
  outcome = outcome;
  residuals = residuals;
  history = history;
  kind = kind;
}

-- the last tests of _revalidate: what is wrong, and the digest that shows it
unfoldable pub lineage_holds :
    Option InstanceRecord → DatabaseObservation → DatabaseObservation → Bool
unfolding lineage_matches receipt_dec
lineage_holds (some r) expected current = lineage_matches r current
lineage_holds none expected current = current.receipt == expected.receipt

unfoldable pub settle :
    Bool
    → Option InstanceRecord
    → DatabaseObservation
    → DatabaseObservation
    → Option (String × String)
unfolding lineage_holds
settle is_eligible record_ expected current =
    if not is_eligible
    then some ("ineligible", current.evidence_digest)
    else if not current.ownership_valid
    then some ("invalid-ownership", current.evidence_digest)
    else if not (lineage_holds record_ expected current)
    then some ("lineage-mismatch", current.evidence_digest)
    else if not (current.evidence_digest == expected.evidence_digest)
    then some ("evidence-drift", current.evidence_digest)
    else none

unfoldable pub zombie_settled : Run → QuarantineHistory → List DatabaseObservation → Bool
unfolding confirmed_zombie
zombie_settled run history [] = true
zombie_settled run history (o ∷ []) = confirmed_zombie run.scope run.policy history (some o)
zombie_settled run history _ = false

module _ {W Fault : Type 0} (ports : Ports W Fault) where
  unfoldable pub journal_append : LifecycleJournalEvent → Service W Fault (Unit {0})
  journal_append event = perform (append event) (on_port (ports.journal.append event))

  -- _append_action
  unfoldable pub append_action :
      Run → LifecycleOutcome → String → Option QuarantineHistory → Service W Fault (Unit {0})
  unfolding journal_append event_of
  append_action run outcome digest history =
      journal_append (event_of run outcome digest history [] "action")

  -- _finish
  unfoldable pub finish :
      Run → String → LifecycleOutcome → String → List String → Service W Fault RecoveryResult
  unfolding journal_append event_of residuals_of
  finish run code outcome digest residuals = do
    let values = residuals_of code residuals
    journal_append (event_of run outcome digest none values "action")
    pure (record { outcome = outcome; residuals = values })

  -- _human
  unfoldable pub human : Run → String → String → Service W Fault RecoveryResult
  unfolding finish
  human run code digest = finish run code human_intervention digest []

  -- `now or datetime.now(UTC)`
  unfoldable pub now_or_utc : Option Datetime → Service W Fault Datetime
  now_or_utc (some now) = pure now
  now_or_utc none = perform utc_now (λ w.
      let (micros, after) = ports.utc_now w in
      (ok (record { micros = micros; aware = true }), after))

  -- _eligible
  unfoldable pub eligible_since : Run → DatabaseObservation → Option Datetime → Service W Fault Bool
  unfolding now_or_utc eligible_at
  eligible_since run o none = pure false
  eligible_since run o (some last_activity) = do
    now ← now_or_utc run.now
    or_raise type_error (eligible_at o run.policy last_activity now)

  unfoldable pub eligible : Run → DatabaseObservation → Service W Fault Bool
  unfolding eligible_since
  eligible run o = eligible_since run o o.last_activity

  -- _quarantine_wait_elapsed
  unfoldable pub quarantine_wait_elapsed : Run → QuarantineHistory → Service W Fault Bool
  unfolding now_or_utc wait_elapsed_at
  quarantine_wait_elapsed run history = do
    now ← now_or_utc run.now
    pure (wait_elapsed_at history run.wait now)

  unfoldable pub registry_get : InstancePointer → Service W Fault InstanceRecord
  registry_get pointer = perform (get pointer) (on_registry (ports.registry.get pointer))

  unfoldable pub same_or_missing :
      InstanceRecord → Result (LifecycleError Fault) InstanceRecord → Service W Fault Bool
  unfolding record_dec
  same_or_missing r (ok stored) = pure (stored == r)
  same_or_missing r (err (registry_error (not_found _))) = pure false
  same_or_missing r (err e) = raise e

  -- _registry_matches
  unfoldable pub registry_matches : InstanceRecord → Service W Fault Bool
  unfolding registry_get same_or_missing
  registry_matches r = do answer ← attempt (registry_get r.pointer); same_or_missing r answer

  unfoldable pub observe_scope : ProjectScope → Service W Fault (List DatabaseObservation)
  observe_scope scope = perform (observe scope) (on_port (ports.gateway.observe scope))

  unfoldable pub record_stands : Option InstanceRecord → Service W Fault Bool
  unfolding registry_matches
  record_stands none = pure true
  record_stands (some r) = registry_matches r

  unfoldable pub revalidate_current :
      Run
      → Option InstanceRecord
      → DatabaseObservation
      → Option DatabaseObservation
      → Service W Fault (Option (String × String))
  unfolding eligible scope_dec settle
  revalidate_current run record_ expected none = pure (some ("evidence-drift", "missing"))
  revalidate_current run record_ expected (some current) =
      if not (current.scope == run.scope)
      then pure (some ("scope-mismatch", current.evidence_digest))
      else do is_eligible ← eligible run current; pure (settle is_eligible record_ expected current)

  -- _revalidate
  unfoldable pub revalidate :
      Run → Option InstanceRecord → DatabaseObservation → Service W Fault (Option (String × String))
  unfolding record_stands observe_scope matching revalidate_current
  revalidate run record_ expected = do
    stands ← record_stands record_
    if not stands then pure (some ("registry-drift", expected.evidence_digest)) else (do
      observations ← observe_scope run.scope
      revalidate_current run record_ expected (matching observations expected))

  -- `get` has answered: gone, still there, or another error
  unfoldable pub zombie_gone :
      Run → QuarantineHistory → Result (LifecycleError Fault) InstanceRecord → Service W Fault Bool
  unfolding zombie_settled select observe_scope database_dec
  zombie_gone run history (ok _) = pure false
  zombie_gone run history (err (registry_error (not_found _))) = do
    observations ← observe_scope run.scope
    pure (zombie_settled run history (select (λ o. o.ref == history.resource) observations))
  zombie_gone run history (err e) = raise e

  -- _revalidate_zombie
  unfoldable pub revalidate_zombie : Run → QuarantineHistory → Service W Fault Bool
  unfolding zombie_gone registry_get
  revalidate_zombie run history = do
    answer ← attempt (registry_get history.pointer)
    zombie_gone run history answer

  -- _cleanup, with the rounds left and the residual failures of the round before
  unfoldable pub cleanup_rounds : ℕ → CreationReceipt → List String → Service W Fault (List String)
  cleanup_rounds zero receipt residuals = pure residuals
  cleanup_rounds (suc rounds) receipt residuals = do
    failures ← perform (cleanup receipt) (on_port (ports.gateway.cleanup receipt))
    if is_empty failures then pure [] else cleanup_rounds rounds receipt failures

  -- _quarantine_history: the value class refuses a time without a timezone
  unfoldable pub timed :
      InstanceRecord
      → DatabaseObservation
      → DatabaseRef
      → OwnershipReceipt
      → Datetime
      → Service W Fault QuarantineHistory
  timed r o ref receipt now =
      if not now.aware
      then raise validation_error
      else pure (record {
        pointer = r.pointer;
        scope = o.scope;
        resource = ref;
        operation = receipt.operation;
        evidence_digest = o.evidence_digest;
        resource_class = o.resource_class;
        quarantined_at = now;
        last_activity = o.last_activity;
      })

  unfoldable pub quarantine_history :
      Run → InstanceRecord → DatabaseObservation → DatabaseRef → Service W Fault QuarantineHistory
  unfolding timed now_or_utc
  quarantine_history run r o ref = do
    receipt ← or_raise assertion_error r.receipt
    now ← now_or_utc run.now
    timed r o ref receipt now

-- `max_cleanup_retries`
module _ {W Fault : Type 0} (ports : Ports W Fault) (max_cleanup_retries : ℕ) where
  -- the end of both ways to delete: what the deletion leaves is cleaned up, and reported
  unfoldable pub remove :
      Run → String → DatabaseRef → String → QuarantineHistory → Service W Fault RecoveryResult
  unfolding append_action cleanup_rounds finish
  remove run operation_id ref digest history = do
    let receipt : CreationReceipt = record {
      operation = operation_id;
      owned_resource_ids = ref.identifier ∷ [];
    }
    let creation : DatabaseCreation = record {
      ref = ref;
      receipt = receipt;
      data_volume_ownership = created;
    }
    perform (delete creation) (on_port (ports.gateway.delete creation))
    append_action ports run deleted digest (some history)
    residuals ← cleanup_rounds ports (max_cleanup_retries + 1) receipt []
    if is_empty residuals
        then finish ports run "deleted" deleted "registry" []
        else finish ports run "partial-cleanup" human_intervention "registry" residuals

  unfoldable pub zombie_refusal : Run → QuarantineHistory → Service W Fault (Option String)
  unfolding quarantine_wait_elapsed
  zombie_refusal run history =
      if run.delete
      then (do
        waited ← quarantine_wait_elapsed ports run history
        pure (if waited then none else some "quarantine-wait"))
      else pure (if history.quarantined_at.aware then none else some "invalid-quarantine-history")

  unfoldable pub hold : DatabaseRef → Service W Fault DatabaseRef
  hold ref = perform (quarantine ref) (on_port (ports.gateway.quarantine ref))

  unfoldable pub zombie_delete :
      Run → QuarantineHistory → DatabaseRef → Service W Fault RecoveryResult
  unfolding revalidate_zombie human remove
  zombie_delete run history ref = do
    gone ← revalidate_zombie ports run history
    if not gone
        then human ports run "not-confirmed-zombie" "registry"
        else remove run history.operation.operation_id ref "registry" history

  unfoldable pub zombie_hold : Run → QuarantineHistory → Service W Fault RecoveryResult
  unfolding hold append_action zombie_delete finish
  zombie_hold run history = do
    ref ← hold history.resource
    let held : QuarantineHistory = record history { resource = ref }
    append_action ports run quarantined "registry" (some held)
    if run.delete
        then zombie_delete run held ref
        else finish ports run "confirmed-zombie" quarantined "registry" []

  unfoldable pub zombie_step :
      Run → QuarantineHistory → Option String → Service W Fault RecoveryResult
  unfolding human zombie_hold
  zombie_step run history (some code) = human ports run code "registry"
  zombie_step run history none = zombie_hold run history

  -- a quarantine on the journal whose record is gone
  unfoldable pub recover_zombie :
      Run → QuarantineHistory → Option DatabaseObservation → Service W Fault RecoveryResult
  unfolding confirmed_zombie human zombie_refusal zombie_step
  recover_zombie run history o =
      if not (confirmed_zombie run.scope run.policy history o)
      then human ports run "not-confirmed-zombie" "registry"
      else (do refusal ← zombie_refusal run history; zombie_step run history refusal)

  -- a live resource that no record names
  unfoldable pub adopt_settled :
      Run → DatabaseObservation → Option (String × String) → Service W Fault RecoveryResult
  unfolding human hold append_action finish
  adopt_settled run o (some failure) = human ports run failure.0 failure.1
  adopt_settled run o none = do
    ref ← hold o.ref
    perform (adopt ref) (on_port (ports.gateway.adopt ref))
    append_action ports run quarantined "registry" none
    append_action ports run adopted "registry" none
    finish ports run "adopted" adopted o.evidence_digest []

  unfoldable pub recover_unrecorded : Run → DatabaseObservation → Service W Fault RecoveryResult
  unfolding human revalidate adopt_settled
  recover_unrecorded run o =
      if not o.ownership_valid
      then human ports run "invalid-ownership" "registry"
      else (do failure ← revalidate ports run none o; adopt_settled run o failure)

  -- a record whose resource is not seen
  unfoldable pub recover_unseen : Run → InstanceRecord → Service W Fault RecoveryResult
  unfolding registry_matches human operation append_action finish
  recover_unseen run r = do
    stands ← registry_matches ports r
    if not stands then human ports run "registry-drift" "registry" else (do
      perform (reconcile (operation r)) (on_port (ports.gateway.reconcile (operation r)))
      append_action ports run reconciled "registry" none
      finish ports run "registry-only" reconciled "registry" [])

  unfoldable pub delete_settled :
      Run
      → InstanceRecord
      → DatabaseObservation
      → DatabaseRef
      → QuarantineHistory
      → Option (String × String)
      → Service W Fault RecoveryResult
  unfolding finish human remove operation
  delete_settled run r o ref history (some failure) =
      if failure.0 == "evidence-drift"
      then finish ports run "evidence-changed" cancelled failure.1 []
      else human ports run failure.0 failure.1
  delete_settled run r o ref history none = remove run (operation r) ref o.evidence_digest history

  -- what follows once the quarantine is on the journal
  unfoldable pub after_quarantine :
      Run
      → InstanceRecord
      → DatabaseObservation
      → DatabaseRef
      → QuarantineHistory
      → Service W Fault RecoveryResult
  unfolding finish revalidate delete_settled
  after_quarantine run r o ref history =
      if not run.delete
      then finish ports run "quarantined" quarantined "registry" []
      else if ltb_ℤ (pos 0) run.wait
      then finish ports run "quarantine-wait" quarantined "registry" ("wait" ∷ [])
      else (do
        failure ← revalidate ports run (some r) o
        delete_settled run r o ref history failure)

  unfoldable pub quarantine_settled :
      Run
      → InstanceRecord
      → DatabaseObservation
      → Option (String × String)
      → Service W Fault RecoveryResult
  unfolding human hold quarantine_history append_action after_quarantine
  quarantine_settled run r o (some failure) = human ports run failure.0 failure.1
  quarantine_settled run r o none = do
    ref ← hold o.ref
    history ← quarantine_history ports run r o ref
    append_action ports run quarantined o.evidence_digest (some history)
    after_quarantine run r o ref history

  -- a record and its live resource
  unfoldable pub recover_recorded :
      Run → InstanceRecord → DatabaseObservation → Service W Fault RecoveryResult
  unfolding human lineage_matches revalidate quarantine_settled
  recover_recorded run r o =
      if not o.ownership_valid
      then human ports run "invalid-ownership" o.evidence_digest
      else if not (lineage_matches r o)
      then human ports run "lineage-mismatch" o.evidence_digest
      else (do failure ← revalidate ports run (some r) o; quarantine_settled run r o failure)

  unfoldable pub recover_observed :
      Run → Option InstanceRecord → DatabaseObservation → Service W Fault RecoveryResult
  unfolding recover_unrecorded recover_recorded
  recover_observed run none o = recover_unrecorded run o
  recover_observed run (some r) o = recover_recorded run r o

  unfoldable pub recover_live :
      Run → Option InstanceRecord → DatabaseObservation → Service W Fault RecoveryResult
  unfolding scope_dec human eligible recover_observed
  recover_live run r o =
      if not (o.scope == run.scope) then human ports run "scope-mismatch" "registry" else (do
        is_eligible ← eligible ports run o
        if not is_eligible
            then human ports run "ineligible" o.evidence_digest
            else recover_observed run r o)

  -- what was found decides: the history, the record and the observation
  unfoldable pub recover_found :
      Run
      → Option QuarantineHistory
      → Option InstanceRecord
      → Option DatabaseObservation
      → Service W Fault RecoveryResult
  unfolding recover_zombie recover_live recover_unseen human
  recover_found run (some history) none o = recover_zombie run history o
  recover_found run _ r (some o) = recover_live run r o
  recover_found run none none none = human ports run "invalid-ownership" "registry"
  recover_found run _ (some r) none = recover_unseen run r

  -- _recover
  unfoldable pub recover :
      Run
      → Option InstanceRecord
      → Option DatabaseObservation
      → Option QuarantineHistory
      → Service W Fault RecoveryResult
  unfolding human recover_found
  recover run r o history =
      if not run.authorization.approved
      then human ports run "unauthorized" "registry"
      else recover_found run history r o
