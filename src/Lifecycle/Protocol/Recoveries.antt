-- ===== src/Lifecycle/Protocol/Recoveries.antt =====
-- Each way of `LifecycleService._recover` (odoo_forge/resource_lifecycle/service.py) follows the
-- protocol, from the checks to the entry that reports it.
use odoo_forge.Base.{
  arith, ◌≡◌, refl, Result, ok, err, String, Bool, true, false, not, [], ◌∷◌, Option, none, some,
  if◌then◌else◌, ℕ, ◌+◌, is_empty, ◌==◌, string_eq,
}
use odoo_forge.Base.Int.{pos, ltb_ℤ}
use odoo_forge.Base.Effects.{Session}
use odoo_forge.Base.Hoare.{
  After, framed, Hoare, pure_rule, raise_rule, if_rule, bind_rule, weaken_rule,
}
use odoo_forge.Values.{
  InstanceRecord, CreationReceipt, DatabaseRef, DatabaseCreation, created, OwnershipReceipt,
  scope_eq, database_eq,
}
use odoo_forge.Lifecycle.{
  LifecycleOutcome, Datetime, human_intervention, quarantined, adopted, reconciled, cancelled,
  deleted, DatabaseObservation, QuarantineHistory,
}
use odoo_forge.Lifecycle.Ports.{
  Ports, Call, quarantine, LifecycleError, port_error, assertion_error,
}
use odoo_forge.Lifecycle.Checks.{operation, confirmed_zombie, lineage_matches}
use odoo_forge.Lifecycle.Recovery
use odoo_forge.Lifecycle.Recovery.{event_of, RecoveryResult, Run, Service, on_port, or_raise}
use odoo_forge.Lifecycle.Protocol.{
  IsEntry, log_taken, lose, lost, next, idle, held, logged, checked, removed, look, hold, take_over,
  log_hold, check, remove, log_removal, repair, log_repair, note, at_idle, at_logged, at_checked,
  at_recorded,
}
use odoo_forge.Lifecycle.Protocol.Steps.{
  At, Fine, Done, call_rule, At-Fine, At-Rest, finish_rule, human_rule, now_rule, or_raise_rule,
  eligible_rule, waited_rule, append_rule,
}
use odoo_forge.Lifecycle.Protocol.Stages.{
  Verdict, Confirmed, matches_rule, revalidate_rule, zombie_rule, cleanup_rule,
}

of_not : {b : Bool} → not b ≡ false → b ≡ true
of_not {b} h = ground arith

module _ {W Fault : Type 0} (ports : Ports W Fault) (first : W) (retries : ℕ) (run : Run) where
  hold-After :
      (ref : DatabaseRef) (r : Result Fault DatabaseRef) (s : Session W Call)
      → At ports first idle s
      → (ports.gateway.quarantine ref s.world).0 ≡ r
      → After {E = LifecycleError Fault}
          (λ answer. At ports first (held answer))
          (Fine ports first)
          (elim r [ ok a ↦ ok a | err e ↦ err (port_error e) ])
          (record {
            world = (ports.gateway.quarantine ref s.world).1;
            calls = quarantine ref ∷ s.calls;
          })
  hold-After ref (ok answer) s t e = next t (hold e)
  hold-After ref (err _) s t e = record { phase = lost; trail = next t lose }

  hold_rule :
      (ref : DatabaseRef)
      → Hoare
          (At ports first idle)
          (Recovery.hold ports retries ref)
          (λ answer. At ports first (held answer))
          (Fine ports first)
  unfolding Recovery.hold
  hold_rule ref = record { holds = λ s t. hold-After ref _ s t refl }

  -- The entry that the service writes for a history.
  entry :
      (outcome : LifecycleOutcome) (digest : String) (history : QuarantineHistory)
      {ref : DatabaseRef}
      → history.resource ≡ ref
      → IsEntry outcome ref (event_of run outcome digest (some history) [] "action")
  unfolding event_of
  entry outcome digest history names = record {
    history = history;
    is_outcome = refl;
    has_history = refl;
    names = names;
  }

  remove_rule :
      run.authorization.approved ≡ true
      → run.delete ≡ true
      → (operation_id : String) (ref : DatabaseRef) (digest : String) (history : QuarantineHistory)
      → history.resource ≡ ref
      → Hoare
          (At ports first (checked ref))
          (Recovery.remove ports retries run operation_id ref digest history)
          (Done ports first run)
          (Fine ports first)
  unfolding Recovery.remove
  remove_rule approved asked operation_id ref digest history names =
      let receipt : CreationReceipt = record {
        operation = operation_id;
        owned_resource_ids = ref.identifier ∷ [];
      } in
      let creation : DatabaseCreation = record {
        ref = ref;
        receipt = receipt;
        data_volume_ownership = created;
      } in
      bind_rule
        (call_rule ports first _ (on_port (ports.gateway.delete creation)) (λ w. refl)
          (λ _. remove refl refl))
        (λ _.
          bind_rule
            (append_rule ports first run {p = removed ref receipt} deleted digest (some history)
              (λ _. log_removal (entry deleted digest history names)))
            (λ _. bind_rule (cleanup_rule ports first run (retries + 1) receipt []) (λ residuals.
              if_rule (is_empty residuals)
                (λ _. weaken_rule (At-Rest ports first at_recorded) (
                  finish_rule ports first run "deleted" deleted "registry" [] (λ _. approved)
                    (λ _. asked)))
                (λ _. weaken_rule (At-Rest ports first at_recorded) (
                  finish_rule ports first run "partial-cleanup" human_intervention "registry"
                    residuals (λ h. absurd (h refl)) (λ h. absurd (cc h)))))))

  zombie_delete_rule :
      run.authorization.approved ≡ true
      → run.delete ≡ true
      → (history : QuarantineHistory) (ref : DatabaseRef) → history.resource ≡ ref
      → Hoare
          (At ports first (logged ref))
          (Recovery.zombie_delete ports retries run history ref)
          (Done ports first run)
          (Fine ports first)
  unfolding Recovery.zombie_delete
  zombie_delete_rule approved asked history ref names =
      bind_rule (zombie_rule ports first run ref history) go
    where
      go :
          (gone : Bool)
          → Hoare
              (Confirmed ports first (checked ref) gone)
              (if not gone
                then Recovery.human ports run "not-confirmed-zombie" "registry"
                else Recovery.remove ports retries run history.operation.operation_id ref "registry"
                    history)
              (Done ports first run)
              (Fine ports first)
      go true = remove_rule approved asked _ ref "registry" history names
      go false = human_rule ports first run _ _

  zombie_hold_rule :
      run.authorization.approved ≡ true
      → (history : QuarantineHistory)
      → Hoare
          (At ports first idle)
          (Recovery.zombie_hold ports retries run history)
          (Done ports first run)
          (Fine ports first)
  unfolding Recovery.zombie_hold
  zombie_hold_rule approved history = bind_rule (hold_rule history.resource) (λ ref.
      bind_rule
        (append_rule ports first run quarantined "registry" _
          (λ _. log_hold (entry quarantined "registry" (record history { resource = ref }) refl)))
        (λ _.
          if_rule run.delete (λ asked. zombie_delete_rule approved asked _ ref refl)
            (λ _. weaken_rule (At-Rest ports first at_logged) (
              finish_rule ports first run "confirmed-zombie" quarantined "registry" []
                (λ _. approved) (λ h. absurd (cc h))))))

  zombie_step_rule :
      run.authorization.approved ≡ true
      → (history : QuarantineHistory) (refusal : Option String)
      → Hoare
          (At ports first idle)
          (Recovery.zombie_step ports retries run history refusal)
          (Done ports first run)
          (Fine ports first)
  unfolding Recovery.zombie_step
  zombie_step_rule approved history none = zombie_hold_rule approved history
  zombie_step_rule approved history (some code) =
      weaken_rule (At-Rest ports first at_idle) (human_rule ports first run code "registry")

  refusal_rule :
      (history : QuarantineHistory)
      → Hoare
          (At ports first idle)
          (Recovery.zombie_refusal ports retries run history)
          (λ _. At ports first idle)
          (Fine ports first)
  unfolding Recovery.zombie_refusal
  refusal_rule history =
      if_rule run.delete
        (λ _.
          bind_rule (waited_rule ports first run idle history) (λ waited. pure_rule _ (λ s h. h)))
        (λ _. pure_rule _ (λ s h. h))

  recover_zombie_rule :
      run.authorization.approved ≡ true
      → (history : QuarantineHistory) (o : Option DatabaseObservation)
      → Hoare
          (At ports first idle)
          (Recovery.recover_zombie ports retries run history o)
          (Done ports first run)
          (Fine ports first)
  unfolding Recovery.recover_zombie
  recover_zombie_rule approved history o =
      if_rule (not (confirmed_zombie run.scope run.policy history o))
        (λ _. weaken_rule (At-Rest ports first at_idle) (human_rule ports first run _ _))
        (λ _. bind_rule (refusal_rule history) (zombie_step_rule approved history))

  adopt_rule :
      run.authorization.approved ≡ true
      → (o : DatabaseObservation) (failure : Option (String × String))
      → Hoare
          (Verdict ports first idle failure)
          (Recovery.adopt_settled ports retries run o failure)
          (Done ports first run)
          (Fine ports first)
  unfolding Recovery.adopt_settled
  adopt_rule approved o (some failure) = human_rule ports first run _ _
  adopt_rule approved o none = bind_rule (hold_rule o.ref) (λ ref.
      bind_rule
        (call_rule ports first _ (on_port (ports.gateway.adopt ref)) (λ w. refl) (λ _. take_over))
        (λ _.
          bind_rule (append_rule ports first run quarantined "registry" none (λ _. log_taken refl))
            (λ _.
              bind_rule (append_rule ports first run adopted "registry" none (λ _. note at_idle))
                (λ _. weaken_rule (At-Rest ports first at_idle) (
                  finish_rule ports first run "adopted" adopted o.evidence_digest [] (λ _. approved)
                    (λ h. absurd (cc h)))))))

  unrecorded_rule :
      run.authorization.approved ≡ true
      → (o : DatabaseObservation)
      → Hoare
          (At ports first idle)
          (Recovery.recover_unrecorded ports retries run o)
          (Done ports first run)
          (Fine ports first)
  unfolding Recovery.recover_unrecorded
  unrecorded_rule approved o =
      if_rule (not o.ownership_valid)
        (λ _. weaken_rule (At-Rest ports first at_idle) (human_rule ports first run _ _))
        (λ _.
          bind_rule (revalidate_rule ports first run idle idle at_idle at_idle (λ _. look) none o)
            (adopt_rule approved o))

  unseen_rule :
      run.authorization.approved ≡ true
      → (r : InstanceRecord)
      → Hoare
          (At ports first idle)
          (Recovery.recover_unseen ports retries run r)
          (Done ports first run)
          (Fine ports first)
  unfolding Recovery.recover_unseen
  unseen_rule approved r = bind_rule (matches_rule ports first run idle r) (λ stands.
      if_rule (not stands)
        (λ _. weaken_rule (At-Rest ports first at_idle) (human_rule ports first run _ _))
        (λ _.
          bind_rule
            (call_rule ports first _ (on_port (ports.gateway.reconcile (operation r))) (λ w. refl)
              (λ _. repair))
            (λ _.
              bind_rule
                (append_rule ports first run reconciled "registry" none (λ _. log_repair refl))
                (λ _. weaken_rule (At-Rest ports first at_idle) (
                  finish_rule ports first run "registry-only" reconciled "registry" []
                    (λ _. approved) (λ h. absurd (cc h)))))))

  delete_rule :
      run.authorization.approved ≡ true
      → run.delete ≡ true
      → (r : InstanceRecord) (o : DatabaseObservation) (ref : DatabaseRef)
        (history : QuarantineHistory)
      → history.resource ≡ ref
      → (failure : Option (String × String))
      → Hoare
          (Verdict ports first (checked ref) failure)
          (Recovery.delete_settled ports retries run r o ref history failure)
          (Done ports first run)
          (Fine ports first)
  unfolding Recovery.delete_settled
  delete_rule approved asked r o ref history names none =
      remove_rule approved asked (operation r) ref o.evidence_digest history names
  delete_rule approved asked r o ref history names (some failure) =
      if_rule (failure.0 == "evidence-drift")
        (λ _.
          finish_rule ports first run "evidence-changed" cancelled failure.1 [] (λ _. approved)
            (λ h. absurd (cc h)))
        (λ _. human_rule ports first run _ _)

  timed_rule :
      (r : InstanceRecord) (o : DatabaseObservation) (ref : DatabaseRef)
      (receipt : OwnershipReceipt) (now : Datetime)
      → Hoare
          (At ports first (held ref))
          (Recovery.timed ports r o ref receipt now)
          (λ history s. (history.resource ≡ ref) × At ports first (held ref) s)
          (Fine ports first)
  unfolding Recovery.timed
  timed_rule r o ref receipt now =
      if_rule (not now.aware) (λ _. raise_rule _ (At-Fine ports first (held ref)))
        (λ _. pure_rule _ (λ s h. (refl, h)))

  history_rule :
      (r : InstanceRecord) (o : DatabaseObservation) (ref : DatabaseRef)
      → Hoare
          (At ports first (held ref))
          (Recovery.quarantine_history ports run r o ref)
          (λ history s. (history.resource ≡ ref) × At ports first (held ref) s)
          (Fine ports first)
  unfolding Recovery.quarantine_history
  history_rule r o ref =
      bind_rule (or_raise_rule ports first run (held ref) assertion_error r.receipt) (λ receipt.
        bind_rule (now_rule ports first run (held ref) run.now) (timed_rule r o ref receipt))

  quarantined_rule :
      run.authorization.approved ≡ true
      → (r : InstanceRecord) (o : DatabaseObservation) (ref : DatabaseRef)
        (history : QuarantineHistory)
      → history.resource ≡ ref
      → Hoare
          (At ports first (logged ref))
          (Recovery.after_quarantine ports retries run r o ref history)
          (Done ports first run)
          (Fine ports first)
  unfolding Recovery.after_quarantine
  quarantined_rule approved r o ref history names =
      if_rule (not run.delete)
        (λ _. weaken_rule (At-Rest ports first at_logged) (
          finish_rule ports first run "quarantined" quarantined "registry" [] (λ _. approved)
            (λ h. absurd (cc h))))
        (λ kept.
          if_rule (ltb_ℤ (pos 0) run.wait)
            (λ _. weaken_rule (At-Rest ports first at_logged) (
              finish_rule ports first run "quarantine-wait" quarantined "registry" ("wait" ∷ [])
                (λ _. approved) (λ h. absurd (cc h))))
            (λ _.
              bind_rule
                (revalidate_rule ports first run (logged ref) (checked ref) at_logged at_checked
                  (λ _. check) (some r) o)
                (delete_rule approved (of_not kept) r o ref history names)))

  quarantine_rule :
      run.authorization.approved ≡ true
      → (r : InstanceRecord) (o : DatabaseObservation) (failure : Option (String × String))
      → Hoare
          (Verdict ports first idle failure)
          (Recovery.quarantine_settled ports retries run r o failure)
          (Done ports first run)
          (Fine ports first)
  unfolding Recovery.quarantine_settled
  quarantine_rule approved r o (some failure) = human_rule ports first run _ _
  quarantine_rule approved r o none = bind_rule (hold_rule o.ref) (λ ref.
      bind_rule (history_rule r o ref) (λ history. framed (λ names.
        bind_rule
          (append_rule ports first run quarantined o.evidence_digest (some history)
            (λ _. log_hold (entry quarantined o.evidence_digest history names)))
          (λ _. quarantined_rule approved r o ref history names))))

  recorded_rule :
      run.authorization.approved ≡ true
      → (r : InstanceRecord) (o : DatabaseObservation)
      → Hoare
          (At ports first idle)
          (Recovery.recover_recorded ports retries run r o)
          (Done ports first run)
          (Fine ports first)
  unfolding Recovery.recover_recorded
  recorded_rule approved r o =
      if_rule (not o.ownership_valid)
        (λ _. weaken_rule (At-Rest ports first at_idle) (human_rule ports first run _ _))
        (λ _.
          if_rule (not (lineage_matches r o))
            (λ _. weaken_rule (At-Rest ports first at_idle) (human_rule ports first run _ _))
            (λ _.
              bind_rule
                (revalidate_rule ports first run idle idle at_idle at_idle (λ _. look) (some r) o)
                (quarantine_rule approved r o)))

  observed_rule :
      run.authorization.approved ≡ true
      → (r : Option InstanceRecord) (o : DatabaseObservation)
      → Hoare
          (At ports first idle)
          (Recovery.recover_observed ports retries run r o)
          (Done ports first run)
          (Fine ports first)
  unfolding Recovery.recover_observed
  observed_rule approved none o = unrecorded_rule approved o
  observed_rule approved (some r) o = recorded_rule approved r o

  live_rule :
      run.authorization.approved ≡ true
      → (r : Option InstanceRecord) (o : DatabaseObservation)
      → Hoare
          (At ports first idle)
          (Recovery.recover_live ports retries run r o)
          (Done ports first run)
          (Fine ports first)
  unfolding Recovery.recover_live
  live_rule approved r o =
      if_rule (not (o.scope == run.scope))
        (λ _. weaken_rule (At-Rest ports first at_idle) (human_rule ports first run _ _))
        (λ _. bind_rule (eligible_rule ports first run idle o) (λ is_eligible.
          if_rule (not is_eligible)
            (λ _. weaken_rule (At-Rest ports first at_idle) (human_rule ports first run _ _))
            (λ _. observed_rule approved r o)))

  found_rule :
      run.authorization.approved ≡ true
      → (history : Option QuarantineHistory) (r : Option InstanceRecord)
        (o : Option DatabaseObservation)
      → Hoare
          (At ports first idle)
          (Recovery.recover_found ports retries run history r o)
          (Done ports first run)
          (Fine ports first)
  unfolding Recovery.recover_found
  found_rule approved (some history) none o = recover_zombie_rule approved history o
  found_rule approved (some history) (some r) (some o) = live_rule approved (some r) o
  found_rule approved (some history) (some r) none = unseen_rule approved r
  found_rule approved none r (some o) = live_rule approved r o
  found_rule approved none (some r) none = unseen_rule approved r
  found_rule approved none none none =
      weaken_rule (At-Rest ports first at_idle) (human_rule ports first run _ _)

  -- One recovery, from a phase in which nothing is under way, follows the protocol.
  pub recover_rule :
      (r : Option InstanceRecord) (o : Option DatabaseObservation)
      (history : Option QuarantineHistory)
      → Hoare
          (At ports first idle)
          (Recovery.recover ports retries run r o history)
          (Done ports first run)
          (Fine ports first)
  unfolding Recovery.recover
  recover_rule r o history =
      if_rule (not run.authorization.approved)
        (λ _. weaken_rule (At-Rest ports first at_idle) (human_rule ports first run _ _))
        (λ refused. found_rule (of_not refused) history r o)
