-- ===== src/Lifecycle/Protocol/Stages.antt =====
-- The stages of `LifecycleService._recover` (odoo_forge/resource_lifecycle/service.py) follow the
-- protocol: evidence is read again, and each way to quarantine, adopt, repair or delete.
use odoo_forge.Base.{
  refl, String, Bool, true, false, not, List, [], Option, none, some, ℕ, zero, suc, Result, ok, err,
  is_empty, ◌==◌, string_eq,
}
use odoo_forge.Base.Effects.{Session, pure}
use odoo_forge.Base.Hoare.{Hoare, pure_rule, raise_rule, if_rule, bind_rule}
use odoo_forge.Values.{
  InstanceRecord, ProjectScope, CreationReceipt, scope_eq, database_eq, DatabaseRef,
}
use odoo_forge.Registry.Port.{
  not_found, missing_receipt, conflict, overwrite_rejected, invalid_row, unavailable,
}
use odoo_forge.Lifecycle.{DatabaseObservation, QuarantineHistory}
use odoo_forge.Lifecycle.Ports.{
  Ports, LifecycleError, registry_error, port_error, value_error, type_error, validation_error,
  assertion_error, Call, observe,
}
use odoo_forge.Lifecycle.Recovery
use odoo_forge.Lifecycle.Recovery.{RecoveryResult, Run, Service, on_port, or_raise}
use odoo_forge.Lifecycle.Protocol.{
  Phase, logged, checked, recorded, Step, check, clean, IsSettled, at_logged, at_checked,
}
use odoo_forge.Lifecycle.Protocol.Steps.{
  At, Rest, Fine, call_rule, At-Fine, At-Rest, eligible_rule, get_rule,
}

module _ {W Fault : Type 0} (ports : Ports W Fault) (first : W) where
  -- Evidence that still holds leaves a phase `q`; evidence that does not, some settled phase.
  abbrev pub Verdict : {A : Type 0} → Phase → Option A → Session W Call → Type 0
  Verdict q none s = At ports first q s
  Verdict q (some _) s = Rest ports first s

  -- The same, where the answer is a test.
  abbrev pub Confirmed : Phase → Bool → Session W Call → Type 0
  Confirmed q true s = At ports first q s
  Confirmed q false s = Rest ports first s

module _ {W Fault : Type 0} (ports : Ports W Fault) (first : W) (run : Run) where
  same_rule :
      (p : Phase) (r : InstanceRecord) (answer : Result (LifecycleError Fault) InstanceRecord)
      → Hoare
          (At ports first p)
          (Recovery.same_or_missing ports r answer)
          (λ _. At ports first p)
          (Fine ports first)
  unfolding Recovery.same_or_missing
  same_rule p r (ok stored) = pure_rule _ (λ s h. h)
  same_rule p r (err (registry_error (not_found _))) = pure_rule false (λ s h. h)
  same_rule p r (err (registry_error (missing_receipt _))) = raise_rule _ (At-Fine ports first p)
  same_rule p r (err (registry_error (conflict _))) = raise_rule _ (At-Fine ports first p)
  same_rule p r (err (registry_error (overwrite_rejected _))) = raise_rule _ (At-Fine ports first p)
  same_rule p r (err (registry_error invalid_row)) = raise_rule _ (At-Fine ports first p)
  same_rule p r (err (registry_error unavailable)) = raise_rule _ (At-Fine ports first p)
  same_rule p r (err (port_error _)) = raise_rule _ (At-Fine ports first p)
  same_rule p r (err value_error) = raise_rule _ (At-Fine ports first p)
  same_rule p r (err type_error) = raise_rule _ (At-Fine ports first p)
  same_rule p r (err validation_error) = raise_rule _ (At-Fine ports first p)
  same_rule p r (err assertion_error) = raise_rule _ (At-Fine ports first p)

  pub matches_rule :
      (p : Phase) (r : InstanceRecord)
      → Hoare
          (At ports first p)
          (Recovery.registry_matches ports r)
          (λ _. At ports first p)
          (Fine ports first)
  unfolding Recovery.registry_matches
  matches_rule p r = bind_rule (get_rule ports first run p r.pointer) (same_rule p r)

  stands_rule :
      (p : Phase) (r : Option InstanceRecord)
      → Hoare
          (At ports first p)
          (Recovery.record_stands ports r)
          (λ _. At ports first p)
          (Fine ports first)
  unfolding Recovery.record_stands
  stands_rule p none = pure_rule true (λ s h. h)
  stands_rule p (some r) = matches_rule p r

  pub observe_rule :
      (p q : Phase) (scope : ProjectScope)
      → ((w : W) → Step ports w p (observe scope) q)
      → Hoare
          (At ports first p)
          (Recovery.observe_scope ports scope)
          (λ _. At ports first q)
          (Fine ports first)
  unfolding Recovery.observe_scope
  observe_rule p q scope step =
      call_rule ports first _ (on_port (ports.gateway.observe scope)) (λ w. refl) step

  Verdict-rule :
      {A : Type 0} (q : Phase)
      → IsSettled q
      → (failure : Option A)
      → Hoare {E = LifecycleError Fault}
          (At ports first q)
          (pure failure)
          (Verdict ports first q)
          (Fine ports first)
  Verdict-rule q settled none = pure_rule none (λ s h. h)
  Verdict-rule q settled (some f) = pure_rule (some f) (At-Rest ports first settled)

  current_rule :
      (q : Phase)
      → IsSettled q
      → (r : Option InstanceRecord) (expected : DatabaseObservation)
        (current : Option DatabaseObservation)
      → Hoare
          (At ports first q)
          (Recovery.revalidate_current ports run r expected current)
          (Verdict ports first q)
          (Fine ports first)
  unfolding Recovery.revalidate_current
  current_rule q settled r expected none = Verdict-rule q settled _
  current_rule q settled r expected (some current) =
      if_rule (not (current.scope == run.scope)) (λ _. Verdict-rule q settled _)
        (λ _. bind_rule (eligible_rule ports first run q current) (λ e. Verdict-rule q settled _))

  pub revalidate_rule :
      (p q : Phase)
      → IsSettled p
      → IsSettled q
      → ((w : W) → Step ports w p (observe run.scope) q)
      → (r : Option InstanceRecord) (expected : DatabaseObservation)
      → Hoare
          (At ports first p)
          (Recovery.revalidate ports run r expected)
          (Verdict ports first q)
          (Fine ports first)
  unfolding Recovery.revalidate
  revalidate_rule p q before after step r expected = bind_rule (stands_rule p r) (λ stands.
      if_rule (not stands) (λ _. pure_rule _ (At-Rest ports first before))
        (λ _.
          bind_rule (observe_rule p q run.scope step)
            (λ observations. current_rule q after r expected _)))

  Confirmed-rule :
      (q : Phase)
      → IsSettled q
      → (b : Bool)
      → Hoare {E = LifecycleError Fault}
          (At ports first q)
          (pure b)
          (Confirmed ports first q)
          (Fine ports first)
  Confirmed-rule q settled true = pure_rule true (λ s h. h)
  Confirmed-rule q settled false = pure_rule false (At-Rest ports first settled)

  gone_rule :
      (ref : DatabaseRef) (history : QuarantineHistory)
      (answer : Result (LifecycleError Fault) InstanceRecord)
      → Hoare
          (At ports first (logged ref))
          (Recovery.zombie_gone ports run history answer)
          (Confirmed ports first (checked ref))
          (Fine ports first)
  unfolding Recovery.zombie_gone
  gone_rule ref history (ok _) = pure_rule false (At-Rest ports first at_logged)
  gone_rule ref history (err (registry_error (not_found _))) =
      bind_rule (observe_rule (logged ref) (checked ref) run.scope (λ _. check))
        (λ observations. Confirmed-rule (checked ref) at_checked _)
  gone_rule ref history (err (registry_error (missing_receipt _))) =
      raise_rule _ (At-Fine ports first (logged ref))
  gone_rule ref history (err (registry_error (conflict _))) =
      raise_rule _ (At-Fine ports first (logged ref))
  gone_rule ref history (err (registry_error (overwrite_rejected _))) =
      raise_rule _ (At-Fine ports first (logged ref))
  gone_rule ref history (err (registry_error invalid_row)) =
      raise_rule _ (At-Fine ports first (logged ref))
  gone_rule ref history (err (registry_error unavailable)) =
      raise_rule _ (At-Fine ports first (logged ref))
  gone_rule ref history (err (port_error _)) = raise_rule _ (At-Fine ports first (logged ref))
  gone_rule ref history (err value_error) = raise_rule _ (At-Fine ports first (logged ref))
  gone_rule ref history (err type_error) = raise_rule _ (At-Fine ports first (logged ref))
  gone_rule ref history (err validation_error) = raise_rule _ (At-Fine ports first (logged ref))
  gone_rule ref history (err assertion_error) = raise_rule _ (At-Fine ports first (logged ref))

  pub zombie_rule :
      (ref : DatabaseRef) (history : QuarantineHistory)
      → Hoare
          (At ports first (logged ref))
          (Recovery.revalidate_zombie ports run history)
          (Confirmed ports first (checked ref))
          (Fine ports first)
  unfolding Recovery.revalidate_zombie
  zombie_rule ref history =
      bind_rule (get_rule ports first run (logged ref) history.pointer) (gone_rule ref history)

  pub cleanup_rule :
      (rounds : ℕ) (receipt : CreationReceipt) (residuals : List String)
      → Hoare
          (At ports first (recorded receipt))
          (Recovery.cleanup_rounds ports rounds receipt residuals)
          (λ _. At ports first (recorded receipt))
          (Fine ports first)
  unfolding Recovery.cleanup_rounds
  cleanup_rule zero receipt residuals = pure_rule residuals (λ s h. h)
  cleanup_rule (suc rounds) receipt residuals =
      bind_rule
        (call_rule ports first _ (on_port (ports.gateway.cleanup receipt)) (λ w. refl) (λ _. clean))
        (λ failures.
          if_rule (is_empty failures) (λ _. pure_rule [] (λ s h. h))
            (λ _. cleanup_rule rounds receipt failures))
