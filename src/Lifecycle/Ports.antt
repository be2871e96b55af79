-- ===== src/Lifecycle/Ports.antt =====
-- The ports of odoo_forge/ports/resource_lifecycle.py over a world that they share with the registry
-- and the clock, what they raise, and the calls that leave the service.
use odoo_forge.Base.{ℕ, String, List}
use odoo_forge.Base.Effects.{Exec}
use odoo_forge.Values.{
  CreationReceipt, DatabaseRef, DatabaseCreation, ProjectScope, InstancePointer,
}
use odoo_forge.Registry.Port.{RegistryError, InstanceRegistry}
use odoo_forge.Lifecycle.{LifecycleJournalEvent, DatabaseObservation}

-- DatabaseLifecycleGateway; `cleanup` returns the residual failures of its report.
pub record DatabaseLifecycleGateway (W Fault : Type 0) : Type 0 where
  pub observe : ProjectScope → Exec W Fault (List DatabaseObservation)
  pub quarantine : DatabaseRef → Exec W Fault DatabaseRef
  pub adopt : DatabaseRef → Exec W Fault DatabaseRef
  pub reconcile : String → Exec W Fault DatabaseCreation
  pub delete : DatabaseCreation → Exec W Fault (Unit {0})
  pub cleanup : CreationReceipt → Exec W Fault (List String)

pub record LifecycleJournal (W Fault : Type 0) : Type 0 where
  pub append : LifecycleJournalEvent → Exec W Fault (Unit {0})
  pub events : Exec W Fault (List LifecycleJournalEvent)

-- LifecycleService's collaborators; `utc_now` is the time in microseconds.
pub record Ports (W Fault : Type 0) : Type 0 where
  pub registry : InstanceRegistry W
  pub gateway : DatabaseLifecycleGateway W Fault
  pub journal : LifecycleJournal W Fault
  pub utc_now : W → ℕ × W

pub data LifecycleError (Fault : Type 0) : Type 0 where
  registry_error : RegistryError → LifecycleError Fault
  port_error : Fault → LifecycleError Fault
  value_error type_error validation_error assertion_error : LifecycleError Fault

pub data Call : Type 0 where
  list observe : ProjectScope → Call
  get : InstancePointer → Call
  quarantine adopt : DatabaseRef → Call
  reconcile : String → Call
  delete : DatabaseCreation → Call
  cleanup : CreationReceipt → Call
  append : LifecycleJournalEvent → Call
  events utc_now : Call
