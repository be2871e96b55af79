-- ===== src/Lifecycle/Protocol.antt =====
-- The order in which a lifecycle run (odoo_forge/resource_lifecycle/service.py) may call its ports,
-- as a step relation over the calls made so far.
pub mod Steps
pub mod Stages
pub mod Recoveries
pub mod Runs
use odoo_forge.Base.{
  ◌≡◌, ◌≢◌, String, Bool, true, false, List, [], ◌∷◌, Option, none, some, refl, if◌then◌else◌, ok,
}
use odoo_forge.Values.{
  CreationReceipt, DatabaseRef, DatabaseCreation, ProjectScope, InstancePointer,
}
use odoo_forge.Lifecycle.{
  LifecycleOutcome, quarantined, reconciled, deleted, human_intervention, LifecycleJournalEvent,
  QuarantineHistory,
}
use odoo_forge.Lifecycle.Ports.{
  Ports, Call, list, observe, get, quarantine, adopt, reconcile, delete, cleanup, append, events,
  utc_now,
}
use odoo_forge.Lifecycle.Recovery.{RecoveryResult, Run}

-- Nothing is under way; a resource is quarantined, under the reference that the provider answered with,
-- and then on the journal, and then seen again; a resource is taken over; a resource is deleted, and
-- then on the journal; a registration is repaired; the provider did not say what it quarantined.
pub data Phase : Type 0 where
  idle reconciling lost : Phase
  held logged checked taken : DatabaseRef → Phase
  removed : DatabaseRef → CreationReceipt → Phase
  recorded : CreationReceipt → Phase

-- Calls that read, other than an observation.
pub data IsReading : Call → Type 0 where
  listing : {scope : ProjectScope} → IsReading (list scope)
  getting : {pointer : InstancePointer} → IsReading (get pointer)
  reading : IsReading events
  timing : IsReading utc_now

-- Phases in which nothing waits to be put on the journal.
pub data IsSettled : Phase → Type 0 where
  at_idle : IsSettled idle
  at_logged : {ref : DatabaseRef} → IsSettled (logged ref)
  at_checked : {ref : DatabaseRef} → IsSettled (checked ref)
  at_recorded : {receipt : CreationReceipt} → IsSettled (recorded receipt)

-- An entry of an outcome for a resource.
pub record IsEntry (outcome : LifecycleOutcome) (ref : DatabaseRef) (e : LifecycleJournalEvent)
    : Type 0 where
  pub history : QuarantineHistory
  pub is_outcome : e.outcome ≡ outcome
  pub has_history : e.history ≡ some history
  pub names : history.resource ≡ ref

module _ {W Fault : Type 0} (ports : Ports W Fault) where
  -- What a call leaves of the world.
  abbrev pub world_after : Call → W → W
  world_after (list scope) w = (ports.registry.list scope w).1
  world_after (observe scope) w = (ports.gateway.observe scope w).1
  world_after (get pointer) w = (ports.registry.get pointer w).1
  world_after (quarantine ref) w = (ports.gateway.quarantine ref w).1
  world_after (adopt ref) w = (ports.gateway.adopt ref w).1
  world_after (reconcile operation) w = (ports.gateway.reconcile operation w).1
  world_after (delete c) w = (ports.gateway.delete c w).1
  world_after (cleanup receipt) w = (ports.gateway.cleanup receipt w).1
  world_after (append e) w = (ports.journal.append e w).1
  world_after events w = (ports.journal.events w).1
  world_after utc_now w = (ports.utc_now w).1

  -- One call in a world.
  pub data Step (w : W) : Phase → Call → Phase → Type 0 where
    read : {p : Phase} {c : Call} → IsReading c → Step w p c p
    look : {scope : ProjectScope} → Step w idle (observe scope) idle
    hold :
        {ref answer : DatabaseRef}
        → (ports.gateway.quarantine ref w).0 ≡ ok answer
        → Step w idle (quarantine ref) (held answer)
    lose : {ref : DatabaseRef} → Step w idle (quarantine ref) lost
    take_over : {ref : DatabaseRef} → Step w (held ref) (adopt ref) (taken ref)
    log_taken :
        {ref : DatabaseRef} {e : LifecycleJournalEvent}
        → e.outcome ≡ quarantined
        → Step w (taken ref) (append e) idle
    log_hold :
        {ref : DatabaseRef} {e : LifecycleJournalEvent}
        → IsEntry quarantined ref e
        → Step w (held ref) (append e) (logged ref)
    check :
        {ref : DatabaseRef} {scope : ProjectScope}
        → Step w (logged ref) (observe scope) (checked ref)
    remove :
        {ref : DatabaseRef} {c : DatabaseCreation}
        → c.ref ≡ ref
        → c.receipt.owned_resource_ids ≡ ref.identifier ∷ []
        → Step w (checked ref) (delete c) (removed ref c.receipt)
    log_removal :
        {ref : DatabaseRef} {e : LifecycleJournalEvent} {receipt : CreationReceipt}
        → IsEntry deleted ref e
        → Step w (removed ref receipt) (append e) (recorded receipt)
    clean :
        {receipt : CreationReceipt} → Step w (recorded receipt) (cleanup receipt) (recorded receipt)
    repair : {operation : String} → Step w idle (reconcile operation) reconciling
    log_repair :
        {e : LifecycleJournalEvent} → e.outcome ≡ reconciled → Step w reconciling (append e) idle
    note : {p : Phase} {e : LifecycleJournalEvent} → IsSettled p → Step w p (append e) idle

  -- The calls so far, the latest first, made from a first world on, with the world and the phase that
  -- they lead to.
  pub data Trail (first : W) : List Call → W → Phase → Type 0 where
    start : Trail first [] first idle
    next :
        {calls : List Call} {w : W} {p q : Phase} {c : Call}
        → Trail first calls w p
        → Step w p c q
        → Trail first (c ∷ calls) (world_after c w) q

  -- In some phase.
  pub record Allowed (first : W) (calls : List Call) (w : W) : Type 0 where
    pub phase : Phase
    pub trail : Trail first calls w phase

-- The latest call is the journal entry of the result.
pub data Reported (r : RecoveryResult) : List Call → Type 0 where
  reported :
      {e : LifecycleJournalEvent} {calls : List Call}
      → e.outcome ≡ r.outcome
      → e.residuals ≡ r.residuals
      → Reported r (append e ∷ calls)

-- What a recovery that returns leaves behind.
pub record Settled {W Fault : Type 0} (ports : Ports W Fault) (first : W) (run : Run)
    (r : RecoveryResult) (calls : List Call) (w : W) : Type 0 where
  pub trail : Trail ports first calls w idle
  pub report : Reported r calls
  pub authorized : r.outcome ≢ human_intervention → run.authorization.approved ≡ true
  pub asked : r.outcome ≡ deleted → run.delete ≡ true
