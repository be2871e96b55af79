-- ===== src/Lifecycle.antt =====
-- odoo_forge/resource_lifecycle/types.py: policies, observations, journal entries, and the decision
-- whether a resource has expired. A `timedelta` is an integer of microseconds, a `datetime` is a
-- point on that scale with its awareness of a timezone.
pub mod Checks
pub mod Ports
pub mod Recovery
pub mod Service
pub mod Protocol
pub mod Cleanup
pub mod Expiration
pub mod Untouched
pub mod Examples
use odoo_forge.Base.{
  ℕ, ◌+◌, ◌-◌, String, Bool, true, false, not, ◌||◌, List, [], ◌∷◌, Option, none, some, Result, ok,
  err, if◌then◌else◌, ◌==◌, Eq, string_eq,
}
use odoo_forge.Base.Equality.{bool_dec, to_bool}
use odoo_forge.Base.Int.{ℤ, sub_ℕ, ◌+ℤ◌, leb_ℤ}
use odoo_forge.Base.Lists.{contains}
use odoo_forge.Values.{
  DurableOperationIdentity, OwnershipReceipt, DatabaseRef, ProjectScope, InstancePointer,
}

pub data ResourceClass : Type 0 where
  dev qa prod : ResourceClass

pub data ExpirationAction : Type 0 where
  expire alert_audit_only : ExpirationAction

pub data LifecycleOutcome : Type 0 where
  expired alerted quarantined adopted reconciled deleted cancelled human_intervention :
      LifecycleOutcome

pub data ProviderPresence : Type 0 where
  absent invalid present unverifiable : ProviderPresence

unfoldable pub class_dec : Discrete ResourceClass
class_dec = hlevel

instance abbrev pub class_eq : Eq ResourceClass
class_eq = record { dec = class_dec }

unfoldable pub outcome_dec : Discrete LifecycleOutcome
outcome_dec = hlevel

instance abbrev pub outcome_eq : Eq LifecycleOutcome
outcome_eq = record { dec = outcome_dec }

unfoldable pub presence_dec : Discrete ProviderPresence
presence_dec = hlevel

instance abbrev pub presence_eq : Eq ProviderPresence
presence_eq = record { dec = presence_dec }

-- `aware`: `value.tzinfo is not None and value.utcoffset() is not None`.
pub record Datetime : Type 0 where
  pub micros : ℕ
  pub aware : Bool

pub record ResourceOverride : Type 0 where
  pub resource_id : String
  pub ttl : ℤ

pub record LifecyclePolicy : Type 0 where
  pub ttl : ℤ
  pub grace : ℤ
  pub approved_classes : List ResourceClass
  pub overrides : List ResourceOverride

pub record LifecycleResource : Type 0 where
  pub resource_id : String
  pub resource_class : ResourceClass
  pub last_activity : Datetime

pub record ExpirationDecision : Type 0 where
  pub action : ExpirationAction
  pub eligible : Bool
  pub mutation_allowed : Bool

unfoldable pub is_approved : LifecyclePolicy → ResourceClass → Bool
unfolding contains class_dec
is_approved policy c = contains policy.approved_classes c

ttl_from : List ResourceOverride → String → ℤ → ℤ
ttl_from [] id default = default
ttl_from (o ∷ os) id default =
    let rest = ttl_from os id default in if o.resource_id == id then o.ttl else rest

unfoldable pub ttl_for : LifecyclePolicy → String → ℤ
unfolding ttl_from
ttl_for policy id = ttl_from policy.overrides id policy.ttl

-- `a - b`: Python raises a TypeError where one is aware and the other is not.
unfoldable pub elapsed : Datetime → Datetime → Option ℤ
unfolding bool_dec
elapsed a b = if to_bool (bool_dec a.aware b.aware) then some (sub_ℕ a.micros b.micros) else none

unfoldable pub audit_only : ExpirationDecision
audit_only = record { action = alert_audit_only; eligible = false; mutation_allowed = false }

unfoldable pub decision : Bool → ExpirationDecision
decision eligible = record {
  action = if eligible then expire else alert_audit_only;
  eligible = eligible;
  mutation_allowed = eligible;
}

unfoldable pub evaluate_expiration :
    LifecycleResource → Datetime → LifecyclePolicy → Option ExpirationDecision
unfolding class_dec is_approved ttl_for elapsed audit_only decision ◌+ℤ◌
evaluate_expiration resource now policy =
    if resource.resource_class == prod || not (is_approved policy resource.resource_class)
    then some audit_only
    else elim (elapsed now resource.last_activity) [
      | none ↦ none
      | some idle ↦
          some (decision (leb_ℤ (ttl_for policy resource.resource_id +ℤ policy.grace) idle))
    ]

unfoldable pub reset_activity_baseline : LifecycleResource → Datetime → LifecycleResource
reset_activity_baseline resource occurred_at = record resource { last_activity = occurred_at }

pub record LifecycleEvidence : Type 0 where
  pub source : String
  pub digest : String

pub record LifecycleAuthorization : Type 0 where
  pub actor : String
  pub reason : String
  pub approved : Bool

pub record LifecycleResidual : Type 0 where
  pub code : String
  pub detail : String

pub record QuarantineHistory : Type 0 where
  pub pointer : InstancePointer
  pub scope : ProjectScope
  pub resource : DatabaseRef
  pub operation : DurableOperationIdentity
  pub evidence_digest : String
  pub resource_class : ResourceClass
  pub quarantined_at : Datetime
  pub last_activity : Option Datetime

pub record LifecycleJournalEvent : Type 0 where
  pub policy : LifecyclePolicy
  pub evidence : LifecycleEvidence
  pub authorization : LifecycleAuthorization
  pub outcome : LifecycleOutcome
  pub residuals : List LifecycleResidual
  pub history : Option QuarantineHistory
  pub kind : String

pub record DatabaseObservation : Type 0 where
  pub ref : DatabaseRef
  pub scope : ProjectScope
  pub evidence_digest : String
  pub ownership_valid : Bool
  pub resource_class : ResourceClass
  pub last_activity : Option Datetime
  pub receipt : Option OwnershipReceipt
  pub presence : ProviderPresence
