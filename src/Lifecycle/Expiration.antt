-- ===== src/Lifecycle/Expiration.antt =====
-- Who may be expired: `evaluate_expiration` (odoo_forge/resource_lifecycle/types.py), and what
-- `_eligible` (odoo_forge/resource_lifecycle/service.py) makes of it.
use odoo_forge.Base.{
  ◌≡◌, ◌≢◌, ◌↔◌, refl, ◌⊎◌, inl, inr, Bool, true, false, not, ◌||◌, none, some, arith, ◌==◌,
  if◌then◌else◌, Bool-cases, ==_iff, Option-cases, subst,
}
use odoo_forge.Base.Int.{ℤ, ◌≤ℤ◌, ◌+ℤ◌, leb_ℤ}
use odoo_forge.Lifecycle.{
  ResourceClass, prod, LifecyclePolicy, LifecycleResource, Datetime, ExpirationDecision, expire,
  alert_audit_only, is_approved, ttl_for, elapsed, evaluate_expiration, decision, audit_only,
  DatabaseObservation, class_eq,
}
use odoo_forge.Lifecycle.Checks.{eligible_at, eligible_of}

-- Neither a production resource nor one of a class that the policy does not approve.
pub record IsExpirable (policy : LifecyclePolicy) (c : ResourceClass) : Type 0 where
  pub not_prod : c ≢ prod
  pub approved : is_approved policy c ≡ true

-- Idle for its time to live and the grace period.
pub record IsOverdue (policy : LifecyclePolicy) (resource : LifecycleResource) (now : Datetime)
    : Type 0 where
  pub idle : ℤ
  pub known : elapsed now resource.last_activity ≡ some idle
  pub overdue : ttl_for policy resource.resource_id +ℤ policy.grace ≤ℤ idle

-- `prod or not approved`, the test that refuses.
abbrev is_refused : LifecyclePolicy → ResourceClass → Bool
is_refused policy c = c == prod || not (is_approved policy c)

refused_iff :
    (policy : LifecyclePolicy) (c : ResourceClass)
    → (is_refused policy c ≡ false) ↔ IsExpirable policy c
refused_iff policy c = (
  λ h. record { not_prod = λ e. ground (arith, ==_iff c prod); approved = ground arith },
  λ e. ground (arith, ==_iff c prod, e.not_prod, e.approved),
)

-- What the decision says of a mutation, by the idle time and the time that is granted.
abbrev Says : ExpirationDecision → Type 0 → Type 0
Says d may =
    ((d.mutation_allowed ≡ true) ↔ may)
    × (d.eligible ≡ d.mutation_allowed)
    × (d.action ≡ (if d.mutation_allowed then expire else alert_audit_only))

refused_says : {d : ExpirationDecision} {may : Type 0} → audit_only ≡ d → (may → ⊥) → Says d may
unfolding audit_only
refused_says {may} e never =
    subst (λ d. Says d may) e ((λ h. absurd (cc h), λ m. absurd (never m)), refl, refl)

decided_says :
    (b : Bool) {d : ExpirationDecision} {may : Type 0}
    → decision b ≡ d
    → (b ≡ true) ↔ may
    → Says d may
unfolding decision
decided_says b {may} e iff = subst (λ d. Says d may) e (iff, refl, refl)

IsOverdue-iff :
    (policy : LifecyclePolicy) (resource : LifecycleResource) (now : Datetime) (idle : ℤ)
    → elapsed now resource.last_activity ≡ some idle
    → (leb_ℤ (ttl_for policy resource.resource_id +ℤ policy.grace) idle ≡ true)
      ↔ IsOverdue policy resource now
IsOverdue-iff policy resource now idle known = (
  λ h. record { idle = idle; known = known; overdue = ground arith },
  λ o. ground (arith, o.known, o.overdue),
)

module _ (resource : LifecycleResource) (now : Datetime) (policy : LifecyclePolicy) where
  refused_lem :
      is_refused policy resource.resource_class ≡ true
      → evaluate_expiration resource now policy ≡ some audit_only
  unfolding evaluate_expiration
  refused_lem refused = rw refused

  mixed_lem :
      is_refused policy resource.resource_class ≡ false
      → elapsed now resource.last_activity ≡ none
      → evaluate_expiration resource now policy ≡ none
  unfolding evaluate_expiration
  mixed_lem fine mixed = rw (fine, mixed)

  decided_lem :
      (idle : ℤ)
      → is_refused policy resource.resource_class ≡ false
      → elapsed now resource.last_activity ≡ some idle
      → evaluate_expiration resource now policy
        ≡ some (decision (leb_ℤ (ttl_for policy resource.resource_id +ℤ policy.grace) idle))
  unfolding evaluate_expiration
  decided_lem idle fine known = rw (fine, known)

and_iff : {P Q R : Type 0} → Q → P ↔ R → P ↔ (Q × R)
and_iff q iff = (λ p. (q, iff.0 p), λ h. iff.1 h.1)

-- A decision allows a mutation exactly for a resource of an approved class other than production
-- that has been idle at least for its time to live, the override included, and the grace period. It
-- is then also eligible, and the action is to expire it; else the action is an alert.
pub evaluate_expiration-mutation_iff :
    (resource : LifecycleResource) (now : Datetime) (policy : LifecyclePolicy)
    (d : ExpirationDecision)
    → evaluate_expiration resource now policy ≡ some d
    → ((d.mutation_allowed ≡ true)
        ↔ (IsExpirable policy resource.resource_class × IsOverdue policy resource now))
      × (d.eligible ≡ d.mutation_allowed)
      × (d.action ≡ (if d.mutation_allowed then expire else alert_audit_only))
evaluate_expiration-mutation_iff resource now policy d h =
    elim (Bool-cases (is_refused policy resource.resource_class)) [
      | inl refused ↦
          refused_says (cc (h, refused_lem resource now policy refused))
            (λ m. absurd (cc (refused, (refused_iff policy resource.resource_class).1 m.0)))
      | inr fine ↦ elim (Option-cases (elapsed now resource.last_activity)) [
        | inl mixed ↦ absurd (cc (h, mixed_lem resource now policy fine mixed))
        | inr (idle, known) ↦
            decided_says _ (cc (h, decided_lem resource now policy idle fine known)) (
              and_iff ((refused_iff policy resource.resource_class).0 fine)
                (IsOverdue-iff policy resource now idle known))
      ]
    ]

-- A resource of a class that is not expirable is never eligible, whatever the time.
pub eligible_at-refused :
    (o : DatabaseObservation) (policy : LifecyclePolicy) (last_activity now : Datetime)
    → (o.resource_class ≡ prod) ⊎ (is_approved policy o.resource_class ≡ false)
    → eligible_at o policy last_activity now ≡ some false
unfolding eligible_at evaluate_expiration eligible_of audit_only
eligible_at-refused o policy last_activity now (inl e) = rw ((==_iff o.resource_class prod).1 e)
eligible_at-refused o policy last_activity now (inr e) =
    elim (Bool-cases (o.resource_class == prod)) [ inl h ↦ rw h | inr h ↦ rw (h, e) ]
