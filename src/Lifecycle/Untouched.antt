-- ===== src/Lifecycle/Untouched.antt =====
-- What `LifecycleService._recover` (odoo_forge/resource_lifecycle/service.py) leaves alone: a resource
-- of the production class, or of a class that the policy does not approve.
use odoo_forge.Base.{
  ◌≡◌, ◌≢◌, refl, ◌⊎◌, inl, inr, ℕ, String, Bool, true, false, not, ◌&&◌, ◌||◌, [], Option, none,
  some, Result, ok, err, if◌then◌else◌, ◌==◌, string_eq, Bool-cases, ==_iff, arith,
}
use odoo_forge.Base.Lists.{All}
use odoo_forge.Base.Effects.{Exec, Session, perform}
use odoo_forge.Base.Hoare.{After, Hoare, pure_rule, if_rule, bind_rule, perform_rule, weaken_rule}
use odoo_forge.Values.{InstanceRecord, ProjectScope, scope_eq, database_eq}
use odoo_forge.Lifecycle.{
  ResourceClass, dev, qa, prod, absent, invalid, class_eq, class_dec, presence_eq, Datetime,
  LifecyclePolicy, is_approved, LifecycleJournalEvent, DatabaseObservation, QuarantineHistory,
}
use odoo_forge.Lifecycle.Ports.{Ports, Call, append, utc_now}
use odoo_forge.Lifecycle.Checks.{confirmed_zombie, zombie_observed, unclaimed_or}
use odoo_forge.Lifecycle.Expiration.{eligible_at-refused}
use odoo_forge.Lifecycle.Recovery
use odoo_forge.Lifecycle.Recovery.{
  Run, RecoveryResult, Service, recover, human, finish, journal_append, event_of, residuals_of,
  now_or_utc, eligible, eligible_since, or_raise, on_port, recover_live, recover_zombie,
  recover_found,
}

-- A call that reads the time or writes the journal.
pub data IsQuiet : Call → Type 0 where
  noting : {e : LifecycleJournalEvent} → IsQuiet (append e)
  timing : IsQuiet utc_now

abbrev pub Quiet : {W : Type 0} → Session W Call → Type 0
Quiet s = All IsQuiet s.calls

-- Production, or a class that the policy does not approve.
abbrev pub IsProtected : LifecyclePolicy → ResourceClass → Type 0
IsProtected policy c = (c ≡ prod) ⊎ (is_approved policy c ≡ false)

module _ {W Fault : Type 0} (ports : Ports W Fault) (run : Run) where
  Quiet-call :
      {E A : Type 0} (c : Call) (port : Exec W E A)
      → IsQuiet c
      → Hoare (Quiet {W = W}) (perform c port) (λ _. Quiet) Quiet
  Quiet-call c port q =
      perform_rule (All IsQuiet) (All IsQuiet) (All IsQuiet) c port (λ calls h. ((q, h), (q, h)))

  Quiet-human :
      (code digest : String) → Hoare Quiet (human ports run code digest) (λ _. Quiet) Quiet
  unfolding human finish journal_append
  Quiet-human code digest =
      bind_rule (Quiet-call _ (on_port (ports.journal.append _)) noting)
        (λ _. pure_rule _ (λ s h. h))

  Quiet-now : (now : Option Datetime) → Hoare Quiet (now_or_utc ports now) (λ _. Quiet) Quiet
  unfolding now_or_utc
  Quiet-now none = Quiet-call utc_now _ timing
  Quiet-now (some t) = pure_rule t (λ s h. h)

  -- It is not eligible, and only the clock is asked.
  refused_rule :
      (o : DatabaseObservation) (t : Option Datetime)
      → IsProtected run.policy o.resource_class
      → Hoare Quiet (eligible_since ports run o t) (λ b s. (b ≡ false) × Quiet s) Quiet
  unfolding eligible_since
  refused_rule o none protected = pure_rule false (λ s h. (refl, h))
  refused_rule o (some t) protected = bind_rule (Quiet-now run.now) (λ now.
      rw (eligible_at-refused o run.policy t now protected) (pure_rule false (λ s h. (refl, h))))

guards :
    (a b c d rest : Bool)
    → (if not a || not b || not c || not d then false else rest) ≡ true
    → (c ≡ true) × (d ≡ true) × (rest ≡ true)
guards a b c d rest h = ground arith

third : (a b c d e f g : Bool) → (a && b && c && d && e && f && g) ≡ true → c ≡ true
third a b c d e f g h = ground arith

-- A confirmed zombie that is seen is of the development or the test class, and approved.
zombie_class :
    (scope : ProjectScope) (policy : LifecyclePolicy) (history : QuarantineHistory)
    (o : DatabaseObservation)
    → confirmed_zombie scope policy history (some o) ≡ true
    → ((o.resource_class == dev || o.resource_class == qa) ≡ true)
      × (is_approved policy o.resource_class ≡ true)
unfolding confirmed_zombie zombie_observed
zombie_class scope policy history o h =
    let parts =
      guards (history.scope == scope) (history.pointer.scope == scope)
        (history.resource_class == dev || history.resource_class == qa)
        (is_approved policy history.resource_class) (zombie_observed scope history (some o)) h in
    let same =
      third (o.scope == scope) (o.ref == history.resource)
        (o.resource_class == history.resource_class) (o.evidence_digest == history.evidence_digest)
        o.ownership_valid (o.presence == absent || o.presence == invalid)
        (unclaimed_or history.operation o.receipt) parts.2 in
    rw ((==_iff o.resource_class history.resource_class).0 same) (parts.0, parts.1)

not_prod : (c : ResourceClass) → (c == dev || c == qa) ≡ true → c ≢ prod
unfolding class_dec
not_prod dev h = λ e. cc e
not_prod qa h = λ e. cc e
not_prod prod h = absurd (cc h)

zombie_refused :
    (scope : ProjectScope) (policy : LifecyclePolicy) (history : QuarantineHistory)
    (o : DatabaseObservation)
    → IsProtected policy o.resource_class
    → confirmed_zombie scope policy history (some o) ≡ false
zombie_refused scope policy history o protected =
    elim (Bool-cases (confirmed_zombie scope policy history (some o))) [
      | inr h ↦ h
      | inl h ↦
          let (live, approved) = zombie_class scope policy history o h in
          absurd
            (elim protected [ inl e ↦ not_prod o.resource_class live e | inr e ↦ cc (e, approved) ])
    ]

module _ {W Fault : Type 0} (ports : Ports W Fault) (retries : ℕ) (run : Run)
    (o : DatabaseObservation) (protected : IsProtected run.policy o.resource_class) where
  live_refused :
      (r : Option InstanceRecord)
      → Hoare Quiet (recover_live ports retries run r o) (λ _. Quiet) Quiet
  unfolding recover_live eligible
  live_refused r =
      if_rule (not (o.scope == run.scope)) (λ _. Quiet-human ports run _ _)
        (λ _. bind_rule (refused_rule ports run o o.last_activity protected) (λ e. stop e))
    where
      stop :
          (e : Bool)
          → Hoare
              (λ s. (e ≡ false) × Quiet s)
              (if not e
                then human ports run "ineligible" o.evidence_digest
                else Recovery.recover_observed ports retries run r o)
              (λ _. Quiet)
              Quiet
      stop false = weaken_rule (λ s h. h.1) (Quiet-human ports run _ _)
      stop true = record { holds = λ s h. absurd (cc (h.0)) }

  found_refused :
      (history : Option QuarantineHistory) (r : Option InstanceRecord)
      → Hoare Quiet (recover_found ports retries run history r (some o)) (λ _. Quiet) Quiet
  unfolding recover_found recover_zombie
  found_refused none none = live_refused none
  found_refused none (some r) = live_refused (some r)
  found_refused (some history) (some r) = live_refused (some r)
  found_refused (some history) none =
      rw (zombie_refused run.scope run.policy history o protected) (Quiet-human ports run _ _)

  Quiet-rule :
      (history : Option QuarantineHistory) (r : Option InstanceRecord)
      → Hoare Quiet (recover ports retries run r (some o) history) (λ _. Quiet) Quiet
  unfolding recover
  Quiet-rule history r =
      if_rule (not run.authorization.approved) (λ _. Quiet-human ports run _ _)
        (λ _. found_refused history r)

either : {S E A : Type 0} (P : S → Type 0) (r : Result E A) (s : S) → After (λ _. P) P r s → P s
either P (ok a) s h = h
either P (err e) s h = h

-- A recovery of a key whose live resource is of the production class, or of a class that the policy
-- does not approve, calls nothing but the clock and the journal, whatever record and quarantine
-- history there are: it neither quarantines, adopts, repairs, deletes nor cleans up.
pub recover-protected :
    {W Fault : Type 0} (ports : Ports W Fault) (retries : ℕ) (run : Run) (r : Option InstanceRecord)
    (o : DatabaseObservation) (history : Option QuarantineHistory) (w : W)
    → IsProtected run.policy o.resource_class
    → Quiet (recover ports retries run r (some o) history (record { world = w; calls = [] })).1
recover-protected ports retries run r o history w protected = either Quiet _ _ (
    (Quiet-rule ports retries run o protected history r).holds (record { world = w; calls = [] })
      tt)
