-- ===== src/Environments/Preflight.antt =====
-- `DataEnvironmentService._preflight` (odoo_forge/data_environments/service.py) leaves all as it was, and
-- passes only what its tests allow.
use odoo_forge.Base.{
  ℕ, ◌<◌, ◌≡◌, ◌≢◌, refl, ap, ◌∙◌, arith, String, Bool, true, false, not, ◌&&◌, ◌||◌, List, Option,
  none, some, Result, ok, err, if◌then◌else◌, ◌==◌, ==_iff, leb, string_eq, sym, subst,
}
use odoo_forge.Base.Lists.{any}
use odoo_forge.Base.Effects.{Exec, Session, perform, pure}
use odoo_forge.Base.Hoare.{Hoare, pure_rule, raise_rule, if_rule, bind_rule, weaken_rule, framed}
use odoo_forge.Values.{DatabaseRef, InstanceRecord, scope_eq}
use odoo_forge.Artifacts.Copy.{RawDataGrant}
use odoo_forge.Environments.{
  EnvironmentFailureCode, raw_grant_required, DataEnvironmentDefinition,
  DataEnvironmentOperationRequest, is_active,
}
use odoo_forge.Environments.Service
use odoo_forge.Environments.Service.{
  Ports, Prepared, PreflightFailure, CopyOrder, Call, resolve, get, policy, authorize, now, acquire,
  copy, verify, restore, check, run, preflight, order_of, result, is_valid_definition, is_target,
}
use odoo_forge.Environments.Protocol.{
  Phase, preparing, offered, unheld, held, IsCleared, resolving, getting, choosing, authorizing,
  Step, read, offer, enforce, expire, hold, miss, Trail, next, world_after, world_after_call,
  IsEarly, at_preparing, at_offered, at_unheld,
}

-- The recovery point that fits the target, and the phase.
pub data Point : Option DatabaseRef → Option String → Phase → Type 0 where
  new : {grant : Option RawDataGrant} → Point none none (preparing grant)
  existing :
      {ref : DatabaseRef} {point : String} {grant : Option RawDataGrant}
      → Point (some ref) (some point) (held grant point)

-- The grant that is in force in a phase before the copy.
abbrev pub in_force : Phase → Option RawDataGrant
in_force (preparing grant) = grant
in_force (held grant point) = grant
in_force _ = none

valid_id : (a b c d e : Bool) → not (not a || not b || not c || not d || not e) ≡ true → a ≡ true
valid_id a b c d e h = ground arith

both : (a b : Bool) → (not a || not b) ≡ false → (a ≡ true) × (b ≡ true)
both a b h = ground arith

module _ {W Fault Source Spec Credentials Policy : Type 0}
    (ports : Ports W Fault Source Spec Credentials Policy)
    (request : DataEnvironmentOperationRequest Source Spec Credentials) (w : W) where
  abbrev pub S : Type 0
  S = Session W (Call (CopyOrder Source Spec Credentials Policy))

  abbrev pub Order : Type 0
  Order = CopyOrder Source Spec Credentials Policy

  -- The calls lead to the phase, and the world is what they left.
  pub record At (p : Phase) (s : S) : Type 0 where
    pub trail : Trail ports request w s.calls p
    pub world_is : s.world ≡ world_after ports request w s.calls

  -- A refusal leaves an early phase.
  pub record Stopped (s : S) : Type 0 where
    pub stop_phase : Phase
    pub early : IsEarly stop_phase
    pub stopped_at : At stop_phase s

  -- What a preflight that returns has made sure of.
  pub record Passed (p : Prepared Policy) (s : S) : Type 0 where
    pub ready_phase : Phase
    pub point_for_target : Point request.target_ref p.point ready_phase
    pub passed_at : At ready_phase s
    pub cleared : IsCleared request (in_force ready_phase) (order_of ports request p)

  abbrev pub Never : S → Type 0
  Never s = ⊥

  -- A call whose answer decides the phase.
  pub answer_rule :
      {E A : Type 0} {F : S → Type 0} {p : Phase} {q : Result Fault A → Phase} (call : Call Order)
      (port : Exec W Fault A)
      → ((w' : W) → (port w').1 ≡ world_after_call ports request w call w')
      → ((earlier : List (Call Order)) (answer : Result Fault A)
          → (port (world_after ports request w earlier)).0 ≡ answer
          → Step ports request w earlier p call (q answer))
      → Hoare {E = E} (At p) (Service.tried ports request call port) (λ answer. At (q answer)) F
  answer_rule {p} {q} call port moves step = record {
    holds = λ s h. record {
      trail =
          next h.trail (step s.calls (port s.world).0 (ap (λ w'. (port w').0) (sym h.world_is)));
      world_is = moves s.world ∙ ap (world_after_call ports request w call) h.world_is;
    };
  }

  pub tried_rule :
      {E A : Type 0} {F : S → Type 0} {p q : Phase} (call : Call Order) (port : Exec W Fault A)
      → ((w' : W) → (port w').1 ≡ world_after_call ports request w call w')
      → ((earlier : List (Call Order)) → Step ports request w earlier p call q)
      → Hoare {E = E} (At p) (Service.tried ports request call port) (λ _. At q) F
  tried_rule {E} {A} {F} {p} {q} call port moves step =
      answer_rule {q = λ _. q} call port moves (λ earlier answer e. step earlier)

  early_stop : {p : Phase} → IsEarly p → (s : S) → At p s → Stopped s
  early_stop {p} early s t = record { stop_phase = p; early = early; stopped_at = t }

  refuse_rule :
      {A : Type 0} {p : Phase}
      → IsEarly p
      → (code : EnvironmentFailureCode) (name : Option String) (grant : Option RawDataGrant)
        {Q : A → S → Type 0}
      → Hoare (At p) (Service.refuse ports request code name grant) Q Stopped
  refuse_rule early code name grant = raise_rule _ (early_stop early)

  valid_definition :
      (d : DataEnvironmentDefinition)
      → is_valid_definition ports request d ≡ true
      → d.environment_id ≡ request.target_environment_id
  unfolding is_valid_definition
  valid_definition d valid = (==_iff d.environment_id request.target_environment_id).0 (
      valid_id (d.environment_id == request.target_environment_id) (is_active d.lifecycle)
        (d.scope == request.target_pointer.scope)
        (any
          (λ r.
            r.source_environment_id == request.source_environment_id
            && r.target_environment_id == request.target_environment_id)
          d.relationships)
        (ports.target_id request.source == request.source_environment_id) valid)

  definition_rule :
      (found : Result Fault DataEnvironmentDefinition)
      → Hoare
          (At (preparing none))
          (Service.checked_definition ports request found)
          (λ d s. (d.environment_id ≡ request.target_environment_id) × At (preparing none) s)
          Stopped
  unfolding Service.checked_definition
  definition_rule (err e) = refuse_rule at_preparing _ _ _
  definition_rule (ok d) =
      if_rule (is_valid_definition ports request d)
        (λ valid. pure_rule d (λ s t. (valid_definition d valid, t)))
        (λ _. refuse_rule at_preparing _ _ _)

  record_rule :
      (d : DataEnvironmentDefinition) (answer : Result Fault InstanceRecord)
      → Hoare
          (At (preparing none))
          (Service.checked_record ports request d answer)
          (λ _. At (preparing none))
          Stopped
  unfolding Service.checked_record
  record_rule d (err e) = refuse_rule at_preparing _ _ _
  record_rule d (ok r) =
      if_rule (is_target r request.target_ref) (λ _. pure_rule r (λ s t. t))
        (λ _. refuse_rule at_preparing _ _ _)

  policy_rule :
      (d : DataEnvironmentDefinition) (answer : Result Fault (Option Policy))
      → Hoare
          (At (preparing none))
          (Service.checked_policy ports request d answer)
          (λ _. At (preparing none))
          Stopped
  unfolding Service.checked_policy
  policy_rule d (ok (some p)) = pure_rule p (λ s t. t)
  policy_rule d (ok none) = refuse_rule at_preparing _ _ _
  policy_rule d (err e) = refuse_rule at_preparing _ _ _

  -- A grant where raw data is asked for.
  abbrev Cleared : Option RawDataGrant → Type 0
  Cleared grant = request.request_raw_delivery ≡ true → grant ≢ none

  -- Whether the grant is in force at the time that the clock has just shown.
  abbrev Timed : RawDataGrant → ℕ → S → Type 0
  Timed grant time s =
      (leb grant.expires_at time ≡ false → At (preparing (some grant)) s)
      × (leb grant.expires_at time ≡ true → At (offered grant) s)

  later : (a b : ℕ) → leb a b ≡ false → b < a
  later a b h = ground arith

  time_rule :
      (grant : RawDataGrant)
      → grant.operation_id ≡ request.operation.operation_id
      → grant.environment_id ≡ request.target_environment_id
      → Hoare {E = PreflightFailure}
          (At (offered grant))
          (perform now (λ w. let (time, after) = ports.now w in (ok time, after)))
          (Timed grant)
          Stopped
  time_rule grant operation environment = record {
    holds = λ s h. (
      λ fresh. record {
        trail = next h.trail (
            enforce operation environment (
              subst (λ w'. (ports.now w').0 < grant.expires_at) h.world_is
                (later grant.expires_at (ports.now s.world).0 fresh)));
        world_is = ap (λ w'. (ports.now w').1) h.world_is;
      },
      λ late. record {
        trail = next h.trail expire;
        world_is = ap (λ w'. (ports.now w').1) h.world_is;
      },
    );
  }

  fresh_rule :
      (d : DataEnvironmentDefinition) (grant : RawDataGrant) (time : ℕ)
      → Hoare
          (Timed grant time)
          (if leb grant.expires_at time
            then Service.refuse ports request raw_grant_required (some d.policy_ref) none
            else pure (some grant))
          (λ g s. Cleared g × At (preparing g) s)
          Stopped
  fresh_rule d grant time =
      if_rule (leb grant.expires_at time)
        (λ late. weaken_rule (λ s t. t.1 late) (refuse_rule at_offered _ _ _))
        (λ fresh. pure_rule (some grant) (λ s t. ((λ raw n. cc n), t.0 fresh)))

  -- What the authority's answer comes to.
  abbrev answered : Result Fault (Option RawDataGrant) → Phase
  answered (ok (some grant)) = offered grant
  answered (ok none) = preparing none
  answered (err e) = preparing none

  grant_rule :
      (d : DataEnvironmentDefinition) (answer : Result Fault (Option RawDataGrant))
      → d.environment_id ≡ request.target_environment_id
      → Hoare
          (At (answered answer))
          (Service.checked_grant ports request d answer)
          (λ g s. Cleared g × At (preparing g) s)
          Stopped
  unfolding Service.checked_grant
  grant_rule d (err e) target = refuse_rule at_preparing _ _ _
  grant_rule d (ok none) target = refuse_rule at_preparing _ _ _
  grant_rule d (ok (some grant)) target =
      if_rule
        (not (grant.operation_id == request.operation.operation_id)
          || not (grant.environment_id == d.environment_id))
        (λ _. refuse_rule at_offered _ _ _)
        (λ named.
          let (operation, environment) =
            both (grant.operation_id == request.operation.operation_id)
              (grant.environment_id == d.environment_id) named in
          bind_rule
            (time_rule grant
              ((==_iff grant.operation_id request.operation.operation_id).0 operation)
              ((==_iff grant.environment_id d.environment_id).0 environment ∙ target))
            (fresh_rule d grant))

  grant_for_rule :
      (d : DataEnvironmentDefinition)
      → d.environment_id ≡ request.target_environment_id
      → Hoare
          (At (preparing none))
          (Service.grant_for ports request d)
          (λ g s. Cleared g × At (preparing g) s)
          Stopped
  unfolding Service.grant_for
  grant_for_rule d target =
      if_rule request.request_raw_delivery
        (λ _.
          bind_rule
            (answer_rule {q = answered} (authorize request.operation.operation_id d.environment_id)
              (ports.authorize request.operation.operation_id d.environment_id) (λ w'. refl)
              authorize_step)
            (λ answer. grant_rule d answer target))
        (λ masked. pure_rule none (λ s t. ((λ raw. absurd (cc (raw, masked))), t)))
    where
      authorize_step :
          (earlier : List (Call Order)) (answer : Result Fault (Option RawDataGrant))
          → (ports.authorize request.operation.operation_id d.environment_id
              (world_after ports request w earlier)).0
            ≡ answer
          → Step ports request w earlier
              (preparing none)
              (authorize request.operation.operation_id d.environment_id)
              (answered answer)
      authorize_step earlier (ok (some grant)) e = offer e
      authorize_step earlier (ok none) e = read authorizing
      authorize_step earlier (err _) e = read authorizing

  -- The point that is held for the target, and the phase.
  record Held (grant : Option RawDataGrant) (point : Option String) (s : S) : Type 0 where
    held_phase : Phase
    for_target : Point request.target_ref point held_phase
    forced : in_force held_phase ≡ grant
    held_at : At held_phase s

  -- What the provider's answer comes to.
  abbrev acquired : Option RawDataGrant → Result Fault (Option String) → Phase
  acquired grant (ok (some point)) = held grant point
  acquired grant (ok none) = unheld
  acquired grant (err e) = unheld

  checked_point_rule :
      (d : DataEnvironmentDefinition) (grant : Option RawDataGrant) (ref : DatabaseRef)
      (answer : Result Fault (Option String))
      → request.target_ref ≡ some ref
      → Hoare
          (At (acquired grant answer))
          (Service.checked_point ports request d grant answer)
          (Held grant)
          Stopped
  unfolding Service.checked_point
  checked_point_rule d grant ref (ok (some point)) e = pure_rule (some point) (λ s t. record {
    held_phase = held grant point;
    for_target = subst (λ r. Point r (some point) (held grant point)) (sym e) existing;
    forced = refl;
    held_at = t;
  })
  checked_point_rule d grant ref (ok none) e = refuse_rule at_unheld _ _ _
  checked_point_rule d grant ref (err _) e = refuse_rule at_unheld _ _ _

  point_rule :
      (d : DataEnvironmentDefinition) (grant : Option RawDataGrant) (ref : Option DatabaseRef)
      → request.target_ref ≡ ref
      → Hoare
          (At (preparing grant))
          (Service.point_for ports request d grant ref)
          (Held grant)
          Stopped
  unfolding Service.point_for
  point_rule d grant none e = pure_rule none (λ s t. record {
    held_phase = preparing grant;
    for_target = subst (λ r. Point r none (preparing grant)) (sym e) new;
    forced = refl;
    held_at = t;
  })
  point_rule d grant (some ref) e =
      bind_rule
        (answer_rule {q = acquired grant} (acquire ref) (ports.acquire_recovery_point ref)
          (λ w'. refl) acquire_step)
        (λ answer. checked_point_rule d grant ref answer e)
    where
      acquire_step :
          (earlier : List (Call Order)) (answer : Result Fault (Option String))
          → (ports.acquire_recovery_point ref (world_after ports request w earlier)).0 ≡ answer
          → Step ports request w earlier (preparing grant) (acquire ref) (acquired grant answer)
      acquire_step earlier (ok (some point)) h = hold e h
      acquire_step earlier (ok none) h = miss e
      acquire_step earlier (err _) h = miss e

  prepared_rule :
      (p : Prepared Policy)
      → p.definition.environment_id ≡ request.target_environment_id
      → Cleared p.grant
      → Hoare {E = PreflightFailure} (Held p.grant p.point) (pure p) Passed Stopped
  unfolding order_of
  prepared_rule p target cleared = pure_rule p (λ s h. record {
    ready_phase = h.held_phase;
    point_for_target = h.for_target;
    passed_at = h.held_at;
    cleared = record {
      same_raw = refl;
      same_operation = refl;
      for_target = target;
      same_grant = sym h.forced;
      granted = cleared;
    };
  })

  pub preflight_rule : Hoare (At (preparing none)) (preflight ports request) Passed Stopped
  unfolding preflight
  preflight_rule =
      bind_rule
        (tried_rule (resolve request.target_environment_id)
          (ports.resolve request.target_environment_id) (λ w'. refl) (λ _. read resolving))
        (λ found. bind_rule (definition_rule found) (λ d. framed (λ target.
          bind_rule
            (tried_rule (get request.target_pointer) (ports.get request.target_pointer) (λ w'. refl)
              (λ _. read getting))
            (λ answer. bind_rule (record_rule d answer) (λ r.
              bind_rule
                (tried_rule (policy d.policy_ref) (ports.policy d.policy_ref) (λ w'. refl)
                  (λ _. read choosing))
                (λ chosen. bind_rule (policy_rule d chosen) (λ p.
                  bind_rule (grant_for_rule d target) (λ grant. framed (λ cleared.
                    bind_rule (point_rule d grant request.target_ref refl) (λ point.
                      prepared_rule
                        (record {
                          definition = d;
                          instance_record = r;
                          chosen = p;
                          grant = grant;
                          point = point;
                        })
                        target cleared))))))))))
