-- ===== src/Lifecycle/Examples.antt =====
-- Concrete runs of odoo_forge/resource_lifecycle/service.py: a provider that answers the same each
-- time, and the theorems at these inputs.
use odoo_forge.Base.Equality.{list_dec, option_dec, string_dec}
use odoo_forge.Base.{◌≡◌, refl, inl, ℕ, String, true, List, [], ◌∷◌, none, some, ok, ◌↔◌}
use odoo_forge.Base.Int.{pos}
use odoo_forge.Base.Effects.{pure, raise}
use odoo_forge.Values.{
  CreationReceipt, DatabaseRef, ProjectScope, InstancePointer, InstanceRecord, OwnershipReceipt,
  created, ownership_dec, pointer_dec, resource_dec,
}
use odoo_forge.Registry.Port.{InstanceRegistry}
use odoo_forge.Lifecycle.{
  dev, prod, present, expire, Datetime, LifecyclePolicy, LifecycleResource, DatabaseObservation,
  deleted, human_intervention, decision, evaluate_expiration,
}
use odoo_forge.Lifecycle.Ports.{Ports}
use odoo_forge.Lifecycle.Recovery.{Run, RecoveryResult, recover, cleanup_rounds}
use odoo_forge.Lifecycle.Service
use odoo_forge.Lifecycle.Protocol.{idle, Trail, start, Allowed, Settled}
use odoo_forge.Lifecycle.Protocol.Runs.{opened, recover-Settled, run-Allowed}
use odoo_forge.Lifecycle.Cleanup.{Tried, cleanup_rounds-Tried}
use odoo_forge.Lifecycle.Expiration.{IsExpirable, IsOverdue, evaluate_expiration-mutation_iff}
use odoo_forge.Lifecycle.Untouched.{Quiet, recover-protected}

abbrev scope : ProjectScope
scope = record { tenant = "acme"; project_id = "shop" }

abbrev pointer : InstancePointer
pointer = record { scope = scope; instance_id = "qa-1" }

abbrev ref : DatabaseRef
ref = record { identifier = "db-1"; ownership = created }

abbrev receipt : OwnershipReceipt
receipt = record {
  operation = record { operation_id = "op-1"; request_digest = "d" };
  owned_resource_ids = "db-1" ∷ [];
  live_proof_expected = true;
}

abbrev stored : InstanceRecord
stored = record {
  pointer = pointer;
  resource = record { identifier = "db-1"; resource_kind = "database"; ownership = created };
  receipt = some receipt;
}

abbrev at : ℕ → Datetime
at micros = record { micros = micros; aware = true }

abbrev seen : DatabaseObservation
seen = record {
  ref = ref;
  scope = scope;
  evidence_digest = "e";
  ownership_valid = true;
  resource_class = dev;
  last_activity = some (at 10);
  receipt = some receipt;
  presence = present;
}

abbrev registry : InstanceRegistry ℕ
registry = record {
  store = pure;
  get = λ p. pure stored;
  list = λ s. pure (stored ∷ []);
  register = pure;
}

-- `left`: what each cleanup leaves.
abbrev ports : List String → Ports ℕ String
ports left = record {
  registry = registry;
  gateway = record {
    observe = λ s. pure (seen ∷ []);
    quarantine = pure;
    adopt = pure;
    reconcile = λ operation. raise "no such operation";
    delete = λ creation. pure tt;
    cleanup = λ r. pure left;
  };
  journal = record { append = λ e. pure tt; events = pure [] };
  utc_now = λ w. (100, w);
}

abbrev policy : LifecyclePolicy
policy = record { ttl = pos 50; grace = pos 20; approved_classes = dev ∷ []; overrides = [] }

abbrev deleting : Run
deleting = record {
  scope = scope;
  policy = policy;
  authorization = record { actor = "ops"; reason = "idle"; approved = true };
  delete = true;
  wait = pos 0;
  now = none;
}

abbrev removed_one : RecoveryResult
removed_one = record { outcome = deleted; residuals = [] }

run_deletes : (Service.run (ports []) 2 deleting (opened 0)).0 ≡ ok (removed_one ∷ [])
unfolding Service.run resource_dec option_dec list_dec
run_deletes = refl

run_keeps_residuals :
    (Service.run (ports ("volume" ∷ [])) 2 deleting (opened 0)).0
    ≡ ok (
        record {
          outcome = human_intervention;
          residuals = record { code = "partial-cleanup"; detail = "volume" } ∷ [];
        }
        ∷ [])
unfolding Service.run resource_dec option_dec list_dec
run_keeps_residuals = refl

recover_deletes :
    (recover (ports []) 2 deleting (some stored) (some seen) none (opened 0)).0 ≡ ok removed_one
unfolding recover string_dec pointer_dec resource_dec ownership_dec option_dec list_dec
recover_deletes = refl

recover-Settled_example :
    Settled
      (ports [])
      0
      deleting
      removed_one
      (recover (ports []) 2 deleting (some stored) (some seen) none (opened 0)).1.calls
      (recover (ports []) 2 deleting (some stored) (some seen) none (opened 0)).1.world
recover-Settled_example =
    recover-Settled (ports []) 0 2 deleting (some stored) (some seen) none (opened 0) removed_one
      start recover_deletes

run-Allowed_example :
    Allowed
      (ports [])
      0
      (Service.run (ports []) 2 deleting (opened 0)).1.calls
      (Service.run (ports []) 2 deleting (opened 0)).1.world
    × ((results : List RecoveryResult)
        → (Service.run (ports []) 2 deleting (opened 0)).0 ≡ ok results
        → Trail
            (ports [])
            0
            (Service.run (ports []) 2 deleting (opened 0)).1.calls
            (Service.run (ports []) 2 deleting (opened 0)).1.world
            idle)
run-Allowed_example = run-Allowed (ports []) 2 deleting 0

abbrev garbage : CreationReceipt
garbage = record { operation = "op-1"; owned_resource_ids = "db-1" ∷ [] }

cleanup_rounds-Tried_example :
    Tried 3 garbage []
      (cleanup_rounds (ports ("volume" ∷ [])) 3 garbage [] (opened 0)).0
      (cleanup_rounds (ports ("volume" ∷ [])) 3 garbage [] (opened 0)).1
cleanup_rounds-Tried_example = cleanup_rounds-Tried (ports ("volume" ∷ [])) garbage 3 [] (opened 0)

abbrev idle_resource : LifecycleResource
idle_resource = record { resource_id = "db-1"; resource_class = dev; last_activity = at 10 }

evaluate_expiration-mutation_iff_example :
    ((true ≡ true) ↔ (IsExpirable policy dev × IsOverdue policy idle_resource (at 100)))
    × (true ≡ true)
    × (expire ≡ expire)
unfolding decision evaluate_expiration
evaluate_expiration-mutation_iff_example =
    evaluate_expiration-mutation_iff idle_resource (at 100) policy (decision true) expires
  where
    expires : evaluate_expiration idle_resource (at 100) policy ≡ some (decision true)
    expires = refl

abbrev live_prod : DatabaseObservation
live_prod = record seen { resource_class = prod }

recover-protected_example :
    Quiet (recover (ports []) 2 deleting (some stored) (some live_prod) none (opened 0)).1
recover-protected_example =
    recover-protected (ports []) 2 deleting (some stored) live_prod none 0 (inl refl)
