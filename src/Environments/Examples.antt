-- ===== src/Environments/Examples.antt =====
-- Concrete runs of odoo_forge/data_environments/service.py, and the theorem at one of them.
use odoo_forge.Base.Equality.{string_dec}
use odoo_forge.Base.{◌≡◌, refl, ℕ, String, Bool, true, false, [], ◌∷◌, Option, none, some, ok}
use odoo_forge.Base.Effects.{pure, raise}
use odoo_forge.Values.{DatabaseRef, ProjectScope, created}
use odoo_forge.Artifacts.Copy.{RawDataGrant}
use odoo_forge.Environments.{
  active, refused, failed, raw_grant_required, mutation_failed, DataEnvironmentDefinition,
  DataEnvironmentOperationRequest, DataEnvironmentOperationResult,
}
use odoo_forge.Environments.Service.{Ports, run}
use odoo_forge.Environments.Protocol.{Told}
use odoo_forge.Environments.Runs.{run-Told}

abbrev scope : ProjectScope
scope = record { tenant = "acme"; project_id = "shop" }

abbrev staging : DataEnvironmentDefinition
staging = record {
  environment_id = "staging";
  owner = "ops";
  scope = scope;
  lifecycle = active;
  policy_ref = "mask";
  relationships = record { source_environment_id = "prod"; target_environment_id = "staging" } ∷ [];
}

abbrev target : DatabaseRef
target = record { identifier = "db-1"; ownership = created }

-- `granted`: what the authority answers; the copy always fails.
abbrev ports : Option RawDataGrant → Ports ℕ String String String String String
ports granted = record {
  resolve = λ id. pure staging;
  get = λ p. pure (record {
    pointer = p;
    resource = record { identifier = "db-1"; resource_kind = "database"; ownership = created };
    receipt = some (record {
      operation = record { operation_id = "op-1"; request_digest = "d" };
      owned_resource_ids = [];
      live_proof_expected = true;
    });
  });
  policy = λ name. pure (some name);
  authorize = λ operation environment. pure granted;
  acquire_recovery_point = λ ref. pure (some "point-1");
  restore_recovery_point = λ ref point. pure tt;
  verify_recovery_point = λ ref point. pure true;
  copy = λ order. raise "disk full";
  verify_operation = λ c. pure true;
  now = λ w. (50, w);
  target_id = λ source. source;
}

abbrev asking : Bool → DataEnvironmentOperationRequest String String String
asking raw = record {
  operation = record { operation_id = "op-2"; request_digest = "d" };
  source_environment_id = "prod";
  target_environment_id = "staging";
  target_pointer = record { scope = scope; instance_id = "stage-1" };
  target_ref = some target;
  source = "prod";
  spec = "spec";
  credentials = "handle";
  actor = "ops";
  intent = "refresh";
  request_raw_delivery = raw;
}

abbrev expiring : ℕ → RawDataGrant
expiring time = record {
  operation_id = "op-2";
  environment_id = "staging";
  expires_at = time;
  audit_reference = "a";
}

abbrev granting : Ports ℕ String String String String String
granting = ports (some (expiring 60))

refused_result :
    (run (ports (some (expiring 50))) (asking true) (record { world = 0; calls = [] })).0
    ≡ ok (record {
      outcome = record { code = refused; failure_code = some raw_grant_required };
      lineage = record {
        actor = "ops";
        intent = "refresh";
        source = "prod";
        target = "staging";
        policy = some "mask";
        recovery_point = none;
        raw_grant = none;
      };
      copy_result = none;
    })
unfolding run string_dec
refused_result = refl

failed_result :
    (run (ports none) (asking false) (record { world = 0; calls = [] })).0
    ≡ ok (record {
      outcome = record { code = failed; failure_code = some mutation_failed };
      lineage = record {
        actor = "ops";
        intent = "refresh";
        source = "prod";
        target = "staging";
        policy = some "mask";
        recovery_point = some "point-1";
        raw_grant = none;
      };
      copy_result = none;
    })
unfolding run string_dec
failed_result = refl

run-Told_example :
    (r : DataEnvironmentOperationResult) × ((run granting
        (asking true)
        (record { world = 0; calls = [] })).0
      ≡ ok r)
    × Told granting
        (asking true)
        0
        (run granting (asking true) (record { world = 0; calls = [] })).1.calls
        r
run-Told_example = run-Told granting (asking true) 0
