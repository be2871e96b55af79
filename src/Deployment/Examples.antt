-- ===== src/Deployment/Examples.antt =====
-- The theorems on deployments at a deployment with an exposure.
use odoo_forge.Base.Equality.{string_dec}
use odoo_forge.Base.{true, false, ◌≡◌, refl, [], ◌∷◌, none, some, ok}
use odoo_forge.Base.Effects.{Session}
use odoo_forge.Values.{DurableOperationIdentity, created}
use odoo_forge.Durable.{succeeded, DurableOperationRecord, TerminalCommitBundle}
use odoo_forge.Backend.{InstanceRef}
use odoo_forge.Registry.Examples.{pointer}
use odoo_forge.Deployment.Exposure.{
  ExposureResult, ready, verified, https, required, exposure_request,
}
use odoo_forge.Deployment.{
  RemoteDeploymentRequest, Call, Ports, deploy, exposure_request_of, is_requested,
}
use odoo_forge.Deployment.Truth.{Deploys, deploy-Deploys}
use odoo_forge.Deployment.Evidence.{exposure_request-valid}

abbrev running : DurableOperationIdentity
running = record { operation_id = "run-1"; request_digest = "d1" }

abbrev exposing : DurableOperationIdentity
exposing = record { operation_id = "expose-1"; request_digest = "d2" }

abbrev commit : TerminalCommitBundle
commit = record {
  expected_revision = 2;
  outcome = succeeded;
  evidence = record { event = "done"; summary = "done"; references = [] } ∷ [];
  residual_cleanup = [];
}

abbrev terminal : DurableOperationIdentity → DurableOperationRecord
terminal operation = record {
  identity = operation;
  revision = 3;
  lifecycle = succeeded;
  checkpoint = none;
  terminal_commit = some commit;
  recovery_evidence = [];
}

abbrev ref : InstanceRef
ref = record {
  project = "shop";
  instance_name = "qa";
  network = "net";
  postgres_container = "net-db";
  odoo_container = "net-odoo";
}

abbrev answer : ExposureResult
answer = record {
  operation = exposing;
  outcome = ready;
  routing_status = verified;
  dns_status = verified;
  is_ready = true;
  tls_ready = false;
  ownership = [];
  evidence = [];
}

abbrev request : RemoteDeploymentRequest (Unit {0}) (Unit {0})
request = record {
  deployment = record {
    pointer = pointer;
    resource = record { identifier = "net"; resource_kind = "instance"; ownership = created };
    odoo_version = "19.0";
    exposure =
        some (record { hostname = "shop.test"; protocol = https; dns = required; tls = required });
  };
  plan = tt;
  target = record { host = "vps"; user = "odoo"; port = 22; host_key = "k" };
  runtime_operation = running;
  exposure_operation = some exposing;
  runtime_ownership = [];
  exposure_credential_handles = [];
}

abbrev ports : Ports (Unit {0}) (Unit {0}) (Unit {0})
ports = record {
  run_plan = λ _ w. (ok ref, w);
  load = λ operation w. (ok (terminal operation), w);
  recorder = λ _ w. (ok tt, w);
  exposure_provider = some (λ _ w. (ok answer, w));
}

abbrev start : Session (Unit {0}) (Call (Unit {0}) (Unit {0}))
start = record { world = tt; calls = [] }

deploy-Deploys_example : Deploys ports request (deploy ports request start)
deploy-Deploys_example = deploy-Deploys ports request start tt

exposure_request-valid_example :
    exposure_request (exposure_request_of ports request ref exposing)
    ≡ some (exposure_request_of ports request ref exposing)
unfolding is_requested string_dec
exposure_request-valid_example = exposure_request-valid ports request ref exposing refl
