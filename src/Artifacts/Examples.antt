-- ===== src/Artifacts/Examples.antt =====
-- The theorems on copies at a store of manifests that serves what was persisted last.
use odoo_forge.Base.Equality.{string_dec}
use odoo_forge.Base.{
  String, Bool, true, false, ◌≡◌, refl, [], ◌∷◌, ◌++◌, List, none, some, Option, Result, ok, err,
  ◌⊎◌, string_eq,
}
use odoo_forge.Base.Dict.{Dict, lookup, put}
use odoo_forge.Values.{DatabaseCreation, created}
use odoo_forge.Durable.{accepted, succeeded, DurableCheckpoint, RedactedEvidence, redacted_evidence}
use odoo_forge.Durable.Examples.{lenient}
use odoo_forge.Artifacts.{
  RestoreSetManifest, RestoreSetComponent, RestoreReadiness, database, filestore, completed,
  Vocabulary, CopyError, value_error, evidence_of, unavailable,
}
use odoo_forge.Artifacts.Copy.{
  Ports, CopyState, CopyRequest, CoordinatedCopyResult, persist, discard, replace_raw, supersede,
  shadow_of, is_residual, run, process, deliver,
}
use odoo_forge.Artifacts.Copy.Reap.{replace_raw-log, supersede-residual, reaped}
use odoo_forge.Artifacts.Copy.Outcome.{run-last_state, Outcome, deliver-returns}
use odoo_forge.Artifacts.Copy.Gate.{process-Gated, Gated}

abbrev Store : Type 0
Store = Dict String RestoreSetManifest

abbrev anything : Vocabulary
anything = record { is_safe_opaque_identifier = λ _. true; is_opaque_identifier = λ _. true }

abbrev dump : String → RestoreSetComponent
dump value = record {
  kind = database;
  opaque_component_ref = "dump";
  format_version = "1";
  digest = record { algorithm = "sha256"; value = value };
}

abbrev files : RestoreSetComponent
files = record {
  kind = filestore;
  opaque_component_ref = "files";
  format_version = "1";
  digest = record { algorithm = "sha256"; value = "ff" };
}

abbrev set : String → RestoreSetManifest
set value = record {
  restore_set_id = "set-1";
  lineage_id = "line-1";
  components = dump value ∷ files ∷ [];
}

abbrev creation : DatabaseCreation
creation = record {
  ref = record { identifier = "db-1"; ownership = created };
  receipt = record { operation = "op-1"; owned_resource_ids = "db-1" ∷ [] };
  data_volume_ownership = created;
}

abbrev served : Option RestoreSetManifest → RestoreReadiness
served none = record {
  ready = false;
  manifest = none;
  failure_code = some unavailable;
  redacted_detail = none;
}
served (some m) = record {
  ready = true;
  manifest = some m;
  failure_code = none;
  redacted_detail = none;
}

-- A source with digest `aa`, and a mask that makes it `cc`.
abbrev ports : Ports Store (Unit {0}) (Unit {0}) (Unit {0}) (Unit {0})
ports = record {
  capture_source = λ _ w. (ok (set "aa"), put "set-1" (set "aa") w);
  mask_transform =
      λ c _ w. (ok (record c { digest = record { algorithm = "sha256"; value = "cc" } }), w);
  manifest_persistence = λ ref m w. (ok tt, put ref m w);
  validate_for_restore = λ ref w. (ok (served (lookup ref w)), w);
  discard_ref =
      λ _ w. (ok (record { code = completed; residual_ids = []; redacted_detail = none }), w);
  restore_database = λ _ _ _ w. (ok creation, w);
  audited_exception_lookup = λ _. none;
  now = λ _. 5;
}

abbrev request : CopyRequest (Unit {0}) (Unit {0}) (Unit {0}) (Unit {0})
request = record {
  source = tt;
  spec = tt;
  rules = [];
  credentials = tt;
  operation = record { operation_id = "op-1"; request_digest = "d1" };
  request_raw_delivery = false;
  retain_staged = false;
  raw_grant = none;
  raw_grant_environment_id = none;
}

abbrev start : CopyState Store
start = record { world = []; log = []; last_state = accepted; checkpoints = [] }

abbrev said : String → String → List String → RedactedEvidence
said event summary references = record { event = event; summary = summary; references = references }

abbrev last : DurableCheckpoint
last = record {
  revision = 1;
  phase = "integrity_verified";
  evidence = said "integrity_verified" "digest re-verified before delivery" ("line-1" ∷ []);
}

run-last_state_example : Outcome anything lenient ports (run anything lenient ports request start)
unfolding evidence_of redacted_evidence string_dec
run-last_state_example =
    run-last_state anything lenient ports request start
      (said "capture_copy_failed" "capture-anonymize-deliver operation failed before completion" [])
      refl

process-Gated_example :
    Gated anything lenient ports request 1 "set-1"
      (set "aa")
      []
      (process anything lenient ports request 1 "set-1" (set "aa") start)
process-Gated_example = process-Gated anything lenient ports request 1 "set-1" (set "aa") start tt

deliver-returns_example :
    (r : CoordinatedCopyResult) × ((deliver anything lenient ports request 1 "set-1" "line-1" last
        start).0
      ≡ ok r)
    × (r.creation ≡ creation)
    × (r.state ≡ succeeded)
unfolding evidence_of redacted_evidence string_dec
deliver-returns_example =
    deliver-returns anything lenient ports request 1 "set-1" "line-1" last start creation
      (said "discard_on_success_residual" "discard-on-success left a residual failure"
        ("line-1" ∷ []))
      refl refl

abbrev shadow : String
shadow = shadow_of anything lenient ports "set-1"

abbrev replaced : Result CopyError (Unit {0}) × CopyState Store
replaced = replace_raw anything lenient ports 1 "set-1" (set "aa") (set "cc") start

replace_raw-log_example :
    ((true ≡ false) × (replaced.0 ≡ err value_error) × (replaced.1.log ≡ []))
    ⊎ ((true ≡ true)
        × ((e : CopyError) × (replaced.0 ≡ err e)
            × (replaced.1.log ≡ (persist shadow (set "aa"), false) ∷ [])))
    ⊎ ((true ≡ true)
        × ((kept reap : Bool) × (replaced.1.log
              ≡ (discard shadow, reap)
                ∷ (persist "set-1" (set "cc"), kept)
                ∷ (persist shadow (set "aa"), true)
                ∷ [])))
replace_raw-log_example =
    replace_raw-log anything lenient ports 1 "set-1" (set "aa") (set "cc") start

supersede-residual_example :
    ((supersede anything lenient ports 1 "set-1" "shadow" (set "cc") "line-1" start).0 ≡ ok tt)
    × (((is_residual (reaped anything lenient ports 1 "set-1" "shadow" "line-1" (set "cc") start).0
            ≡ true)
          × ((supersede anything lenient ports 1 "set-1" "shadow"
                (set "cc")
                "line-1"
                start).1.checkpoints
              ≡ []
                ++ record {
                  revision = 1;
                  phase = "raw_reap_residual";
                  evidence =
                      said "raw_reap_residual" "raw pre-mask blob reap left a residual failure"
                        ("line-1" ∷ []);
                }
                  ∷ []))
        ⊎ ((is_residual
                (reaped anything lenient ports 1 "set-1" "shadow" "line-1" (set "cc") start).0
              ≡ false)
            × ((supersede anything lenient ports 1 "set-1" "shadow"
                  (set "cc")
                  "line-1"
                  start).1.checkpoints
                ≡ [])))
unfolding evidence_of redacted_evidence string_dec
supersede-residual_example =
    supersede-residual anything lenient ports 1 "set-1" "shadow" "line-1" (set "cc") start
      (said "raw_reap_residual" "raw pre-mask blob reap left a residual failure" ("line-1" ∷ []))
      refl
