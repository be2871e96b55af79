-- ===== src/Durable/Evidence.antt =====
-- Redacted evidence, checkpoints, replays, compensation and the terminal commit
-- (odoo_forge/durable_operations/types.py, odoo_forge/durable_operations/service.py).
use odoo_forge.Base.{◌≡◌, ◌≢◌, arith, String, ok, err, ◌⊎◌, string_eq}
use odoo_forge.Values.{DurableOperationIdentity}
use odoo_forge.Durable.{replay_conflict, replay_or_conflict}

-- A replay is answered by the recorded identity exactly if it means the same request.
pub replay_or_conflict_cases :
    (recorded : DurableOperationIdentity) (digest : String)
    → ((recorded.request_digest ≡ digest) × (replay_or_conflict recorded digest ≡ ok recorded))
      ⊎ ((recorded.request_digest ≢ digest)
          × (replay_or_conflict recorded digest
              ≡ err (replay_conflict recorded.operation_id recorded.request_digest digest)))
unfolding replay_or_conflict
replay_or_conflict_cases recorded digest = ground arith
