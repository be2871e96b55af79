-- ===== src/ControlPlane/Authority/Examples.antt =====
-- The registration theorems at a concrete request, with a custody that grants what it is asked.
use odoo_forge.Base.Text.{nat_dec}
use odoo_forge.Base.Equality.{list_dec, string_dec}
use odoo_forge.Base.{String, Bool, true, ◌≡◌, refl, arith, [], ◌∷◌, ok, err, inl}
use odoo_forge.Base.Effects.{Exec, Session}
use odoo_forge.Base.Dict.{lookup}
use odoo_forge.Values.{OwnershipReceipt, pointer_eq, record_eq, ownership_dec}
use odoo_forge.Registry.Examples.{
  pointer, resource, operation, registered, empty, empty-IsConsistent,
}
use odoo_forge.Registry.Port.{conflict}
use odoo_forge.Registry.Memory.{Memory, memory_registry}
use odoo_forge.Registry.Memory
use odoo_forge.Registry.Postgres.{
  Row, Table, row_of, postgres_registry, insert_row, matching_registered_row, register_rows,
}
use odoo_forge.ControlPlane.Custody.{
  CustodyRequest, CustodyError, Digest, custody_operation_parts, custody_request,
}
use odoo_forge.ControlPlane.Authority.{
  get, RegistrationRequest, registry_error, Call, World, validated, request_of, register_instance,
  submit,
}
use odoo_forge.ControlPlane.Authority.Calls.{Permitted, register_instance-Permitted}
use odoo_forge.ControlPlane.Authority.OverPostgres.{
  register_instance-conflict, register_instance-retry_conflict,
}
use odoo_forge.ControlPlane.Authority.InMemory.{register_instance-retry_memory, IsFaithful}

abbrev request : RegistrationRequest
request = record {
  operation = operation;
  pointer = pointer;
  resource = resource;
  resource_name = "box";
  resource_id = "c-1";
}

-- A stand-in for SHA-256 on this request.
abbrev digest : Digest
digest _ _ _ _ _ _ _ = "d1"

abbrev granting : CustodyRequest → Exec (Unit {0}) CustodyError OwnershipReceipt
granting c k = (
  ok (record {
    operation = c.operation;
    owned_resource_ids = c.resource_id ∷ [];
    live_proof_expected = true;
  }),
  k,
)

abbrev start : {R : Type 0} → R → Session (World R (Unit {0})) Call
start r = record { world = record { registry = r; custody = tt }; calls = [] }

abbrev always : String → String → Bool
always _ _ = true

granting-IsFaithful : IsFaithful granting
granting-IsFaithful c w r h = ground arith

valid : validated digest request ≡ ok (request_of request)
unfolding validated custody_request string_dec custody_operation_parts nat_dec list_dec
    ownership_dec
valid = refl

register_instance-Permitted_example :
    Permitted memory_registry granting digest request
      (start empty)
      (register_instance memory_registry granting digest request (start empty)).1.calls
register_instance-Permitted_example =
    register_instance-Permitted memory_registry granting digest request (start empty)

register_instance-retry_memory_example :
    register_instance memory_registry granting digest request
      (register_instance memory_registry granting digest request (start empty)).1
    ≡ (
      ok registered,
      record (register_instance memory_registry granting digest request (start empty)).1 {
        calls =
            get pointer
            ∷ (register_instance memory_registry granting digest request (start empty)).1.calls;
      },
    )
unfolding register_instance validated custody_request string_dec custody_operation_parts nat_dec
    list_dec ownership_dec memory_registry Memory.get lookup submit Memory.register
register_instance-retry_memory_example =
    register_instance-retry_memory granting digest request (request_of request) registered
      (start empty) valid granting-IsFaithful empty-IsConsistent refl

register_instance-retry_conflict_example :
    (register_instance
      (postgres_registry always)
      granting
      digest
      request
      (register_instance (postgres_registry always) granting digest request (start [])).1).0
    ≡ err (registry_error (conflict pointer))
unfolding register_instance validated custody_request string_dec custody_operation_parts nat_dec
    list_dec ownership_dec postgres_registry odoo_forge.Registry.Postgres.get submit
    odoo_forge.Registry.Postgres.register register_rows matching_registered_row insert_row
register_instance-retry_conflict_example =
    register_instance-retry_conflict always granting digest request (request_of request) registered
      (start []) valid refl

register_instance-conflict_example :
    ((register_instance
        (postgres_registry always)
        granting
        digest
        request
        (start (row_of registered ∷ []))).0
      ≡ err (registry_error (conflict pointer)))
    × ((register_instance
          (postgres_registry always)
          granting
          digest
          request
          (start (row_of registered ∷ []))).1.world
        ≡ (start (row_of registered ∷ [])).world)
register_instance-conflict_example =
    register_instance-conflict always granting digest request (request_of request)
      (start (row_of registered ∷ [])) valid (inl refl)
