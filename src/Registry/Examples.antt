-- ===== src/Registry/Examples.antt =====
-- The registry theorems at a concrete record.
use odoo_forge.Base.Equality.{string_dec}
use odoo_forge.Base.{true, ◌≡◌, refl, arith, [], ◌∷◌, none, some, ok, err, ◌⊎◌}
use odoo_forge.Base.Lists.{IsIn}
use odoo_forge.Base.Dict.{lookup}
use odoo_forge.Values.{
  DurableOperationIdentity, InstancePointer, InstanceRecord, ResourceRef, created, OwnershipReceipt,
  pointer_eq, record_eq, pointer_dec, scope_dec,
}
use odoo_forge.Registry.Port.{invalid_row}
use odoo_forge.Registry.Memory
use odoo_forge.Registry.Memory.{Memory}
use odoo_forge.Registry.Memory.Laws.{IsConsistent, register-IsConsistent, get-register}
use odoo_forge.Registry.Postgres
use odoo_forge.Registry.Postgres.{Row, Table, row_of}
use odoo_forge.Registry.Postgres.Laws.{register-ok, register-err, register-legacy_row}
use odoo_forge.Registry.Postgres.Keys.{IsKeyed, register-IsKeyed}

abbrev pub pointer : InstancePointer
pointer = record { scope = record { tenant = "acme"; project_id = "shop" }; instance_id = "qa" }

abbrev pub resource : ResourceRef
resource = record { identifier = "box"; resource_kind = "container"; ownership = created }

abbrev pub operation : DurableOperationIdentity
operation = record { operation_id = "docker:t1"; request_digest = "d1" }

abbrev pub receipt : OwnershipReceipt
receipt = record {
  operation = operation;
  owned_resource_ids = "c-1" ∷ [];
  live_proof_expected = true;
}

abbrev pub registered : InstanceRecord
registered = record { pointer = pointer; resource = resource; receipt = some receipt }

abbrev legacy : Row
legacy = record { pointer = pointer; resource = resource; receipt = none }

abbrev pub empty : Memory
empty = record { records = []; by_operation = [] }

pub empty-IsConsistent : IsConsistent empty
unfolding lookup
empty-IsConsistent = record { at = λ id e h. ground arith }

abbrev unchanged : Table → Table
unchanged t = t

register-IsConsistent_example : IsConsistent (Memory.register registered empty).1
register-IsConsistent_example = register-IsConsistent registered empty-IsConsistent

get-register_example :
    ((Memory.get pointer (Memory.register registered empty).1).0 ≡ ok registered)
    × (registered ≡ registered)
unfolding Memory.register lookup
get-register_example = get-register registered registered empty empty-IsConsistent refl

register-ok_example :
    (registered ≡ registered)
    × IsIn (row_of registered) (Postgres.register unchanged true registered []).1
unfolding Postgres.register Postgres.transaction Postgres.register_rows
    Postgres.matching_registered_row Postgres.insert_row
register-ok_example = register-ok unchanged true registered [] registered refl

register-err_example :
    ((Postgres.register unchanged true registered (legacy ∷ [])).1 ≡ legacy ∷ [])
    ⊎ ((Postgres.register unchanged true registered (legacy ∷ [])).1 ≡ legacy ∷ [])
unfolding Postgres.register Postgres.transaction Postgres.register_rows
    Postgres.matching_registered_row pointer_dec scope_dec string_dec
register-err_example = register-err unchanged true registered (legacy ∷ []) invalid_row refl

register-legacy_row_example :
    Postgres.register unchanged true registered (legacy ∷ []) ≡ (err invalid_row, legacy ∷ [])
register-legacy_row_example =
    register-legacy_row unchanged true registered receipt legacy [] refl refl refl

register-IsKeyed_example : IsKeyed (Postgres.register unchanged true registered []).1
register-IsKeyed_example = register-IsKeyed unchanged true registered [] tt tt
