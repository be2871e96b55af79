-- ===== src/Registry/Memory.antt =====
-- odoo_forge_instances_postgres/fakes.py: records by pointer and by the operation of their receipt.
pub mod Laws
use odoo_forge.Base.{
  String, List, Bool, true, false, Option, none, some, Result, ok, err, if◌then◌else◌, ◌==◌, Eq,
  string_eq,
}
use odoo_forge.Base.Effects.{Exec}
use odoo_forge.Base.Lists.{select}
use odoo_forge.Base.Dict.{Dict, lookup, put, values}
use odoo_forge.Base.Sorting.{sort, text_le}
use odoo_forge.Values.{
  InstancePointer, InstanceRecord, OwnershipReceipt, ProjectScope, pointer_eq, record_eq, scope_eq,
}
use odoo_forge.Registry.Port.{
  RegistryError, not_found, missing_receipt, conflict, overwrite_rejected, InstanceRegistry,
}

-- `_records` in the order of insertion and `_by_operation`. A key is the pointer's three texts.
pub record Memory : Type 0 where
  pub records : Dict InstancePointer InstanceRecord
  pub by_operation : Dict String InstanceRecord

-- existing is not None and existing.receipt is not None
has_receipt : Option InstanceRecord → Bool
has_receipt none = false
has_receipt (some existing) = elim existing.receipt [ none ↦ false | some _ ↦ true ]

unfoldable pub store : InstanceRecord → Exec Memory RegistryError InstanceRecord
unfolding has_receipt
store r m =
    if has_receipt (lookup r.pointer m.records)
    then (err (overwrite_rejected r.pointer), m)
    else (ok r, record m { records = put r.pointer r m.records })

found :
    InstancePointer → Option InstanceRecord → Memory → Result RegistryError InstanceRecord × Memory
found pointer none m = (err (not_found pointer), m)
found pointer (some r) m = (ok r, m)

unfoldable pub get : InstancePointer → Exec Memory RegistryError InstanceRecord
unfolding found
get pointer m = found pointer (lookup pointer m.records) m

unfoldable pub list : ProjectScope → Exec Memory RegistryError (List InstanceRecord)
list scope m = (
  ok (
      sort (λ r s. text_le r.pointer.instance_id s.pointer.instance_id)
        (values (select (λ entry. entry.0.scope == scope) m.records))),
  m,
)

-- self._by_operation.get(operation_id) or self._records.get(key)
or_else : Option InstanceRecord → Option InstanceRecord → Option InstanceRecord
or_else none o = o
or_else (some r) o = some r

register_over :
    Option InstanceRecord → InstanceRecord → String → Exec Memory RegistryError InstanceRecord
register_over none r operation_id m = (
  ok r,
  record { records = put r.pointer r m.records; by_operation = put operation_id r m.by_operation },
)
register_over (some existing) r operation_id m =
    if existing == r then (ok existing, m) else (err (conflict r.pointer), m)

register_with : Option OwnershipReceipt → InstanceRecord → Exec Memory RegistryError InstanceRecord
unfolding register_over or_else
register_with none r m = (err (missing_receipt r.pointer), m)
register_with (some receipt) r m =
    let operation_id = receipt.operation.operation_id in
    register_over (or_else (lookup operation_id m.by_operation) (lookup r.pointer m.records)) r
      operation_id m

unfoldable pub register : InstanceRecord → Exec Memory RegistryError InstanceRecord
unfolding register_with
register r = register_with r.receipt r

unfoldable pub memory_registry : InstanceRegistry Memory
memory_registry = record { store = store; get = get; list = list; register = register }
