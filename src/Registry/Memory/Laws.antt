-- ===== src/Registry/Memory/Laws.antt =====
-- What the registry of odoo_forge_instances_postgres/fakes.py keeps.
use odoo_forge.Base.{
  String, ◌≡◌, ◌≢◌, refl, arith, Option, none, some, ok, string_eq, Option-cases, inl, inr,
}
use odoo_forge.Base.Dict.{lookup, lookup-put}
use odoo_forge.Values.{InstanceRecord, OwnershipReceipt, pointer_eq, record_eq}
use odoo_forge.Registry.Memory.{Memory, has_receipt, found, get, store, register, register_with}

-- What `_by_operation` holds stands in `_records` too, with its receipt.
pub record IsConsistent (m : Memory) : Type 0 where
  pub at :
      (id : String) (e : InstanceRecord)
      → lookup id m.by_operation ≡ some e
      → (lookup e.pointer m.records ≡ some e) × (e.receipt ≢ none)

-- `store` keeps the two dictionaries consistent: what the one by operation holds stands in the one by
-- pointer, with its receipt.
pub store-IsConsistent :
    (r : InstanceRecord) {m : Memory} → IsConsistent m → IsConsistent (store r m).1
unfolding store has_receipt
store-IsConsistent r {m} c = record {
  at = λ id e h. ground (arith, c.at id e, lookup-put r.pointer e.pointer r m.records);
}

register_with-IsConsistent :
    (o : Option OwnershipReceipt) (r : InstanceRecord) {m : Memory}
    → r.receipt ≡ o
    → IsConsistent m
    → IsConsistent (register_with o r m).1
unfolding register_with
register_with-IsConsistent none r has c = c
register_with-IsConsistent (some receipt) r {m} has c = record {
  at = λ id e h.
      let op = receipt.operation.operation_id in
      ground (
        arith,
        c.at id e,
        lookup-put r.pointer e.pointer r m.records,
        lookup-put op id r m.by_operation,
      );
}

-- `register` keeps the two dictionaries consistent.
pub register-IsConsistent :
    (r : InstanceRecord) {m : Memory} → IsConsistent m → IsConsistent (register r m).1
unfolding register
register-IsConsistent r c = register_with-IsConsistent r.receipt r refl c

register_with-get :
    (o : Option OwnershipReceipt) (r e : InstanceRecord) (m : Memory)
    → IsConsistent m
    → (register_with o r m).0 ≡ ok e
    → (e ≡ r) × (lookup r.pointer (register_with o r m).1.records ≡ some r)
unfolding register_with
register_with-get none r e m c h = absurd (cc h)
register_with-get (some receipt) r e m c h =
    let id = receipt.operation.operation_id in
    elim (Option-cases (lookup id m.by_operation)) [
      | inl absent ↦ ground (arith, lookup-put r.pointer r.pointer r m.records)
      | inr (found, at) ↦ ground (arith, c.at id found at)
    ]

-- From consistent dictionaries, after a registration that returns, `get` returns the same record, receipt included.
pub get-register :
    (r e : InstanceRecord) (m : Memory)
    → IsConsistent m
    → (register r m).0 ≡ ok e
    → ((get r.pointer (register r m).1).0 ≡ ok e) × (e ≡ r)
unfolding register get
get-register r e m c h = ground (arith, register_with-get r.receipt r e m c)

register_with-retry :
    (o : Option OwnershipReceipt) (r e : InstanceRecord) (m : Memory)
    → IsConsistent m
    → (register_with o r m).0 ≡ ok e
    → register_with o r (register_with o r m).1 ≡ (ok e, (register_with o r m).1)
unfolding register_with
register_with-retry none r e m c h = absurd (cc h)
register_with-retry (some receipt) r e m c h =
    let id = receipt.operation.operation_id in ground (arith, lookup-put id id r m.by_operation)

-- From consistent dictionaries, registering again after a registration that returned returns the
-- same record and writes nothing.
pub register_retry :
    (r e : InstanceRecord) (m : Memory)
    → IsConsistent m
    → (register r m).0 ≡ ok e
    → register r (register r m).1 ≡ (ok e, (register r m).1)
unfolding register
register_retry r e m c h = register_with-retry r.receipt r e m c h
