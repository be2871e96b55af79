-- ===== src/Registry/Postgres.antt =====
-- odoo_forge_instances_postgres/adapter.py: the registry as a table. Each SQL statement of the file is
-- a function on the rows, with the keys of migrations/0001_instance_registry.sql (which PostgreSQL
-- enforces: the pointer's columns, and `operation_id` where it is not NULL).
pub mod Laws
pub mod Keys
use odoo_forge.Base.{
  String, Bool, true, false, not, ◌||◌, List, [], ◌∷◌, ◌++◌, map, Option, none, some, Result, ok,
  err, if◌then◌else◌, ◌==◌, Eq, string_eq, is_empty,
}
use odoo_forge.Base.Effects.{Exec, pure, raise, lift, ◌>>=◌, ◌>>◌}
use odoo_forge.Base.Lists.{select, any, find}
use odoo_forge.Base.Sorting.{sort}
use odoo_forge.Values.{
  InstancePointer, InstanceRecord, OwnershipReceipt, ResourceRef, ProjectScope, pointer_eq,
  record_eq, scope_eq,
}
use odoo_forge.Registry.Port.{
  RegistryError, not_found, missing_receipt, conflict, overwrite_rejected, invalid_row, unavailable,
  InstanceRegistry,
}

-- One row: the base columns, and the four receipt columns, which are NULL together.
pub record Row : Type 0 where
  pub pointer : InstancePointer
  pub resource : ResourceRef
  pub receipt : Option OwnershipReceipt

abbrev pub Table : Type 0
Table = List Row

-- _record_parameters, _receipt_record_parameters: the values of an INSERT
abbrev pub row_of : InstanceRecord → Row
row_of r = record { pointer = r.pointer; resource = r.resource; receipt = r.receipt }

-- _record_from_row: of the base columns alone
unfoldable pub record_from_row : Row → InstanceRecord
record_from_row row = record { pointer = row.pointer; resource = row.resource; receipt = none }

-- _record_from_receipt_row: DurableOperationIdentity refuses NULL columns.
unfoldable pub record_from_receipt_row : Row → Result RegistryError InstanceRecord
record_from_receipt_row row = elim row.receipt [
  | none ↦ err invalid_row
  | some receipt ↦
      ok (record { pointer = row.pointer; resource = row.resource; receipt = some receipt })
]

-- WHERE tenant_id = %s AND project_id = %s AND instance_id = %s
abbrev at_pointer : InstancePointer → Row → Bool
at_pointer pointer row = row.pointer == pointer

-- operation_id = %s, which is not true of NULL
unfoldable pub at_operation : String → Row → Bool
at_operation id row = elim row.receipt [
  | none ↦ false
  | some receipt ↦ receipt.operation.operation_id == id
]

-- _REGISTER_LOOKUP_SQL's condition, and what ON CONFLICT DO NOTHING skips an INSERT for
unfoldable pub collides : String → InstancePointer → Row → Bool
unfolding at_operation
collides id pointer row = at_operation id row || at_pointer pointer row

-- _STORE_SQL's update of the row at the key; the receipt columns stay.
unfoldable pub upsert : InstanceRecord → Table → Table
upsert r [] = row_of (record r { receipt = none }) ∷ []
upsert r (row ∷ t) =
    let rest = upsert r t in
    if at_pointer r.pointer row then record row { resource = r.resource } ∷ t else row ∷ rest

-- An open transaction: the rows that its statements see, and the rows that stay if it rolls back.
pub record Transaction : Type 0 where
  pub own : Table
  pub committed : Table

settle : {A : Type 0} → Bool → Result RegistryError A × Transaction → Result RegistryError A × Table
settle commits (ok a, tx) = if commits then (ok a, tx.own) else (err unavailable, tx.committed)
settle commits (err e, tx) = (err e, tx.committed)

-- _transaction: `commits` says whether connection.commit() succeeds. Any raise rolls back.
unfoldable pub transaction :
    {A : Type 0} → Bool → Exec Transaction RegistryError A → Exec Table RegistryError A
unfolding settle
transaction commits operation t = settle commits (operation (record { own = t; committed = t }))

holds_receipt : Option Row → Bool
holds_receipt none = false
holds_receipt (some row) = elim row.receipt [ none ↦ false | some _ ↦ true ]

store_rows : InstanceRecord → Exec Transaction RegistryError InstanceRecord
unfolding holds_receipt find upsert record_from_row
store_rows r tx =
    if holds_receipt (find (at_pointer r.pointer) tx.own)
    then (err (overwrite_rejected r.pointer), tx)
    else (ok (record_from_row (row_of r)), record tx { own = upsert r tx.own })

first_row : InstancePointer → Option Row → Result RegistryError InstanceRecord
unfolding record_from_row
first_row pointer none = err (not_found pointer)
first_row pointer (some row) = ok (record_from_row row)

get_rows : InstancePointer → Exec Transaction RegistryError InstanceRecord
unfolding find first_row
get_rows pointer tx = (first_row pointer (find (at_pointer pointer) tx.own), tx)

-- ORDER BY instance_id, in the order of the database's collation
list_rows :
    (String → String → Bool) → ProjectScope → Exec Transaction RegistryError (List InstanceRecord)
unfolding select sort record_from_row
list_rows collation scope tx = (
  ok (
      map record_from_row (
        sort (λ r s. collation r.pointer.instance_id s.pointer.instance_id)
          (select (λ row. row.pointer.scope == scope) tx.own))),
  tx,
)

-- _matching_registered_row: the loop over the rows found; what it finds, nothing, or a raise.
scan_rows : InstanceRecord → Table → Result RegistryError (Option InstanceRecord)
unfolding record_from_receipt_row
scan_rows r [] = ok none
scan_rows r (row ∷ rows) = elim (record_from_receipt_row row) [
  | err e ↦ err e
  | ok existing ↦ if existing == r then ok (some existing) else scan_rows r rows
]

no_match :
    InstanceRecord → Table → Option InstanceRecord → Result RegistryError (Option InstanceRecord)
no_match r rows (some existing) = ok (some existing)
no_match r rows none = if is_empty rows then ok none else err (conflict r.pointer)

unfoldable pub matching_registered_row :
    InstanceRecord → OwnershipReceipt → Exec Transaction RegistryError (Option InstanceRecord)
unfolding select collides scan_rows no_match
matching_registered_row r receipt tx =
    let rows = select (collides receipt.operation.operation_id r.pointer) tx.own in
    (elim (scan_rows r rows) [ err e ↦ err e | ok found ↦ no_match r rows found ], tx)

-- _REGISTER_INSERT_SQL with RETURNING: no row comes back where a key collides.
unfoldable pub insert_row :
    InstanceRecord → OwnershipReceipt → Exec Transaction RegistryError (Option Row)
unfolding any collides
insert_row r receipt tx =
    let row : Row = record { pointer = r.pointer; resource = r.resource; receipt = some receipt } in
    if any (collides receipt.operation.operation_id r.pointer) tx.own
    then (ok none, tx)
    else (ok (some row), record tx { own = tx.own ++ row ∷ [] })

abbrev or_conflict :
    InstanceRecord → Option InstanceRecord → Exec Transaction RegistryError InstanceRecord
or_conflict r (some existing) = pure existing
or_conflict r none = raise (conflict r.pointer)

-- What other transactions commit between the lookup and the INSERT.
module _ (concurrent : Table → Table) where
  abbrev others_commit : Exec Transaction RegistryError (Unit {0})
  others_commit tx =
      (ok tt, record { own = concurrent tx.own; committed = concurrent tx.committed })

  pub after_insert :
      InstanceRecord → OwnershipReceipt → Option Row → Exec Transaction RegistryError InstanceRecord
  unfolding record_from_receipt_row
  after_insert r receipt (some inserted) = lift (record_from_receipt_row inserted)
  after_insert r receipt none = do
    existing ← matching_registered_row r receipt
    or_conflict r existing

  unless_found :
      InstanceRecord
      → OwnershipReceipt
      → Option InstanceRecord
      → Exec Transaction RegistryError InstanceRecord
  unfolding after_insert
  unless_found r receipt (some existing) = pure existing
  unless_found r receipt none = do
    others_commit
    inserted ← insert_row r receipt
    after_insert r receipt inserted

  unfoldable pub register_rows :
      InstanceRecord → OwnershipReceipt → Exec Transaction RegistryError InstanceRecord
  unfolding unless_found
  register_rows r receipt = do
    existing ← matching_registered_row r receipt
    unless_found r receipt existing

  register_with :
      Bool → Option OwnershipReceipt → InstanceRecord → Exec Table RegistryError InstanceRecord
  register_with commits none r t = (err (missing_receipt r.pointer), t)
  register_with commits (some receipt) r t = transaction commits (register_rows r receipt) t

  unfoldable pub register : Bool → InstanceRecord → Exec Table RegistryError InstanceRecord
  unfolding register_with
  register commits r = register_with commits r.receipt r

unfoldable pub store : Bool → InstanceRecord → Exec Table RegistryError InstanceRecord
unfolding transaction store_rows
store commits r = transaction commits (store_rows r)

unfoldable pub get : Bool → InstancePointer → Exec Table RegistryError InstanceRecord
unfolding transaction get_rows
get commits pointer = transaction commits (get_rows pointer)

unfoldable pub list :
    (String → String → Bool) → Bool → ProjectScope → Exec Table RegistryError (List InstanceRecord)
unfolding transaction list_rows
list collation commits scope = transaction commits (list_rows collation scope)

-- The port, on a database that commits and with no other writer.
unfoldable pub postgres_registry : (String → String → Bool) → InstanceRegistry Table
postgres_registry collation = record {
  store = store true;
  get = get true;
  list = list collation true;
  register = register (λ t. t) true;
}
