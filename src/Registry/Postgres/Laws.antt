-- ===== src/Registry/Postgres/Laws.antt =====
-- What the registry of odoo_forge_instances_postgres/adapter.py returns and keeps.
use odoo_forge.Base.{
  ◌≡◌, refl, arith, Bool, true, none, some, Option, ok, err, [], ◌∷◌, ◌++◌, ◌⊎◌, inl, ◌==◌, ==_iff,
}
use odoo_forge.Base.Lists.{IsIn, IsIn-append_right, IsIn-select, select, Any, Any-map, find-some}
use odoo_forge.Values.{InstanceRecord, InstancePointer, OwnershipReceipt, record_eq, pointer_eq}
use odoo_forge.Registry.Port.{RegistryError, invalid_row}
use odoo_forge.Registry.Postgres.{
  Row, Table, row_of, record_from_row, Transaction, transaction, scan_rows, no_match,
  matching_registered_row, insert_row, collides, after_insert, unless_found, register_rows,
  register_with, register, get, get_rows, first_row,
}

scan_rows-some :
    (r : InstanceRecord) (rows : Table) (e : InstanceRecord)
    → scan_rows r rows ≡ ok (some e)
    → (e ≡ r) × IsIn (row_of r) rows
unfolding scan_rows
scan_rows-some r [] e h = absurd (ground arith)
scan_rows-some r (row ∷ rows) e h = ground (arith, scan_rows-some r rows e)

matching-some :
    (r : InstanceRecord) (receipt : OwnershipReceipt) (tx : Transaction) (e : InstanceRecord)
    → (matching_registered_row r receipt tx).0 ≡ ok (some e)
    → (e ≡ r) × IsIn (row_of r) tx.own
unfolding matching_registered_row no_match
matching-some r receipt tx e h =
    let test = collides receipt.operation.operation_id r.pointer in
    ground (arith, scan_rows-some r (select test tx.own) e, IsIn-select (row_of r) test tx.own)

pub matching-state :
    (r : InstanceRecord) (receipt : OwnershipReceipt) (tx : Transaction)
    → (matching_registered_row r receipt tx).1 ≡ tx
unfolding matching_registered_row
matching-state r receipt tx = refl

module _ (concurrent : Table → Table) where
  after_insert-ok :
      (r : InstanceRecord) (receipt : OwnershipReceipt) (tx : Transaction) (e : InstanceRecord)
      → (after_insert concurrent r receipt none tx).0 ≡ ok e
      → (e ≡ r) × IsIn (row_of r) tx.own
  unfolding after_insert
  after_insert-ok r receipt tx e h = ground (arith, matching-some r receipt tx e)

  pub after_insert-state :
      (r : InstanceRecord) (receipt : OwnershipReceipt) (tx : Transaction) (row : Option Row)
      → (after_insert concurrent r receipt row tx).1 ≡ tx
  unfolding after_insert matching_registered_row
  after_insert-state r receipt tx none = ground arith
  after_insert-state r receipt tx (some row) = refl

  unless_found-ok :
      (r : InstanceRecord) (receipt : OwnershipReceipt) (tx : Transaction) (e : InstanceRecord)
      → r.receipt ≡ some receipt
      → (unless_found concurrent r receipt none tx).0 ≡ ok e
      → (e ≡ r) × IsIn (row_of r) (unless_found concurrent r receipt none tx).1.own
  unfolding unless_found insert_row
  unless_found-ok r receipt tx e has h =
      let row : Row = record {
        pointer = r.pointer;
        resource = r.resource;
        receipt = some receipt;
      } in
      let others : Transaction = record {
        own = concurrent tx.own;
        committed = concurrent tx.committed;
      } in
      ground (
        arith,
        after_insert-ok r receipt others e,
        after_insert-state r receipt others none,
        IsIn-append_right (row_of r) others.own (row ∷ []),
      )

  register_rows-ok :
      (r : InstanceRecord) (receipt : OwnershipReceipt) (tx : Transaction) (e : InstanceRecord)
      → r.receipt ≡ some receipt
      → (register_rows concurrent r receipt tx).0 ≡ ok e
      → (e ≡ r) × IsIn (row_of r) (register_rows concurrent r receipt tx).1.own
  unfolding register_rows
  register_rows-ok r receipt tx e has h = ground (
    arith,
    matching-some r receipt tx e,
    matching-state r receipt tx,
    unless_found-ok r receipt tx e,
  )

  register_with-ok :
      (commits : Bool) (o : Option OwnershipReceipt) (r : InstanceRecord) (t : Table)
      (e : InstanceRecord)
      → r.receipt ≡ o
      → (register_with concurrent commits o r t).0 ≡ ok e
      → (e ≡ r) × IsIn (row_of r) (register_with concurrent commits o r t).1
  unfolding register_with transaction
  register_with-ok commits none r t e has h = absurd (cc h)
  register_with-ok commits (some receipt) r t e has h =
      ground (arith, register_rows-ok r receipt (record { own = t; committed = t }) e)

  -- A registration that returns has returned the record that was submitted, and the table holds it
  -- with its receipt, whatever other writers commit in between.
  pub register-ok :
      (commits : Bool) (r : InstanceRecord) (t : Table) (e : InstanceRecord)
      → (register concurrent commits r t).0 ≡ ok e
      → (e ≡ r) × IsIn (row_of r) (register concurrent commits r t).1
  unfolding register
  register-ok commits r t e h = register_with-ok commits r.receipt r t e refl h

  pub register_rows-committed :
      (r : InstanceRecord) (receipt : OwnershipReceipt) (tx : Transaction)
      → ((register_rows concurrent r receipt tx).1.committed ≡ tx.committed)
        ⊎ ((register_rows concurrent r receipt tx).1.committed ≡ concurrent tx.committed)
  unfolding register_rows unless_found insert_row
  register_rows-committed r receipt tx =
      let others : Transaction = record {
        own = concurrent tx.own;
        committed = concurrent tx.committed;
      } in
      let row : Row = record {
        pointer = r.pointer;
        resource = r.resource;
        receipt = some receipt;
      } in
      let inserted : Transaction = record {
        own = others.own ++ row ∷ [];
        committed = others.committed;
      } in
      ground (
        arith,
        matching-state r receipt tx,
        after_insert-state r receipt others none,
        after_insert-state r receipt inserted (some row),
      )

  register_with-err :
      (commits : Bool) (o : Option OwnershipReceipt) (r : InstanceRecord) (t : Table)
      (e : RegistryError)
      → (register_with concurrent commits o r t).0 ≡ err e
      → ((register_with concurrent commits o r t).1 ≡ t)
        ⊎ ((register_with concurrent commits o r t).1 ≡ concurrent t)
  unfolding register_with transaction
  register_with-err commits none r t e h = inl refl
  register_with-err commits (some receipt) r t e h =
      ground (arith, register_rows-committed r receipt (record { own = t; committed = t }))

  -- A registration that raises leaves the table as it was, or as the other writers left it: nothing
  -- of its own stays.
  pub register-err :
      (commits : Bool) (r : InstanceRecord) (t : Table) (e : RegistryError)
      → (register concurrent commits r t).0 ≡ err e
      → ((register concurrent commits r t).1 ≡ t)
        ⊎ ((register concurrent commits r t).1 ≡ concurrent t)
  unfolding register
  register-err commits r t e h = register_with-err commits r.receipt r t e h

-- `get` reads the base columns alone: whatever it returns has no receipt.
pub get-no_receipt :
    (commits : Bool) (p : InstancePointer) (t : Table) (e : InstanceRecord)
    → (get commits p t).0 ≡ ok e
    → e.receipt ≡ none
unfolding get transaction get_rows first_row record_from_row
get-no_receipt commits p t e h = ground arith

-- A pointer that has a row is read back, without a receipt.
pub get-found :
    (p : InstancePointer) (t : Table)
    → Any (λ row. row.pointer ≡ p) t
    → (e : InstanceRecord) × (get true p t ≡ (ok e, t)) × (e.receipt ≡ none)
unfolding get transaction get_rows first_row record_from_row
get-found p t there =
    let (row, at) =
      find-some (λ (row : Row). row.pointer == p) t
        (Any-map (λ row e. (==_iff row.pointer p).1 e) t there) in
    (record_from_row row, rw at, refl)

legacy-err :
    (concurrent : Table → Table) (commits : Bool) (r : InstanceRecord) (receipt : OwnershipReceipt)
    (row : Row) (t : Table)
    → row.pointer ≡ r.pointer
    → row.receipt ≡ none
    → register_with concurrent commits (some receipt) r (row ∷ t) ≡ (err invalid_row, row ∷ t)
unfolding register_with transaction register_rows matching_registered_row scan_rows select collides
legacy-err concurrent commits r receipt row t at h = ground arith

-- A registration of a pointer whose row comes first and has no receipt ends in the error of an
-- invalid row, not in a conflict, and the table stays.
pub register-legacy_row :
    (concurrent : Table → Table) (commits : Bool) (r : InstanceRecord) (receipt : OwnershipReceipt)
    (row : Row) (t : Table)
    → r.receipt ≡ some receipt
    → row.pointer ≡ r.pointer
    → row.receipt ≡ none
    → register concurrent commits r (row ∷ t) ≡ (err invalid_row, row ∷ t)
unfolding register
register-legacy_row concurrent commits r receipt row t has at h =
    ground (arith, legacy-err concurrent commits r receipt row t at h)
