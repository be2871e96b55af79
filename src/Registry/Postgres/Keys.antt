-- ===== src/Registry/Postgres/Keys.antt =====
-- The keys of migrations/0001_instance_registry.sql, which the statements of
-- odoo_forge_instances_postgres/adapter.py keep.
use odoo_forge.Base.{
  Bool, false, [], ◌∷◌, ◌++◌, Option, none, some, Result, ok, err, ◌≡◌, ◌≢◌, refl, sym, subst,
  arith, ◌==◌, inl, inr, Bool-cases,
}
use odoo_forge.Base.Lists.{All, any, any-none}
use odoo_forge.Values.{InstanceRecord, OwnershipReceipt, pointer_eq, record_eq}
use odoo_forge.Registry.Port.{RegistryError}
use odoo_forge.Registry.Postgres.{
  Row, Table, collides, upsert, Transaction, transaction, matching_registered_row, insert_row,
  unless_found, register_rows, register_with, register, store, store_rows,
}
use odoo_forge.Registry.Postgres.Laws.{matching-state, after_insert-state, register_rows-committed}

-- Two rows that no unique key joins.
abbrev pub Apart : Row → Row → Type 0
Apart x y =
    (x.pointer ≢ y.pointer)
    × ((a b : OwnershipReceipt)
        → x.receipt ≡ some a
        → y.receipt ≡ some b
        → a.operation.operation_id ≢ b.operation.operation_id)

-- No two rows share a key.
abbrev pub IsKeyed : Table → Type 0
IsKeyed [] = Unit
IsKeyed (x ∷ t) = All (Apart x) t × IsKeyed t

collides-Apart :
    (x y : Row) (receipt : OwnershipReceipt)
    → y.receipt ≡ some receipt
    → collides receipt.operation.operation_id y.pointer x ≡ false
    → Apart x y
unfolding collides
collides-Apart x y receipt h k = (λ e. ground arith, λ a b e f g. ground arith)

All-Apart-append :
    (x y : Row) (t : Table) → All (Apart x) t → Apart x y → All (Apart x) (t ++ y ∷ [])
All-Apart-append x y [] h k = (k, tt)
All-Apart-append x y (z ∷ t) h k = (h.0, All-Apart-append x y t h.1 k)

append-IsKeyed :
    (y : Row) (receipt : OwnershipReceipt) (t : Table)
    → y.receipt ≡ some receipt
    → All (λ x. collides receipt.operation.operation_id y.pointer x ≡ false) t
    → IsKeyed t
    → IsKeyed (t ++ y ∷ [])
append-IsKeyed y receipt [] h free k = (tt, tt)
append-IsKeyed y receipt (x ∷ t) h free k = (
  All-Apart-append x y t k.0 (collides-Apart x y receipt h free.0),
  append-IsKeyed y receipt t h free.1 k.1,
)

All-Apart-upsert :
    (x : Row) (r : InstanceRecord) (t : Table)
    → All (Apart x) t
    → x.pointer ≢ r.pointer
    → All (Apart x) (upsert r t)
unfolding upsert
All-Apart-upsert x r [] h k = ((k, λ a b e f. absurd (cc f)), tt)
All-Apart-upsert x r (y ∷ t) h k = elim (Bool-cases (y.pointer == r.pointer)) [
  | inl e ↦ rw e h
  | inr e ↦ rw e (h.0, All-Apart-upsert x r t h.1 k)
]

upsert-IsKeyed : (r : InstanceRecord) (t : Table) → IsKeyed t → IsKeyed (upsert r t)
unfolding upsert
upsert-IsKeyed r [] k = (tt, tt)
upsert-IsKeyed r (x ∷ t) k = elim (Bool-cases (x.pointer == r.pointer)) [
  | inl e ↦ rw e k
  | inr e ↦ rw e (All-Apart-upsert x r t k.0 (λ same. ground arith), upsert-IsKeyed r t k.1)
]

-- In a table where no two rows share a pointer or an operation, none do after `store`, whether it
-- returns or not.
pub store-IsKeyed :
    (commits : Bool) (r : InstanceRecord) (t : Table) → IsKeyed t → IsKeyed (store commits r t).1
unfolding store transaction store_rows
store-IsKeyed commits r t k = ground (arith, upsert-IsKeyed r t k)

abbrev opened : Table → Transaction
opened t = record { own = t; committed = t }

module _ (concurrent : Table → Table) where
  abbrev others : Transaction → Transaction
  others tx = record { own = concurrent tx.own; committed = concurrent tx.committed }

  insert-IsKeyed :
      (r : InstanceRecord) (receipt : OwnershipReceipt) (tx : Transaction)
      → IsKeyed tx.own
      → IsKeyed (insert_row r receipt tx).1.own
  unfolding insert_row
  insert-IsKeyed r receipt tx k =
      let row : Row = record {
        pointer = r.pointer;
        resource = r.resource;
        receipt = some receipt;
      } in
      let test = collides receipt.operation.operation_id r.pointer in
      elim (Bool-cases (any test tx.own)) [
        | inl e ↦ rw e k
        | inr e ↦ rw e (append-IsKeyed row receipt tx.own refl (any-none test tx.own e) k)
      ]

  unless_found-IsKeyed :
      (r : InstanceRecord) (receipt : OwnershipReceipt) (o : Option InstanceRecord)
      (tx : Transaction)
      → IsKeyed tx.own
      → IsKeyed (concurrent tx.own)
      → IsKeyed (unless_found concurrent r receipt o tx).1.own
  unfolding unless_found
  unless_found-IsKeyed r receipt (some e) tx k c = k
  unless_found-IsKeyed r receipt none tx k c =
      subst (λ (u : Transaction). IsKeyed u.own)
        (sym (go (insert_row r receipt (others tx)).0 refl))
        (insert-IsKeyed r receipt (others tx) c)
    where
      go :
          (o : Result RegistryError (Option Row))
          → (insert_row r receipt (others tx)).0 ≡ o
          → (unless_found concurrent r receipt none tx).1 ≡ (insert_row r receipt (others tx)).1
      go (err e) h = rw h refl
      go (ok row) h =
          rw h (after_insert-state concurrent r receipt (insert_row r receipt (others tx)).1 row)

  register_rows-IsKeyed :
      (r : InstanceRecord) (receipt : OwnershipReceipt) (t : Table)
      → IsKeyed t
      → IsKeyed (concurrent t)
      → IsKeyed (register_rows concurrent r receipt (opened t)).1.own
  unfolding register_rows
  register_rows-IsKeyed r receipt t k c = go (matching_registered_row r receipt (opened t)).0 refl
    where
      go :
          (o : Result RegistryError (Option InstanceRecord))
          → (matching_registered_row r receipt (opened t)).0 ≡ o
          → IsKeyed (register_rows concurrent r receipt (opened t)).1.own
      go (err e) h = rw (h, matching-state r receipt (opened t)) k
      go (ok found) h =
          rw (h, matching-state r receipt (opened t))
            (unless_found-IsKeyed r receipt found (opened t) k c)

  register_with-IsKeyed :
      (commits : Bool) (o : Option OwnershipReceipt) (r : InstanceRecord) (t : Table)
      → IsKeyed t
      → IsKeyed (concurrent t)
      → IsKeyed (register_with concurrent commits o r t).1
  unfolding register_with transaction
  register_with-IsKeyed commits none r t k c = k
  register_with-IsKeyed commits (some receipt) r t k c = ground (
    arith,
    register_rows-IsKeyed r receipt t k c,
    register_rows-committed concurrent r receipt (record { own = t; committed = t }),
  )

  -- In a table where no two rows share a pointer or an operation, also not after what the other
  -- writers commit, none do after `register`, whether it returns or not.
  pub register-IsKeyed :
      (commits : Bool) (r : InstanceRecord) (t : Table)
      → IsKeyed t
      → IsKeyed (concurrent t)
      → IsKeyed (register concurrent commits r t).1
  unfolding register
  register-IsKeyed commits r t k c = register_with-IsKeyed commits r.receipt r t k c
