-- ===== src/ControlPlane/Authority/OverPostgres.antt =====
-- Registering again over the registry on PostgreSQL, which production composes
-- (odoo_forge/control_plane/authority.py, odoo_forge_server/composition.py).
use odoo_forge.Base.{String, Bool, true, false, ◌≡◌, refl, ap, arith, none, some, ok, err, inl, inr}
use odoo_forge.Base.Effects.{Exec, Session}
use odoo_forge.Base.Lists.{Any, Any-map}
use odoo_forge.Values.{InstanceRecord, OwnershipReceipt, pointer_eq}
use odoo_forge.Registry.Port.{conflict}
use odoo_forge.Registry.Postgres.{Row, Table, postgres_registry}
use odoo_forge.Registry.Postgres.Laws.{register-ok, get-no_receipt, get-found}
use odoo_forge.ControlPlane.Custody.{CustodyRequest, CustodyError, Digest}
use odoo_forge.ControlPlane.Authority.{
  RegistrationRequest, registry_error, Call, World, Authority, validated, submit, commit,
  register_instance, is_match,
}
use odoo_forge.ControlPlane.Authority.Returns.{register_instance-existing, register_instance-ok}

no_receipt-is_match :
    (e : InstanceRecord) (request : RegistrationRequest)
    → e.receipt ≡ none
    → is_match e request ≡ false
unfolding is_match
no_receipt-is_match e request h = ground arith

module _ {K : Type 0} (collation : String → String → Bool)
    (confirm_custody : CustodyRequest → Exec K CustodyError OwnershipReceipt) where
  abbrev authority : Digest → RegistrationRequest → Authority Table K InstanceRecord
  authority = register_instance (postgres_registry collation) confirm_custody

  -- On PostgreSQL a valid registration of a pointer that has a row is refused as a conflict, whatever
  -- the row holds: also the row that the same request registered. Neither the table nor custody
  -- changes.
  pub register_instance-conflict :
      (digest : Digest) (request : RegistrationRequest) (custody : CustodyRequest)
      (s : Session (World Table K) Call)
      → validated digest request ≡ ok custody
      → Any (λ row. row.pointer ≡ request.pointer) s.world.registry
      → ((authority digest request s).0 ≡ err (registry_error (conflict request.pointer)))
        × ((authority digest request s).1.world ≡ s.world)
  unfolding postgres_registry
  register_instance-conflict digest request custody s valid there =
      let (e, read, none_kept) = get-found request.pointer s.world.registry there in
      let result =
        register_instance-existing (postgres_registry collation) confirm_custody digest request
          custody e s valid read in
      let missed = no_receipt-is_match e request none_kept in rw (result, missed) (refl, refl)

  -- The row that a submission leaves.
  submit-there :
      (r e : InstanceRecord) (s : Session (World Table K) Call)
      → (submit (postgres_registry collation) confirm_custody r s).0 ≡ ok e
      → (e ≡ r)
        × Any
            (λ row. row.pointer ≡ r.pointer)
            (submit (postgres_registry collation) confirm_custody r s).1.world.registry
  unfolding submit postgres_registry
  submit-there r e s h =
      let (same, there) = register-ok (λ t. t) true r s.world.registry e (ground arith) in
      (same, Any-map (λ row at. ap (λ (x : Row). x.pointer) at) _ there)

  commit-there :
      (request : RegistrationRequest) (receipt : OwnershipReceipt) (e : InstanceRecord)
      (s : Session (World Table K) Call)
      → (commit (postgres_registry collation) confirm_custody request receipt s).0 ≡ ok e
      → Any
          (λ row. row.pointer ≡ request.pointer)
          (commit (postgres_registry collation) confirm_custody request receipt s).1.world.registry
  unfolding commit
  commit-there request receipt e s h =
      let r : InstanceRecord = record {
        pointer = request.pointer;
        resource = request.resource;
        receipt = some receipt;
      } in
      let reg = postgres_registry collation in
      ground (arith, submit-there r e s, submit-there r e (submit reg confirm_custody r s).1)

  register_instance-there :
      (digest : Digest) (request : RegistrationRequest) (custody : CustodyRequest)
      (e : InstanceRecord) (s : Session (World Table K) Call)
      → validated digest request ≡ ok custody
      → (authority digest request s).0 ≡ ok e
      → Any (λ row. row.pointer ≡ request.pointer) (authority digest request s).1.world.registry
  unfolding postgres_registry
  register_instance-there digest request custody e s valid h =
      elim (register_instance-ok (postgres_registry collation) confirm_custody digest request
        custody e s valid h) [
          | inl (found, read, match) ↦ absurd (
              cc (
                match,
                no_receipt-is_match found request
                    (get-no_receipt true request.pointer s.world.registry found read),
              ))
          | inr (receipt, confirmed, held, kept, same) ↦
              rw same (commit-there request receipt e confirmed (rw same at h))
        ]

  -- On PostgreSQL the retry of a registration that has just succeeded is refused as a conflict: the
  -- registry reads no receipt back, so the stored row never matches its own request.
  pub register_instance-retry_conflict :
      (digest : Digest) (request : RegistrationRequest) (custody : CustodyRequest)
      (e : InstanceRecord) (s : Session (World Table K) Call)
      → validated digest request ≡ ok custody
      → (authority digest request s).0 ≡ ok e
      → (authority digest request (authority digest request s).1).0
        ≡ err (registry_error (conflict request.pointer))
  register_instance-retry_conflict digest request custody e s valid h =
      (register_instance-conflict digest request custody (authority digest request s).1 valid
        (register_instance-there digest request custody e s valid h)).0
