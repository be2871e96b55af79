-- ===== src/ControlPlane/Authority/InMemory.antt =====
-- Registering again over the registry in memory (odoo_forge/control_plane/authority.py,
-- odoo_forge_instances_postgres/fakes.py).
use odoo_forge.Base.{true, ◌≡◌, refl, sym, ap, ◌∙◌, subst, arith, [], ◌∷◌, ok, inl, inr}
use odoo_forge.Base.Effects.{Exec, Session}
use odoo_forge.Values.{InstancePointer, InstanceRecord, OwnershipReceipt, pointer_eq}
use odoo_forge.Registry.Memory.{Memory, memory_registry, get as get_kept}
use odoo_forge.Registry.Memory.Laws.{IsConsistent, get-register, register-IsConsistent}
use odoo_forge.ControlPlane.Authority.Calls.{row}
use odoo_forge.ControlPlane.Custody.{
  CustodyRequest, CustodyError, Digest, custody_request, meaning_of,
}
use odoo_forge.ControlPlane.Authority.{
  get, RegistrationRequest, Call, World, Authority, validated, request_of, submit, commit,
  register_instance, is_match,
}
use odoo_forge.ControlPlane.Authority.Returns.{register_instance-existing, register_instance-ok}

module _ {K : Type 0}
    (confirm_custody : CustodyRequest → Exec K CustodyError OwnershipReceipt) where
  abbrev in_memory : Digest → RegistrationRequest → Authority Memory K InstanceRecord
  in_memory = register_instance memory_registry confirm_custody

  -- Custody receipts the request that it was given, as the adapters of the port document.
  abbrev pub IsFaithful : Type 0
  IsFaithful =
      (c : CustodyRequest) (w : K) (receipt : OwnershipReceipt)
      → (confirm_custody c w).0 ≡ ok receipt
      → (receipt.operation ≡ c.operation) × (receipt.owned_resource_ids ≡ c.resource_id ∷ [])

  -- A submission that returns, and a commit, leave the record that they return.
  submit-kept :
      (r e : InstanceRecord) (s : Session (World Memory K) Call)
      → IsConsistent s.world.registry
      → (submit memory_registry confirm_custody r s).0 ≡ ok e
      → (e ≡ r)
        × ((get_kept r.pointer (submit memory_registry confirm_custody r s).1.world.registry).0
            ≡ ok r)
  unfolding submit memory_registry
  submit-kept r e s c h = ground (arith, get-register r e s.world.registry c)

  submit-IsConsistent :
      (r : InstanceRecord) (s : Session (World Memory K) Call)
      → IsConsistent s.world.registry
      → IsConsistent (submit memory_registry confirm_custody r s).1.world.registry
  unfolding submit memory_registry
  submit-IsConsistent r s c = register-IsConsistent r c

  commit-kept :
      (request : RegistrationRequest) (receipt : OwnershipReceipt) (e : InstanceRecord)
      (s : Session (World Memory K) Call)
      → IsConsistent s.world.registry
      → (commit memory_registry confirm_custody request receipt s).0 ≡ ok e
      → (e ≡ row memory_registry confirm_custody request receipt)
        × ((get_kept request.pointer
              (commit memory_registry confirm_custody request receipt s).1.world.registry).0
            ≡ ok e)
  unfolding commit
  commit-kept request receipt e s c h =
      let r = row memory_registry confirm_custody request receipt in
      let after : Session (World Memory K) Call = (submit memory_registry confirm_custody r s).1 in
      ground (arith, submit-kept r e s c, submit-kept r e after (submit-IsConsistent r s c))

  receipted-is_match :
      (request : RegistrationRequest) (receipt : OwnershipReceipt)
      → receipt.operation ≡ request.operation
      → receipt.owned_resource_ids ≡ request.resource_id ∷ []
      → is_match (row memory_registry confirm_custody request receipt) request ≡ true
  unfolding is_match
  receipted-is_match request receipt h k = ground arith

  validated-meaning :
      (digest : Digest) (request : RegistrationRequest) (custody : CustodyRequest)
      → validated digest request ≡ ok custody
      → (custody.operation ≡ request.operation) × (custody.resource_id ≡ request.resource_id)
  unfolding validated custody_request meaning_of request_of
  validated-meaning digest request custody h = ground arith

  -- After a registration in memory that returns, the registry holds a record that the request matches.
  get-reads :
      (p : InstancePointer) (e : InstanceRecord) (m : Memory)
      → (get_kept p m).0 ≡ ok e
      → get_kept p m ≡ (ok e, m)
  unfolding get_kept
  get-reads p e m h = ground arith

  get-keeps : (p : InstancePointer) (m : Memory) → m ≡ (get_kept p m).1
  unfolding get_kept
  get-keeps p m = ground arith

  get-IsConsistent :
      (p : InstancePointer) {m : Memory} → IsConsistent m → IsConsistent (get_kept p m).1
  unfolding get_kept
  get-IsConsistent p {m} c = subst IsConsistent (get-keeps p m) c

  register_instance-kept :
      (digest : Digest) (request : RegistrationRequest) (custody : CustodyRequest)
      (e : InstanceRecord) (s : Session (World Memory K) Call)
      → validated digest request ≡ ok custody
      → IsFaithful
      → IsConsistent s.world.registry
      → (in_memory digest request s).0 ≡ ok e
      → ((get_kept request.pointer (in_memory digest request s).1.world.registry).0 ≡ ok e)
        × (is_match e request ≡ true)
  unfolding memory_registry
  register_instance-kept digest request custody e s valid faithful c h =
      elim (register_instance-ok memory_registry confirm_custody digest request custody e s valid
        h) [
          | inl (found, read, match) ↦
              let result =
                register_instance-existing memory_registry confirm_custody digest request custody
                  found s valid (get-reads request.pointer found s.world.registry read) in
              let same : e ≡ found = cc (h, ap (λ t. t.0) result, match) in
              ground (arith, read, match, same, result)
          | inr (receipt, confirmed, held, kept, same) ↦
              let consistent : IsConsistent confirmed.world.registry =
                subst IsConsistent (sym kept) (get-IsConsistent request.pointer c) in
              let (is_row, left) =
                commit-kept request receipt e confirmed consistent (sym (ap (λ t. t.0) same) ∙ h) in
              let (operation, owned) = faithful custody s.world.custody receipt held in
              let (as_asked, id_asked) = validated-meaning digest request custody valid in
              let match =
                receipted-is_match request receipt (operation ∙ as_asked)
                  (owned ∙ ap (λ i. i ∷ []) id_asked) in
              (rw same left, rw is_row match)
        ]

  -- In memory, with dictionaries that are consistent and a custody that receipts what it is asked, the
  -- retry of a valid registration that has returned returns the same record, changes neither the
  -- registry nor custody, and makes one call, which reads the registry.
  pub register_instance-retry_memory :
      (digest : Digest) (request : RegistrationRequest) (custody : CustodyRequest)
      (e : InstanceRecord) (s : Session (World Memory K) Call)
      → validated digest request ≡ ok custody
      → IsFaithful
      → IsConsistent s.world.registry
      → (in_memory digest request s).0 ≡ ok e
      → in_memory digest request (in_memory digest request s).1 ≡ (
        ok e,
        record (in_memory digest request s).1 {
          calls = get request.pointer ∷ (in_memory digest request s).1.calls;
        },
      )
  unfolding memory_registry
  register_instance-retry_memory digest request custody e s valid faithful consistent h =
      let (kept, match) =
        register_instance-kept digest request custody e s valid faithful consistent h in
      let after = (in_memory digest request s).1 in
      let again =
        register_instance-existing memory_registry confirm_custody digest request custody e after
          valid (get-reads request.pointer e after.world.registry kept) in
      again ∙ rw match refl
