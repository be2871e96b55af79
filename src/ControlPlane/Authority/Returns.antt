-- ===== src/ControlPlane/Authority/Returns.antt =====
-- What a valid registration comes to, over any registry (odoo_forge/control_plane/authority.py).
use odoo_forge.Base.{
  true, ◌≡◌, refl, sym, ap, ◌∙◌, arith, ◌∷◌, none, Result, ok, err, ◌⊎◌, inl, inr, if◌then◌else◌,
  Bool-cases,
}
use odoo_forge.Base.Effects.{Exec, Session, perform}
use odoo_forge.Values.{InstanceRecord, OwnershipReceipt, pointer_eq}
use odoo_forge.Registry.Port.{RegistryError, not_found, conflict, InstanceRegistry}
use odoo_forge.ControlPlane.Custody.{CustodyRequest, CustodyError, Digest}
use odoo_forge.ControlPlane.Authority.{
  RegistrationRequest, AuthorityError, registry_error, Call, get, confirm, World, on_custody,
  on_registry, validated, commit, unless_existing, register_instance, is_match,
}

module _ {R K : Type 0} (registry : InstanceRegistry R)
    (confirm_custody : CustodyRequest → Exec K CustodyError OwnershipReceipt) where
  -- What a valid registration makes of a record that the registry returns.
  pub register_instance-existing :
      (digest : Digest) (request : RegistrationRequest) (custody : CustodyRequest)
      (e : InstanceRecord) (s : Session (World R K) Call)
      → validated digest request ≡ ok custody
      → registry.get request.pointer s.world.registry ≡ (ok e, s.world.registry)
      → register_instance registry confirm_custody digest request s ≡ (
        if is_match e request then ok e else err (registry_error (conflict request.pointer)),
        record s { calls = get request.pointer ∷ s.calls },
      )
  unfolding register_instance
  register_instance-existing digest request custody e s valid read =
      rw (valid, read)
        (elim (Bool-cases (is_match e request)) [
          | inl same ↦ rw same refl
          | inr other ↦ rw other refl
        ])

  unless_existing-committed :
      (request : RegistrationRequest) (custody : CustodyRequest) (e : InstanceRecord)
      (s : Session (World R K) Call)
      → (unless_existing registry confirm_custody request custody none s).0 ≡ ok e
      → (receipt : OwnershipReceipt) × (confirmed : Session (World R K) Call) × ((confirm_custody
            custody s.world.custody).0
          ≡ ok receipt)
        × (confirmed.world.registry ≡ s.world.registry)
        × (unless_existing registry confirm_custody request custody none s
            ≡ commit registry confirm_custody request receipt confirmed)
  unfolding unless_existing
  unless_existing-committed request custody e s =
      go ((confirm_custody custody s.world.custody).0) refl
    where
      go :
          (r : Result CustodyError OwnershipReceipt)
          → (confirm_custody custody s.world.custody).0 ≡ r
          → (unless_existing registry confirm_custody request custody none s).0 ≡ ok e
          → (receipt : OwnershipReceipt) × (confirmed : Session (World R K) Call)
            × ((confirm_custody custody s.world.custody).0 ≡ ok receipt)
            × (confirmed.world.registry ≡ s.world.registry)
            × (unless_existing registry confirm_custody request custody none s
                ≡ commit registry confirm_custody request receipt confirmed)
      go (err c) h k = absurd (ground arith)
      go (ok receipt) h k = (
        receipt,
        (perform {E = AuthorityError} (confirm custody) (on_custody (confirm_custody custody)) s).1,
        h,
        refl,
        rw h,
      )

  -- A registration that returns has found a record that matches, or ends in a commit.
  pub register_instance-ok :
      (digest : Digest) (request : RegistrationRequest) (custody : CustodyRequest)
      (e : InstanceRecord) (s : Session (World R K) Call)
      → validated digest request ≡ ok custody
      → (register_instance registry confirm_custody digest request s).0 ≡ ok e
      → ((found : InstanceRecord) × ((registry.get request.pointer s.world.registry).0 ≡ ok found)
          × (is_match found request ≡ true))
        ⊎ ((receipt : OwnershipReceipt) × (confirmed : Session (World R K) Call) × ((confirm_custody
                custody s.world.custody).0
              ≡ ok receipt)
            × (confirmed.world.registry ≡ (registry.get request.pointer s.world.registry).1)
            × (register_instance registry confirm_custody digest request s
                ≡ commit registry confirm_custody request receipt confirmed))
  unfolding register_instance
  register_instance-ok digest request custody e s valid =
      go ((registry.get request.pointer s.world.registry).0) refl
    where
      go :
          (r : Result RegistryError InstanceRecord)
          → (registry.get request.pointer s.world.registry).0 ≡ r
          → (register_instance registry confirm_custody digest request s).0 ≡ ok e
          → ((found : InstanceRecord) × ((registry.get request.pointer s.world.registry).0
                ≡ ok found)
              × (is_match found request ≡ true))
            ⊎ ((receipt : OwnershipReceipt) × (confirmed : Session (World R K) Call)
                × ((confirm_custody custody s.world.custody).0 ≡ ok receipt)
                × (confirmed.world.registry ≡ (registry.get request.pointer s.world.registry).1)
                × (register_instance registry confirm_custody digest request s
                    ≡ commit registry confirm_custody request receipt confirmed))
      go (ok found) h k = inl (found, h, ground arith)
      go (err (not_found p)) h k =
          let asked : Session (World R K) Call =
            (perform {E = AuthorityError} (get request.pointer)
              (on_registry (registry.get request.pointer)) s).1 in
          let rest : register_instance registry confirm_custody digest request s
              ≡ unless_existing registry confirm_custody request custody none asked =
            rw (valid, h) in
          let (receipt, confirmed, held, kept, same) =
            unless_existing-committed request custody e asked (sym (ap (λ t. t.0) rest) ∙ k) in
          inr (receipt, confirmed, held, kept, rest ∙ same)
      go (err e') h k = absurd (ground arith)
