-- ===== src/ControlPlane/Authority/Calls.antt =====
-- Which calls one registration makes, and in which order (odoo_forge/control_plane/authority.py).
use odoo_forge.ControlPlane.Authority.Valid.{IsValid, validated-cases}
use odoo_forge.Base.{
  ◌≡◌, ◌≢◌, refl, arith, List, ◌∷◌, none, some, Result, ok, err, inl, inr, string_eq,
}
use odoo_forge.Base.Effects.{Exec, Session, perform}
use odoo_forge.Values.{InstancePointer, InstanceRecord, OwnershipReceipt, ownership_eq}
use odoo_forge.Registry.Port.{RegistryError, not_found, conflict, InstanceRegistry}
use odoo_forge.ControlPlane.Custody.{CustodyRequest, CustodyError, Digest}
use odoo_forge.ControlPlane.Authority.{
  RegistrationRequest, request_of, AuthorityError, Call, get, confirm, register, World, on_custody,
  on_registry, validated, submit, commit, unless_existing, register_instance,
}

module _ {R K : Type 0} (registry : InstanceRegistry R)
    (confirm_custody : CustodyRequest → Exec K CustodyError OwnershipReceipt) where
  abbrev pub row : RegistrationRequest → OwnershipReceipt → InstanceRecord
  row request receipt = record {
    pointer = request.pointer;
    resource = request.resource;
    receipt = some receipt;
  }

  -- The calls of one submission of a row to a registry: one, where it is stored or refused as a conflict;
  -- two, where the first answer was an error that is no conflict.
  pub data Submitted (row : InstanceRecord) (kept : R) (before after : List Call) : Type 0 where
    stored_once :
        (stored : InstanceRecord)
        → (registry.register row kept).0 ≡ ok stored
        → after ≡ register row ∷ before
        → Submitted row kept before after
    refused_once :
        (p : InstancePointer)
        → (registry.register row kept).0 ≡ err (conflict p)
        → after ≡ register row ∷ before
        → Submitted row kept before after
    twice :
        (e : RegistryError)
        → (registry.register row kept).0 ≡ err e
        → ((p : InstancePointer) → e ≢ conflict p)
        → after ≡ register row ∷ register row ∷ before
        → Submitted row kept before after

  -- What the registry keeps once it was read.
  abbrev pub once_read : RegistrationRequest → Session (World R K) Call → R
  once_read request s = (registry.get request.pointer s.world.registry).1

  -- The calls of one registration, the latest first.
  pub data Permitted (digest : Digest) (request : RegistrationRequest)
      (s : Session (World R K) Call) (after : List Call) : Type 0 where
    -- a request that is not valid makes no call
    invalid : ¬ IsValid digest request → after ≡ s.calls → Permitted digest request s after
    -- a pointer that is registered, or that cannot be read, never reaches custody
    settled :
        IsValid digest request
        → ((p : InstancePointer)
            → (registry.get request.pointer s.world.registry).0 ≢ err (not_found p))
        → after ≡ get request.pointer ∷ s.calls
        → Permitted digest request s after
    -- custody is asked once, and refuses
    refused :
        (p : InstancePointer) (e : CustodyError)
        → IsValid digest request
        → (registry.get request.pointer s.world.registry).0 ≡ err (not_found p)
        → (confirm_custody (request_of request) s.world.custody).0 ≡ err e
        → after ≡ confirm (request_of request) ∷ get request.pointer ∷ s.calls
        → Permitted digest request s after
    -- custody is asked once, and what it receipts is submitted
    granted :
        (p : InstancePointer) (receipt : OwnershipReceipt)
        → IsValid digest request
        → (registry.get request.pointer s.world.registry).0 ≡ err (not_found p)
        → (confirm_custody (request_of request) s.world.custody).0 ≡ ok receipt
        → Submitted
            (row request receipt)
            (once_read request s)
            (confirm (request_of request) ∷ get request.pointer ∷ s.calls)
            after
        → Permitted digest request s after

  commit-Submitted :
      (request : RegistrationRequest) (receipt : OwnershipReceipt) (s : Session (World R K) Call)
      → Submitted
          (row request receipt)
          s.world.registry
          s.calls
          (commit registry confirm_custody request receipt s).1.calls
  unfolding commit submit
  commit-Submitted request receipt s =
      go ((registry.register (row request receipt) s.world.registry).0) refl
    where
      go :
          (r : Result RegistryError InstanceRecord)
          → (registry.register (row request receipt) s.world.registry).0 ≡ r
          → Submitted
              (row request receipt)
              s.world.registry
              s.calls
              (commit registry confirm_custody request receipt s).1.calls
      go (ok stored) h = stored_once stored h (ground arith)
      go (err (conflict p)) h = refused_once p h (ground arith)
      go (err e) h = twice e h (λ p c. cc) (ground arith)

  -- From a pointer that the registry does not know.
  module _ (digest : Digest) (request : RegistrationRequest) (valid : IsValid digest request)
      (s asked : Session (World R K) Call) (p : InstancePointer)
      (absent : (registry.get request.pointer s.world.registry).0 ≡ err (not_found p))
      (called : asked.calls ≡ get request.pointer ∷ s.calls)
      (same : asked.world.custody ≡ s.world.custody)
      (read : asked.world.registry ≡ once_read request s) where
    unless_existing-Permitted :
        Permitted digest request s
          (unless_existing registry confirm_custody request (request_of request) none asked).1.calls
    unfolding unless_existing
    unless_existing-Permitted =
        go ((confirm_custody (request_of request) asked.world.custody).0) refl
      where
        go :
            (r : Result CustodyError OwnershipReceipt)
            → (confirm_custody (request_of request) asked.world.custody).0 ≡ r
            → Permitted digest request s
                (unless_existing registry confirm_custody request
                  (request_of request)
                  none
                  asked).1.calls
        go (err e) h = refused p e valid absent (rw (← same) h) (ground arith)
        go (ok receipt) h =
            let confirmed : Session (World R K) Call =
              (perform {E = AuthorityError} (confirm (request_of request))
                (on_custody (confirm_custody (request_of request))) asked).1 in
            let rest : (unless_existing registry confirm_custody request (request_of request) none
                  asked).1.calls
                ≡ (commit registry confirm_custody request receipt confirmed).1.calls =
              rw h in
            granted p receipt valid absent (rw (← same) h)
              (rw (rest, ← read, ← called) (commit-Submitted request receipt confirmed))

  register_valid-Permitted :
      (digest : Digest) (request : RegistrationRequest) (s : Session (World R K) Call)
      → IsValid digest request
      → validated digest request ≡ ok (request_of request)
      → Permitted digest request s
          (register_instance registry confirm_custody digest request s).1.calls
  unfolding register_instance
  register_valid-Permitted digest request s valid passed =
      go ((registry.get request.pointer s.world.registry).0) refl
    where
      go :
          (r : Result RegistryError InstanceRecord)
          → (registry.get request.pointer s.world.registry).0 ≡ r
          → Permitted digest request s
              (register_instance registry confirm_custody digest request s).1.calls
      go (ok found) h = settled valid (λ p c. cc) (ground arith)
      go (err (not_found p)) h =
          let asked : Session (World R K) Call =
            (perform {E = AuthorityError} (get request.pointer)
              (on_registry (registry.get request.pointer)) s).1 in
          let rest : (register_instance registry confirm_custody digest request s).1.calls
              ≡ (unless_existing registry confirm_custody request (request_of request) none
                  asked).1.calls =
            rw (passed, h) in
          rw rest (unless_existing-Permitted digest request valid s asked p h refl refl refl)
      go (err e) h = settled valid (λ p c. cc) (ground arith)

  -- A registration makes no call where the request is not valid: the name or the id is blank, the
  -- operation's id has no two parts, the name or the digest does not match, or the resource is not a
  -- created container. Otherwise it reads the registry first, and asks custody, once and for what the
  -- request says, only where the registry does not know the pointer. What custody receipts is
  -- submitted once, and once more exactly where the first submission raised an error that is no
  -- conflict; custody is not asked again.
  pub register_instance-Permitted :
      (digest : Digest) (request : RegistrationRequest) (s : Session (World R K) Call)
      → Permitted digest request s
          (register_instance registry confirm_custody digest request s).1.calls
  register_instance-Permitted digest request s = elim (validated-cases digest request) [
    | inl (valid, passed) ↦ register_valid-Permitted digest request s valid passed
    | inr (refusal, failed) ↦ invalid refusal (unfold register_instance in rw failed)
  ]
