-- ===== src/ControlPlane/Authority.antt =====
-- odoo_forge/control_plane/authority.py: one custody transition, and its registration.
pub mod Valid
pub mod Calls
pub mod Returns
pub mod OverPostgres
pub mod InMemory
pub mod Examples
use odoo_forge.Base.{
  String, Bool, true, false, ◌&&◌, List, [], ◌∷◌, Option, none, some, Result, ok, err,
  if◌then◌else◌, ◌==◌, Eq, string_eq,
}
use odoo_forge.Base.Equality.{list_eq}
use odoo_forge.Base.Effects.{Exec, Session, perform, pure, raise, lift, attempt, ◌>>=◌, ◌>>◌}
use odoo_forge.Values.{
  DurableOperationIdentity, InstancePointer, InstanceRecord, ResourceRef, OwnershipReceipt,
  pointer_eq, resource_eq, identity_eq,
}
use odoo_forge.Registry.Port.{RegistryError, not_found, conflict, InstanceRegistry}
use odoo_forge.ControlPlane.Custody.{
  CustodyRequest, CustodyError, CustodyInvalid, Digest, unreserved, reserve_bind_activate,
  custody_request,
}

pub record RegistrationRequest : Type 0 where
  pub operation : DurableOperationIdentity
  pub pointer : InstancePointer
  pub resource : ResourceRef
  pub resource_name : String
  pub resource_id : String

-- RegistrationValidationError, and what the two ports raise.
pub data AuthorityError : Type 0 where
  registration_validation : AuthorityError
  registry_error : RegistryError → AuthorityError
  custody_error : CustodyError → AuthorityError

-- The calls that leave the authority.
pub data Call : Type 0 where
  get : InstancePointer → Call
  confirm : CustodyRequest → Call
  register : InstanceRecord → Call

-- What the registry keeps, and what custody keeps.
pub record World (R K : Type 0) : Type 0 where
  pub registry : R
  pub custody : K

abbrev pub on_registry :
    {R K A : Type 0} → Exec R RegistryError A → Exec (World R K) AuthorityError A
on_registry m w =
    let (r, s) = m w.registry in
    (elim r [ ok a ↦ ok a | err e ↦ err (registry_error e) ], record w { registry = s })

abbrev pub on_custody : {R K A : Type 0} → Exec K CustodyError A → Exec (World R K) AuthorityError A
on_custody m w =
    let (r, s) = m w.custody in
    (elim r [ ok a ↦ ok a | err e ↦ err (custody_error e) ], record w { custody = s })

abbrev pub Authority : Type 0 → Type 0 → Type 0 → Type 0
Authority R K A = Exec (Session (World R K) Call) AuthorityError A

unfoldable pub is_match : InstanceRecord → RegistrationRequest → Bool
is_match existing request =
    existing.pointer == request.pointer
    && existing.resource == request.resource
    && elim existing.receipt [
      | none ↦ false
      | some receipt ↦
          receipt.operation == request.operation
          && receipt.owned_resource_ids == request.resource_id ∷ []
    ]

-- ControlPlaneAuthority._custody_request
unfoldable pub request_of : RegistrationRequest → CustodyRequest
request_of r = record {
  operation = r.operation;
  pointer = r.pointer;
  resource = r.resource;
  resource_name = r.resource_name;
  resource_id = r.resource_id;
  starting_state = unreserved;
  requested_transition = reserve_bind_activate;
}

unfoldable pub validated : Digest → RegistrationRequest → Result AuthorityError CustodyRequest
unfolding request_of
validated digest request = elim (custody_request digest (request_of request)) [
  | ok r ↦ ok r
  | err _ ↦ err registration_validation
]

module _ {R K : Type 0} (registry : InstanceRegistry R)
    (confirm_custody : CustodyRequest → Exec K CustodyError OwnershipReceipt) where
  -- `except InstanceRecordNotFoundError: return None`
  unless_missing : Result AuthorityError InstanceRecord → Authority R K (Option InstanceRecord)
  unless_missing (ok r) = pure (some r)
  unless_missing (err (registry_error (not_found _))) = pure none
  unless_missing (err e) = raise e

  existing_record : InstancePointer → Authority R K (Option InstanceRecord)
  unfolding unless_missing
  existing_record pointer = do
    found ← attempt (perform (get pointer) (on_registry (registry.get pointer)))
    unless_missing found

  unfoldable pub submit : InstanceRecord → Authority R K InstanceRecord
  submit r = perform (register r) (on_registry (registry.register r))

  -- `except InstanceRegistrationConflictError: raise`, `except Exception:` try once more
  submit_again :
      InstanceRecord → Result AuthorityError InstanceRecord → Authority R K InstanceRecord
  submit_again r (ok stored) = pure stored
  submit_again r (err (registry_error (conflict p))) = raise (registry_error (conflict p))
  submit_again r (err _) = submit r

  pub commit : RegistrationRequest → OwnershipReceipt → Authority R K InstanceRecord
  unfolding submit_again
  commit request receipt = do
    let row : InstanceRecord = record {
      pointer = request.pointer;
      resource = request.resource;
      receipt = some receipt;
    }
    stored ← attempt (submit row)
    submit_again row stored

  unless_existing :
      RegistrationRequest → CustodyRequest → Option InstanceRecord → Authority R K InstanceRecord
  unfolding commit is_match
  unless_existing request custody (some existing) =
      if is_match existing request
      then pure existing
      else raise (registry_error (conflict request.pointer))
  unless_existing request custody none = do
    receipt ← perform (confirm custody) (on_custody (confirm_custody custody))
    commit request receipt

  -- ControlPlaneAuthority.register
  unfoldable pub register_instance : Digest → RegistrationRequest → Authority R K InstanceRecord
  unfolding existing_record unless_existing
  register_instance digest request = do
    custody ← lift (validated digest request)
    existing ← existing_record request.pointer
    unless_existing request custody existing
