-- ===== src/ControlPlane/Custody.antt =====
-- Custody requests (odoo_forge/ports/resource_custody.py). What SHA-256 and JSON make of a request's
-- meaning is a parameter.
use odoo_forge.Base.{
  ℕ, String, not, ◌||◌, List, Option, none, some, Result, ok, err, is_empty, if◌then◌else◌, ◌==◌,
  string_eq,
}
use odoo_forge.Base.Equality.{list_eq}
use odoo_forge.Base.Text.{codes, strip, partition, nat_eq}
use odoo_forge.Values.{
  DurableOperationIdentity, InstancePointer, ResourceRef, created, ownership_eq,
}

pub data CustodyTransition : Type 0 where
  reserve_bind_activate : CustodyTransition

pub data CustodyStartingState : Type 0 where
  unreserved : CustodyStartingState

pub record CustodyRequest : Type 0 where
  pub operation : DurableOperationIdentity
  pub pointer : InstancePointer
  pub resource : ResourceRef
  pub resource_name : String
  pub resource_id : String
  pub starting_state : CustodyStartingState
  pub requested_transition : CustodyTransition

-- ValueError with its message, as pydantic wraps it in ValidationError.
pub data CustodyInvalid : Type 0 where
  blank_field not_qualified provider_required token_required name_mismatch digest_mismatch :
      CustodyInvalid
  unsupported_resource : CustodyInvalid

-- CustodyTransitionConflictError, CustodyUnverifiableError, and any other exception.
pub data CustodyError : Type 0 where
  transition_conflict unverifiable other : CustodyError

parts_of : Option (List ℕ × List ℕ) → Result CustodyInvalid (List ℕ × List ℕ)
unfolding strip
parts_of none = err not_qualified
parts_of (some (provider, token)) =
    if is_empty provider || not (provider == strip provider)
    then err provider_required
    else if is_empty token || not (token == strip token)
    then err token_required
    else ok (provider, token)

unfoldable pub custody_operation_parts : String → Result CustodyInvalid (List ℕ × List ℕ)
unfolding parts_of partition
custody_operation_parts operation_id = parts_of (partition b':' (codes operation_id))

-- custody_request_digest: of the operation's id and the other fields
abbrev pub Digest : Type 0
Digest =
    String
    → InstancePointer
    → ResourceRef
    → (name id : String) → CustodyStartingState
    → CustodyTransition
    → String

module _ (custody_request_digest : Digest) where
  unfoldable pub expected_digest : CustodyRequest → String
  expected_digest r =
      custody_request_digest r.operation.operation_id r.pointer r.resource r.resource_name
        r.resource_id r.starting_state r.requested_transition

  -- the tests of `validate_contract` below the first
  unfoldable pub meaning_of : CustodyRequest → Result CustodyInvalid CustodyRequest
  unfolding expected_digest
  meaning_of r =
      if not (r.resource_name == r.resource.identifier)
      then err name_mismatch
      else if not (r.operation.request_digest == expected_digest r)
      then err digest_mismatch
      else if not (r.resource.resource_kind == "container") || not (r.resource.ownership == created)
      then err unsupported_resource
      else ok r

  -- CustodyRequest(…): the lengths of the fields, then `validate_contract`
  unfoldable pub custody_request : CustodyRequest → Result CustodyInvalid CustodyRequest
  unfolding meaning_of
  custody_request r =
      if r.resource_name == "" || r.resource_id == ""
      then err blank_field
      else elim (custody_operation_parts r.operation.operation_id) [
        | err e ↦ err e
        | ok _ ↦ meaning_of r
      ]
