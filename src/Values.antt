-- ===== src/Values.antt =====
-- The immutable values that the components exchange: identities of operations
-- (odoo_forge/durable_operations/types.py), ownership (odoo_forge/resource_ownership/types.py),
-- tenancy (odoo_forge/tenancy/types.py), databases (odoo_forge/database/types.py) and instances
-- (odoo_forge/instance_registry/types.py). Pydantic compares such values field by field, as the
-- instances of `Eq` do. A one-field identifier class is its text.
use odoo_forge.Base.{String, Bool, Option, List, Eq}
use odoo_forge.Base.Equality.{string_dec, bool_dec, list_dec, option_dec}

pub record DurableOperationIdentity : Type 0 where
  pub operation_id : String
  pub request_digest : String

pub data ResourceOwnership : Type 0 where
  created adopted external : ResourceOwnership

pub record ResourceRef : Type 0 where
  pub identifier : String
  pub resource_kind : String
  pub ownership : ResourceOwnership

pub record OwnershipReceipt : Type 0 where
  pub operation : DurableOperationIdentity
  pub owned_resource_ids : List String
  pub live_proof_expected : Bool

pub record CreationReceipt : Type 0 where
  pub operation : String
  pub owned_resource_ids : List String

pub record DatabaseRef : Type 0 where
  pub identifier : String
  pub ownership : ResourceOwnership

pub record DatabaseCreation : Type 0 where
  pub ref : DatabaseRef
  pub receipt : CreationReceipt
  pub data_volume_ownership : ResourceOwnership

pub record ProjectScope : Type 0 where
  pub tenant : String
  pub project_id : String

pub record InstancePointer : Type 0 where
  pub scope : ProjectScope
  pub instance_id : String

pub record InstanceRecord : Type 0 where
  pub pointer : InstancePointer
  pub resource : ResourceRef
  pub receipt : Option OwnershipReceipt

unfoldable pub identity_dec : Discrete DurableOperationIdentity
identity_dec = hlevel string_dec

unfoldable pub ownership_dec : Discrete ResourceOwnership
ownership_dec = hlevel

unfoldable pub resource_dec : Discrete ResourceRef
resource_dec = hlevel (string_dec, ownership_dec)

unfoldable pub receipt_dec : Discrete OwnershipReceipt
receipt_dec = hlevel (string_dec, bool_dec, identity_dec, list_dec string_dec)

unfoldable pub database_dec : Discrete DatabaseRef
database_dec = hlevel (string_dec, ownership_dec)

unfoldable pub scope_dec : Discrete ProjectScope
scope_dec = hlevel string_dec

unfoldable pub pointer_dec : Discrete InstancePointer
pointer_dec = hlevel (string_dec, scope_dec)

unfoldable pub record_dec : Discrete InstanceRecord
record_dec = hlevel (pointer_dec, resource_dec, option_dec receipt_dec)

instance abbrev pub identity_eq : Eq DurableOperationIdentity
identity_eq = record { dec = identity_dec }

instance abbrev pub ownership_eq : Eq ResourceOwnership
ownership_eq = record { dec = ownership_dec }

instance abbrev pub resource_eq : Eq ResourceRef
resource_eq = record { dec = resource_dec }

instance abbrev pub receipt_eq : Eq OwnershipReceipt
receipt_eq = record { dec = receipt_dec }

instance abbrev pub database_eq : Eq DatabaseRef
database_eq = record { dec = database_dec }

instance abbrev pub scope_eq : Eq ProjectScope
scope_eq = record { dec = scope_dec }

instance abbrev pub pointer_eq : Eq InstancePointer
pointer_eq = record { dec = pointer_dec }

instance abbrev pub record_eq : Eq InstanceRecord
record_eq = record { dec = record_dec }
