-- ===== src/Registry/Port.antt =====
-- The port of odoo_forge/ports/instance_registry.py and the errors of
-- odoo_forge/instance_registry/errors.py.
use odoo_forge.Base.{List}
use odoo_forge.Base.Effects.{Exec}
use odoo_forge.Values.{InstancePointer, InstanceRecord, ProjectScope}

-- The typed errors, and every other exception: a row that the value classes refuse, a driver's error.
pub data RegistryError : Type 0 where
  not_found missing_receipt conflict overwrite_rejected : InstancePointer → RegistryError
  invalid_row unavailable : RegistryError

-- The port, over whatever the implementation keeps.
pub record InstanceRegistry (W : Type 0) : Type 0 where
  pub store : InstanceRecord → Exec W RegistryError InstanceRecord
  pub get : InstancePointer → Exec W RegistryError InstanceRecord
  pub list : ProjectScope → Exec W RegistryError (List InstanceRecord)
  pub register : InstanceRecord → Exec W RegistryError InstanceRecord
