-- ===== src/Backend.antt =====
-- The handles and statuses of instances (odoo_forge/backend/status.py). `str.lower` and the
-- first eight digits of SHA-256 are parameters of the names.
use Prim.Native.Char.{code}
use Prim.Native.String.{◌++◌ as text_append}
use odoo_forge.Base.{ℕ, String, Bool, false, not, ◌&&◌, ◌||◌, if◌then◌else◌, leb, ◌==◌, string_eq}
use odoo_forge.Base.Text.{nat_eq}

pub record InstanceRef : Type 0 where
  pub project : String
  pub instance_name : String
  pub network : String
  pub postgres_container : String
  pub odoo_container : String

pub data RoleState : Type 0 where
  exited starting unhealthy healthy no_healthcheck unknown : RoleState

pub record RoleStatus : Type 0 where
  pub running : Bool
  pub state : RoleState
  pub ready : Bool

pub record InstanceStatus : Type 0 where
  pub odoo : RoleStatus
  pub postgres : RoleStatus

-- _VALID_CHAR, _VALID_FIRST_CHAR
unfoldable pub is_valid_first : ℕ → Bool
is_valid_first c = leb 97 c && leb c 122 || leb 48 c && leb c 57

unfoldable pub is_valid : ℕ → Bool
unfolding is_valid_first
is_valid c = is_valid_first c || c == 95 || c == 46 || c == 45

unfoldable pub cleaned : String → String
unfolding is_valid
cleaned String.[] = String.[]
cleaned (String.◌∷◌ c s) =
    let rest = cleaned s in if is_valid (code c) then String.◌∷◌ c rest else rest

unfoldable pub starts_valid : String → Bool
unfolding is_valid_first
starts_valid String.[] = false
starts_valid (String.◌∷◌ c s) = is_valid_first (code c)

module _ (lower digest : String → String) where
  hashed : String → String → String
  hashed raw name = text_append name (text_append "-" (digest raw))

  unfoldable pub sanitize_name : String → String
  unfolding cleaned starts_valid hashed
  sanitize_name raw =
      let name = cleaned (lower raw) in
      if name == ""
      then hashed raw "x"
      else if not (starts_valid name)
      then hashed raw (text_append "x" name)
      else if lower raw == raw && name == lower raw
      then name
      else hashed raw name

  -- The handle that both `derive_instance_ref` and the reconciler build on a network's name.
  unfoldable pub network_name : String → String → String
  unfolding sanitize_name
  network_name project instance_name =
      text_append "odoo-forge-"
        (text_append (sanitize_name project) (text_append "-" (sanitize_name instance_name)))
