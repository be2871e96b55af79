-- ===== src/ControlPlane/Reconcile/Examples.antt =====
-- The theorems on reconciliation at two records, of which one has a handle and a live instance.
use mathlib.Core.List.{Perm}
use odoo_forge.Base.{String, true, ◌≡◌, [], ◌∷◌, map, none, ok}
use odoo_forge.Base.Effects.{Exec}
use odoo_forge.Base.Sorting.{sort}
use odoo_forge.Values.{InstanceRecord, created}
use odoo_forge.Registry.Examples.{pointer, registered}
use odoo_forge.Registry.Memory.{memory_registry}
use odoo_forge.Backend.{InstanceRef, InstanceStatus, RoleStatus, healthy}
use odoo_forge.ControlPlane.Reconcile.{reconcile, reconcile_rows, by_instance}
use odoo_forge.ControlPlane.Reconcile.Summary.{Summary, reconcile-Summary, reconcile-stored}

abbrev up : RoleStatus
up = record { running = true; state = healthy; ready = true }

abbrev live : InstanceStatus
live = record { odoo = up; postgres = up }

abbrev status : InstanceRef → Exec (Unit {0}) (Unit {0}) InstanceStatus
status _ b = (ok live, b)

abbrev same : String → String
same s = s

abbrev handled : InstanceRecord
handled = record {
  pointer = pointer;
  resource = record {
    identifier = "odoo-forge-shop-qa";
    resource_kind = "instance";
    ownership = created;
  };
  receipt = none;
}

reconcile-Summary_example :
    Summary
      (reconcile_rows memory_registry status same same
        (sort by_instance (registered ∷ handled ∷ []))
        tt).0
      (reconcile memory_registry status same same (registered ∷ handled ∷ []) tt).0.outcome
reconcile-Summary_example =
    reconcile-Summary memory_registry status same same registered (handled ∷ []) tt

reconcile-stored_example :
    (map
        (λ row. row.stored)
        (reconcile memory_registry status same same (registered ∷ handled ∷ []) tt).0.rows
      ≡ sort by_instance (registered ∷ handled ∷ []))
    × Perm
        (map
          (λ row. row.stored)
          (reconcile memory_registry status same same (registered ∷ handled ∷ []) tt).0.rows)
        (registered ∷ handled ∷ [])
reconcile-stored_example =
    reconcile-stored memory_registry status same same (registered ∷ handled ∷ []) tt
