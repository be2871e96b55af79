-- ===== src/ControlPlane.antt =====
-- The control plane (odoo_forge/control_plane): the custody seam, the write authority, and the
-- read-only reconciler.
pub mod Custody
pub mod Authority
pub mod Reconcile
