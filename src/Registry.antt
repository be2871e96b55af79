-- ===== src/Registry.antt =====
-- The instance registry: its port, and the two implementations, in memory
-- (odoo_forge_instances_postgres/fakes.py) and on PostgreSQL (odoo_forge_instances_postgres/adapter.py).
pub mod Port
pub mod Memory
pub mod Postgres
pub mod Examples
