-- ===== src/Lib.antt =====
-- odoo-forge: a model of its core, with the theorems about it. Paths are from the repository's root.
--
-- Values.antt has the immutable values that the parts exchange. Base.antt and the files of Base have what
-- the parts share: fallible values, methods that raise and keep their state, calls of ports with a record
-- of the calls made, Python's equality, lists, dictionaries, sorting and text.
--
-- Durable.antt is src/odoo_forge/durable_operations: the lifecycle of an operation (`advance_lifecycle`),
-- its recovery (`plan_recovery`), terminal commits and redacted evidence, and the record of
-- src/odoo_forge/ports/durable_operation_store.py. Python's `re` is a parameter (`Patterns`).
--
-- Registry.antt has the port of src/odoo_forge/ports/instance_registry.py as a record of operations, and its
-- two implementations: Registry/Memory.antt (src/odoo_forge_instances_postgres/fakes.py), two dictionaries,
-- and Registry/Postgres.antt (src/odoo_forge_instances_postgres/adapter.py), one table, each SQL statement a
-- function on its rows. There a flag says whether the commit succeeds, and a function says what other
-- transactions commit between a lookup and its insert.
--
-- ControlPlane/Authority.antt is src/odoo_forge/control_plane/authority.py over the custody requests of
-- src/odoo_forge/ports/resource_custody.py: a registration over any registry and any custody adapter, which
-- are parameters, with the calls that it makes as a list, the latest first. The digest of a custody
-- request (SHA-256 of JSON) is a parameter.
--
-- Artifacts.antt is src/odoo_forge/data_artifacts/contracts.py and src/odoo_forge/anonymization/apply.py;
-- Artifacts/Copy.antt is src/odoo_forge/data_artifacts/coordinator.py: `run` captures, anonymizes and delivers
-- over ports that are parameters (capture, mask, persistence, validation, restore, discard, clock), with a
-- log of the calls and whether each returned. Its state has the coordinator's `last_state` and its
-- checkpoints.
--
-- Deployment.antt is src/odoo_forge/remote_deployment.py: `deploy` over the two providers, the store of
-- operations and the recorder, which are parameters, with the calls made as a list, the latest first.
-- Deployment/Exposure.antt has the values and validators of src/odoo_forge/exposure/types.py and
-- src/odoo_forge/deployment_spec/types.py. Backend.antt has the handles of instances of
-- src/odoo_forge/backend/status.py.
--
-- ControlPlane/Reconcile.antt is src/odoo_forge/control_plane/reconcile.py, with the values of
-- src/odoo_forge/control_plane/models.py: the records of a scope, in order, each against the live status
-- that a reader, a parameter, gives for its handle. `str.lower` and SHA-256 are parameters of the handle's
-- name.
--
-- Manifest.antt has the values of src/odoo_forge/manifest/schema.py, lockfile.py and state.py;
-- Manifest/Composition.antt is src/odoo_forge/manifest/composition.py (`compose`), and Manifest/Drift.antt is
-- src/odoo_forge/manifest/drift.py (`detect_drift`), with the hash of a manifest as a parameter.
--
-- Lifecycle.antt and its children are src/odoo_forge/resource_lifecycle: the policies and decisions of
-- types.py, and of service.py the checks (Lifecycle/Checks.antt), `_recover` with all it calls
-- (Lifecycle/Recovery.antt) and `run` (Lifecycle/Service.antt). A run is a sequence of calls of the ports
-- (Lifecycle/Ports.antt), which are any; Lifecycle/Protocol.antt is the order that the calls must follow.
-- A `timedelta` is an unbounded integer of microseconds; a `datetime` is a number of microseconds and
-- whether it has a timezone. The retries of `_cleanup` are the rounds of the model, so no fuel is needed.
--
-- Environments.antt is src/odoo_forge/data_environments/types.py, and Environments/Service.antt service.py:
-- the preflight, the copy and what follows a failure, with every exception of a collaborator caught;
-- Environments/Protocol.antt is the order of its calls, and what their answers must have been in the
-- world that the calls before them left.
--
-- Manifest/Locking.antt is src/odoo_forge/manifest/locking.py over any providers; of projection.py,
-- Manifest/Structure.antt is the validation of a lock, and Manifest/Projection.antt the table of roots,
-- `plan_projection` and `plan_unlock` on paths as lists of segments (Base/FilePath.antt). The function that names a
-- repository's directory is a parameter. Manifest/Mounts.antt and Manifest/View.antt are `materialize_state`
-- and `build_mount_planning_view`, whose errors carry the repository they name.
--
-- Readiness.antt is src/odoo_forge/database/readiness.py (`evaluate_gate_readiness`).
--
-- Not modelled: what runs Docker, PostgreSQL, Git and HTTP, the command line and the server's wiring, which
-- are input and output around these parts; and, so far, the catalogs,
-- the plan of a backend, credentials, image references and the policies of anonymization.
pub mod Base
pub mod Values
pub mod Durable
pub mod Artifacts
pub mod Backend
pub mod Manifest
pub mod Deployment
pub mod Registry
pub mod ControlPlane
pub mod Lifecycle
pub mod Environments
pub mod Readiness
