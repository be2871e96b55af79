-- ===== src/Manifest.antt =====
-- Manifests (odoo_forge/manifest/schema.py), their lockfiles (odoo_forge/manifest/lockfile.py) and
-- what is materialized of them (odoo_forge/manifest/state.py). The parser and its validators are
-- pydantic's and not modelled.
pub mod Drift
pub mod Composition
pub mod Locking
pub mod Structure
pub mod Locked
pub mod Projection
pub mod Placed
pub mod Mounts
pub mod View
pub mod Backed
pub mod Planning
pub mod Examples
use odoo_forge.Base.{ℕ, String, Bool, List, Option}

pub data Edition : Type 0 where
  community enterprise : Edition

pub record GitRepo : Type 0 where
  pub url : String
  pub ref : String

-- CoreLayer, EnterpriseLayer: one source of Odoo itself
pub record SourceLayer : Type 0 where
  pub url : String
  pub ref : Option String

pub record PublishedLayer : Type 0 where
  pub name : String
  pub source : String
  pub version : String
  pub category : String
  pub requires_enterprise : Bool

pub record GitLayer : Type 0 where
  pub name : String
  pub repos : List GitRepo
  pub category : String

pub data Layer : Type 0 where
  published : PublishedLayer → Layer
  git : GitLayer → Layer

pub record Client : Type 0 where
  pub addons_path : String
  pub python_requirements : Option String

pub record Override : Type 0 where
  pub layer : String
  pub repo : String
  pub fork : String
  pub ref : String

pub record Workspace : Type 0 where
  pub checkout_timeout_seconds : Option ℕ

pub record OdooBackendConfig : Type 0 where
  pub http_port : Option ℕ
  pub bind_host : String

pub record BackendConfig : Type 0 where
  pub odoo : Option OdooBackendConfig

pub record Manifest : Type 0 where
  pub name : String
  pub odoo_version : String
  pub edition : Edition
  pub core : SourceLayer
  pub enterprise_source : Option SourceLayer
  pub layers : List Layer
  pub client : Client
  pub overrides : List Override
  pub workspace : Option Workspace
  pub backend : Option BackendConfig
  pub mount_priority : List String

pub record ResolvedRepo : Type 0 where
  pub url : String
  pub ref : String
  pub commit : String

pub record ResolvedGitLayer : Type 0 where
  pub name : String
  pub repos : List ResolvedRepo

pub record ResolvedPublishedLayer : Type 0 where
  pub name : String
  pub source : String
  pub version : String
  pub digest : String

pub record Lockfile : Type 0 where
  pub schema_version : ℕ
  pub generated_from : String
  pub git_layers : List ResolvedGitLayer
  pub published_layers : List ResolvedPublishedLayer

pub record MaterializedRepo : Type 0 where
  pub url : String
  pub commit : String

pub record MaterializedLayer : Type 0 where
  pub name : String
  pub repos : List MaterializedRepo

pub record MaterializedState : Type 0 where
  pub layers : List MaterializedLayer
