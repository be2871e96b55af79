-- ===== src/Artifacts.antt =====
-- Data artifacts (odoo_forge/data_artifacts/contracts.py, odoo_forge/data_artifacts/types.py,
-- odoo_forge/anonymization/apply.py): restore sets, their readiness, their discarding and their
-- anonymization. Python's `re` is a parameter: its verdicts are `Vocabulary` and `Patterns`.
pub mod Copy
pub mod Examples
use odoo_forge.Base.{
  ℕ, String, Bool, true, false, not, ◌&&◌, ◌||◌, List, [], ◌∷◌, Option, none, some, Result, ok, err,
  is_empty, if◌then◌else◌, ◌==◌, Eq, string_eq,
}
use odoo_forge.Base.Equality.{string_dec, option_eq}
use odoo_forge.Base.Effects.{Exec, pure, lift, ◌>>=◌, ◌>>◌}
use odoo_forge.Base.Lists.{all}
use odoo_forge.Durable.{Patterns, DurableError, RedactedEvidence, redacted_evidence}

pub data ArtifactComponentKind : Type 0 where
  database filestore : ArtifactComponentKind

pub data ValidationFailureCode : Type 0 where
  unavailable integrity_failed coherence_failed incomplete unsupported_format :
      ValidationFailureCode

pub data DiscardOutcomeCode : Type 0 where
  completed refused residual_failure : DiscardOutcomeCode

pub record ArtifactDigest : Type 0 where
  pub algorithm : String
  pub value : String

pub record RestoreSetComponent : Type 0 where
  pub kind : ArtifactComponentKind
  pub opaque_component_ref : String
  pub format_version : String
  pub digest : ArtifactDigest

pub record RestoreSetManifest : Type 0 where
  pub restore_set_id : String
  pub lineage_id : String
  pub components : List RestoreSetComponent

pub record RestoreReadiness : Type 0 where
  pub ready : Bool
  pub manifest : Option RestoreSetManifest
  pub failure_code : Option ValidationFailureCode
  pub redacted_detail : Option String

pub record DiscardOutcome : Type 0 where
  pub code : DiscardOutcomeCode
  pub residual_ids : List String
  pub redacted_detail : Option String

unfoldable pub kind_dec : Discrete ArtifactComponentKind
kind_dec = hlevel

unfoldable pub failure_dec : Discrete ValidationFailureCode
failure_dec = hlevel

unfoldable pub outcome_dec : Discrete DiscardOutcomeCode
outcome_dec = hlevel

unfoldable pub digest_dec : Discrete ArtifactDigest
digest_dec = hlevel string_dec

instance abbrev pub kind_eq : Eq ArtifactComponentKind
kind_eq = record { dec = kind_dec }

instance abbrev pub failure_eq : Eq ValidationFailureCode
failure_eq = record { dec = failure_dec }

instance abbrev pub outcome_eq : Eq DiscardOutcomeCode
outcome_eq = record { dec = outcome_dec }

instance abbrev pub digest_eq : Eq ArtifactDigest
digest_eq = record { dec = digest_dec }

-- The errors of a copy: the four of the coordinator, a ValueError, an error of durable operations, a
-- failed assertion, and whatever a port raises.
pub data CopyError : Type 0 where
  capture_integrity raw_delivery_refused anonymization_inconsistent : CopyError
  capture_not_ready : ValidationFailureCode → CopyError
  value_error assertion_failed : CopyError
  durable : DurableError → CopyError
  port_failed : String → CopyError

-- `require_safe_opaque_identifier`, and the same after the test for spaces.
pub record Vocabulary : Type 0 where
  pub is_safe_opaque_identifier : String → Bool
  pub is_opaque_identifier : String → Bool

-- RestoreSetManifest.require_database_and_filestore, of the components' kinds
unfoldable pub is_restore_set : List RestoreSetComponent → Bool
unfolding kind_dec
is_restore_set (a ∷ b ∷ []) = not (a.kind == b.kind)
is_restore_set _ = false

module _ (v : Vocabulary) where
  -- RestoreSetManifest(restore_set_id=…, lineage_id=…, components=…)
  unfoldable pub restore_set_manifest : RestoreSetManifest → Result CopyError RestoreSetManifest
  unfolding is_restore_set
  restore_set_manifest m =
      if v.is_opaque_identifier m.restore_set_id
        && v.is_opaque_identifier m.lineage_id
        && is_restore_set m.components
      then ok m
      else err value_error

  -- DataArtifactRef(value)
  unfoldable pub data_artifact_ref : String → Result CopyError String
  data_artifact_ref value = if v.is_safe_opaque_identifier value then ok value else err value_error

-- _database_digest
unfoldable pub database_digest : List RestoreSetComponent → Option ArtifactDigest
unfolding kind_dec
database_digest [] = none
database_digest (c ∷ rest) =
    let later = database_digest rest in if c.kind == database then some c.digest else later

pub record AnonymizationOutcome : Type 0 where
  pub manifest : RestoreSetManifest
  pub evidence : RedactedEvidence

unfoldable pub evidence_of :
    Patterns → String → String → List String → Result CopyError RedactedEvidence
evidence_of p event summary references = elim (redacted_evidence p event summary references) [
  | ok e ↦ ok e
  | err e ↦ err value_error
]

module _ {S Rule : Type 0} (v : Vocabulary) (p : Patterns)
    (mask_transform : RestoreSetComponent → List Rule → Exec S CopyError RestoreSetComponent) where
  pub anonymize_component : List Rule → RestoreSetComponent → Exec S CopyError RestoreSetComponent
  unfolding kind_dec
  anonymize_component rules c = if c.kind == database then mask_transform c rules else pure c

  unfoldable pub anonymize_components :
      List Rule → List RestoreSetComponent → Exec S CopyError (List RestoreSetComponent)
  unfolding anonymize_component
  anonymize_components rules [] = pure []
  anonymize_components rules (c ∷ rest) = do
    masked ← anonymize_component rules c
    others ← anonymize_components rules rest
    pure (masked ∷ others)

  -- apply_anonymization
  unfoldable pub apply_anonymization :
      RestoreSetManifest → List Rule → Exec S CopyError AnonymizationOutcome
  unfolding anonymize_components
  apply_anonymization m rules = do
    masked ← anonymize_components rules m.components
    manifest ← lift (restore_set_manifest v (record m { components = masked }))
    evidence ← lift (
        evidence_of p "anonymization_applied" "anonymization policy applied before delivery"
          (m.lineage_id ∷ []))
    pure (record { manifest = manifest; evidence = evidence })
