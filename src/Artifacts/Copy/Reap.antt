-- ===== src/Artifacts/Copy/Reap.antt =====
-- Raw data under the shadow reference (odoo_forge/data_artifacts/coordinator.py).
use odoo_forge.Base.Equality.{string_dec}
use odoo_forge.Base.{
  ◌≡◌, refl, arith, Bool, true, false, ok, err, Result, ◌⊎◌, inl, inr, [], ◌∷◌, ◌++◌, String, ℕ,
  Bool-cases,
}
use odoo_forge.Artifacts.{
  RestoreSetManifest, CopyError, DiscardOutcome, Vocabulary, value_error, data_artifact_ref,
  evidence_of,
}
use odoo_forge.Durable.{Patterns, RedactedEvidence, save_checkpoint}
use odoo_forge.Artifacts.Copy.{
  Ports, CopyState, persist, discard, phase_checkpoint_if, phase_checkpoint, checkpoint, supersede,
  replace_raw, shadow_of, is_residual, returned, observe,
}

module _ {W Source Spec Credentials Rule : Type 0} (v : Vocabulary) (p : Patterns)
    (ports : Ports W Source Spec Credentials Rule) where
  pub phase_checkpoint_if-log :
      (b : Bool) (revision : ℕ) (phase summary lineage_id : String) (s : CopyState W)
      → (phase_checkpoint_if v p ports b revision phase summary lineage_id s).1.log ≡ s.log
  unfolding phase_checkpoint_if phase_checkpoint checkpoint
  phase_checkpoint_if-log false revision phase summary lineage_id s = refl
  phase_checkpoint_if-log true revision phase summary lineage_id s = ground arith

  supersede-log :
      (revision : ℕ) (ref shadow lineage_id : String) (masked : RestoreSetManifest)
      (s : CopyState W)
      → (stored reaped : Bool) × ((supersede v p ports revision ref shadow masked lineage_id
            s).1.log
          ≡ (discard shadow, reaped) ∷ (persist ref masked, stored) ∷ s.log)
  unfolding supersede
  supersede-log revision ref shadow lineage_id masked s =
      let (stored, after) =
        observe (persist ref masked) (ports.manifest_persistence ref masked) s in
      let (reaped, last) = observe (discard shadow) (ports.discard_ref shadow) after in
      (
        returned stored,
        returned reaped,
        ground (
          arith,
          phase_checkpoint_if-log (is_residual reaped) revision "raw_reap_residual"
              "raw pre-mask blob reap left a residual failure" lineage_id last,
        ),
      )

  -- The calls that replacing a captured manifest by its masked form makes. Where the shadow reference
  -- is not safe there is none, and it ends in an error. Where it is safe, and the raw manifest is not
  -- persisted under it, that is the only one. Where it is safe and is persisted the shadow reference is
  -- discarded, last of all and exactly once, also where persisting the masked manifest fails.
  pub replace_raw-log :
      (revision : ℕ) (ref : String) (captured masked : RestoreSetManifest) (s : CopyState W)
      → ((v.is_safe_opaque_identifier (shadow_of v p ports captured.restore_set_id) ≡ false)
          × ((replace_raw v p ports revision ref captured masked s).0 ≡ err value_error)
          × ((replace_raw v p ports revision ref captured masked s).1.log ≡ s.log))
        ⊎ ((v.is_safe_opaque_identifier (shadow_of v p ports captured.restore_set_id) ≡ true)
            × ((e : CopyError) × ((replace_raw v p ports revision ref captured masked s).0 ≡ err e)
                × ((replace_raw v p ports revision ref captured masked s).1.log
                    ≡ (persist (shadow_of v p ports captured.restore_set_id) captured, false)
                      ∷ s.log)))
        ⊎ ((v.is_safe_opaque_identifier (shadow_of v p ports captured.restore_set_id) ≡ true)
            × ((stored reaped : Bool) × ((replace_raw v p ports revision ref captured masked
                    s).1.log
                  ≡ (discard (shadow_of v p ports captured.restore_set_id), reaped)
                    ∷ (persist ref masked, stored)
                    ∷ (persist (shadow_of v p ports captured.restore_set_id) captured, true)
                    ∷ s.log)))
  unfolding replace_raw data_artifact_ref
  replace_raw-log revision ref captured masked s =
      let shadow = shadow_of v p ports captured.restore_set_id in
      let after =
        (observe (persist shadow captured) (ports.manifest_persistence shadow captured) s).1 in
      ground (arith, supersede-log revision ref shadow captured.lineage_id masked after)

  -- One replacement, and what its two calls come to.
  module _ (revision : ℕ) (ref shadow lineage_id : String) (masked : RestoreSetManifest)
      (s : CopyState W) where
    abbrev pub stored : Result CopyError (Unit {0}) × CopyState W
    stored = observe (persist ref masked) (ports.manifest_persistence ref masked) s

    abbrev pub reaped : Result CopyError DiscardOutcome × CopyState W
    reaped = observe (discard shadow) (ports.discard_ref shadow) stored.1

    -- With a reap that leaves a residue that can be recorded, replacing the manifest ends as
    -- persisting the masked one did, and the residue is the one new checkpoint; with a reap that
    -- leaves none there is no new checkpoint.
    pub supersede-residual :
        (evidence : RedactedEvidence)
        → evidence_of p "raw_reap_residual" "raw pre-mask blob reap left a residual failure"
            (lineage_id ∷ [])
          ≡ ok evidence
        → ((supersede v p ports revision ref shadow masked lineage_id s).0 ≡ stored.0)
          × (((is_residual reaped.0 ≡ true)
                × ((supersede v p ports revision ref shadow masked lineage_id s).1.checkpoints
                    ≡ s.checkpoints
                      ++ record {
                        revision = revision;
                        phase = "raw_reap_residual";
                        evidence = evidence;
                      }
                        ∷ []))
              ⊎ ((is_residual reaped.0 ≡ false)
                  × ((supersede v p ports revision ref shadow masked lineage_id s).1.checkpoints
                      ≡ s.checkpoints)))
    unfolding supersede phase_checkpoint_if phase_checkpoint checkpoint save_checkpoint string_dec
    supersede-residual evidence built = elim (Bool-cases (is_residual reaped.0)) [
      | inl e ↦ rw (e, built) (refl, inl (refl, refl))
      | inr e ↦ rw e (refl, inr (refl, refl))
    ]
