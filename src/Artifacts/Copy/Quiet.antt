-- ===== src/Artifacts/Copy/Quiet.antt =====
-- What a copy does before its delivery restores nothing (odoo_forge/data_artifacts/coordinator.py).
use odoo_forge.Base.{◌≡◌, arith, Bool, true, false, inl, inr, List, [], ◌∷◌, String, ℕ, string_eq}
use odoo_forge.Base.Effects.{Exec, bind-cases}
use odoo_forge.Base.Lists.{All}
use odoo_forge.Base.Equality.{option_eq}
use odoo_forge.Durable.{Patterns, RedactedEvidence}
use odoo_forge.Artifacts.{
  RestoreSetManifest, RestoreSetComponent, CopyError, Vocabulary, AnonymizationOutcome, digest_eq,
  anonymize_components, anonymize_component, apply_anonymization,
}
use odoo_forge.Artifacts.Copy.{
  Ports, CopyState, CopyRequest, Call, mask, restore, phase_checkpoint, checkpoint, observe,
  masked_or_raw, raw_gate, anonymize, persist_masked, persist_outcome,
}
use odoo_forge.Artifacts.Copy.Reap.{replace_raw-log}

unfoldable pub is_restore : Call → Bool
is_restore (restore ref) = true
is_restore _ = false

-- No call so far has restored anything.
abbrev pub IsQuiet : List (Call × Bool) → Type 0
IsQuiet log = All (λ entry. is_restore entry.0 ≡ false) log

module _ {W Source Spec Credentials Rule : Type 0} (v : Vocabulary) (p : Patterns)
    (ports : Ports W Source Spec Credentials Rule) where
  pub phase_checkpoint-log :
      (revision : ℕ) (phase summary lineage_id : String) (s : CopyState W)
      → (phase_checkpoint v p ports revision phase summary lineage_id s).1.log ≡ s.log
  unfolding phase_checkpoint checkpoint
  phase_checkpoint-log revision phase summary lineage_id s = ground arith

  pub checkpoint-log :
      (revision : ℕ) (phase : String) (evidence : RedactedEvidence) (s : CopyState W)
      → (checkpoint v p ports revision phase evidence s).1.log ≡ s.log
  unfolding checkpoint
  checkpoint-log revision phase evidence s = ground arith

  pub phase_checkpoint-world :
      (revision : ℕ) (phase summary lineage_id : String) (s : CopyState W)
      → (phase_checkpoint v p ports revision phase summary lineage_id s).1.world ≡ s.world
  unfolding phase_checkpoint checkpoint
  phase_checkpoint-world revision phase summary lineage_id s = ground arith

  pub checkpoint-world :
      (revision : ℕ) (phase : String) (evidence : RedactedEvidence) (s : CopyState W)
      → (checkpoint v p ports revision phase evidence s).1.world ≡ s.world
  unfolding checkpoint
  checkpoint-world revision phase evidence s = ground arith

  abbrev masking :
      RestoreSetComponent → List Rule → Exec (CopyState W) CopyError RestoreSetComponent
  masking c rules = observe (mask c) (ports.mask_transform c rules)

  anonymize_components-IsQuiet :
      (rules : List Rule) (cs : List RestoreSetComponent) (s : CopyState W)
      → IsQuiet s.log
      → IsQuiet (anonymize_components v p masking rules cs s).1.log
  unfolding anonymize_components anonymize_component is_restore
  anonymize_components-IsQuiet rules [] s q = q
  anonymize_components-IsQuiet rules (c ∷ cs) s q =
      let after = (anonymize_component v p masking rules c s).1 in
      ground (arith, anonymize_components-IsQuiet rules cs after)

  apply_anonymization-IsQuiet :
      (m : RestoreSetManifest) (rules : List Rule) (s : CopyState W)
      → IsQuiet s.log
      → IsQuiet (apply_anonymization v p masking m rules s).1.log
  unfolding apply_anonymization
  apply_anonymization-IsQuiet m rules s q =
      ground (arith, anonymize_components-IsQuiet rules m.components s q)

  persist_masked-IsQuiet :
      (revision : ℕ) (ref : String) (captured masked : RestoreSetManifest) (s : CopyState W)
      → IsQuiet s.log
      → IsQuiet (persist_masked v p ports revision ref captured masked s).1.log
  unfolding persist_masked is_restore
  persist_masked-IsQuiet revision ref captured masked s q =
      ground (arith, replace_raw-log v p ports revision ref captured masked s)

  persist_outcome-IsQuiet :
      (revision : ℕ) (ref : String) (captured : RestoreSetManifest) (outcome : AnonymizationOutcome)
      (s : CopyState W)
      → IsQuiet s.log
      → IsQuiet (persist_outcome v p ports revision ref captured outcome s).1.log
  unfolding persist_outcome
  persist_outcome-IsQuiet revision ref captured outcome s q =
      ground (arith, persist_masked-IsQuiet revision ref captured outcome.manifest s q)

  anonymize-IsQuiet :
      (request : CopyRequest Source Spec Credentials Rule) (revision : ℕ) (ref : String)
      (captured : RestoreSetManifest) (s : CopyState W)
      → IsQuiet s.log
      → IsQuiet (anonymize v p ports request revision ref captured s).1.log
  unfolding anonymize
  anonymize-IsQuiet request revision ref captured s q =
      let quiet = apply_anonymization-IsQuiet captured request.rules s q in
      let applied = (apply_anonymization v p masking captured request.rules s).1 in
      elim (bind-cases (apply_anonymization v p masking captured request.rules)
        (persist_outcome v p ports revision ref captured) s) [
          | inl (outcome, _, e) ↦
              rw e (persist_outcome-IsQuiet revision ref captured outcome applied quiet)
          | inr (_, _, e) ↦ rw e quiet
        ]

  pub masked_or_raw-IsQuiet :
      (request : CopyRequest Source Spec Credentials Rule) (revision : ℕ) (ref : String)
      (captured : RestoreSetManifest) (s : CopyState W)
      → IsQuiet s.log
      → IsQuiet (masked_or_raw v p ports request revision ref captured s).1.log
  unfolding masked_or_raw raw_gate
  masked_or_raw-IsQuiet request revision ref captured s q =
      ground (arith, anonymize-IsQuiet request revision ref captured s q)
