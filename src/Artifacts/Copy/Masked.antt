-- ===== src/Artifacts/Copy/Masked.antt =====
-- What anonymizing a captured manifest (odoo_forge/data_artifacts/coordinator.py and
-- odoo_forge/anonymization/apply.py) comes to: which components are masked, and where the masked
-- manifest is kept.
use odoo_forge.Base.{
  ◌≡◌, ◌≢◌, ◌⊎◌, refl, sym, ap, ◌∙◌, subst, arith, Bool, true, false, ok, err, Result, inl, inr,
  List, [], ◌∷◌, String, ℕ, Option, some, Bool-cases, ◌==◌, ==_iff, if◌then◌else◌,
}
use odoo_forge.Base.Effects.{Exec, bind-ok, pure, lift, ◌>>=◌}
use odoo_forge.Base.Lists.{IsIn}
use odoo_forge.Base.Equality.{option_eq}
use odoo_forge.Artifacts.Copy.Reap.{phase_checkpoint_if-log}
use odoo_forge.Durable.{Patterns, RedactedEvidence}
use odoo_forge.Artifacts.{
  RestoreSetManifest, RestoreSetComponent, database, kind_eq, kind_dec, CopyError, Vocabulary,
  AnonymizationOutcome, anonymize_components, anonymize_component, apply_anonymization,
  data_artifact_ref, database_digest, digest_eq, DiscardOutcome, restore_set_manifest, evidence_of,
}
use odoo_forge.Artifacts.Copy.{
  Ports, CopyState, CopyRequest, mask, persist, observe, returned, anonymize, persist_masked,
  persist_outcome, replace_raw, supersede, phase_checkpoint_if, discard, is_residual, shadow_of,
}

module _ {W Source Spec Credentials Rule : Type 0} (v : Vocabulary) (p : Patterns)
    (ports : Ports W Source Spec Credentials Rule) where
  -- In a world, the mask answers for each database component, one after the other; the others stay.
  pub data Masked (rules : List Rule)
      : W → List RestoreSetComponent → List RestoreSetComponent → W → Type 0 where
    done : {w : W} → Masked rules w [] [] w
    masked :
        {w last : W} {c answer : RestoreSetComponent} {cs answers : List RestoreSetComponent}
        → c.kind ≡ database
        → (ports.mask_transform c rules w).0 ≡ ok answer
        → Masked rules (ports.mask_transform c rules w).1 cs answers last
        → Masked rules w (c ∷ cs) (answer ∷ answers) last
    kept :
        {w last : W} {c : RestoreSetComponent} {cs answers : List RestoreSetComponent}
        → c.kind ≢ database
        → Masked rules w cs answers last
        → Masked rules w (c ∷ cs) (c ∷ answers) last

  abbrev masking :
      RestoreSetComponent → List Rule → Exec (CopyState W) CopyError RestoreSetComponent
  masking c rules = observe (mask c) (ports.mask_transform c rules)

  ok_inj : {A : Type 0} {a b : A} (r : Result CopyError A) → r ≡ ok a → r ≡ ok b → a ≡ b
  ok_inj r h k = cc (sym h ∙ k)

  component_cases :
      (rules : List Rule) (c : RestoreSetComponent) (s : CopyState W)
      → ((c.kind ≡ database) × (anonymize_component v p masking rules c s ≡ masking c rules s))
        ⊎ ((c.kind ≢ database) × (anonymize_component v p masking rules c s ≡ (ok c, s)))
  unfolding anonymize_component
  component_cases rules c s = elim (Bool-cases (c.kind == database)) [
    | inl same ↦ inl ((==_iff c.kind database).0 same, rw same refl)
    | inr other ↦ inr ((λ e. cc ((==_iff c.kind database).1 e, other)), rw other refl)
  ]

  one :
      (rules : List Rule) (c : RestoreSetComponent) (cs : List RestoreSetComponent)
      (m : RestoreSetComponent) (others : List RestoreSetComponent) (last : W) (s : CopyState W)
      → (anonymize_component v p masking rules c s).0 ≡ ok m
      → Masked rules (anonymize_component v p masking rules c s).1.world cs others last
      → Masked rules s.world (c ∷ cs) (m ∷ others) last
  one rules c cs m others last s first tail = elim (component_cases rules c s) [
    | inl (is_database, e) ↦
        masked is_database (sym (ap (λ x. x.0) e) ∙ first)
          (subst (λ x. Masked rules x.1.world cs others last) e tail)
    | inr (other, e) ↦
        subst (λ a. Masked rules s.world (c ∷ cs) (a ∷ others) last)
          (ok_inj _ refl (sym (ap (λ x. x.0) e) ∙ first))
          (kept other (subst (λ x. Masked rules x.1.world cs others last) e tail))
  ]

  anonymize_components-Masked :
      (rules : List Rule) (cs answers : List RestoreSetComponent) (s : CopyState W)
      → (anonymize_components v p masking rules cs s).0 ≡ ok answers
      → (last : W) × Masked rules s.world cs answers last
  unfolding anonymize_components anonymize_component kind_dec
  anonymize_components-Masked rules [] answers s h =
      (s.world, subst (λ a. Masked rules s.world [] a s.world) (ok_inj _ refl h) done)
  anonymize_components-Masked rules (c ∷ cs) answers s h =
      let rest = λ (m : RestoreSetComponent).
        anonymize_components v p masking rules cs >>= λ others. pure (m ∷ others) in
      let (m, first, e) = bind-ok (anonymize_component v p masking rules c) rest s h in
      let after : CopyState W = (anonymize_component v p masking rules c s).1 in
      let h' : (rest m after).0 ≡ ok answers = sym (ap (λ x. x.0) e) ∙ h in
      let (others, later, e') =
        bind-ok (anonymize_components v p masking rules cs) (λ others. pure (m ∷ others)) after
          h' in
      let (last, tail) = anonymize_components-Masked rules cs others after later in
      (
        last,
        subst (λ a. Masked rules s.world (c ∷ cs) a last)
            (ok_inj (rest m after).0 (ap (λ x. x.0) e') h')
            (one rules c cs m others last s first tail),
      )

  -- The masked form of a manifest: its components are masked from a world on.
  pub record MaskedFrom (rules : List Rule) (w : W) (captured m : RestoreSetManifest) : Type 0 where
    pub components : List RestoreSetComponent
    pub is_it : m ≡ record captured { components = components }
    pub last : W
    pub each : Masked rules w captured.components components last

  checked_manifest :
      (m checked : RestoreSetManifest) → restore_set_manifest v m ≡ ok checked → m ≡ checked
  unfolding restore_set_manifest
  checked_manifest m checked h = ground arith

  outcome_manifest :
      (r : Result CopyError RestoreSetManifest) (e : Result CopyError RedactedEvidence)
      (t : CopyState W) (o : AnonymizationOutcome)
      → ((lift r >>= λ m.
            lift e >>= λ evidence. pure (record { manifest = m; evidence = evidence }))
          t).0
        ≡ ok o
      → r ≡ ok o.manifest
  outcome_manifest (ok m) (ok e) t o h =
      ap (λ (x : AnonymizationOutcome). ok x.manifest) (ok_inj _ refl h)
  outcome_manifest (ok m) (err e) t o h = absurd (cc h)
  outcome_manifest (err e) r t o h = absurd (cc h)

  apply_anonymization-MaskedFrom :
      (captured : RestoreSetManifest) (rules : List Rule) (s : CopyState W)
      (o : AnonymizationOutcome)
      → (apply_anonymization v p masking captured rules s).0 ≡ ok o
      → MaskedFrom rules s.world captured o.manifest
  unfolding apply_anonymization
  apply_anonymization-MaskedFrom captured rules s o h =
      let (components, first, e) =
        bind-ok (anonymize_components v p masking rules captured.components) _ s h in
      let (last, each) = anonymize_components-Masked rules captured.components components s first in
      record {
        components = components;
        is_it =
            same_manifest components
              (anonymize_components v p masking rules captured.components s).1
              (sym (ap (λ x. x.0) e) ∙ h);
        last = last;
        each = each;
      }
    where
      same_manifest :
          (components : List RestoreSetComponent) (t : CopyState W)
          → ((lift (restore_set_manifest v (record captured { components = components })) >>= λ m.
                lift (
                  evidence_of p "anonymization_applied"
                    "anonymization policy applied before delivery"
                    (captured.lineage_id ∷ []))
                >>= λ evidence. pure (record { manifest = m; evidence = evidence }))
              t).0
            ≡ ok o
          → o.manifest ≡ record captured { components = components }
      same_manifest components t k = sym (
          checked_manifest (record captured { components = components }) o.manifest
            (outcome_manifest _ _ t o k))

  -- A manifest that is put in the place of the captured one is persisted under the reference.
  checkpointed :
      (b : Bool) (revision : ℕ) (phase summary lineage_id : String)
      (stored : Result CopyError (Unit {0})) (s : CopyState W)
      → ((phase_checkpoint_if v p ports b revision phase summary lineage_id >>= λ _. lift stored)
          s).0
        ≡ ok tt
      → stored ≡ ok tt
  checkpointed b revision phase summary lineage_id stored s h =
      let (_, _, e) =
        bind-ok (phase_checkpoint_if v p ports b revision phase summary lineage_id)
          (λ _. lift stored) s h in
      sym (ap (λ x. x.0) e) ∙ h

  supersede-persisted :
      (revision : ℕ) (ref shadow lineage_id : String) (m : RestoreSetManifest) (s : CopyState W)
      → (supersede v p ports revision ref shadow m lineage_id s).0 ≡ ok tt
      → IsIn (persist ref m, true) (supersede v p ports revision ref shadow m lineage_id s).1.log
  unfolding supersede
  supersede-persisted revision ref shadow lineage_id m s h =
      let stored : Result CopyError (Unit {0}) = (ports.manifest_persistence ref m s.world).0 in
      let asked : CopyState W = (observe (persist ref m) (ports.manifest_persistence ref m) s).1 in
      let reaped : Result CopyError DiscardOutcome = (ports.discard_ref shadow asked.world).0 in
      let last : CopyState W = (observe (discard shadow) (ports.discard_ref shadow) asked).1 in
      let done : stored ≡ ok tt =
        checkpointed (is_residual reaped) revision "raw_reap_residual"
          "raw pre-mask blob reap left a residual failure" lineage_id stored last h in
      let log : (supersede v p ports revision ref shadow m lineage_id s).1.log
          ≡ (discard shadow, returned reaped) ∷ (persist ref m, returned stored) ∷ s.log =
        ground (
          arith,
          phase_checkpoint_if-log v p ports (is_residual reaped) revision "raw_reap_residual"
              "raw pre-mask blob reap left a residual failure" lineage_id last,
        ) in
      subst (IsIn (persist ref m, true)) (sym log)
        (inr (inl (ap (λ (r : Result CopyError (Unit {0})). (persist ref m, returned r)) done)))

  replace_raw-persisted :
      (revision : ℕ) (ref : String) (captured m : RestoreSetManifest) (s : CopyState W)
      → (replace_raw v p ports revision ref captured m s).0 ≡ ok tt
      → IsIn (persist ref m, true) (replace_raw v p ports revision ref captured m s).1.log
  unfolding replace_raw
  replace_raw-persisted revision ref captured m s h =
      let rest = λ (shadow : String).
        observe (persist shadow captured) (ports.manifest_persistence shadow captured) >>= λ _.
        supersede v p ports revision ref shadow m captured.lineage_id in
      let (shadow, _, e) =
        bind-ok (lift (data_artifact_ref v (shadow_of v p ports captured.restore_set_id))) rest s
          h in
      let asked = observe (persist shadow captured) (ports.manifest_persistence shadow captured) in
      let h' : (rest shadow s).0 ≡ ok tt = sym (ap (λ x. x.0) e) ∙ h in
      let (_, _, e') =
        bind-ok asked (λ _. supersede v p ports revision ref shadow m captured.lineage_id) s h' in
      subst (λ (x : Result CopyError (Unit {0}) × CopyState W). IsIn (persist ref m, true) x.1.log)
        (sym (e ∙ e'))
        (supersede-persisted revision ref shadow captured.lineage_id m (asked s).1
          (sym (ap (λ x. x.0) e') ∙ h'))

  persist_masked-persisted :
      (revision : ℕ) (ref : String) (captured m : RestoreSetManifest) (s : CopyState W)
      → (persist_masked v p ports revision ref captured m s).0 ≡ ok tt
      → IsIn (persist ref m, true) (persist_masked v p ports revision ref captured m s).1.log
  unfolding persist_masked
  persist_masked-persisted revision ref captured m s h =
      either (database_digest m.components == database_digest captured.components) h
    where
      either :
          (b : Bool)
          → ((if b
                then observe (persist ref m) (ports.manifest_persistence ref m)
                else replace_raw v p ports revision ref captured m)
              s).0
            ≡ ok tt
          → IsIn
              (persist ref m, true)
              ((if b
                  then observe (persist ref m) (ports.manifest_persistence ref m)
                  else replace_raw v p ports revision ref captured m)
                s).1.log
      either true k = inl (ap (λ (r : Result CopyError (Unit {0})). (persist ref m, returned r)) k)
      either false k = replace_raw-persisted revision ref captured m s k

  -- What anonymizing returns: the masked manifest, persisted under the reference.
  pub anonymize-MaskedFrom :
      (request : CopyRequest Source Spec Credentials Rule) (revision : ℕ) (ref : String)
      (captured : RestoreSetManifest) (s : CopyState W)
      (o : RedactedEvidence × Option RestoreSetManifest)
      → (anonymize v p ports request revision ref captured s).0 ≡ ok o
      → (m : RestoreSetManifest) × (o.1 ≡ some m)
        × MaskedFrom request.rules s.world captured m
        × IsIn (persist ref m, true) (anonymize v p ports request revision ref captured s).1.log
  unfolding anonymize persist_outcome
  anonymize-MaskedFrom request revision ref captured s o h =
      let (outcome, applied, e) =
        bind-ok (apply_anonymization v p masking captured request.rules)
          (persist_outcome v p ports revision ref captured) s h in
      let after : CopyState W = (apply_anonymization v p masking captured request.rules s).1 in
      let h' : (persist_outcome v p ports revision ref captured outcome after).0 ≡ ok o =
        sym (ap (λ x. x.0) e) ∙ h in
      let (_, stored, e') =
        bind-ok (persist_masked v p ports revision ref captured outcome.manifest)
          (λ _. pure (outcome.evidence, some outcome.manifest)) after h' in
      (
        outcome.manifest,
        sym (
            ap (λ (x : RedactedEvidence × Option RestoreSetManifest). x.1)
              (ok_inj _ (ap (λ x. x.0) e') h')),
        apply_anonymization-MaskedFrom captured request.rules s outcome applied,
        subst
            (λ (x : Result CopyError (RedactedEvidence × Option RestoreSetManifest) × CopyState W).
              IsIn (persist ref outcome.manifest, true) x.1.log)
            (sym (e ∙ e'))
            (persist_masked-persisted revision ref captured outcome.manifest after stored),
      )
