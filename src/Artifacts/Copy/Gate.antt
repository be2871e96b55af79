-- ===== src/Artifacts/Copy/Gate.antt =====
-- What must hold before a copy restores anything (odoo_forge/data_artifacts/coordinator.py).
use odoo_forge.Base.{
  ◌≡◌, refl, ap, ◌∙◌, subst, true, ok, err, Result, ◌⊎◌, inl, inr, ◌∷◌, String, ℕ, Option,
  string_eq,
}
use odoo_forge.Base.Effects.{bind-cases, ◌>>=◌, lift}
use odoo_forge.Base.Equality.{option_eq}
use odoo_forge.Durable.{Patterns, RedactedEvidence, DurableCheckpoint}
use odoo_forge.Artifacts.{RestoreSetManifest, RestoreReadiness, CopyError, Vocabulary, digest_eq}
use odoo_forge.Artifacts.Copy.{
  Ports, CopyState, CopyRequest, returned, CoordinatedCopyResult, validate, phase_checkpoint,
  checkpoint, deliver, process, observe, masked_or_raw, verified, deliver_verified, verify,
  record_masked,
}
use odoo_forge.Artifacts.Copy.Quiet.{
  is_restore, IsQuiet, phase_checkpoint-log, checkpoint-log, phase_checkpoint-world,
  checkpoint-world, masked_or_raw-IsQuiet,
}
use odoo_forge.Artifacts.Copy.Permit.{Permit, Ready, verified-Ready, masked_or_raw-Permit}

module _ {W Source Spec Credentials Rule : Type 0} (v : Vocabulary) (p : Patterns)
    (ports : Ports W Source Spec Credentials Rule) where
  -- Where a copy of a captured manifest that started in the world `w` stands with a reference: stopped by
  -- an error before anything was restored; or at its delivery, from what the store has left when it
  -- answered with the readiness, with nothing restored yet and a permit.
  abbrev pub Gated :
      CopyRequest Source Spec Credentials Rule
      → ℕ
      → String
      → RestoreSetManifest
      → W
      → Result CopyError CoordinatedCopyResult × CopyState W
      → Type 0
  Gated request revision ref captured w outcome =
      ((e : CopyError) × (outcome.0 ≡ err e) × IsQuiet outcome.1.log)
      ⊎ ((masked : Option RestoreSetManifest) × (readiness : RestoreReadiness)
          × (last : DurableCheckpoint) × (asked t : CopyState W) × Permit v p ports request ref
              captured w asked masked
          × (ports.validate_for_restore ref asked.world ≡ (ok readiness, t.world))
          × (t.log ≡ (validate ref, true) ∷ asked.log)
          × Ready v p ports masked readiness
          × IsQuiet t.log
          × (outcome ≡ deliver v p ports request revision ref captured.lineage_id last t))

  module _ (request : CopyRequest Source Spec Credentials Rule) (revision : ℕ) (ref : String)
      (captured : RestoreSetManifest) (w : W) where
    deliver_verified-Gated :
        (masked : Option RestoreSetManifest) (readiness : RestoreReadiness) (asked s : CopyState W)
        → Permit v p ports request ref captured w asked masked
        → ports.validate_for_restore ref asked.world ≡ (ok readiness, s.world)
        → s.log ≡ (validate ref, true) ∷ asked.log
        → Ready v p ports masked readiness
        → IsQuiet s.log
        → Gated request revision ref captured w
            (deliver_verified v p ports request revision ref captured s)
    unfolding deliver_verified
    deliver_verified-Gated masked readiness asked s permit answered called ready q =
        let m =
          phase_checkpoint v p ports revision "integrity_verified"
            "digest re-verified before delivery" captured.lineage_id in
        let same =
          phase_checkpoint-log v p ports revision "integrity_verified"
            "digest re-verified before delivery" captured.lineage_id s in
        let still =
          phase_checkpoint-world v p ports revision "integrity_verified"
            "digest re-verified before delivery" captured.lineage_id s in
        let quiet : IsQuiet (m s).1.log = rw same q in
        elim (bind-cases m (λ last. deliver v p ports request revision ref captured.lineage_id last)
          s) [
            | inl (last, _, e) ↦ inr (
              masked,
              readiness,
              last,
              asked,
              (m s).1,
              permit,
              rw still answered,
              same ∙ called,
              ready,
              quiet,
              e,
            )
            | inr (failure, _, e) ↦ inl (failure, rw e refl, rw e quiet)
          ]

    verify-Gated :
        (masked : Option RestoreSetManifest) (s : CopyState W)
        → Permit v p ports request ref captured w s masked
        → IsQuiet s.log
        → Gated request revision ref captured w
            (verify v p ports request revision ref captured masked s)
    unfolding verify is_restore
    verify-Gated masked s permit q =
        let m = observe (validate ref) (ports.validate_for_restore ref) in
        let f = λ (readiness : RestoreReadiness).
          lift (verified v p ports masked readiness) >>= λ _.
          deliver_verified v p ports request revision ref captured in
        elim (bind-cases m f s) [
          | inr (failure, _, e) ↦ inl (failure, rw e refl, rw e (refl, q))
          | inl (readiness, answer, e) ↦
              elim (bind-cases (lift (verified v p ports masked readiness))
                (λ _. deliver_verified v p ports request revision ref captured) (m s).1) [
                  | inl (_, ready, e2) ↦
                      rw (e, e2)
                        (deliver_verified-Gated masked readiness s (m s).1 permit
                          (ap (λ r. (r, (ports.validate_for_restore ref s.world).1)) answer)
                          (ap
                            (λ (r : Result CopyError RestoreReadiness).
                              (validate ref, returned r) ∷ s.log)
                            answer)
                          (verified-Ready v p ports masked readiness ready) (refl, q))
                  | inr (failure, _, e2) ↦ inl (failure, rw (e, e2) refl, rw (e, e2) (refl, q))
                ]
        ]

    record_masked-Gated :
        (evidence : RedactedEvidence) (masked : Option RestoreSetManifest) (s : CopyState W)
        → Permit v p ports request ref captured w s masked
        → IsQuiet s.log
        → Gated request revision ref captured w
            (record_masked v p ports request revision ref captured (evidence, masked) s)
    unfolding record_masked
    record_masked-Gated evidence masked s permit q =
        let m = checkpoint v p ports revision "anonymized" evidence in
        let quiet : IsQuiet (m s).1.log =
          rw (checkpoint-log v p ports revision "anonymized" evidence s) q in
        elim (bind-cases m (λ _. verify v p ports request revision ref captured masked) s) [
          | inl (_, _, e) ↦ rw e (
              verify-Gated masked (m s).1
                (rw
                  (
                    checkpoint-log v p ports revision "anonymized" evidence s,
                    checkpoint-world v p ports revision "anonymized" evidence s,
                  )
                  permit)
                quiet)
          | inr (failure, _, e) ↦ inl (failure, rw e refl, rw e quiet)
        ]

    masked_or_raw-Gated :
        (s : CopyState W)
        → s.world ≡ w
        → IsQuiet s.log
        → Gated request revision ref captured w (
            (masked_or_raw v p ports request revision ref captured >>= λ o.
            record_masked v p ports request revision ref captured o)
              s)
    masked_or_raw-Gated s here q =
        let m = masked_or_raw v p ports request revision ref captured in
        let quiet = masked_or_raw-IsQuiet v p ports request revision ref captured s q in
        elim (bind-cases m (λ o. record_masked v p ports request revision ref captured o) s) [
          | inl (o, returns, e) ↦ rw e (
              record_masked-Gated o.0 o.1 (m s).1
                (subst (λ w. Permit v p ports request ref captured w (m s).1 o.1) here
                  (masked_or_raw-Permit v p ports request revision ref captured s o returns))
                quiet)
          | inr (failure, _, e) ↦ inl (failure, rw e refl, rw e quiet)
        ]

  -- From a log without a restore, processing a captured manifest stops with an error and no restore,
  -- or ends as its delivery does, with no restore so far, from the world that the store left when it
  -- answered, last of all, that the reference is ready. Where raw data is not requested, the masked
  -- manifest is persisted under the reference before that: its database components are what the mask
  -- answered for the captured ones, by the request's rules and from the first world on, and its other
  -- components are the captured ones; and the store serves a database of the same digest. Where raw data
  -- is requested, the store is asked in the first world itself, and the request's grant, for its
  -- operation and environment, expires after the time that the clock shows there.
  pub process-Gated :
      (request : CopyRequest Source Spec Credentials Rule) (revision : ℕ) (ref : String)
      (captured : RestoreSetManifest) (s : CopyState W)
      → IsQuiet s.log
      → Gated request revision ref captured s.world
          (process v p ports request revision ref captured s)
  unfolding process
  process-Gated request revision ref captured s q =
      let m =
        phase_checkpoint v p ports revision "captured" "capture completed" captured.lineage_id in
      let f = masked_or_raw v p ports request revision ref captured >>= λ o.
      record_masked v p ports request revision ref captured o in
      let quiet : IsQuiet (m s).1.log =
        rw
          (phase_checkpoint-log v p ports revision "captured" "capture completed"
            captured.lineage_id s)
          q in
      let here : (m s).1.world ≡ s.world =
        phase_checkpoint-world v p ports revision "captured" "capture completed" captured.lineage_id
          s in
      elim (bind-cases m (λ _. f) s) [
        | inl (_, _, e) ↦
            rw e (masked_or_raw-Gated request revision ref captured s.world (m s).1 here quiet)
        | inr (failure, _, e) ↦ inl (failure, rw e refl, rw e quiet)
      ]
