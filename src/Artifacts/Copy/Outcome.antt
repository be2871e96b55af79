-- ===== src/Artifacts/Copy/Outcome.antt =====
-- What a copy leaves in `last_state` (odoo_forge/data_artifacts/coordinator.py).
use odoo_forge.Base.{
  ◌≡◌, refl, arith, Bool, true, false, ok, err, Result, ◌⊎◌, inl, inr, [], ◌∷◌, String, ℕ, Option,
  none, some, Bool-cases,
}
use odoo_forge.Base.Equality.{string_dec}
use odoo_forge.Values.{DatabaseCreation}
use odoo_forge.Base.Effects.{bind-ok, ◌>>=◌}
use odoo_forge.Durable.{
  Patterns, RedactedEvidence, succeeded, in_progress, cleanup_required, DurableCheckpoint,
  build_terminal_commit, save_checkpoint, advance_lifecycle, state_dec,
}
use odoo_forge.Artifacts.{RestoreSetManifest, CopyError, Vocabulary, evidence_of}
use odoo_forge.Artifacts.Copy.{
  Ports, CopyState, CopyRequest, CoordinatedCopyResult, restore, validate, discard, is_residual,
  phase_checkpoint_if, phase_checkpoint, checkpoint, discard_staged, deliver, process, compensate,
  compensating, discard_owned, run, compensated_process, conclude, captured_ref, observe,
  masked_or_raw, deliver_verified, verify, record_masked,
}

module _ {W Source Spec Credentials Rule : Type 0} (v : Vocabulary) (p : Patterns)
    (ports : Ports W Source Spec Credentials Rule) where
  phase_checkpoint_if-state :
      (b : Bool) (revision : ℕ) (phase summary lineage_id : String) (s : CopyState W)
      → (phase_checkpoint_if v p ports b revision phase summary lineage_id s).1.last_state
        ≡ s.last_state
  unfolding phase_checkpoint_if phase_checkpoint checkpoint
  phase_checkpoint_if-state false revision phase summary lineage_id s = refl
  phase_checkpoint_if-state true revision phase summary lineage_id s = ground arith

  discard_staged-state :
      (retain : Bool) (revision : ℕ) (ref lineage_id : String) (s : CopyState W)
      → (discard_staged v p ports retain revision ref lineage_id s).1.last_state ≡ s.last_state
  unfolding discard_staged
  discard_staged-state true revision ref lineage_id s = refl
  discard_staged-state false revision ref lineage_id s =
      let (discarded, after) = observe (discard ref) (ports.discard_ref ref) s in
      ground (
        arith,
        phase_checkpoint_if-state (is_residual discarded) revision "discard_on_success_residual"
            "discard-on-success left a residual failure" lineage_id after,
      )

  discard_staged-returns :
      (retain : Bool) (revision : ℕ) (ref lineage_id : String) (s : CopyState W)
      (evidence : RedactedEvidence)
      → evidence_of p "discard_on_success_residual" "discard-on-success left a residual failure"
          (lineage_id ∷ [])
        ≡ ok evidence
      → (discard_staged v p ports retain revision ref lineage_id s).0 ≡ ok tt
  unfolding discard_staged phase_checkpoint_if phase_checkpoint checkpoint save_checkpoint
      string_dec
  discard_staged-returns true revision ref lineage_id s evidence built = refl
  discard_staged-returns false revision ref lineage_id s evidence built =
      let discarded = (observe (discard ref) (ports.discard_ref ref) s).0 in
      elim (Bool-cases (is_residual discarded)) [ inl e ↦ rw (e, built) refl | inr e ↦ rw e refl ]

  deliver-state :
      (request : CopyRequest Source Spec Credentials Rule) (revision : ℕ) (ref lineage_id : String)
      (last : DurableCheckpoint) (s : CopyState W) (r : CoordinatedCopyResult)
      → (deliver v p ports request revision ref lineage_id last s).0 ≡ ok r
      → ((deliver v p ports request revision ref lineage_id last s).1.last_state ≡ succeeded)
        × (r.state ≡ succeeded)
  unfolding deliver build_terminal_commit conclude
  deliver-state request revision ref lineage_id last s r h =
      let after =
        (observe (restore ref) (ports.restore_database request.spec ref request.credentials) s).1 in
      ground (
        arith,
        discard_staged-state request.retain_staged revision ref lineage_id
            (record after { last_state = succeeded }),
      )

  deliver_verified-state :
      (request : CopyRequest Source Spec Credentials Rule) (revision : ℕ) (ref : String)
      (captured : RestoreSetManifest) (s : CopyState W) (r : CoordinatedCopyResult)
      → (deliver_verified v p ports request revision ref captured s).0 ≡ ok r
      → ((deliver_verified v p ports request revision ref captured s).1.last_state ≡ succeeded)
        × (r.state ≡ succeeded)
  unfolding deliver_verified
  deliver_verified-state request revision ref captured s r h =
      let m =
        phase_checkpoint v p ports revision "integrity_verified"
          "digest re-verified before delivery" captured.lineage_id in
      let f = λ (last : DurableCheckpoint).
        deliver v p ports request revision ref captured.lineage_id last in
      let (last, _, e) = bind-ok m f s h in
      rw e (deliver-state request revision ref captured.lineage_id last (m s).1 r (rw e at h))

  record_masked-state :
      (request : CopyRequest Source Spec Credentials Rule) (revision : ℕ) (ref : String)
      (captured : RestoreSetManifest) (evidence : RedactedEvidence)
      (masked : Option RestoreSetManifest) (s : CopyState W) (r : CoordinatedCopyResult)
      → (record_masked v p ports request revision ref captured (evidence, masked) s).0 ≡ ok r
      → ((record_masked v p ports request revision ref captured (evidence, masked) s).1.last_state
          ≡ succeeded)
        × (r.state ≡ succeeded)
  unfolding record_masked verify
  record_masked-state request revision ref captured evidence masked s r h =
      let after =
        (observe (validate ref) (ports.validate_for_restore ref)
          (checkpoint v p ports revision "anonymized" evidence s).1).1 in
      ground (arith, deliver_verified-state request revision ref captured after r)

  process-state :
      (request : CopyRequest Source Spec Credentials Rule) (revision : ℕ) (ref : String)
      (captured : RestoreSetManifest) (s : CopyState W) (r : CoordinatedCopyResult)
      → (process v p ports request revision ref captured s).0 ≡ ok r
      → ((process v p ports request revision ref captured s).1.last_state ≡ succeeded)
        × (r.state ≡ succeeded)
  unfolding process phase_checkpoint
  process-state request revision ref captured s r h =
      let rest = λ (o : RedactedEvidence × Option RestoreSetManifest).
        record_masked v p ports request revision ref captured o in
      let (saved, _, e1) =
        bind-ok
          (phase_checkpoint v p ports revision "captured" "capture completed" captured.lineage_id)
          (λ _. masked_or_raw v p ports request revision ref captured >>= rest) s h in
      let (outcome, _, e2) =
        bind-ok (masked_or_raw v p ports request revision ref captured) rest
          (phase_checkpoint v p ports revision "captured" "capture completed" captured.lineage_id
            s).1
          (rw e1 at h) in
      rw (e1, e2)
        (record_masked-state request revision ref captured outcome.0 outcome.1 _ r
          (rw (e1, e2) at h))

  compensate-state :
      (operation_id : String) (revision : ℕ) (ref : Option String) (s : CopyState W)
      (evidence : RedactedEvidence)
      → evidence_of p "capture_copy_failed"
          "capture-anonymize-deliver operation failed before completion" []
        ≡ ok evidence
      → ((compensate v p ports operation_id revision ref s).0 ≡ ok tt)
        × ((compensate v p ports operation_id revision ref s).1.last_state ≡ cleanup_required)
  unfolding compensate build_terminal_commit advance_lifecycle state_dec discard_owned
  compensate-state operation_id revision none s evidence built = rw built (refl, refl)
  compensate-state operation_id revision (some ref) s evidence built = ground arith

  -- How a copy ends: a success, in its result and in `last_state`, or an error with cleanup required.
  abbrev pub Outcome : Result CopyError CoordinatedCopyResult × CopyState W → Type 0
  Outcome o =
      ((r : CoordinatedCopyResult) × (o.0 ≡ ok r)
        × (r.state ≡ succeeded)
        × (o.1.last_state ≡ succeeded))
      ⊎ ((e : CopyError) × (o.0 ≡ err e) × (o.1.last_state ≡ cleanup_required))

  compensated_process-last_state :
      (request : CopyRequest Source Spec Credentials Rule) (revision : ℕ)
      (captured : RestoreSetManifest) (ref : String) (s : CopyState W) (evidence : RedactedEvidence)
      → evidence_of p "capture_copy_failed"
          "capture-anonymize-deliver operation failed before completion" []
        ≡ ok evidence
      → Outcome (compensated_process v p ports request revision (captured, ref) s)
  unfolding compensated_process
  compensated_process-last_state request revision captured ref s evidence built =
      go (process v p ports request revision ref captured s).0 refl
    where
      go :
          (o : Result CopyError CoordinatedCopyResult)
          → (process v p ports request revision ref captured s).0 ≡ o
          → Outcome (compensated_process v p ports request revision (captured, ref) s)
      go (ok r) h =
          let (state, reported) = process-state request revision ref captured s r h in
          inl (r, rw h refl, reported, rw h state)
      go (err e) h =
          let (done, state) =
            compensate-state request.operation.operation_id revision (some ref)
              (process v p ports request revision ref captured s).1 evidence built in
          inr (e, rw (h, done) refl, rw (h, done) state)

  abbrev started : CopyState W → CopyState W
  started s = record s { last_state = in_progress; checkpoints = [] }

  -- A copy that returns reports a success, in its result and in `last_state`. One that raises leaves
  -- `last_state` at `cleanup_required`, provided that the evidence of a failure is redacted text.
  pub run-last_state :
      (request : CopyRequest Source Spec Credentials Rule) (s : CopyState W)
      (evidence : RedactedEvidence)
      → evidence_of p "capture_copy_failed"
          "capture-anonymize-deliver operation failed before completion" []
        ≡ ok evidence
      → Outcome (run v p ports request s)
  unfolding run compensating advance_lifecycle state_dec
  run-last_state request s evidence built =
      go (captured_ref v p ports request.source (started s)).0 refl
    where
      go :
          (o : Result CopyError (RestoreSetManifest × String))
          → (captured_ref v p ports request.source (started s)).0 ≡ o
          → Outcome (run v p ports request s)
      go (ok (captured, ref)) h = rw h (
          compensated_process-last_state request 1 captured ref
            (captured_ref v p ports request.source (started s)).1 evidence built)
      go (err e) h =
          let (done, state) =
            compensate-state request.operation.operation_id 1 none
              (captured_ref v p ports request.source (started s)).1 evidence built in
          inr (e, rw (h, done) refl, rw (h, done) state)

  -- A restore that returns makes its delivery return, with the same creation, provided that the
  -- residue of a discard can be put as redacted text: what becomes of the staged copy is no error.
  pub deliver-returns :
      (request : CopyRequest Source Spec Credentials Rule) (revision : ℕ) (ref lineage_id : String)
      (last : DurableCheckpoint) (s : CopyState W) (creation : DatabaseCreation)
      (evidence : RedactedEvidence)
      → (ports.restore_database request.spec ref request.credentials s.world).0 ≡ ok creation
      → evidence_of p "discard_on_success_residual" "discard-on-success left a residual failure"
          (lineage_id ∷ [])
        ≡ ok evidence
      → (r : CoordinatedCopyResult) × ((deliver v p ports request revision ref lineage_id last s).0
          ≡ ok r)
        × (r.creation ≡ creation)
        × (r.state ≡ succeeded)
  unfolding deliver build_terminal_commit conclude
  deliver-returns request revision ref lineage_id last s creation evidence restored built =
      let after =
        (observe (restore ref) (ports.restore_database request.spec ref request.credentials) s).1 in
      let there : CopyState W = record after { last_state = succeeded } in
      let kept =
        discard_staged-returns request.retain_staged revision ref lineage_id there evidence built in
      (
        record {
          creation = creation;
          checkpoints =
              (discard_staged v p ports request.retain_staged revision ref lineage_id
                there).1.checkpoints;
          state = succeeded;
        },
        ground (arith, kept),
        refl,
        refl,
      )
