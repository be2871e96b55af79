-- ===== src/Artifacts/Copy/Permit.antt =====
-- What permits a copy to be delivered (odoo_forge/data_artifacts/coordinator.py).
use odoo_forge.Base.{
  ◌≡◌, refl, sym, ap, ◌∙◌, subst, arith, Bool, true, false, not, ◌&&◌, ok, Result, ◌⊎◌, inl, inr,
  String, ℕ, ◌<◌, Option, none, some, Bool-cases, Option-cases, ◌==◌, ==_iff, string_eq, leb,
}
use odoo_forge.Base.Lists.{IsIn}
use odoo_forge.Base.Equality.{option_eq}
use odoo_forge.Durable.{Patterns, RedactedEvidence}
use odoo_forge.Artifacts.{
  RestoreSetManifest, RestoreReadiness, CopyError, Vocabulary, ArtifactDigest, database_digest,
  digest_eq, digest_dec,
}
use odoo_forge.Artifacts.Copy.{
  Ports, CopyState, CopyRequest, RawDataGrant, persist, masked_or_raw, verified, raw_gate,
  anonymize, served_digest, is_granted, is_consistent,
}
use odoo_forge.Artifacts.Copy.Masked.{MaskedFrom, anonymize-MaskedFrom}

module _ {W Source Spec Credentials Rule : Type 0} (v : Vocabulary) (p : Patterns)
    (ports : Ports W Source Spec Credentials Rule) where
  -- A readiness that lets a masked manifest be delivered: the reference is ready, and
  -- the manifest that the store serves has the database digest of the masked one.
  pub verified-digest :
      (masked : RestoreSetManifest) (readiness : RestoreReadiness)
      → verified v p ports (some masked) readiness ≡ ok tt
      → (readiness.ready ≡ true)
        × ((served : RestoreSetManifest) × (digest : ArtifactDigest) × (readiness.manifest
              ≡ some served)
            × (database_digest served.components ≡ some digest)
            × (database_digest masked.components ≡ some digest))
  unfolding verified is_consistent served_digest digest_dec
  verified-digest masked readiness h = elim (Option-cases readiness.manifest) [
    | inl absent ↦ absurd (ground arith)
    | inr (served, there) ↦ elim (Option-cases (database_digest served.components)) [
      | inl absent ↦ absurd (ground arith)
      | inr (digest, at) ↦ (ground arith, (served, digest, there, at, ground arith))
    ]
  ]

  -- The request's grant is for its operation and environment, and has not expired at a time.
  pub record InForce (request : CopyRequest Source Spec Credentials Rule) (time : ℕ) : Type 0 where
    pub grant : RawDataGrant
    pub is_it : request.raw_grant ≡ some grant
    pub same_operation : grant.operation_id ≡ request.operation.operation_id
    pub same_environment : request.raw_grant_environment_id ≡ some grant.environment_id
    pub unexpired : time < grant.expires_at

  -- What lets a copy that started in the world `w` ask for its readiness in a state: a masked form of
  -- the captured manifest that was persisted, or a grant in force, in that world still.
  abbrev pub Permit :
      CopyRequest Source Spec Credentials Rule
      → String
      → RestoreSetManifest
      → W
      → CopyState W
      → Option RestoreSetManifest
      → Type 0
  Permit request ref captured w asked masked =
      ((m : RestoreSetManifest) × (masked ≡ some m)
        × (request.request_raw_delivery ≡ false)
        × MaskedFrom v p ports request.rules w captured m
        × IsIn (persist ref m, true) asked.log)
      ⊎ ((masked ≡ none)
          × (request.request_raw_delivery ≡ true)
          × InForce request (ports.now w)
          × (asked.world ≡ w))

  -- A readiness that lets it be delivered: the store is ready, and serves the database that was masked.
  abbrev pub Ready : Option RestoreSetManifest → RestoreReadiness → Type 0
  Ready masked readiness =
      (readiness.ready ≡ true)
      × ((m : RestoreSetManifest)
          → masked ≡ some m
          → (served : RestoreSetManifest) × (digest : ArtifactDigest) × (readiness.manifest
              ≡ some served)
            × (database_digest served.components ≡ some digest)
            × (database_digest m.components ≡ some digest))

  pub verified-Ready :
      (masked : Option RestoreSetManifest) (readiness : RestoreReadiness)
      → verified v p ports masked readiness ≡ ok tt
      → Ready masked readiness
  unfolding verified is_consistent
  verified-Ready none readiness h = (ground arith, λ m e. absurd (cc e))
  verified-Ready (some m) readiness h =
      let (ready, same) = verified-digest m readiness h in
      (
        ready,
        λ m' e.
            subst
              (λ (x : RestoreSetManifest).
                (served : RestoreSetManifest) × (digest : ArtifactDigest) × (readiness.manifest
                  ≡ some served)
                × (database_digest served.components ≡ some digest)
                × (database_digest x.components ≡ some digest))
              (same_manifest e) same,
      )
    where
      same_manifest : {a b : RestoreSetManifest} → some a ≡ some b → a ≡ b
      same_manifest h = cc h

  granted-InForce :
      (request : CopyRequest Source Spec Credentials Rule) (time : ℕ) (grant : Option RawDataGrant)
      → request.raw_grant ≡ grant
      → is_granted request.operation request.raw_grant_environment_id time grant ≡ true
      → InForce request time
  unfolding is_granted
  granted-InForce request time none e h = absurd (cc h)
  granted-InForce request time (some grant) e h =
      let tests =
        three (grant.operation_id == request.operation.operation_id)
          (some grant.environment_id == request.raw_grant_environment_id)
          (leb grant.expires_at time) h in
      record {
        grant = grant;
        is_it = e;
        same_operation = (==_iff grant.operation_id request.operation.operation_id).0 tests.0;
        same_environment =
            sym ((==_iff (some grant.environment_id) request.raw_grant_environment_id).0 tests.1);
        unexpired = later grant.expires_at time tests.2;
      }
    where
      three : (a b c : Bool) → (a && b && not c) ≡ true → (a ≡ true) × (b ≡ true) × (c ≡ false)
      three a b c h = ground arith

      later : (a b : ℕ) → leb a b ≡ false → b < a
      later a b h = ground arith

  pub masked_or_raw-Permit :
      (request : CopyRequest Source Spec Credentials Rule) (revision : ℕ) (ref : String)
      (captured : RestoreSetManifest) (s : CopyState W)
      (o : RedactedEvidence × Option RestoreSetManifest)
      → (masked_or_raw v p ports request revision ref captured s).0 ≡ ok o
      → Permit request ref captured s.world
          (masked_or_raw v p ports request revision ref captured s).1
          o.1
  unfolding masked_or_raw raw_gate
  masked_or_raw-Permit request revision ref captured s o h =
      elim (Bool-cases request.request_raw_delivery) [
        | inl raw ↦ inr (
          ground arith,
          raw,
          granted-InForce request (ports.now s.world) request.raw_grant refl (ground arith),
          ground arith,
        )
        | inr masked ↦
            let same : masked_or_raw v p ports request revision ref captured s
                ≡ anonymize v p ports request revision ref captured s =
              rw masked refl in
            let (m, some_m, from, there) =
              anonymize-MaskedFrom v p ports request revision ref captured s o
                (sym (ap (λ x. x.0) same) ∙ h) in
            inl (
              m,
              some_m,
              masked,
              from,
              subst
                  (λ (x : Result CopyError (RedactedEvidence × Option RestoreSetManifest)
                      × CopyState W).
                    IsIn (persist ref m, true) x.1.log)
                  (sym same) there,
            )
      ]
