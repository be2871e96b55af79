-- ===== src/Deployment/Truth.antt =====
-- Every receipt that a deployment records rests on terminal evidence (odoo_forge/remote_deployment.py).
use odoo_forge.Base.{
  ◌≡◌, refl, sym, ap, ◌∙◌, subst, ==_iff, arith, Bool, true, false, ok, err, Result, ◌⊎◌, inl, inr,
  List, ◌∷◌, Option, none, some, Bool-cases, ◌&&◌, ◌==◌,
}
use odoo_forge.Base.Effects.{
  Exec, Session, bind-cases, bind-ok, ◌>>=◌, ◌>>◌, perform, pure, require,
}
use odoo_forge.Base.Lists.{All}
use odoo_forge.Values.{DurableOperationIdentity, identity_eq}
use odoo_forge.Durable.{succeeded, failed, DurableOperationRecord, state_dec, state_eq}
use odoo_forge.Backend.{InstanceRef}
use odoo_forge.Deployment.Exposure.{
  ExposureResult, ExposureRequest, ExposureIntent, exposure_request, ready, exposure_outcome_eq,
}
use odoo_forge.Deployment.{
  RemoteDeploymentRequest, RemoteDeploymentReceipt, DeploymentError, Call, Ports, Exposed, recorded,
  run, reconcile, valid_terminal, failure_receipt, failed_record, record_failed,
  after_runtime_record, record_validated_failure, or_record_failure, is_exposed, after_reconcile,
  reconciled, expose_asked, expose_with, expose_for, expose, success_receipt, record_success,
  expose_recorded, checked_record, after_run, start_run, deploy, load_record, record_receipt,
  exposure_request_of, is_requested, is_owned, is_intended, is_distinct, Step, exposure_incomplete,
  ownership_inconsistent, no_exposure_intent, same_operation,
}

module _ {W Credentials Plan : Type 0} (ports : Ports W Credentials Plan)
    (request : RemoteDeploymentRequest Credentials Plan) where
  abbrev pub State : Type 0
  State = Session W (Call Credentials Plan)

  -- The record of a failure: the record of the operation that failed is terminal and failed, and
  -- where that is an exposure, the runtime's is terminal and succeeded.
  abbrev pub IsFailure : RemoteDeploymentReceipt → Type 0
  IsFailure r =
      (r.outcome ≡ failed)
      × (valid_terminal r.runtime_terminal_record request.runtime_operation ≡ true)
      × (((r.exposure_operation ≡ none) × (r.runtime_terminal_record.lifecycle ≡ failed))
          ⊎ ((operation : DurableOperationIdentity) × (exposure : DurableOperationRecord)
              × (r.exposure_operation ≡ some operation)
              × (r.exposure_terminal_record ≡ some exposure)
              × (r.runtime_terminal_record.lifecycle ≡ succeeded)
              × (valid_terminal exposure operation ≡ true)
              × (exposure.lifecycle ≡ failed)))

  -- The record is terminal and succeeded, and the answer, for the same operation, is ready.
  abbrev pub IsServed : DurableOperationIdentity → ExposureResult → DurableOperationRecord → Type 0
  IsServed operation answer exposure =
      (valid_terminal exposure operation ≡ true)
      × (exposure.lifecycle ≡ succeeded)
      × (answer.operation ≡ operation)
      × (answer.outcome ≡ ready)
      × (answer.is_ready ≡ true)

  is_exposed-IsServed :
      (operation : DurableOperationIdentity) (answer : ExposureResult)
      (exposure : DurableOperationRecord)
      → is_exposed ports request answer exposure operation ≡ true
      → IsServed operation answer exposure
  unfolding is_exposed
  is_exposed-IsServed operation answer exposure h =
      let tests =
        five (valid_terminal exposure operation) (exposure.lifecycle == succeeded)
          (answer.operation == operation) (answer.outcome == ready) answer.is_ready h in
      (
        tests.0,
        (==_iff exposure.lifecycle succeeded).0 tests.1,
        (==_iff answer.operation operation).0 tests.2,
        (==_iff answer.outcome ready).0 tests.3,
        tests.4,
      )
    where
      five :
          (a b c d e : Bool)
          → (a && b && c && d && e) ≡ true
          → (a ≡ true) × (b ≡ true) × (c ≡ true) × (d ≡ true) × (e ≡ true)
      five a b c d e h = ground arith

  -- What a success says about the exposure: none was asked for, or the record of its operation is
  -- terminal and succeeded and the provider's result is ready.
  abbrev pub IsExposed : Option ExposureResult → Option DurableOperationRecord → Type 0
  IsExposed result terminal =
      ((request.deployment.exposure ≡ none) × (result ≡ none) × (terminal ≡ none))
      ⊎ ((operation : DurableOperationIdentity) × (answer : ExposureResult)
          × (exposure : DurableOperationRecord) × (request.exposure_operation ≡ some operation)
          × (result ≡ some answer)
          × (terminal ≡ some exposure)
          × IsServed operation answer exposure)

  -- The record of a success.
  abbrev pub IsSuccess : RemoteDeploymentReceipt → Type 0
  IsSuccess r =
      (r.outcome ≡ succeeded)
      × (valid_terminal r.runtime_terminal_record request.runtime_operation ≡ true)
      × (r.runtime_terminal_record.lifecycle ≡ succeeded)
      × IsExposed r.exposure_result r.exposure_terminal_record

  abbrev pub IsTruthfulCall : Call Credentials Plan → Type 0
  IsTruthfulCall (recorded r) = IsSuccess r ⊎ IsFailure r
  IsTruthfulCall _ = Unit

  -- Every receipt recorded so far is a success or a failure as above.
  abbrev pub IsTruthful : State → Type 0
  IsTruthful s = All IsTruthfulCall s.calls

  record_failed-IsTruthful :
      (exposure_operation : Option DurableOperationIdentity) (runtime_ref : Option InstanceRef)
      (runtime_record r : DurableOperationRecord) (s : State)
      → valid_terminal runtime_record request.runtime_operation ≡ true
      → ((exposure_operation ≡ none) × (runtime_record.lifecycle ≡ failed) × (r ≡ runtime_record))
        ⊎ ((operation : DurableOperationIdentity) × (exposure_operation ≡ some operation)
            × (runtime_record.lifecycle ≡ succeeded))
      → IsTruthful s
      → IsTruthful (record_failed ports request exposure_operation runtime_ref runtime_record r s).1
  unfolding record_failed failure_receipt state_dec
  record_failed-IsTruthful exposure_operation runtime_ref runtime_record r s valid which t =
      ground arith

  after_runtime_record-IsTruthful :
      (exposure_operation : Option DurableOperationIdentity) (runtime_ref : Option InstanceRef)
      (runtime_record : DurableOperationRecord) (s : State)
      → IsTruthful s
      → IsTruthful
          (after_runtime_record ports request exposure_operation runtime_ref runtime_record s).1
  unfolding after_runtime_record failed_record state_dec
  after_runtime_record-IsTruthful none runtime_ref runtime_record s t =
      ground (arith, record_failed-IsTruthful none runtime_ref runtime_record runtime_record s)
  after_runtime_record-IsTruthful (some operation) runtime_ref runtime_record s t =
      elim (Bool-cases (
        valid_terminal runtime_record request.runtime_operation
        && runtime_record.lifecycle == succeeded)) [
          | inr e ↦ rw e t
          | inl e ↦
              let m = load_record ports request operation in
              let f = λ (r : DurableOperationRecord).
                record_failed ports request (some operation) runtime_ref runtime_record r in
              rw e (elim (bind-cases m f s) [
                | inl (r, _, e2) ↦ rw e2 (
                    record_failed-IsTruthful (some operation) runtime_ref runtime_record r (m s).1
                      (ground arith) (inr (operation, refl, ground arith)) (tt, t))
                | inr (_, _, e2) ↦ rw e2 (tt, t)
              ])
        ]

  record_validated_failure-IsTruthful :
      (exposure_operation : Option DurableOperationIdentity) (runtime_ref : Option InstanceRef)
      (s : State)
      → IsTruthful s
      → IsTruthful (record_validated_failure ports request exposure_operation runtime_ref s).1
  unfolding record_validated_failure
  record_validated_failure-IsTruthful exposure_operation runtime_ref s t =
      let m = load_record ports request request.runtime_operation in
      let f = λ (r : DurableOperationRecord).
        after_runtime_record ports request exposure_operation runtime_ref r in
      elim (bind-cases m f s) [
        | inl (r, _, e) ↦
            rw e (after_runtime_record-IsTruthful exposure_operation runtime_ref r (m s).1 (tt, t))
        | inr (_, _, e) ↦ rw e (tt, t)
      ]

  or_record_failure-IsTruthful :
      {A : Type 0} (exposure_operation : Option DurableOperationIdentity)
      (runtime_ref : Option InstanceRef) (outcome : Result DeploymentError A) (s : State)
      → IsTruthful s
      → IsTruthful (or_record_failure ports request exposure_operation runtime_ref outcome s).1
  unfolding or_record_failure
  or_record_failure-IsTruthful exposure_operation runtime_ref (ok a) s t = t
  or_record_failure-IsTruthful exposure_operation runtime_ref (err e) s t =
      ground (arith, record_validated_failure-IsTruthful exposure_operation runtime_ref s t)

  after_reconcile-IsTruthful :
      (operation : DurableOperationIdentity) (result : ExposureResult) (s : State)
      → IsTruthful s
      → IsTruthful (after_reconcile ports request operation result s).1
  unfolding after_reconcile
  after_reconcile-IsTruthful operation result s t = ground arith

  after_reconcile-shown :
      (operation : DurableOperationIdentity) (result : ExposureResult) (s : State)
      (exposed : Exposed)
      → (after_reconcile ports request operation result s).0 ≡ ok exposed
      → (exposure : DurableOperationRecord) × (exposed.result ≡ some result)
        × (exposed.terminal_record ≡ some exposure)
        × (is_exposed ports request result exposure operation ≡ true)
  unfolding after_reconcile
  after_reconcile-shown operation result s exposed h =
      let rest = λ (r : DurableOperationRecord).
        require (is_exposed ports request result r operation) exposure_incomplete >>= λ _.
        pure (record {
          result = some result;
          terminal_record = some r;
          ownership = result.ownership;
        }) in
      let (exposure, _, e) = bind-ok (load_record ports request operation) rest s h in
      let (shown, same) =
        required (is_exposed ports request result exposure operation)
          (record {
            result = some result;
            terminal_record = some exposure;
            ownership = result.ownership;
          })
          exposed (load_record ports request operation s).1 (sym (ap (λ x. x.0) e) ∙ h) in
      (
        exposure,
        sym (ap (λ (x : Exposed). x.result) same),
        sym (ap (λ (x : Exposed). x.terminal_record) same),
        shown,
      )
    where
      required :
          (b : Bool) (made exposed : Exposed) (t : State)
          → ((require b exposure_incomplete >>= λ _. pure made) t).0 ≡ ok exposed
          → (b ≡ true) × (made ≡ exposed)
      required true made exposed t k = (refl, cc k)
      required false made exposed t k = absurd (cc k)

  after_reconcile-IsExposed :
      (operation : DurableOperationIdentity) (result : ExposureResult) (s : State)
      (exposed : Exposed)
      → request.exposure_operation ≡ some operation
      → (after_reconcile ports request operation result s).0 ≡ ok exposed
      → IsExposed exposed.result exposed.terminal_record
  after_reconcile-IsExposed operation result s exposed has h =
      let (exposure, of_result, of_record, shown) =
        after_reconcile-shown operation result s exposed h in
      inr (
        operation,
        result,
        exposure,
        has,
        of_result,
        of_record,
        is_exposed-IsServed operation result exposure shown,
      )

  -- A step that keeps every recorded receipt truthful, and whose value says what a success may say
  -- about the exposure.
  abbrev Exposes : Result DeploymentError Exposed × State → Type 0
  Exposes o =
      IsTruthful o.1
      × ((exposed : Exposed) → o.0 ≡ ok exposed → IsExposed exposed.result exposed.terminal_record)

  reconciled-Exposes :
      (runtime_ref : InstanceRef) (operation : DurableOperationIdentity)
      (provider : ExposureRequest Credentials → Exec W DeploymentError ExposureResult)
      (asked : ExposureRequest Credentials) (s : State)
      → request.exposure_operation ≡ some operation
      → IsTruthful s
      → Exposes (reconciled ports request runtime_ref operation provider asked s)
  unfolding reconciled
  reconciled-Exposes runtime_ref operation provider asked s has t =
      let (answer, after) = perform {E = DeploymentError} (reconcile asked) (provider asked) s in
      let m = or_record_failure ports request (some operation) (some runtime_ref) answer in
      let f = λ (result : ExposureResult). after_reconcile ports request operation result in
      let kept =
        or_record_failure-IsTruthful (some operation) (some runtime_ref) answer after (tt, t) in
      elim (bind-cases m f after) [
        | inl (result, _, e) ↦ rw e (
          after_reconcile-IsTruthful operation result (m after).1 kept,
          λ exposed h. after_reconcile-IsExposed operation result (m after).1 exposed has h,
        )
        | inr (_, _, e) ↦ rw e (kept, λ exposed h. absurd (cc h))
      ]

  expose_asked-Exposes :
      (runtime_ref : InstanceRef) (operation : DurableOperationIdentity)
      (provider : ExposureRequest Credentials → Exec W DeploymentError ExposureResult)
      (asked : Option (ExposureRequest Credentials)) (s : State)
      → request.exposure_operation ≡ some operation
      → IsTruthful s
      → Exposes (expose_asked ports request runtime_ref operation provider asked s)
  unfolding expose_asked
  expose_asked-Exposes runtime_ref operation provider none s has t = (t, λ exposed h. absurd (cc h))
  expose_asked-Exposes runtime_ref operation provider (some asked) s has t =
      reconciled-Exposes runtime_ref operation provider asked s has t

  expose_with-Exposes :
      (runtime_ref : InstanceRef)
      (provider : Option (ExposureRequest Credentials → Exec W DeploymentError ExposureResult))
      (operation : Option DurableOperationIdentity) (s : State)
      → request.exposure_operation ≡ operation
      → IsTruthful s
      → Exposes (expose_with ports request runtime_ref provider operation s)
  unfolding expose_with
  expose_with-Exposes runtime_ref none operation s has t = (t, λ exposed h. absurd (cc h))
  expose_with-Exposes runtime_ref (some provider) none s has t = (t, λ exposed h. absurd (cc h))
  expose_with-Exposes runtime_ref (some provider) (some operation) s has t =
      expose_asked-Exposes runtime_ref operation provider
        (exposure_request (exposure_request_of ports request runtime_ref operation)) s has t

  expose_for-Exposes :
      (runtime_ref : InstanceRef) (intent : Option ExposureIntent) (s : State)
      → request.deployment.exposure ≡ intent
      → IsTruthful s
      → Exposes (expose_for ports request runtime_ref intent s)
  unfolding expose_for
  expose_for-Exposes runtime_ref none s has t =
      (t, λ exposed h. inl (has, ground arith, ground arith))
  expose_for-Exposes runtime_ref (some intent) s has t =
      expose_with-Exposes runtime_ref ports.exposure_provider request.exposure_operation s refl t

  expose-Exposes :
      (runtime_ref : InstanceRef) (s : State)
      → IsTruthful s
      → Exposes (expose ports request runtime_ref s)
  unfolding expose
  expose-Exposes runtime_ref s t =
      expose_for-Exposes runtime_ref request.deployment.exposure s refl t

  -- A step that keeps every recorded receipt truthful, and returns only the receipt of a success that
  -- it has recorded last.
  abbrev pub Deploys : Result DeploymentError RemoteDeploymentReceipt × State → Type 0
  Deploys o =
      IsTruthful o.1
      × ((r : RemoteDeploymentReceipt)
          → o.0 ≡ ok r
          → IsSuccess r
            × ((before : List (Call Credentials Plan)) × (o.1.calls ≡ recorded r ∷ before)))

  record_success-Deploys :
      (runtime_ref : InstanceRef) (runtime_record : DurableOperationRecord) (exposed : Exposed)
      (s : State)
      → valid_terminal runtime_record request.runtime_operation ≡ true
      → runtime_record.lifecycle ≡ succeeded
      → IsExposed exposed.result exposed.terminal_record
      → IsTruthful s
      → Deploys (record_success ports request runtime_ref runtime_record exposed s)
  unfolding record_success success_receipt
  record_success-Deploys runtime_ref runtime_record exposed s valid state shown t =
      let r = success_receipt ports request runtime_ref runtime_record exposed in
      let m = record_receipt ports request r in
      let success : IsSuccess r = (refl, valid, state, shown) in
      let done : IsSuccess r
          × ((before : List (Call Credentials Plan)) × (recorded r ∷ s.calls
                ≡ recorded r ∷ before)) =
        (success, (s.calls, refl)) in
      elim (bind-cases m (λ _. pure r) s) [
        | inl (_, _, e) ↦ rw e (
          (inl success, t),
          λ r' h.
              subst
                (λ x.
                  IsSuccess x
                  × ((before : List (Call Credentials Plan)) × (recorded r ∷ s.calls
                        ≡ recorded x ∷ before)))
                (cc h) done,
        )
        | inr (_, _, e) ↦ rw e ((inl success, t), λ r' h. absurd (cc h))
      ]

  expose_recorded-Deploys :
      (runtime_ref : InstanceRef) (runtime_record : DurableOperationRecord) (s : State)
      → valid_terminal runtime_record request.runtime_operation ≡ true
      → runtime_record.lifecycle ≡ succeeded
      → IsTruthful s
      → Deploys (expose_recorded ports request runtime_ref runtime_record s)
  unfolding expose_recorded
  expose_recorded-Deploys runtime_ref runtime_record s valid state t =
      let m = expose ports request runtime_ref in
      let (kept, shown) = expose-Exposes runtime_ref s t in
      elim (bind-cases m
        (λ exposed. record_success ports request runtime_ref runtime_record exposed) s) [
          | inl (exposed, h, e) ↦ rw e (
              record_success-Deploys runtime_ref runtime_record exposed (m s).1 valid state
                (shown exposed h) kept)
          | inr (_, _, e) ↦ rw e (kept, λ r h. absurd (cc h))
        ]

  checked_record-Deploys :
      (runtime_ref : InstanceRef) (runtime_record : DurableOperationRecord) (s : State)
      → IsTruthful s
      → Deploys (checked_record ports request runtime_ref runtime_record s)
  unfolding checked_record state_dec
  checked_record-Deploys runtime_ref runtime_record s t =
      elim (Bool-cases (valid_terminal runtime_record request.runtime_operation)) [
        | inr e ↦ rw e (t, λ r h. absurd (cc h))
        | inl e ↦ elim (Bool-cases (runtime_record.lifecycle == succeeded)) [
          | inr e2 ↦ rw (e, e2) (t, λ r h. absurd (cc h))
          | inl e2 ↦
              rw (e, e2) (expose_recorded-Deploys runtime_ref runtime_record s e (ground arith) t)
        ]
      ]

  after_run-Deploys :
      (runtime_ref : InstanceRef) (s : State)
      → IsTruthful s
      → Deploys (after_run ports request runtime_ref s)
  unfolding after_run
  after_run-Deploys runtime_ref s t = elim (Bool-cases (is_requested ports request runtime_ref)) [
    | inr e ↦ rw e (t, λ r h. absurd (cc h))
    | inl e ↦
        let m = load_record ports request request.runtime_operation in
        rw e (elim (bind-cases m (λ r. checked_record ports request runtime_ref r) s) [
          | inl (r, _, e2) ↦ rw e2 (checked_record-Deploys runtime_ref r (m s).1 (tt, t))
          | inr (_, _, e2) ↦ rw e2 ((tt, t), λ r h. absurd (cc h))
        ])
  ]

  start_run-Deploys : (s : State) → IsTruthful s → Deploys (start_run ports request s)
  unfolding start_run
  start_run-Deploys s t =
      let (answer, after) =
        perform {E = DeploymentError} (run request.plan) (ports.run_plan request.plan) s in
      let m = or_record_failure ports request none none answer in
      let kept = or_record_failure-IsTruthful none none answer after (tt, t) in
      elim (bind-cases m (λ runtime_ref. after_run ports request runtime_ref) after) [
        | inl (runtime_ref, _, e) ↦ rw e (after_run-Deploys runtime_ref (m after).1 kept)
        | inr (_, _, e) ↦ rw e (kept, λ r h. absurd (cc h))
      ]

  require-Deploys :
      (test : Bool) (e : DeploymentError) (m : Step ports request RemoteDeploymentReceipt)
      (s : State)
      → IsTruthful s
      → Deploys (m s)
      → Deploys ((require test e >> m) s)
  require-Deploys true e m s t d = d
  require-Deploys false e m s t d = (t, λ r h. absurd (cc h))

  -- Whatever the providers, the store and the recorder answer, a deployment, started where this holds
  -- of what was recorded before, records no receipt but of
  -- these two kinds: a success, whose runtime record is terminal and succeeded and whose exposure is
  -- ready or not asked for; and a failure, whose failing operation has a terminal, failed record. A
  -- deployment that returns has recorded its receipt last, and it is a success.
  pub deploy-Deploys : (s : State) → IsTruthful s → Deploys (deploy ports request s)
  unfolding deploy
  deploy-Deploys s t =
      let m = start_run ports request in
      let distinct = require (is_distinct ports request) same_operation >> m in
      let intended = require (is_intended ports request) no_exposure_intent >> distinct in
      require-Deploys (is_owned ports request) ownership_inconsistent intended s t (
        require-Deploys (is_intended ports request) no_exposure_intent distinct s t (
          require-Deploys (is_distinct ports request) same_operation m s t (start_run-Deploys s t)))
