-- ===== src/Lifecycle/Cleanup.antt =====
-- The retries of `LifecycleService._cleanup` (odoo_forge/resource_lifecycle/service.py).
use odoo_forge.Base.{
  ℕ, zero, suc, ◌≤◌, ◌≡◌, ◌≢◌, refl, ap, ◌∙◌, String, List, [], ◌∷◌, Result, ok, err, is_empty,
  if◌then◌else◌, arith,
}
use odoo_forge.Base.Effects.{Session, pure, and_then}
use odoo_forge.Values.{CreationReceipt}
use odoo_forge.Lifecycle.Ports.{Ports, LifecycleError, Call, cleanup}
use odoo_forge.Lifecycle.Recovery.{on_port, cleanup_rounds}

-- `count` times the call, before the others.
unfoldable pub repeated : ℕ → Call → List Call → List Call
repeated zero call calls = calls
repeated (suc count) call calls = call ∷ repeated count call calls

repeated-append :
    (n : ℕ) (call : Call) (calls : List Call)
    → repeated n call (call ∷ calls) ≡ call ∷ repeated n call calls
unfolding repeated
repeated-append zero call calls = refl
repeated-append (suc n) call calls = ap (λ cs. call ∷ cs) (repeated-append n call calls)

-- How often the cleanup was tried, and with what end.
pub record Tried {W Fault : Type 0} (rounds : ℕ) (receipt : CreationReceipt) (calls : List Call)
    (r : Result (LifecycleError Fault) (List String)) (s : Session W Call) : Type 0 where
  pub count : ℕ
  pub within : count ≤ rounds
  pub only_cleanup : s.calls ≡ repeated count (cleanup receipt) calls
  pub exhausted : (residuals : List String) → r ≡ ok residuals → residuals ≢ [] → count ≡ rounds

module _ {W Fault : Type 0} (ports : Ports W Fault) (receipt : CreationReceipt) where
  again :
      {rounds : ℕ} {calls : List Call} {r : Result (LifecycleError Fault) (List String)}
      {s : Session W Call}
      → Tried rounds receipt (cleanup receipt ∷ calls) r s
      → Tried (suc rounds) receipt calls r s
  unfolding repeated
  again {rounds} {calls} t = record {
    count = suc t.count;
    within = omega (arith, t.within);
    only_cleanup = t.only_cleanup ∙ repeated-append t.count (cleanup receipt) calls;
    exhausted = λ residuals e left. ap suc (t.exhausted residuals e left);
  }

  once :
      (rounds : ℕ) (calls : List Call) (r : Result (LifecycleError Fault) (List String))
      (s : Session W Call)
      → s.calls ≡ cleanup receipt ∷ calls
      → ((residuals : List String) → r ≡ ok residuals → residuals ≡ [])
      → Tried (suc rounds) receipt calls r s
  unfolding repeated
  once rounds calls r s made clean = record {
    count = 1;
    within = omega arith;
    only_cleanup = made;
    exhausted = λ residuals e left. absurd (left (clean residuals e));
  }

  after_round :
      (rounds : ℕ) (calls : List Call) (r : Result (LifecycleError Fault) (List String)) (w : W)
      → ((residuals : List String) (s : Session W Call)
          → Tried rounds receipt s.calls
              (cleanup_rounds ports rounds receipt residuals s).0
              (cleanup_rounds ports rounds receipt residuals s).1)
      → let s : Session W Call = record { world = w; calls = cleanup receipt ∷ calls } in
        let rest =
          and_then r
            (λ failures.
              if is_empty failures then pure [] else cleanup_rounds ports rounds receipt failures)
            s in
        Tried (suc rounds) receipt calls rest.0 rest.1
  after_round rounds calls (err e) w ih = once rounds calls _ _ refl (λ _ e. absurd (cc e))
  after_round rounds calls (ok []) w ih = once rounds calls _ _ refl (λ _ e. ground arith)
  after_round rounds calls (ok (x ∷ xs)) w ih = again (ih (x ∷ xs) _)

  -- Cleanup ends within its rounds, whatever the provider answers: its calls are cleanups of the
  -- receipt only, at most one a round, and residual failures come back only after the last round.
  pub cleanup_rounds-Tried :
      (rounds : ℕ) (residuals : List String) (s : Session W Call)
      → Tried rounds receipt s.calls
          (cleanup_rounds ports rounds receipt residuals s).0
          (cleanup_rounds ports rounds receipt residuals s).1
  unfolding cleanup_rounds repeated
  cleanup_rounds-Tried zero residuals s = record {
    count = 0;
    within = omega arith;
    only_cleanup = refl;
    exhausted = λ _ _ _. refl;
  }
  cleanup_rounds-Tried (suc rounds) residuals s =
      let (r, w) = on_port (ports.gateway.cleanup receipt) s.world in
      after_round rounds s.calls r w (cleanup_rounds-Tried rounds)
