-- ===== src/Lifecycle/Protocol/Steps.antt =====
-- Each single call of odoo_forge/resource_lifecycle/service.py takes its step of the protocol.
use odoo_forge.Base.{
  ◌≡◌, ◌≢◌, refl, sym, subst, Result, ok, err, String, true, false, List, [], ◌∷◌, Option, none,
  some,
}
use odoo_forge.Base.Effects.{Exec, Session, perform, attempt}
use odoo_forge.Base.Hoare.{After, Hoare, pure_rule, raise_rule, bind_rule, attempt_rule}
use odoo_forge.Values.{InstancePointer}
use odoo_forge.Lifecycle.{
  Datetime, LifecycleOutcome, human_intervention, deleted, DatabaseObservation, QuarantineHistory,
}
use odoo_forge.Lifecycle.Ports.{Ports, LifecycleError, Call, append, utc_now, get, type_error}
use odoo_forge.Lifecycle.Recovery.{
  RecoveryResult, Run, on_port, on_registry, or_raise, residuals_of, event_of, journal_append,
  append_action, finish, human, now_or_utc, eligible, eligible_since, quarantine_wait_elapsed,
  registry_get,
}
use odoo_forge.Lifecycle.Protocol.{
  Phase, idle, Step, read, note, getting, timing, IsSettled, Trail, next, world_after, Allowed,
  reported, Settled,
}

-- Some settled phase.
pub record Resting {W Fault : Type 0} (ports : Ports W Fault) (first : W) (calls : List Call)
    (w : W) : Type 0 where
  pub phase : Phase
  pub settled : IsSettled phase
  pub trail : Trail ports first calls w phase

module _ {W Fault : Type 0} (ports : Ports W Fault) (first : W) where
  abbrev pub At : Phase → Session W Call → Type 0
  At p s = Trail ports first s.calls s.world p

  abbrev pub Rest : Session W Call → Type 0
  Rest s = Resting ports first s.calls s.world

  abbrev pub Fine : Session W Call → Type 0
  Fine s = Allowed ports first s.calls s.world

  -- What a recovery that returns leaves behind, as a condition on the session.
  abbrev pub Done : Run → RecoveryResult → Session W Call → Type 0
  Done run r s = Settled ports first run r s.calls s.world

  -- The conditions of one call, whichever way it ends.
  After-call :
      {E A : Type 0} (Q : A → Session W Call → Type 0) (F : Session W Call → Type 0)
      (r : Result E A) (s : Session W Call)
      → ((a : A) → Q a s)
      → F s
      → After Q F r s
  After-call Q F (ok a) s q f = q a
  After-call Q F (err e) s q f = f

  -- A call that moves the world as the protocol says.
  pub moving_rule :
      {E A : Type 0} {P F : Session W Call → Type 0} {Q : A → Session W Call → Type 0} (c : Call)
      (port : Exec W E A)
      → ((w : W) → (port w).1 ≡ world_after ports c w)
      → ((s : Session W Call)
          → P s
          → let t : Session W Call = record {
            world = world_after ports c s.world;
            calls = c ∷ s.calls;
          } in
            ((a : A) → Q a t) × F t)
      → Hoare P (perform c port) Q F
  moving_rule {F} {Q} c port moves step = record {
    holds = λ s p.
        let t : Session W Call = record {
          world = world_after ports c s.world;
          calls = c ∷ s.calls;
        } in
        subst (λ w. After Q F (port s.world).0 (record { world = w; calls = c ∷ s.calls }))
          (sym (moves s.world)) (After-call Q F (port s.world).0 t (step s p).0 (step s p).1);
  }

  pub call_rule :
      {E A : Type 0} {p q : Phase} (c : Call) (port : Exec W E A)
      → ((w : W) → (port w).1 ≡ world_after ports c w)
      → ((w : W) → Step ports w p c q)
      → Hoare (At p) (perform c port) (λ _. At q) Fine
  call_rule {p} {q} c port moves step =
      moving_rule {Q = λ _. At q} c port moves
        (λ s t. ((λ a. next t (step s.world)), record { phase = q; trail = next t (step s.world) }))

  pub At-Fine : (p : Phase) (s : Session W Call) → At p s → Fine s
  At-Fine p s t = record { phase = p; trail = t }

  pub At-Rest : {p : Phase} → IsSettled p → (s : Session W Call) → At p s → Rest s
  At-Rest {p} settled s t = record { phase = p; settled = settled; trail = t }

  pub Rest-Fine : (s : Session W Call) → Rest s → Fine s
  Rest-Fine s h = record { phase = h.phase; trail = h.trail }

module _ {W Fault : Type 0} (ports : Ports W Fault) (first : W) (run : Run) where
  pub finish_rule :
      (code : String) (outcome : LifecycleOutcome) (digest : String) (residuals : List String)
      → (outcome ≢ human_intervention → run.authorization.approved ≡ true)
      → (outcome ≡ deleted → run.delete ≡ true)
      → Hoare
          (Rest ports first)
          (finish ports run code outcome digest residuals)
          (Done ports first run)
          (Fine ports first)
  unfolding finish journal_append event_of
  finish_rule code outcome digest residuals authorized asked =
      let values = residuals_of code residuals in
      let r : RecoveryResult = record { outcome = outcome; residuals = values } in
      let event = event_of run outcome digest none values "action" in
      bind_rule
        (moving_rule ports first {P = Rest ports first} {F = Fine ports first}
          {Q = λ _. Done ports first run r} (append event) (on_port (ports.journal.append event))
          (λ w. refl)
          (λ s h.
            let t = next h.trail (note h.settled) in
            (
              λ _. record {
                trail = t;
                report = reported refl refl;
                authorized = authorized;
                asked = asked;
              },
              record { phase = idle; trail = t },
            )))
        (λ _. pure_rule r (λ s h. h))

  pub human_rule :
      (code digest : String)
      → Hoare
          (Rest ports first)
          (human ports run code digest)
          (Done ports first run)
          (Fine ports first)
  unfolding human
  human_rule code digest =
      finish_rule code human_intervention digest [] (λ h. absurd (h refl)) (λ h. absurd (cc h))

  pub now_rule :
      (p : Phase) (now : Option Datetime)
      → Hoare (At ports first p) (now_or_utc ports now) (λ _. At ports first p) (Fine ports first)
  unfolding now_or_utc
  now_rule p none = call_rule ports first utc_now _ (λ w. refl) (λ _. read timing)
  now_rule p (some t) = pure_rule t (λ s h. h)

  pub or_raise_rule :
      {A : Type 0} (p : Phase) (e : LifecycleError Fault) (a : Option A)
      → Hoare (At ports first p) (or_raise e a) (λ _. At ports first p) (Fine ports first)
  or_raise_rule p e none = raise_rule e (At-Fine ports first p)
  or_raise_rule p e (some a) = pure_rule a (λ s h. h)

  since_rule :
      (p : Phase) (o : DatabaseObservation) (t : Option Datetime)
      → Hoare
          (At ports first p)
          (eligible_since ports run o t)
          (λ _. At ports first p)
          (Fine ports first)
  unfolding eligible_since
  since_rule p o none = pure_rule false (λ s h. h)
  since_rule p o (some t) = bind_rule (now_rule p run.now) (λ now. or_raise_rule p type_error _)

  pub eligible_rule :
      (p : Phase) (o : DatabaseObservation)
      → Hoare (At ports first p) (eligible ports run o) (λ _. At ports first p) (Fine ports first)
  unfolding eligible
  eligible_rule p o = since_rule p o o.last_activity

  pub waited_rule :
      (p : Phase) (history : QuarantineHistory)
      → Hoare
          (At ports first p)
          (quarantine_wait_elapsed ports run history)
          (λ _. At ports first p)
          (Fine ports first)
  unfolding quarantine_wait_elapsed
  waited_rule p history = bind_rule (now_rule p run.now) (λ now. pure_rule _ (λ s h. h))

  pub append_rule :
      {p q : Phase} (outcome : LifecycleOutcome) (digest : String)
      (history : Option QuarantineHistory)
      → ((w : W) → Step ports w p (append (event_of run outcome digest history [] "action")) q)
      → Hoare
          (At ports first p)
          (append_action ports run outcome digest history)
          (λ _. At ports first q)
          (Fine ports first)
  unfolding append_action journal_append
  append_rule outcome digest history step = call_rule ports first _ _ (λ w. refl) step

  -- A `get` whose answer, or error, is looked at.
  pub get_rule :
      (p : Phase) (pointer : InstancePointer)
      → Hoare {E = LifecycleError Fault}
          (At ports first p)
          (attempt (registry_get ports pointer))
          (λ _. At ports first p)
          (Fine ports first)
  unfolding registry_get
  get_rule p pointer = attempt_rule {Q = At ports first p} (
      moving_rule ports first {P = At ports first p} {F = At ports first p}
        {Q = λ _. At ports first p} (get pointer) (on_registry (ports.registry.get pointer))
        (λ w. refl) (λ s t. ((λ _. next t (read getting)), next t (read getting))))
