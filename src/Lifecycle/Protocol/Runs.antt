-- ===== src/Lifecycle/Protocol/Runs.antt =====
-- `LifecycleService.run` (odoo_forge/resource_lifecycle/service.py) follows the protocol, and answers
-- for every key.
use odoo_forge.Base.{
  ℕ, suc, ◌≡◌, refl, ap, ◌||◌, List, [], ◌∷◌, Option, none, some, Result, ok, err, length,
}
use odoo_forge.Base.Int.{pos, ltb_ℤ}
use odoo_forge.Base.Effects.{Session}
use odoo_forge.Base.Hoare.{
  After, Hoare, returned, pure_rule, raise_rule, if_rule, bind_rule, weaken_rule, weaken_post,
}
use odoo_forge.Values.{InstanceRecord}
use odoo_forge.Lifecycle.{DatabaseObservation, QuarantineHistory}
use odoo_forge.Lifecycle.Ports.{Ports, Call, value_error}
use odoo_forge.Lifecycle.Recovery.{
  RecoveryResult, Run, on_port, on_registry, recover, journal_append,
}
use odoo_forge.Lifecycle.Service
use odoo_forge.Lifecycle.Service.{
  Evidence, Key, Compared, contradiction, agreed, keys, key_eq, is_repeated, record_key,
  observation_key, history_key, recover_key, recover_keys, record_from_history, compare_with,
  gather, announce,
}
use odoo_forge.Lifecycle.Protocol.{
  idle, read, look, note, listing, reading, at_idle, Trail, start, Allowed, Settled,
}
use odoo_forge.Lifecycle.Protocol.Steps.{
  At, Fine, Done, call_rule, At-Fine, At-Rest, human_rule, get_rule,
}
use odoo_forge.Lifecycle.Protocol.Stages.{observe_rule}
use odoo_forge.Lifecycle.Protocol.Recoveries.{recover_rule}

-- A recovery of every key has been made, and nothing is under way.
pub record Answered {W Fault : Type 0} (ports : Ports W Fault) (first : W) (ks : List Key)
    (results : List RecoveryResult) (s : Session W Call) : Type 0 where
  pub trail : Trail ports first s.calls s.world idle
  pub one_each : length results ≡ length ks

module _ {W Fault : Type 0} (ports : Ports W Fault) (first : W) (retries : ℕ) (run : Run) where
  compared_rule :
      (o : Option DatabaseObservation) (history : QuarantineHistory) (c : Compared)
      → Hoare
          (At ports first idle)
          (Service.recover_compared ports retries run o history c)
          (Done ports first run)
          (Fine ports first)
  unfolding Service.recover_compared
  compared_rule o history contradiction =
      weaken_rule (At-Rest ports first at_idle) (human_rule ports first run _ _)
  compared_rule o history (agreed r) = recover_rule ports first retries run r o (some history)

  from_history_rule :
      (history : QuarantineHistory) (r : Option InstanceRecord)
      → Hoare
          (At ports first idle)
          (record_from_history ports retries history r)
          (λ _. At ports first idle)
          (Fine ports first)
  unfolding record_from_history
  from_history_rule history r =
      bind_rule (get_rule ports first run idle history.pointer)
        (λ answer. pure_rule (compare_with history r answer) (λ s h. h))

  histories_rule :
      (r : Option InstanceRecord) (o : Option DatabaseObservation)
      (histories : List QuarantineHistory)
      → Hoare
          (At ports first idle)
          (Service.recover_histories ports retries run r o histories)
          (Done ports first run)
          (Fine ports first)
  unfolding Service.recover_histories
  histories_rule r o [] = recover_rule ports first retries run r o none
  histories_rule r o (history ∷ []) =
      bind_rule (from_history_rule history r) (compared_rule o history)
  histories_rule r o (_ ∷ _ ∷ _) =
      weaken_rule (At-Rest ports first at_idle) (human_rule ports first run _ _)

  key_rule :
      (e : Evidence) (key : Key)
      → Hoare
          (At ports first idle)
          (recover_key ports retries run e key)
          (Done ports first run)
          (Fine ports first)
  unfolding recover_key
  key_rule e key =
      if_rule
        (is_repeated record_key e.records key || is_repeated observation_key e.observations key)
        (λ _. weaken_rule (At-Rest ports first at_idle) (human_rule ports first run _ _))
        (λ _. histories_rule _ _ _)

  keys_rule :
      (e : Evidence) (ks : List Key)
      → Hoare
          (At ports first idle)
          (recover_keys ports retries run e ks)
          (Answered ports first ks)
          (Fine ports first)
  unfolding recover_keys
  keys_rule e [] = pure_rule [] (λ s h. record { trail = h; one_each = refl })
  keys_rule e (key ∷ rest) = bind_rule (key_rule e key) (λ result.
      weaken_rule (λ s h. h.trail)
        (bind_rule (keys_rule e rest) (λ results.
          pure_rule (result ∷ results)
            (λ s h. record { trail = h.trail; one_each = ap suc h.one_each }))))

  gather_rule :
      Hoare
        (At ports first idle)
        (gather ports retries run)
        (λ _. At ports first idle)
        (Fine ports first)
  unfolding gather
  gather_rule =
      bind_rule
        (call_rule ports first _ (on_registry (ports.registry.list run.scope)) (λ w. refl)
          (λ _. read listing))
        (λ _. bind_rule (observe_rule ports first run idle idle run.scope (λ _. look)) (λ _.
          bind_rule
            (call_rule ports first _ (on_port ports.journal.events) (λ w. refl) (λ _. read reading))
            (λ _. pure_rule _ (λ s h. h))))

  announce_rule :
      (e : Evidence)
      → Hoare
          (At ports first idle)
          (announce ports retries run e)
          (λ _. At ports first idle)
          (Fine ports first)
  unfolding announce journal_append
  announce_rule e =
      call_rule ports first _ (on_port (ports.journal.append _)) (λ w. refl) (λ _. note at_idle)

  run_rule :
      Hoare
        (At ports first idle)
        (Service.run ports retries run)
        (λ _. At ports first idle)
        (Fine ports first)
  unfolding Service.run
  run_rule =
      if_rule (ltb_ℤ run.wait (pos 0)) (λ _. raise_rule value_error (At-Fine ports first idle))
        (λ _. bind_rule gather_rule (λ e.
          bind_rule (announce_rule e)
            (λ _. weaken_post (λ results s h. h.trail) (keys_rule e (keys e)))))

-- A session in which no call was made yet.
abbrev pub opened : {W : Type 0} → W → Session W Call
opened w = record { world = w; calls = [] }

-- A recovery that returns, from a state to which the earlier calls have led, following the protocol,
-- and in which nothing is under way, leaves such a state again. Its last call is the journal entry with its outcome
-- and its residuals. An outcome other than human intervention needs an approved authorization, and
-- `deleted` a run that asks for deletion.
pub recover-Settled :
    {W Fault : Type 0} (ports : Ports W Fault) (first : W) (retries : ℕ) (run : Run)
    (r : Option InstanceRecord) (o : Option DatabaseObservation)
    (history : Option QuarantineHistory) (s : Session W Call) (result : RecoveryResult)
    → Trail ports first s.calls s.world idle
    → (recover ports retries run r o history s).0 ≡ ok result
    → Settled ports first run result
        (recover ports retries run r o history s).1.calls
        (recover ports retries run r o history s).1.world
recover-Settled ports first retries run r o history s result t e =
    returned (Done ports first run) (Fine ports first) _ _
      ((recover_rule ports first retries run r o history).holds s t) e

After-returned :
    {S E A : Type 0} (P F : S → Type 0) (r : Result E A) (s : S)
    → ((s : S) → P s → F s)
    → After (λ _. P) F r s
    → F s × ((a : A) → r ≡ ok a → P s)
After-returned P F (ok a) s fine h = (fine s h, λ _ _. h)
After-returned P F (err e) s fine h = (h, λ a p. absurd (cc p))

-- Whatever the ports answer or raise, the calls of a run follow the protocol to some phase: each
-- quarantine, removal and repair is journalled before the next. A deletion deletes the resource that
-- the provider has answered its quarantine with, after an entry that names that resource as quarantined
-- and a new look at the provider; its receipt owns that resource alone. The next call that is no read is
-- the entry that names the resource as deleted, and only then is that receipt cleaned up. What is adopted is what the
-- provider has answered a quarantine with. A run that returns leaves nothing under way.
pub run-Allowed :
    {W Fault : Type 0} (ports : Ports W Fault) (retries : ℕ) (run : Run) (w : W)
    → Allowed ports w
        (Service.run ports retries run (opened w)).1.calls
        (Service.run ports retries run (opened w)).1.world
      × ((results : List RecoveryResult)
          → (Service.run ports retries run (opened w)).0 ≡ ok results
          → Trail ports w
              (Service.run ports retries run (opened w)).1.calls
              (Service.run ports retries run (opened w)).1.world
              idle)
run-Allowed {W} {Fault} ports retries run w =
    After-returned (At ports w idle) (Fine ports w) (Service.run ports retries run (opened w)).0
      (Service.run ports retries run (opened w)).1 (At-Fine ports w idle)
      ((run_rule ports w retries run).holds (opened w) start)
