-- ===== src/Lifecycle/Service.antt =====
-- odoo_forge/resource_lifecycle/service.py: `LifecycleService.run`, one recovery for every key that a
-- record, an observation or a quarantine on the journal names.
use odoo_forge.Base.{
  ℕ, String, Bool, true, not, ◌&&◌, ◌||◌, List, [], ◌∷◌, ◌++◌, map, Option, none, some, Result, ok,
  err, if◌then◌else◌, ◌==◌, Eq, string_eq, ltb, is_empty, length,
}
use odoo_forge.Base.Equality.{string_dec}
use odoo_forge.Base.Int.{ℤ, pos, negsuc, ltb_ℤ}
use odoo_forge.Base.Lists.{contains, select, find}
use odoo_forge.Base.Sorting.{sort, text_le}
use odoo_forge.Base.Effects.{perform, pure, raise, attempt, ◌>>=◌, ◌>>◌}
use odoo_forge.Values.{InstanceRecord, record_eq, record_dec}
use odoo_forge.Registry.Port.{not_found}
use odoo_forge.Lifecycle.{
  alerted, QuarantineHistory, LifecycleJournalEvent, LifecycleResidual, DatabaseObservation,
}
use odoo_forge.Lifecycle.Ports.{Ports, LifecycleError, registry_error, value_error, list, events}
use odoo_forge.Lifecycle.Checks.{record_matches_history}
use odoo_forge.Lifecycle.Recovery.{
  RecoveryResult, Run, Service, on_registry, on_port, journal_append, event_of, human, registry_get,
  observe_scope, recover,
}

-- the kind and the identifier of a resource
abbrev pub Key : Type 0
Key = String × String

unfoldable pub key_dec : Discrete Key
key_dec = hlevel string_dec

instance abbrev pub key_eq : Eq Key
key_eq = record { dec = key_dec }

-- the order of Python's tuples
unfoldable pub key_le : Key → Key → Bool
unfolding string_dec
key_le a b = if a.0 == b.0 then text_le a.1 b.1 else text_le a.0 b.0

-- each key once
unfoldable pub distinct : List Key → List Key
unfolding contains key_dec
distinct [] = []
distinct (k ∷ ks) = let rest = distinct ks in if contains ks k then rest else k ∷ rest

-- `keys.count(key) > 1`
unfoldable pub is_repeated : {A : Type 0} → (A → Key) → List A → Key → Bool
unfolding select key_dec
is_repeated key_of items key = ltb 1 (length (select (λ a. key_of a == key) items))

abbrev pub record_key : InstanceRecord → Key
record_key r = (r.resource.resource_kind, r.resource.identifier)

abbrev pub observation_key : DatabaseObservation → Key
observation_key o = ("database", o.ref.identifier)

abbrev pub history_key : QuarantineHistory → Key
history_key h = ("database", h.resource.identifier)

unfoldable pub histories_of : List LifecycleJournalEvent → List QuarantineHistory
histories_of [] = []
histories_of (e ∷ es) = elim e.history [ none ↦ histories_of es | some h ↦ h ∷ histories_of es ]

-- What `run` has read.
pub record Evidence : Type 0 where
  pub records : List InstanceRecord
  pub observations : List DatabaseObservation
  pub histories : List QuarantineHistory

-- the keys in the order in which `run` visits them
unfoldable pub keys : Evidence → List Key
unfolding sort key_le distinct
keys e = sort key_le (
    distinct (
      map record_key e.records
      ++ map observation_key e.observations
      ++ map history_key e.histories))

-- _HistoryContradiction, or the record to go on with
pub data Compared : Type 0 where
  contradiction : Compared
  agreed : Option InstanceRecord → Compared

unfoldable pub matches_or_absent : QuarantineHistory → Option InstanceRecord → Bool
unfolding record_matches_history
matches_or_absent history none = true
matches_or_absent history (some r) = record_matches_history r history

unfoldable pub prefer_current : InstanceRecord → Option InstanceRecord → InstanceRecord
unfolding record_dec
prefer_current r none = r
prefer_current r (some current) = if not (r == current) then current else r

unfoldable pub compare_with :
    {Fault : Type 0}
    → QuarantineHistory
    → Option InstanceRecord
    → Result (LifecycleError Fault) InstanceRecord
    → Compared
unfolding matches_or_absent record_matches_history prefer_current
compare_with history current (err (registry_error (not_found _))) =
    if not (matches_or_absent history current) then contradiction else agreed current
compare_with history current (err e) = contradiction
compare_with history current (ok r) =
    if not (record_matches_history r history)
    then contradiction
    else if not (matches_or_absent history current)
    then contradiction
    else agreed (some (prefer_current r current))

abbrev no_residuals : Bool → List LifecycleResidual
no_residuals nothing =
    if nothing then record { code = "empty-run"; detail = "empty-run" } ∷ [] else []

module _ {W Fault : Type 0} (ports : Ports W Fault) (max_cleanup_retries : ℕ) where
  -- _record_from_history
  unfoldable pub record_from_history :
      QuarantineHistory → Option InstanceRecord → Service W Fault Compared
  unfolding registry_get compare_with
  record_from_history history current = do
    answer ← attempt (registry_get ports history.pointer)
    pure (compare_with history current answer)

  unfoldable pub recover_compared :
      Run
      → Option DatabaseObservation
      → QuarantineHistory
      → Compared
      → Service W Fault RecoveryResult
  unfolding human recover
  recover_compared run o history contradiction = human ports run "history-mismatch" "registry"
  recover_compared run o history (agreed r) =
      recover ports max_cleanup_retries run r o (some history)

  -- the histories of one key
  unfoldable pub recover_histories :
      Run
      → Option InstanceRecord
      → Option DatabaseObservation
      → List QuarantineHistory
      → Service W Fault RecoveryResult
  unfolding recover human record_from_history recover_compared
  recover_histories run r o [] = recover ports max_cleanup_retries run r o none
  recover_histories run r o (history ∷ []) = do
    compared ← record_from_history history r
    recover_compared run o history compared
  recover_histories run r o _ = human ports run "duplicate-history" "registry"

  -- one round of the loop of `run`
  unfoldable pub recover_key : Run → Evidence → Key → Service W Fault RecoveryResult
  unfolding is_repeated human find select recover_histories key_dec
  recover_key run e key =
      if is_repeated record_key e.records key || is_repeated observation_key e.observations key
      then human ports run "duplicate-evidence" "registry"
      else recover_histories run (find (λ r. record_key r == key) e.records)
          (find (λ o. observation_key o == key) e.observations)
          (select (λ h. history_key h == key) e.histories)

  unfoldable pub recover_keys : Run → Evidence → List Key → Service W Fault (List RecoveryResult)
  unfolding recover_key
  recover_keys run e [] = pure []
  recover_keys run e (key ∷ rest) = do
    result ← recover_key run e key
    results ← recover_keys run e rest
    pure (result ∷ results)

  unfoldable pub gather : Run → Service W Fault Evidence
  unfolding observe_scope histories_of
  gather run = do
    records ← perform (list run.scope) (on_registry (ports.registry.list run.scope))
    observations ← observe_scope ports run.scope
    entries ← perform events (on_port ports.journal.events)
    pure (record {
      records = records;
      observations = observations;
      histories = histories_of entries;
    })

  unfoldable pub announce : Run → Evidence → Service W Fault (Unit {0})
  unfolding journal_append event_of
  announce run e = journal_append ports (
      event_of run alerted "registry" none
        (no_residuals (is_empty e.records && is_empty e.observations && is_empty e.histories))
        "run")

  -- run
  unfoldable pub run : Run → Service W Fault (List RecoveryResult)
  unfolding gather announce recover_keys keys
  run arguments =
      if ltb_ℤ arguments.wait (pos 0)
      then raise value_error
      else (do e ← gather arguments; announce arguments e; recover_keys arguments e (keys e))

-- `LifecycleService(max_cleanup_retries=…)`
unfoldable pub checked_retries : ℤ → Option ℕ
checked_retries (pos n) = some n
checked_retries (negsuc n) = none
