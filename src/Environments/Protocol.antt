-- ===== src/Environments/Protocol.antt =====
-- The order in which `DataEnvironmentService.run` (odoo_forge/data_environments/service.py) calls its
-- collaborators, what they must have answered, and how its result fits the calls.
use odoo_forge.Base.{◌<◌, ◌≡◌, ◌≢◌, String, true, List, [], ◌∷◌, Option, none, some, ok}
use odoo_forge.Values.{DatabaseRef, InstancePointer}
use odoo_forge.Artifacts.Copy.{RawDataGrant, CoordinatedCopyResult}
use odoo_forge.Environments.{
  succeeded, refused, failed, DataEnvironmentOperationRequest, DataEnvironmentOperationResult,
  operation_outcome,
}
use odoo_forge.Environments.Service.{
  Ports, CopyOrder, Call, resolve, get, policy, authorize, now, acquire, copy, verify, restore,
  check,
}

-- Nothing is done yet, with the grant that is in force; a grant is offered by the authority; the
-- recovery point of the target was not had, or is held; data was copied, and over an existing target
-- with the point that is held; the coordinator answered with a result; the provider has verified it;
-- the target was restored.
pub data Phase : Type 0 where
  preparing : Option RawDataGrant → Phase
  offered : RawDataGrant → Phase
  unheld : Phase
  held : Option RawDataGrant → String → Phase
  copied : Option String → Phase
  delivered : Option String → CoordinatedCopyResult → Phase
  approved : CoordinatedCopyResult → Phase
  restored : Phase

pub data IsReading {Order : Type 0} : Call Order → Type 0 where
  resolving : {id : String} → IsReading (resolve id)
  getting : {pointer : InstancePointer} → IsReading (get pointer)
  choosing : {name : String} → IsReading (policy name)
  authorizing : {operation environment : String} → IsReading (authorize operation environment)

module _ {Source Spec Credentials Policy : Type 0}
    (request : DataEnvironmentOperationRequest Source Spec Credentials) where
  -- An order for the request; where it asks for raw data, with the grant that is in force.
  pub record IsCleared (in_force : Option RawDataGrant)
      (order : CopyOrder Source Spec Credentials Policy) : Type 0 where
    pub same_raw : order.request_raw_delivery ≡ request.request_raw_delivery
    pub same_operation : order.operation ≡ request.operation
    pub for_target : order.raw_grant_environment_id ≡ request.target_environment_id
    pub same_grant : order.raw_grant ≡ in_force
    pub granted : order.request_raw_delivery ≡ true → order.raw_grant ≢ none

module _ {W Fault Source Spec Credentials Policy : Type 0}
    (ports : Ports W Fault Source Spec Credentials Policy)
    (request : DataEnvironmentOperationRequest Source Spec Credentials) (w : W) where
  -- What a call leaves of the world.
  abbrev pub world_after_call : Call (CopyOrder Source Spec Credentials Policy) → W → W
  world_after_call (resolve id) w = (ports.resolve id w).1
  world_after_call (get pointer) w = (ports.get pointer w).1
  world_after_call (policy name) w = (ports.policy name w).1
  world_after_call (authorize operation environment) w = (ports.authorize operation environment w).1
  world_after_call now w = (ports.now w).1
  world_after_call (acquire ref) w = (ports.acquire_recovery_point ref w).1
  world_after_call (copy order) w = (ports.copy order w).1
  world_after_call (verify c) w = (ports.verify_operation c w).1
  world_after_call (restore ref point) w = (ports.restore_recovery_point ref point w).1
  world_after_call (check ref point) w = (ports.verify_recovery_point ref point w).1

  -- The world after some calls, the latest first, made from `w` on.
  abbrev pub world_after : List (Call (CopyOrder Source Spec Credentials Policy)) → W
  world_after [] = w
  world_after (c ∷ calls) = world_after_call c (world_after calls)

  -- One call, after the earlier ones.
  pub data Step (earlier : List (Call (CopyOrder Source Spec Credentials Policy)))
      : Phase → Call (CopyOrder Source Spec Credentials Policy) → Phase → Type 0 where
    read :
        {grant : Option RawDataGrant} {c : Call (CopyOrder Source Spec Credentials Policy)}
        → IsReading c
        → Step earlier (preparing grant) c (preparing grant)
    -- the authority answers with a grant
    offer :
        {operation environment : String} {grant : RawDataGrant}
        → (ports.authorize operation environment (world_after earlier)).0 ≡ ok (some grant)
        → Step earlier (preparing none) (authorize operation environment) (offered grant)
    -- the clock answers with a time at which the grant has not expired
    enforce :
        {grant : RawDataGrant}
        → grant.operation_id ≡ request.operation.operation_id
        → grant.environment_id ≡ request.target_environment_id
        → (ports.now (world_after earlier)).0 < grant.expires_at
        → Step earlier (offered grant) now (preparing (some grant))
    expire : {grant : RawDataGrant} → Step earlier (offered grant) now (offered grant)
    -- the provider answers with a recovery point
    hold :
        {ref : DatabaseRef} {point : String} {grant : Option RawDataGrant}
        → request.target_ref ≡ some ref
        → (ports.acquire_recovery_point ref (world_after earlier)).0 ≡ ok (some point)
        → Step earlier (preparing grant) (acquire ref) (held grant point)
    miss :
        {ref : DatabaseRef} {grant : Option RawDataGrant}
        → request.target_ref ≡ some ref
        → Step earlier (preparing grant) (acquire ref) unheld
    copy_new :
        {order : CopyOrder Source Spec Credentials Policy} {grant : Option RawDataGrant}
        → request.target_ref ≡ none
        → IsCleared request grant order
        → Step earlier (preparing grant) (copy order) (copied none)
    copy_over :
        {order : CopyOrder Source Spec Credentials Policy} {grant : Option RawDataGrant}
        {point : String}
        → IsCleared request grant order
        → Step earlier (held grant point) (copy order) (copied (some point))
    -- the coordinator answers with a result
    deliver_new :
        {order : CopyOrder Source Spec Credentials Policy} {grant : Option RawDataGrant}
        {c : CoordinatedCopyResult}
        → request.target_ref ≡ none
        → IsCleared request grant order
        → (ports.copy order (world_after earlier)).0 ≡ ok c
        → Step earlier (preparing grant) (copy order) (delivered none c)
    deliver_over :
        {order : CopyOrder Source Spec Credentials Policy} {grant : Option RawDataGrant}
        {point : String} {c : CoordinatedCopyResult}
        → IsCleared request grant order
        → (ports.copy order (world_after earlier)).0 ≡ ok c
        → Step earlier (held grant point) (copy order) (delivered (some point) c)
    -- the provider answers that the result is as it should be
    approve :
        {point : Option String} {c : CoordinatedCopyResult}
        → (ports.verify_operation c (world_after earlier)).0 ≡ ok true
        → Step earlier (delivered point c) (verify c) (approved c)
    disapprove :
        {point : Option String} {c : CoordinatedCopyResult}
        → Step earlier (delivered point c) (verify c) (copied point)
    roll_back :
        {ref : DatabaseRef} {point : String}
        → request.target_ref ≡ some ref
        → Step earlier (copied (some point)) (restore ref point) restored
    confirm :
        {ref : DatabaseRef} {point : String} → Step earlier restored (check ref point) restored

  pub data Trail : List (Call (CopyOrder Source Spec Credentials Policy)) → Phase → Type 0 where
    start : Trail [] (preparing none)
    next :
        {calls : List (Call (CopyOrder Source Spec Credentials Policy))} {p q : Phase}
        {c : Call (CopyOrder Source Spec Credentials Policy)}
        → Trail calls p
        → Step calls p c q
        → Trail (c ∷ calls) q

-- Before any data is copied.
pub data IsEarly : Phase → Type 0 where
  at_preparing : {grant : Option RawDataGrant} → IsEarly (preparing grant)
  at_offered : {grant : RawDataGrant} → IsEarly (offered grant)
  at_unheld : IsEarly unheld

-- How a result ends the calls: refused before any copy; succeeded with the copy's result; failed with
-- an existing target restored, or with none to restore.
pub data Ends (ref : Option DatabaseRef) (r : DataEnvironmentOperationResult) : Phase → Type 0 where
  refusing :
      {p : Phase} → IsEarly p → r.outcome.code ≡ refused → r.copy_result ≡ none → Ends ref r p
  succeeding :
      {c : CoordinatedCopyResult}
      → r.outcome.code ≡ succeeded
      → r.copy_result ≡ some c
      → Ends ref r (approved c)
  restoring : ref ≢ none → r.outcome.code ≡ failed → r.copy_result ≡ none → Ends ref r restored
  failing :
      {point : Option String}
      → ref ≡ none
      → r.outcome.code ≡ failed
      → r.copy_result ≡ none
      → Ends ref r (copied point)

-- A result that is told by the calls, made from the world `w` on, and whose outcome its class accepts.
pub record Told {W Fault Source Spec Credentials Policy : Type 0}
    (ports : Ports W Fault Source Spec Credentials Policy)
    (request : DataEnvironmentOperationRequest Source Spec Credentials) (w : W)
    (calls : List (Call (CopyOrder Source Spec Credentials Policy)))
    (r : DataEnvironmentOperationResult) : Type 0 where
  pub phase : Phase
  pub trail : Trail ports request w calls phase
  pub ends : Ends request.target_ref r phase
  pub accepted : operation_outcome r.outcome ≡ some r.outcome
