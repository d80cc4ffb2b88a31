-- ===== src/Broker/State.antt =====
-- The decision receipt, the state of a capability and the broker.
use liminal_osai.Prelude.{
  ℕ, ℤ, pos, negsuc, String, Bool, true, false, List, [], ◌∷◌, ◌++◌, Option, none, some, ◌==◌,
  if◌then◌else◌, Result, ok, err, Exception, str_leb,
}
use liminal_osai.Json.{Value, Fields, bool, str, obj, nat, optional, object, strings}
use liminal_osai.Hashing.{zero_sha256}
use liminal_osai.Contracts.Capability.{CapabilityContract}
use liminal_osai.Contracts.Event.{CausalRuntimeEvent}

abbrev pub broker_error : String → Exception
broker_error m = record { type_name = "BrokerError"; message = m }

-- `BROKER_AUTHORITY`
abbrev pub broker_authority : Value
broker_authority = object (
    ("mode", str "capability_lifecycle_enforcement_only")
    ∷ ("capability_admission", bool true)
    ∷ ("capability_grant", bool true)
    ∷ ("capability_use_decision", bool true)
    ∷ ("capability_revoke", bool true)
    ∷ ("capability_expire", bool true)
    ∷ ("execution", bool false)
    ∷ ("network_mediation", bool false)
    ∷ ("credential_material_access", bool false)
    ∷ ("process_control", bool false)
    ∷ ("containment_execution", bool false)
    ∷ ("automatic_github_write_authorization", bool false)
    ∷ ("merge", bool false)
    ∷ ("deployment", bool false)
    ∷ ("rollback", bool false)
    ∷ [])

pub record CapabilityDecisionReceipt : Type 0 where
  pub decision_id : String
  pub capability_id : Option String
  pub subject_id : String
  pub capability_type : String
  pub policy_sha256 : String
  pub action_sha256 : String
  pub requested_scope : Fields
  pub decision : String
  pub reason_codes : List String
  pub at_unix : ℕ
  pub use_count_before : ℕ
  pub use_count_after : ℕ
  pub causal_event_sha256 : String
  pub broker_head_sha256 : String
  pub receipt_sha256 : String

unfoldable pub decision_body : CapabilityDecisionReceipt → List (String × Value)
decision_body r =
    ("schema", str "liminal-capability-decision-receipt-v0.1")
    ∷ ("decision_id", str r.decision_id)
    ∷ ("capability_id", optional r.capability_id)
    ∷ ("subject_id", str r.subject_id)
    ∷ ("capability_type", str r.capability_type)
    ∷ ("policy_sha256", str r.policy_sha256)
    ∷ ("action_sha256", str r.action_sha256)
    ∷ ("requested_scope", obj r.requested_scope)
    ∷ ("decision", str r.decision)
    ∷ ("reason_codes", strings r.reason_codes)
    ∷ ("at_unix", nat r.at_unix)
    ∷ ("use_count_before", nat r.use_count_before)
    ∷ ("use_count_after", nat r.use_count_after)
    ∷ ("causal_event_sha256", str r.causal_event_sha256)
    ∷ ("broker_head_sha256", str r.broker_head_sha256)
    ∷ ("authority", broker_authority)
    ∷ []

unfoldable pub as_document : CapabilityDecisionReceipt → List (String × Value)
as_document r = decision_body r ++ ("receipt_sha256", str r.receipt_sha256) ∷ []

-- the texts that a status can be
pub data Status : Type 0 where
  active revoked expired : Status

abbrev pub status_name : Status → String
status_name active = "active"
status_name revoked = "revoked"
status_name expired = "expired"

abbrev pub is_active : Status → Bool
is_active active = true
is_active _ = false

pub record CapabilityState : Type 0 where
  pub contract : CapabilityContract
  pub status : Status
  pub use_count : ℕ
  pub revoked_at_unix : Option ℕ
  pub expired_at_unix : Option ℕ

-- The dict `_states` is the list of its values: each stands under its contract's `capability_id`.
pub record Broker : Type 0 where
  pub broker_id : String
  pub states : List CapabilityState
  pub events : List CausalRuntimeEvent
  pub receipts : List CapabilityDecisionReceipt
  pub head : String

-- a new broker, for an id that is not blank
abbrev pub create : String → Broker
create id = record { broker_id = id; states = []; events = []; receipts = []; head = zero_sha256 }

-- `_states.get(id)`
abbrev pub find_state : String → List CapabilityState → Option CapabilityState
find_state id [] = none
find_state id (s ∷ ss) = if s.contract.capability_id == id then some s else find_state id ss

-- a state object, changed where it stands
abbrev pub replace_state : String → CapabilityState → List CapabilityState → List CapabilityState
replace_state id new [] = []
replace_state id new (s ∷ ss) =
    if s.contract.capability_id == id then new ∷ ss else s ∷ replace_state id new ss

abbrev pub insert_state : CapabilityState → List CapabilityState → List CapabilityState
insert_state s [] = s ∷ []
insert_state s (t ∷ ts) =
    if str_leb s.contract.capability_id t.contract.capability_id
    then s ∷ t ∷ ts
    else t ∷ insert_state s ts

-- the states in the order of their ids
abbrev pub sort_states : List CapabilityState → List CapabilityState
sort_states [] = []
sort_states (s ∷ ss) = insert_state s (sort_states ss)

-- `_check_time`
unfoldable pub check_time : ℤ → Result ℕ
check_time (pos n) = ok n
check_time (negsuc n) = err (broker_error "at_unix must be a non-negative integer")
