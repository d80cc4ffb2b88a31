-- ===== src/Trcp/State.antt =====
-- The state of `TRCPSimulator`: its protocol states and the allowed moves, its records, its trace.

use liminal_osai.Prelude.{
  ℕ, ℤ, String, Bool, true, false, Option, List, [], ◌∷◌, ◌++◌, if◌then◌else◌,
}
use liminal_osai.Json.{
  Value, Fields, str, int, bool, nat, obj, object, entries, strings, optional, is_end,
}
use liminal_osai.Trcp.Authorization.{AuthorizationRecord}
use liminal_osai.Trcp.Scope.{ScopeEnvelope}

pub data State : Type 0 where
  new authorized active degraded failover_pending active_on_fallback verifying : State
  auth_expired scope_invalid human_review_required aborted closed : State

abbrev pub state_name : State → String
state_name new = "NEW"
state_name authorized = "AUTHORIZED"
state_name active = "ACTIVE"
state_name degraded = "DEGRADED"
state_name failover_pending = "FAILOVER_PENDING"
state_name active_on_fallback = "ACTIVE_ON_FALLBACK"
state_name verifying = "VERIFYING"
state_name auth_expired = "AUTH_EXPIRED"
state_name scope_invalid = "SCOPE_INVALID"
state_name human_review_required = "HUMAN_REVIEW_REQUIRED"
state_name aborted = "ABORTED"
state_name closed = "CLOSED"

-- `new_state in _ALLOWED_TRANSITIONS[state]`
unfoldable pub may_move : State → State → Bool
may_move new authorized = true
may_move authorized active = true
may_move authorized auth_expired = true
may_move authorized scope_invalid = true
may_move active verifying = true
may_move active degraded = true
may_move active aborted = true
may_move degraded failover_pending = true
may_move failover_pending active_on_fallback = true
may_move failover_pending auth_expired = true
may_move failover_pending scope_invalid = true
may_move failover_pending human_review_required = true
may_move failover_pending aborted = true
may_move active_on_fallback verifying = true
may_move active_on_fallback auth_expired = true
may_move active_on_fallback scope_invalid = true
may_move active_on_fallback aborted = true
may_move verifying closed = true
may_move _ _ = false

-- `state == other`, one test for each state that a method asks for
abbrev pub is_new : State → Bool
is_new new = true
is_new _ = false

abbrev pub is_authorized : State → Bool
is_authorized authorized = true
is_authorized _ = false

abbrev pub is_failover_pending : State → Bool
is_failover_pending failover_pending = true
is_failover_pending _ = false

abbrev pub is_verifying : State → Bool
is_verifying verifying = true
is_verifying _ = false

-- an event of the trace
pub record TraceEvent : Type 0 where
  pub sequence : ℕ
  pub observed_at_unix : ℤ
  pub kind : String
  pub state : State
  pub payload : Fields
  pub previous_event_sha256 : String
  pub event_sha256 : String

-- `core`, which the event's digest covers
unfoldable pub core : TraceEvent → Value
core e = object (
    ("sequence", nat e.sequence)
    ∷ ("observed_at_unix", int e.observed_at_unix)
    ∷ ("kind", str e.kind)
    ∷ ("state", str (state_name e.state))
    ∷ ("payload", obj e.payload)
    ∷ ("previous_event_sha256", str e.previous_event_sha256)
    ∷ [])

pub record RunRecord : Type 0 where
  pub run_id : String
  pub scope_id : String
  pub provider_id : String
  pub model_id : String
  pub started_at : ℤ
  pub ended_at : ℤ
  pub normalized_task_hash : String
  pub provider_request_reference : String
  pub outcome : String
  pub output_artifact_reference : String
  pub provider_metadata : Fields
  pub record_sha256 : String

unfoldable pub run_body : RunRecord → List (String × Value)
run_body r =
    ("run_id", str r.run_id)
    ∷ ("scope_id", str r.scope_id)
    ∷ ("provider_id", str r.provider_id)
    ∷ ("model_id", str r.model_id)
    ∷ ("started_at", int r.started_at)
    ∷ ("ended_at", int r.ended_at)
    ∷ ("normalized_task_hash", str r.normalized_task_hash)
    ∷ ("provider_request_reference", str r.provider_request_reference)
    ∷ ("outcome", str r.outcome)
    ∷ ("output_artifact_reference", str r.output_artifact_reference)
    ∷ (if is_end r.provider_metadata
        then []
        else ("provider_metadata", obj r.provider_metadata) ∷ [])

pub record FailoverRecord : Type 0 where
  pub failover_id : String
  pub previous_run_id : String
  pub scope_id : String
  pub reason : String
  pub new_provider_id : String
  pub new_model_id : String
  pub permission_delta : String
  pub data_handling_approved : Bool
  pub sensitive_artifacts_minimized : Bool
  pub human_approval_required : Bool
  pub human_approval_reference : Option String
  pub created_at : ℤ
  pub record_sha256 : String

unfoldable pub failover_body : FailoverRecord → List (String × Value)
failover_body r =
    ("failover_id", str r.failover_id)
    ∷ ("previous_run_id", str r.previous_run_id)
    ∷ ("scope_id", str r.scope_id)
    ∷ ("reason", str r.reason)
    ∷ ("scope_revalidated", bool true)
    ∷ ("new_provider_id", str r.new_provider_id)
    ∷ ("new_model_id", str r.new_model_id)
    ∷ ("permission_delta", str r.permission_delta)
    ∷ ("data_handling_approved", bool r.data_handling_approved)
    ∷ ("sensitive_artifacts_minimized", bool r.sensitive_artifacts_minimized)
    ∷ ("human_approval_required", bool r.human_approval_required)
    ∷ ("human_approval_reference", optional r.human_approval_reference)
    ∷ ("created_at", int r.created_at)
    ∷ []

-- The finding dict; `normalized` holds the fields taken over from the provider.
pub record Finding : Type 0 where
  pub finding_id : String
  pub source_run_ids : List String
  pub asset_id : String
  pub normalized : Fields
  pub evidence_references : List String
  pub status : String
  pub created_at : ℤ
  pub record_sha256 : String

unfoldable pub finding_body : Finding → List (String × Value)
finding_body f =
    ("finding_id", str f.finding_id)
      ∷ ("source_run_ids", strings f.source_run_ids)
      ∷ ("asset_id", str f.asset_id)
      ∷ entries f.normalized
    ++ ("evidence_references", strings f.evidence_references)
      ∷ ("status", str f.status)
      ∷ ("created_at", int f.created_at)
      ∷ []

pub record VerificationRecord : Type 0 where
  pub finding_id : String
  pub result : String
  pub evidence_references : List String
  pub performed_at : ℤ
  pub record_sha256 : String

unfoldable pub verification_body : VerificationRecord → List (String × Value)
verification_body v =
    ("verification_id", str "verification:1")
    ∷ ("finding_id", str v.finding_id)
    ∷ ("method", str "DETERMINISTIC_FIXTURE")
    ∷ ("verifier_type", str "LOCAL_SIMULATOR")
    ∷ ("verifier_reference", str "fixture://trcp-verifier-v1")
    ∷ ("result", str v.result)
    ∷ ("evidence_references", strings v.evidence_references)
    ∷ ("performed_at", int v.performed_at)
    ∷ []

pub record Simulator : Type 0 where
  pub authorization : AuthorizationRecord
  pub initial_scope : ScopeEnvelope
  pub scope : ScopeEnvelope
  pub now_unix : ℤ
  pub state : State
  pub trace : List TraceEvent
  pub provider_runs : List RunRecord
  pub failover_record : Option FailoverRecord
  pub finding : Option Finding
  pub verification : Option VerificationRecord
