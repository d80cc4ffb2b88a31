-- ===== src/Containment/State.antt =====
-- The states, the transitions, the incident receipt, and what the coordinator is given.
use liminal_osai.Prelude.{
  ℤ, String, true, false, List, [], ◌∷◌, ◌++◌, Option, none, some, Result, Done, Exception,
}
use liminal_osai.Json.{Value, Fields, bool, int, str, optional, object, strings}
use liminal_osai.Hashing.{Hashing, canonical_sha256, zero_sha256}

-- `STATES`, in their order
pub data Stage : Type 0 where
  idle detect freeze revoke seal snapshot review released : Stage

abbrev pub stage_name : Stage → String
stage_name idle = "IDLE"
stage_name detect = "DETECT"
stage_name freeze = "FREEZE"
stage_name revoke = "REVOKE"
stage_name seal = "SEAL"
stage_name snapshot = "SNAPSHOT"
stage_name review = "REVIEW"
stage_name released = "RELEASED"

-- `STATES[STATES.index(state) + 1]`, where there is one
abbrev pub next_stage : Stage → Option Stage
next_stage idle = some detect
next_stage detect = some freeze
next_stage freeze = some revoke
next_stage revoke = some seal
next_stage seal = some snapshot
next_stage snapshot = some review
next_stage review = some released
next_stage released = none

abbrev pub containment_error : String → Exception
containment_error m = record { type_name = "ContainmentError"; message = m }

abbrev pub containment_blocked : String → Exception
containment_blocked m = record { type_name = "ContainmentBlocked"; message = m }

pub record Transition : Type 0 where
  pub source : Stage
  pub target : Stage
  pub at_unix : ℤ
  pub evidence_sha256 : String
  pub previous_transition_sha256 : String
  pub transition_sha256 : String

abbrev pub transition_body : Transition → List (String × Value)
transition_body t =
    ("from", str (stage_name t.source))
    ∷ ("to", str (stage_name t.target))
    ∷ ("at_unix", int t.at_unix)
    ∷ ("evidence_sha256", str t.evidence_sha256)
    ∷ ("previous_transition_sha256", str t.previous_transition_sha256)
    ∷ []

abbrev pub transition_value : Transition → Value
transition_value t =
    object (transition_body t ++ ("transition_sha256", str t.transition_sha256) ∷ [])

pub record IncidentReceipt : Type 0 where
  pub incident_id : String
  pub phase3_receipt_sha256 : String
  pub final_state : Stage
  pub transition_root_sha256 : String
  pub revoked_capability_ids : List String
  pub runtime_quiescence_sha256 : String
  pub sealed_trace_sha256 : String
  pub snapshot_sha256 : String
  pub partial_failures : List String
  pub human_release_id : Option String
  pub receipt_sha256 : String

abbrev pub authority : Value
authority = object (
    ("mode", str "reference_containment_coordinator")
    ∷ ("freeze_via_host_callback", bool true)
    ∷ ("revoke_live_capabilities", bool true)
    ∷ ("close_egress_via_host_callback", bool true)
    ∷ ("active_process_quiescence_hook", bool true)
    ∷ ("quiescence_receipt_verification", bool true)
    ∷ ("seal_trace", bool true)
    ∷ ("bounded_snapshot", bool true)
    ∷ ("human_release_required", bool true)
    ∷ ("os_process_control", bool false)
    ∷ ("credential_discovery", bool false)
    ∷ ("shell_execution", bool false)
    ∷ ("deployment", bool false)
    ∷ ("merge", bool false)
    ∷ ("automatic_release", bool false)
    ∷ [])

unfoldable pub incident_body : IncidentReceipt → List (String × Value)
incident_body r =
    ("schema", str "liminal-containment-incident-receipt-v0.1")
    ∷ ("incident_id", str r.incident_id)
    ∷ ("phase3_receipt_sha256", str r.phase3_receipt_sha256)
    ∷ ("final_state", str (stage_name r.final_state))
    ∷ ("transition_root_sha256", str r.transition_root_sha256)
    ∷ ("revoked_capability_ids", strings r.revoked_capability_ids)
    ∷ ("runtime_quiescence_sha256", str r.runtime_quiescence_sha256)
    ∷ ("sealed_trace_sha256", str r.sealed_trace_sha256)
    ∷ ("snapshot_sha256", str r.snapshot_sha256)
    ∷ ("partial_failures", strings r.partial_failures)
    ∷ ("human_release_id", optional r.human_release_id)
    ∷ ("authority", authority)
    ∷ []

-- the receipt with the digest of its body
unfoldable pub sign : ⦃h : Hashing⦄ → IncidentReceipt → IncidentReceipt
sign r = record r { receipt_sha256 = canonical_sha256 (object (incident_body r)) }

unfoldable pub as_document : IncidentReceipt → List (String × Value)
as_document r = incident_body r ++ ("receipt_sha256", str r.receipt_sha256) ∷ []

-- an entry of `capabilities` in the broker's `state_document`
pub record CapabilityView : Type 0 where
  pub capability_id : String
  pub status : String

-- The broker and the callbacks, over the world they change. The broker is a `CapabilityBroker`, as
-- the constructor's annotation says: its `state_document` copies its state and does not raise, so
-- `capabilities` gives a list. `revoke_capability` gives the `decision` of the broker's answer.
pub record Environment (W : Type 0) : Type 0 where
  pub capabilities : W → List CapabilityView
  pub revoke_capability : String → ℤ → W → Result String × W
  pub freeze_runtime : W → Result Done × W
  pub close_egress : W → Result Done × W
  pub seal_trace : W → Result Value × W
  pub snapshot_forensics : W → Result Fields × W
  pub quiesce_runtime : Option (W → Result Fields × W)

pub record Coordinator (W : Type 0) : Type 0 where
  pub world : W
  pub state : Stage
  pub transitions : List Transition
  pub incident : Option IncidentReceipt

-- a new coordinator
abbrev pub create : {W : Type 0} → W → Coordinator W
create w = record { world = w; state = idle; transitions = []; incident = none }

-- `self._transitions[-1]["transition_sha256"] if self._transitions else "0" * 64`
abbrev pub chain_head : List Transition → String
chain_head [] = zero_sha256
chain_head (t ∷ []) = t.transition_sha256
chain_head (t ∷ u ∷ ts) = chain_head (u ∷ ts)
