-- ===== src/Mediation/State.antt =====
-- `RuntimeMediationReceipt` and the state of the mediator.
use liminal_osai.Prelude.{
  ℤ, String, Bool, true, false, not, ◌||◌, List, [], ◌∷◌, ◌++◌, ◌==◌, if◌then◌else◌, Result, ok,
  raise_if, ◌>>◌, Exec,
}
use liminal_osai.Json.{
  Value, Fields, bool, str, int, obj, object, strings, fields, get_or_null, is_text, is_flat,
  without,
}
use liminal_osai.Hashing.{Hashing, canonical_sha256, zero_sha256}
use liminal_osai.Escalation.Event.{TrajectoryEvent}
use liminal_osai.Broker.State.{Broker}
use liminal_osai.Mediation.Operation.{mediation_error, RuntimeOperation, ExecutionObservation}

-- `AUTHORITY`
abbrev pub authority : List (String × Value)
authority =
    ("mode", str "host_integrated_runtime_mediation")
    ∷ ("capability_admission", bool true)
    ∷ ("host_callback_dispatch", bool true)
    ∷ ("network_via_egress_gateway", bool true)
    ∷ ("direct_subprocess_execution", bool false)
    ∷ ("direct_socket_creation", bool false)
    ∷ ("direct_filesystem_mutation", bool false)
    ∷ ("direct_package_installation", bool false)
    ∷ ("credential_material_export", bool false)
    ∷ ("os_kernel_enforcement", bool false)
    ∷ ("seccomp_ebpf_apparmor_enforcement", bool false)
    ∷ ("deployment", bool false)
    ∷ ("automatic_release", bool false)
    ∷ []

-- `PHASE3_KIND[kind]`
abbrev pub phase3_kind : String → String
phase3_kind kind = if kind == "filesystem.write_outside_workspace" then "repository.write" else kind

pub record RuntimeMediationReceipt : Type 0 where
  pub operation_id : String
  pub subject_id : String
  pub runtime_kind : String
  pub policy_sha256 : String
  pub scope_sha256 : String
  pub payload_sha256 : String
  pub capability_receipt_sha256 : String
  pub admission_decision : String
  pub execution_outcome : String
  pub result_sha256 : String
  pub reason_codes : List String
  pub trajectory_event_sha256 : String
  pub at_unix : ℤ
  pub receipt_sha256 : String

unfoldable pub mediation_body : RuntimeMediationReceipt → List (String × Value)
mediation_body r =
    ("schema", str "liminal-runtime-mediation-receipt-v0.1")
    ∷ ("operation_id", str r.operation_id)
    ∷ ("subject_id", str r.subject_id)
    ∷ ("runtime_kind", str r.runtime_kind)
    ∷ ("policy_sha256", str r.policy_sha256)
    ∷ ("scope_sha256", str r.scope_sha256)
    ∷ ("payload_sha256", str r.payload_sha256)
    ∷ ("capability_receipt_sha256", str r.capability_receipt_sha256)
    ∷ ("admission_decision", str r.admission_decision)
    ∷ ("execution_outcome", str r.execution_outcome)
    ∷ ("result_sha256", str r.result_sha256)
    ∷ ("reason_codes", strings r.reason_codes)
    ∷ ("trajectory_event_sha256", str r.trajectory_event_sha256)
    ∷ ("at_unix", int r.at_unix)
    ∷ ("authority", object authority)
    ∷ []

unfoldable pub mediation_document : RuntimeMediationReceipt → Fields
mediation_document r = fields (mediation_body r ++ ("receipt_sha256", str r.receipt_sha256) ∷ [])

abbrev is_authority : Value → Bool
is_authority (obj fs) = is_flat fs authority
is_authority _ = false

unfoldable pub verify_receipt : ⦃h : Hashing⦄ → Fields → Result Fields
verify_receipt document = do
  let raw = without "receipt_sha256" document
  raise_if
      (not (is_text (get_or_null "schema" raw) "liminal-runtime-mediation-receipt-v0.1")
        || not (is_authority (get_or_null "authority" raw)))
      (mediation_error "receipt schema or authority boundary mismatch")
  raise_if (not (is_text (get_or_null "receipt_sha256" document) (canonical_sha256 (obj raw))))
      (mediation_error "runtime mediation receipt digest mismatch")
  ok document

-- the callback that has the effect, over the world that it changes
abbrev pub Executor : Type 0 → Type 0
Executor W = RuntimeOperation → W → Result ExecutionObservation × W

pub record Mediator (W : Type 0) : Type 0 where
  pub world : W
  pub broker : Broker
  pub contained : Bool
  pub containment_evidence_sha256 : String
  pub receipts : List RuntimeMediationReceipt
  pub events : List TrajectoryEvent
  pub event_head : String

-- a new mediator
abbrev pub create : {W : Type 0} → W → Broker → Mediator W
create w broker = record {
  world = w;
  broker = broker;
  contained = false;
  containment_evidence_sha256 = zero_sha256;
  receipts = [];
  events = [];
  event_head = zero_sha256;
}

module _ {W A : Type 0} where
  -- a callback, and a method of the broker, called from a method
  abbrev pub call : (W → Result A × W) → Exec (Mediator W) A
  call f m = let (r, w) = f m.world in (r, record m { world = w })

  abbrev pub on_broker : Exec Broker A → Exec (Mediator W) A
  on_broker f m = let (r, b) = f m.broker in (r, record m { broker = b })
