-- ===== src/Mediation/Mediator.antt =====
-- `RuntimeMediator`: `_finish`, `mediate` and the containment gate.
use liminal_osai.Prelude.{
  ◌+◌, pos, String, Bool, true, false, not, ◌&&◌, List, [], ◌∷◌, ◌++◌, Option, none, ◌==◌,
  if◌then◌else◌, Result, ok, err, Done, Exec, concat, show, length, sorted, distinct,
}
use liminal_osai.Json.{Fields, str, obj, object, fields}
use liminal_osai.Hashing.{Hashing, canonical_sha256, zero_sha256}
use liminal_osai.Exec.{pure, lift, get, modify, attempt, ◌>>=◌, ◌>>◌}
use liminal_osai.Escalation.Event.{TrajectoryEvent, build}
use liminal_osai.Broker.State.{CapabilityDecisionReceipt}
use liminal_osai.Broker.Authorize.{Request, authorize}
use liminal_osai.Mediation.Operation.{
  RuntimeOperation, ExecutionObservation, check_sha, normalized_scope, validate,
  validate_observation,
}
use liminal_osai.Mediation.State.{
  phase3_kind, RuntimeMediationReceipt, mediation_body, Executor, Mediator, call, on_broker,
}

-- the arguments of `_finish`, the operation beside
pub record Outcome : Type 0 where
  pub capability_receipt_sha : String
  pub admission : String
  pub outcome : String
  pub result_sha : String
  pub reasons : List String
  pub capability_id : Option String
  pub scope_sha : String

abbrev pub event_decision : Outcome → String
event_decision f = if f.admission == "ALLOW" && f.outcome == "SUCCEEDED" then "ALLOW" else "BLOCK"

-- the arguments of `broker.authorize`
abbrev pub request_of : RuntimeOperation → Fields → String → Request
request_of o scope scope_sha = record {
  subject_id = o.subject_id;
  capability_type = o.kind;
  policy_sha256 = o.policy_sha256;
  requested_scope = scope;
  action = fields (
      ("operation_id", str o.operation_id)
      ∷ ("runtime_kind", str o.kind)
      ∷ ("scope_sha256", str scope_sha)
      ∷ ("payload_sha256", str o.payload_sha256)
      ∷ []);
  at_unix = o.at_unix;
  recorder_event_id = none;
  recorder_entry_sha256 = none;
}

module _ {W : Type 0} where
  -- the body of the `try`
  unfoldable pub run : Executor W → RuntimeOperation → Exec (Mediator W) ExecutionObservation
  run executor operation = do
    observation ← call (executor operation)
    lift (validate_observation observation)
    pure observation

  -- `enter_containment` and `exit_containment`
  unfoldable pub set_containment : Bool → String → String → Exec (Mediator W) Done
  set_containment contained receipt name = do
    lift (check_sha receipt name)
    modify (λ m. record m { containment_evidence_sha256 = receipt; contained = contained })

  unfoldable pub enter_containment : String → Exec (Mediator W) Done
  enter_containment receipt = set_containment true receipt "incident_receipt_sha256"

  unfoldable pub exit_containment : String → Exec (Mediator W) Done
  exit_containment receipt = set_containment false receipt "human_release_receipt_sha256"

module _ ⦃h : Hashing⦄ where
  unfoldable pub new_receipt :
      RuntimeOperation → Outcome → TrajectoryEvent → RuntimeMediationReceipt
  new_receipt o f event =
      let base : RuntimeMediationReceipt = record {
        operation_id = o.operation_id;
        subject_id = o.subject_id;
        runtime_kind = o.kind;
        policy_sha256 = o.policy_sha256;
        scope_sha256 = f.scope_sha;
        payload_sha256 = o.payload_sha256;
        capability_receipt_sha256 = f.capability_receipt_sha;
        admission_decision = f.admission;
        execution_outcome = f.outcome;
        result_sha256 = f.result_sha;
        reason_codes = sorted (distinct f.reasons);
        trajectory_event_sha256 = event.event_sha256;
        at_unix = o.at_unix;
        receipt_sha256 = "";
      } in
      record base { receipt_sha256 = canonical_sha256 (object (mediation_body base)) }

module _ {W : Type 0} ⦃h : Hashing⦄ where
  -- the event of the trajectory that `_finish` builds
  unfoldable pub new_event : Mediator W → RuntimeOperation → Outcome → Result TrajectoryEvent
  new_event m o f =
      let decision = event_decision f in
      build (concat ("runtime-event:" ∷ show (length m.events + 1) ∷ []))
        (pos (length m.events + 1)) o.at_unix (phase3_kind o.kind) decision o.subject_id
        f.capability_id o.privilege_level_before
        (if decision == "ALLOW" then o.privilege_level_after else o.privilege_level_before)
        (fields (
          ("operation_id", str o.operation_id)
          ∷ ("runtime_kind", str o.kind)
          ∷ ("payload_sha256", str o.payload_sha256)
          ∷ ("scope_sha256", str f.scope_sha)
          ∷ ("outcome", str f.outcome)
          ∷ ("containment_evidence_sha256", str m.containment_evidence_sha256)
          ∷ []))
        m.event_head

  -- `_finish`, for a call that does not override the event's kind
  unfoldable pub finish : RuntimeOperation → Outcome → Exec (Mediator W) RuntimeMediationReceipt
  finish o f = do
    m ← get
    event ← lift (new_event m o f)
    modify (λ n. record n { events = n.events ++ event ∷ []; event_head = event.event_sha256 })
    let receipt = new_receipt o f event
    modify (λ n. record n { receipts = n.receipts ++ receipt ∷ [] })
    pure receipt

  -- after the `try`
  unfoldable pub settle :
      RuntimeOperation
      → CapabilityDecisionReceipt
      → String
      → Result ExecutionObservation
      → Exec (Mediator W) RuntimeMediationReceipt
  settle o capability scope_sha (err e) = finish o (record {
    capability_receipt_sha = capability.receipt_sha256;
    admission = "ALLOW";
    outcome = "FAILED";
    result_sha = canonical_sha256 (object (("error_type", str e.type_name) ∷ []));
    reasons = "executor_failed" ∷ [];
    capability_id = capability.capability_id;
    scope_sha = scope_sha;
  })
  settle o capability scope_sha (ok observation) = finish o (record {
    capability_receipt_sha = capability.receipt_sha256;
    admission = "ALLOW";
    outcome = "SUCCEEDED";
    result_sha = observation.result_sha256;
    reasons = "capability_admitted" ∷ "host_executor_succeeded" ∷ [];
    capability_id = capability.capability_id;
    scope_sha = scope_sha;
  })

  unfoldable pub finish_blocked :
      RuntimeOperation → String → List String → String → Exec (Mediator W) RuntimeMediationReceipt
  finish_blocked o receipt_sha reasons scope_sha = finish o (record {
    capability_receipt_sha = receipt_sha;
    admission = "BLOCK";
    outcome = "NOT_EXECUTED";
    result_sha = zero_sha256;
    reasons = reasons;
    capability_id = none;
    scope_sha = scope_sha;
  })

  -- after the broker's decision
  unfoldable pub dispatch :
      RuntimeOperation
      → String
      → Executor W
      → CapabilityDecisionReceipt
      → Exec (Mediator W) RuntimeMediationReceipt
  dispatch o scope_sha executor capability =
      if not (capability.decision == "ALLOW")
      then finish_blocked o capability.receipt_sha256 capability.reason_codes scope_sha
      else (do result ← attempt (run executor o); settle o capability scope_sha result)

  -- after the operation is checked: the containment gate, and the broker
  unfoldable pub proceed :
      RuntimeOperation
      → Fields
      → String
      → Executor W
      → Bool
      → Exec (Mediator W) RuntimeMediationReceipt
  proceed o scope scope_sha executor true =
      finish_blocked o zero_sha256 ("containment_active" ∷ []) scope_sha
  proceed o scope scope_sha executor false = do
    capability ← on_broker (authorize (request_of o scope scope_sha))
    dispatch o scope_sha executor capability

  unfoldable pub mediate : RuntimeOperation → Executor W → Exec (Mediator W) RuntimeMediationReceipt
  mediate o executor = do
    lift (validate o)
    scope ← lift (normalized_scope o)
    m ← get
    proceed o scope (canonical_sha256 (obj scope)) executor m.contained
