-- ===== src/Mediation/Tests.antt =====
-- A mediator over a broker with one capability, and each theorem there.
use liminal_osai.Prelude.{
  ◌≤◌, pos, String, ◌≡◌, false, List, [], ◌∷◌, some, Result, ok, err, length, map,
}
use liminal_osai.Json.{Value, Fields, str, nat, bool, null, obj, strings, fields, end}
use liminal_osai.Hashing.{zero_sha256}
use liminal_osai.Hashing.Toy.{toy}
use liminal_osai.Contracts.Capability.{CapabilityContract, build}
use liminal_osai.Contracts.Capability
use liminal_osai.Escalation.Event.{TrajectoryEvent}
use liminal_osai.Broker.Calls
use liminal_osai.Broker.State
use liminal_osai.EffectCommit.Logged.{LoggedWorld}
use liminal_osai.Mediation.Operation.{RuntimeOperation}
use liminal_osai.Mediation.State.{Executor, Mediator, create, verify_receipt, mediation_document}
use liminal_osai.Mediation.Mediator.{Outcome, new_receipt}
use liminal_osai.Mediation.Calls.{Call, mediate_call, enter_call, after, logged_call}
use liminal_osai.Mediation.Uses.{total_uses, total_budget}
use liminal_osai.Mediation.Allowed.{effects_allowed}
use liminal_osai.Mediation.Verified.{verify_receipt-mediation_document}

abbrev kwargs : List (String × Value)
kwargs =
    ("capability_id", str "capability:7")
    ∷ ("capability_type", str "process.execute")
    ∷ ("subject_id", str "agent:7")
    ∷ ("issuer_id", str "operator:1")
    ∷ ("scope", obj (fields (("executables", strings ("git" ∷ [])) ∷ [])))
    ∷ ("issued_at_unix", nat 10)
    ∷ ("not_before_unix", nat 10)
    ∷ ("expires_at_unix", nat 100)
    ∷ ("max_uses", nat 2)
    ∷ ("delegable", bool false)
    ∷ ("parent_capability_id", null)
    ∷ ("policy_sha256", str zero_sha256)
    ∷ []

abbrev document : Result CapabilityContract → Fields
document (ok c) = Capability.as_document c
document (err e) = end

abbrev admissions : List Calls.Call
admissions = Calls.admit_call (document (build ⦃h = toy⦄ kwargs)) (pos 20) ∷ []

abbrev operation : RuntimeOperation
operation = record {
  operation_id = "operation:7";
  subject_id = "agent:7";
  policy_sha256 = zero_sha256;
  kind = "process.execute";
  scope = fields (("executables", strings ("git" ∷ [])) ∷ []);
  payload_sha256 = zero_sha256;
  at_unix = pos 30;
  privilege_level_before = pos 0;
  privilege_level_after = pos 0;
}

abbrev executor : Executor (Unit {0})
executor o w = (ok (record { outcome = "SUCCEEDED"; result_sha256 = zero_sha256 }), w)

abbrev calls : List (Call (Unit {0}))
calls =
    mediate_call operation executor
    ∷ mediate_call operation executor
    ∷ mediate_call operation executor
    ∷ enter_call zero_sha256
    ∷ mediate_call operation executor
    ∷ []

abbrev mediator : Mediator (LoggedWorld (Unit {0}))
mediator =
    after (create (tt, []) (Calls.after (State.create "broker:1") admissions))
      (map logged_call calls)

effects_allowed_example :
    (length mediator.world.1 ≤ total_uses mediator.broker.states)
    × (total_uses mediator.broker.states ≤ total_budget mediator.broker.states)
effects_allowed_example = effects_allowed tt "broker:1" admissions calls

abbrev outcome : Outcome
outcome = record {
  capability_receipt_sha = zero_sha256;
  admission = "ALLOW";
  outcome = "SUCCEEDED";
  result_sha = zero_sha256;
  reasons = "capability_admitted" ∷ [];
  capability_id = some "capability:7";
  scope_sha = zero_sha256;
}

abbrev event : TrajectoryEvent
event = record {
  event_id = "runtime-event:1";
  sequence = pos 1;
  observed_at_unix = pos 30;
  kind = "process.execute";
  decision = "ALLOW";
  subject_id = "agent:7";
  capability_id = some "capability:7";
  privilege_level_before = pos 0;
  privilege_level_after = pos 0;
  metadata_sha256 = zero_sha256;
  previous_event_sha256 = zero_sha256;
  event_sha256 = zero_sha256;
}

verify_receipt-mediation_document_example :
    verify_receipt (mediation_document (new_receipt operation outcome event))
    ≡ ok (mediation_document (new_receipt operation outcome event))
verify_receipt-mediation_document_example =
    verify_receipt-mediation_document operation outcome event
