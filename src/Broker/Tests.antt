-- ===== src/Broker/Tests.antt =====
-- A broker with one capability, and each theorem there.
use liminal_osai.Prelude.{
  ℕ, ◌++◌, Option, All, pos, ◌≤◌, String, ◌≡◌, refl, false, List, [], ◌∷◌, none, some, Result, ok,
  err,
}
use liminal_osai.Json.{Value, Fields, str, nat, bool, null, obj, strings, fields, end}
use liminal_osai.Hashing.{zero_sha256}
use liminal_osai.Hashing.Toy.{toy, toy_digest}
use liminal_osai.Contracts.Capability.{CapabilityContract, build}
use liminal_osai.Contracts.Capability
use liminal_osai.Broker.State.{
  CapabilityDecisionReceipt, Status, revoked, CapabilityState, active, Broker, create, find_state,
}
use liminal_osai.Broker.Admission.{admit}
use liminal_osai.Broker.Authorize.{Request, authorize}
use liminal_osai.Broker.Calls.{Call, admit_call, authorize_call, revoke_call, perform, after}
use liminal_osai.Broker.Invariant.{spent, IsRoot}
use liminal_osai.Broker.Guarantees.{uses_bounded, closed_final, no_delegation}
use liminal_osai.Broker.Refusals.{Decided, authorize_lem}
use liminal_osai.Broker.Delegation.{Admitted, admit-Admitted}
use liminal_osai.Prelude.{
  sorted, has_nul, distinct, concat, is_blank, is_hex, is_sha256, join, show,
}
use liminal_osai.Json.{eq_value}
use liminal_osai.Exec.{◌>>=◌, ◌>>◌}
use liminal_osai.Broker.State.{check_time, decision_body}
use liminal_osai.Broker.Authorize.{as_broker_error, choose, commit_use, deny, ineligible}
use liminal_osai.Broker.Admission.{admit_contract, check_parent}
use liminal_osai.Broker.Lifecycle.{revoke, revoke_state}
use liminal_osai.Broker.Scopes.{effect_for, scope_contains}
use liminal_osai.Broker.Records.{
  event_kwargs, lifecycle, new_decision, record_event, record_receipt,
}
use liminal_osai.Contracts.Scope.{
  validate_scope, allowed_keys, check_item, check_items, check_list, sort_fields,
}
use liminal_osai.Contracts.Validators.{
  mapping, string, is_trimmed, exact, identifier, is_ident, sha, sorted_unique_strings, time,
}
use liminal_osai.Contracts.Event

abbrev settings : Fields
settings = fields (("setting_keys", strings ("log_level" ∷ [])) ∷ [])

abbrev kwargs : List (String × Value)
kwargs =
    ("capability_id", str "capability:1")
    ∷ ("capability_type", str "runtime.configure")
    ∷ ("subject_id", str "agent:1")
    ∷ ("issuer_id", str "operator:1")
    ∷ ("scope", obj settings)
    ∷ ("issued_at_unix", nat 10)
    ∷ ("not_before_unix", nat 10)
    ∷ ("expires_at_unix", nat 100)
    ∷ ("max_uses", nat 1)
    ∷ ("delegable", bool false)
    ∷ ("parent_capability_id", null)
    ∷ ("policy_sha256", str zero_sha256)
    ∷ []

abbrev contract : CapabilityContract
contract = elim (build ⦃h = toy⦄ kwargs) [
  | ok c ↦ c
  | err e ↦ record {
    capability_id = e.message;
    capability_type = "";
    subject_id = "";
    issuer_id = "";
    scope = end;
    issued_at_unix = 0;
    not_before_unix = 0;
    expires_at_unix = 0;
    max_uses = 0;
    delegable = false;
    parent_capability_id = none;
    policy_sha256 = "";
    contract_sha256 = "";
  }
]

abbrev request : Request
request = record {
  subject_id = "agent:1";
  capability_type = "runtime.configure";
  policy_sha256 = zero_sha256;
  requested_scope = settings;
  action = end;
  at_unix = pos 20;
  recorder_event_id = none;
  recorder_entry_sha256 = none;
}

abbrev admission : List Call
admission = admit_call (Capability.as_document contract) (pos 15) ∷ []

abbrev calls : List Call
calls = admission ++ authorize_call request ∷ authorize_call request ∷ []

abbrev calls_and_revoke : List Call
calls_and_revoke = admission ++ revoke_call "capability:1" (pos 18) ∷ []

abbrev state : Status → ℕ → Option ℕ → CapabilityState
state status count revoked_at = record {
  contract = contract;
  status = status;
  use_count = count;
  revoked_at_unix = revoked_at;
  expired_at_unix = none;
}

-- the broker after the admission, and what a request gives there
abbrev start : Broker
start = after (create "broker:1") admission

abbrev receipt_of : Result CapabilityDecisionReceipt → Option CapabilityDecisionReceipt
receipt_of (ok r) = some r
receipt_of (err e) = none

abbrev dummy : CapabilityDecisionReceipt
dummy = record {
  decision_id = "";
  capability_id = none;
  subject_id = "";
  capability_type = "";
  policy_sha256 = "";
  action_sha256 = "";
  requested_scope = end;
  decision = "";
  reason_codes = [];
  at_unix = 0;
  use_count_before = 0;
  use_count_after = 0;
  causal_event_sha256 = "";
  broker_head_sha256 = "";
  receipt_sha256 = "";
}

abbrev receipt : CapabilityDecisionReceipt
receipt = elim ((authorize request start).0) [ ok r ↦ r | err e ↦ dummy ]

-- the admission of the same capability by a broker that was used before
abbrev earlier : List Call
earlier = revoke_call "capability:1" (pos 12) ∷ []

abbrev before : Broker
before = after (create "broker:1") earlier

abbrev admitted : Result CapabilityDecisionReceipt × Broker
admitted = admit (Capability.as_document contract) (pos 15) before

abbrev admit_receipt : CapabilityDecisionReceipt
admit_receipt = elim (admitted.0) [ ok r ↦ r | err e ↦ dummy ]

runs :
    (find_state "capability:1" (after (create "broker:1") calls).states
      ≡ some (state active 1 none))
    × (find_state "capability:1" (after (create "broker:1") calls_and_revoke).states
        ≡ some (state revoked 0 (some 18)))
    × (authorize request start ≡ (ok receipt, (authorize request start).1))
    × (receipt.decision ≡ "ALLOW")
    × (Capability.from_document (obj (Capability.as_document contract)) ≡ ok contract)
    × (admitted ≡ (ok admit_receipt, admitted.1))
    × (find_state contract.capability_id before.states ≡ none)
unfolding after perform admit authorize toy_digest ◌>>◌ check_time as_broker_error validate_scope
    mapping sorted string is_trimmed has_nul distinct choose Capability.from_document exact
    Capability.as_document Capability.contract_body Capability.read_contract build admit_contract
    check_parent commit_use deny ineligible revoke revoke_state event_kwargs lifecycle new_decision
    record_event record_receipt effect_for scope_contains decision_body Capability.boolean
    Capability.uses Event.build Event.event_body Event.from_document Event.one_of Event.optionally
    Event.read_event allowed_keys check_item check_items check_list sort_fields identifier is_ident
    sha sorted_unique_strings time ◌>>=◌ eq_value concat is_blank is_hex is_sha256 join show
runs = (refl, refl, refl, refl, refl, refl, refl)

uses_bounded_example :
    (spent "capability:1" (after (create "broker:1") calls).receipts ≤ 1) × (1 ≤ contract.max_uses)
uses_bounded_example = uses_bounded "broker:1" calls "capability:1" (state active 1 none) runs.0

closed_final_example :
    find_state "capability:1"
      (after (after (create "broker:1") calls_and_revoke) (authorize_call request ∷ [])).states
    ≡ some (state revoked 0 (some 18))
closed_final_example =
    closed_final "broker:1" calls_and_revoke (authorize_call request ∷ []) "capability:1"
      (state revoked 0 (some 18)) runs.1 refl

no_delegation_example : All IsRoot (after (create "broker:1") calls).states
no_delegation_example = no_delegation "broker:1" calls

admit-Admitted_example : Admitted contract (pos 15) before admitted.1
admit-Admitted_example =
    admit-Admitted "broker:1" earlier (Capability.as_document contract) (pos 15) contract admitted.1
      admit_receipt runs.4 runs.6 runs.5

authorize_lem_example : Decided request start (authorize request start).1 receipt
authorize_lem_example =
    authorize_lem "broker:1" admission request (authorize request start).1 receipt runs.2
