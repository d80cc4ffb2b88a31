-- ===== src/Broker/Authorize.antt =====
-- `authorize` and `_ineligible`.
use liminal_osai.Prelude.{
  ℕ, ◌+◌, ℤ, String, Bool, true, false, not, ◌&&◌, List, [], ◌∷◌, ◌++◌, Option, none, some, ◌==◌,
  ltb, leb, if◌then◌else◌, Result, ok, err, Exec, sorted, distinct, keep, member, is_empty,
}
use liminal_osai.Json.{Fields, obj}
use liminal_osai.Hashing.{Hashing, canonical_sha256}
use liminal_osai.Exec.{lift, get, modify, raise_if, ◌>>=◌, ◌>>◌}
use liminal_osai.Contracts.Scope.{capability_types, validate_scope}
use liminal_osai.Broker.State.{
  broker_error, CapabilityDecisionReceipt, is_active, status_name, CapabilityState, Broker,
  replace_state, sort_states, check_time,
}
use liminal_osai.Broker.Scopes.{scope_contains}
use liminal_osai.Broker.Records.{record_event, record_receipt}

-- `[reason]` if the test holds
abbrev pub reason_if : Bool → String → List String
reason_if true reason = reason ∷ []
reason_if false reason = []

unfoldable pub ineligible : CapabilityState → String → Fields → ℕ → List String
ineligible s policy scope at =
    let c = s.contract in
    let contained = scope_contains c.capability_type c.scope scope in
    sorted (
      distinct (
        reason_if (not (is_active s.status)) (status_name s.status)
        ++ reason_if (ltb at c.not_before_unix) "not_yet_valid"
        ++ reason_if (leb c.expires_at_unix at) "expired"
        ++ reason_if (not (c.policy_sha256 == policy)) "policy_mismatch"
        ++ reason_if (leb c.max_uses s.use_count) "use_exhausted"
        ++ reason_if (not contained) "scope_mismatch"))

-- the arguments of `authorize`
pub record Request : Type 0 where
  pub subject_id : String
  pub capability_type : String
  pub policy_sha256 : String
  pub requested_scope : Fields
  pub action : Fields
  pub at_unix : ℤ
  pub recorder_event_id : Option String
  pub recorder_entry_sha256 : Option String

-- `sorted(s for s in self._states.values() if …)`
abbrev pub candidates : Request → List CapabilityState → List CapabilityState
candidates q ss = sort_states (
    keep
      (λ s.
        s.contract.subject_id == q.subject_id && s.contract.capability_type == q.capability_type)
      ss)

abbrev pub use_reasons : List String
use_reasons = "capability_scope_match" ∷ "policy_match" ∷ "use_committed" ∷ []

-- `sorted(reasons or {"default_deny", "no_matching_capability"})`
abbrev pub deny_reasons : List String → List String
deny_reasons [] = "default_deny" ∷ "no_matching_capability" ∷ []
deny_reasons (r ∷ rs) = sorted (distinct (r ∷ rs))

-- `except ContractError as exc: raise BrokerError(str(exc))`
unfoldable pub as_broker_error : {A : Type 0} → Result A → Result A
as_broker_error (ok a) = ok a
as_broker_error (err e) =
    if e.type_name == "ContractError" then err (broker_error e.message) else err e

module _ ⦃h : Hashing⦄ where
  -- a use of the capability of `s`
  unfoldable pub commit_use :
      Request → Fields → String → ℕ → CapabilityState → Exec Broker CapabilityDecisionReceipt
  commit_use q scope action_sha at s = do
    modify (λ b. record b {
      states =
          replace_state s.contract.capability_id (record s { use_count = s.use_count + 1 })
            b.states;
    })
    event ← record_event (record {
      event_type = "use";
      subject_id = q.subject_id;
      capability_id = s.contract.capability_id;
      capability_type = q.capability_type;
      decision = "ALLOW";
      at_unix = at;
      input_sha = action_sha;
      output_sha = some s.contract.contract_sha256;
      reasons = use_reasons;
      recorder_event_id = q.recorder_event_id;
      recorder_entry_sha256 = q.recorder_entry_sha256;
    })
    record_receipt
        (record {
          capability_id = some s.contract.capability_id;
          subject_id = q.subject_id;
          capability_type = q.capability_type;
          policy_sha = q.policy_sha256;
          action_sha = action_sha;
          scope = scope;
          decision = "ALLOW";
          reasons = use_reasons;
          at_unix = at;
          before = s.use_count;
          after = s.use_count + 1;
        })
        event

  unfoldable pub deny :
      Request → Fields → String → ℕ → List String → Exec Broker CapabilityDecisionReceipt
  deny q scope action_sha at reasons = do
    event ← record_event (record {
      event_type = "deny";
      subject_id = q.subject_id;
      capability_id = "capability:none";
      capability_type = q.capability_type;
      decision = "BLOCK";
      at_unix = at;
      input_sha = action_sha;
      output_sha = none;
      reasons = reasons;
      recorder_event_id = q.recorder_event_id;
      recorder_entry_sha256 = q.recorder_entry_sha256;
    })
    record_receipt
        (record {
          capability_id = none;
          subject_id = q.subject_id;
          capability_type = q.capability_type;
          policy_sha = q.policy_sha256;
          action_sha = action_sha;
          scope = scope;
          decision = "BLOCK";
          reasons = reasons;
          at_unix = at;
          before = 0;
          after = 0;
        })
        event

  -- the loop over the candidates, with the reasons that are gathered
  unfoldable pub choose :
      Request
      → Fields
      → String
      → ℕ
      → List String
      → List CapabilityState
      → Exec Broker CapabilityDecisionReceipt
  choose q scope action_sha at reasons [] = deny q scope action_sha at (deny_reasons reasons)
  choose q scope action_sha at reasons (s ∷ ss) =
      let bad = ineligible s q.policy_sha256 scope at in
      let later = choose q scope action_sha at (reasons ++ bad) ss in
      if is_empty bad then commit_use q scope action_sha at s else later

  unfoldable pub authorize : Request → Exec Broker CapabilityDecisionReceipt
  authorize q = do
    at ← lift (check_time q.at_unix)
    raise_if (not (member q.capability_type capability_types))
        (broker_error "unsupported capability_type")
    scope ← lift (as_broker_error (validate_scope q.capability_type (obj q.requested_scope)))
    b ← get
    choose q scope (canonical_sha256 (obj q.action)) at [] (candidates q b.states)
