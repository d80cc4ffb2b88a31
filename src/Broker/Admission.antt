-- ===== src/Broker/Admission.antt =====
-- `admit` and `_validate_parent`.
use liminal_osai.Prelude.{
  ℕ, ℤ, String, not, ◌||◌, List, [], ◌∷◌, ◌++◌, Option, none, some, ◌==◌, ltb, leb, if◌then◌else◌,
  Result, ok, err, Done, Exec,
}
use liminal_osai.Json.{Fields, obj}
use liminal_osai.Hashing.{Hashing}
use liminal_osai.Exec.{lift, get, modify, raise_if, ◌>>=◌, ◌>>◌}
use liminal_osai.Contracts.Capability.{CapabilityContract, from_document}
use liminal_osai.Broker.State.{
  broker_error, CapabilityDecisionReceipt, active, is_active, CapabilityState, Broker, find_state,
  check_time,
}
use liminal_osai.Broker.Scopes.{scope_contains}
use liminal_osai.Broker.Records.{lifecycle}

-- the checks of a child against its parent
unfoldable pub check_parent : CapabilityContract → Option CapabilityState → Result Done
check_parent child none = err (broker_error "delegation parent is not active")
check_parent child (some state) =
    let parent = state.contract in
    let contained = scope_contains child.capability_type parent.scope child.scope in
    if not (is_active state.status)
    then err (broker_error "delegation parent is not active")
    else if not parent.delegable
    then err (broker_error "parent is not delegable")
    else if not (child.capability_type == parent.capability_type)
    then err (broker_error "child capability_type exceeds parent")
    else if not (child.policy_sha256 == parent.policy_sha256)
    then err (broker_error "child policy differs from parent")
    else if ltb parent.expires_at_unix child.expires_at_unix || ltb parent.max_uses child.max_uses
    then err (broker_error "child validity or use bounds exceed parent")
    else if not contained
    then err (broker_error "child scope exceeds parent")
    else ok tt

abbrev pub validate_parent : CapabilityContract → Option String → List CapabilityState → Result Done
validate_parent child none states = ok tt
validate_parent child (some id) states = check_parent child (find_state id states)

abbrev pub new_state : CapabilityContract → CapabilityState
new_state c = record {
  contract = c;
  status = active;
  use_count = 0;
  revoked_at_unix = none;
  expired_at_unix = none;
}

module _ ⦃h : Hashing⦄ where
  -- `admit`, after the look for a capability with the same id
  unfoldable pub admit_contract :
      CapabilityContract → ℕ → Option CapabilityState → Exec Broker CapabilityDecisionReceipt
  admit_contract c at (some existing) = do
    raise_if (not (existing.contract.contract_sha256 == c.contract_sha256))
        (broker_error "duplicate capability_id with different contract")
    lifecycle existing "grant" "ALLOW" ("already_admitted" ∷ []) at
  admit_contract c at none = do
    raise_if (ltb at c.issued_at_unix || leb c.expires_at_unix at)
        (broker_error "capability is outside admissible time window")
    b ← get
    lift (validate_parent c c.parent_capability_id b.states)
    modify (λ d. record d { states = d.states ++ new_state c ∷ [] })
    lifecycle (new_state c) "grant" "ALLOW" ("capability_admitted" ∷ []) at

  unfoldable pub admit : Fields → ℤ → Exec Broker CapabilityDecisionReceipt
  admit document at_unix = do
    at ← lift (check_time at_unix)
    c ← lift (from_document (obj document))
    b ← get
    admit_contract c at (find_state c.capability_id b.states)
