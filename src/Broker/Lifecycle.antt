-- ===== src/Broker/Lifecycle.antt =====
-- `revoke`, `expire_due` and `state_document`.
use liminal_osai.Prelude.{
  ℕ, ℤ, String, not, ◌&&◌, List, [], ◌∷◌, ◌++◌, some, leb, if◌then◌else◌, map, length, concat, Exec,
  Done,
}
use liminal_osai.Json.{Value, str, nat, object, array}
use liminal_osai.Json.{Fields, fields}
use liminal_osai.Contracts.Event
use liminal_osai.Broker.State
use liminal_osai.Hashing.{Hashing, canonical_sha256}
use liminal_osai.Exec.{pure, lift, get, modify, ◌>>=◌, ◌>>◌}
use liminal_osai.Broker.State.{
  broker_authority, CapabilityDecisionReceipt, revoked, expired, is_active, status_name,
  CapabilityState, Broker, find_state, replace_state, sort_states, check_time,
}
use liminal_osai.Broker.Records.{lifecycle, or_unknown}

-- the state objects after `state.status = …`
abbrev pub set_state : CapabilityState → Exec Broker Done
set_state s = modify (λ b. record b { states = replace_state s.contract.capability_id s b.states })

module _ ⦃h : Hashing⦄ where
  unfoldable pub revoke_state : CapabilityState → ℕ → Exec Broker CapabilityDecisionReceipt
  revoke_state s at =
      let gone : CapabilityState = record s { status = revoked; revoked_at_unix = some at } in
      if not (is_active s.status)
      then lifecycle s "revoke" "BLOCK" (concat ("already_" ∷ status_name s.status ∷ []) ∷ []) at
      else (do set_state gone; lifecycle gone "revoke" "ALLOW" ("explicit_revoke" ∷ []) at)

  unfoldable pub revoke : String → ℤ → Exec Broker CapabilityDecisionReceipt
  revoke id at_unix = do
    at ← lift (check_time at_unix)
    b ← get
    s ← or_unknown (find_state id b.states)
    revoke_state s at

  -- the loop over the states in the order of their ids
  unfoldable pub expire_each :
      ℕ → List CapabilityState → Exec Broker (List CapabilityDecisionReceipt)
  expire_each at [] = pure []
  expire_each at (s ∷ ss) =
      let later = expire_each at ss in
      let gone : CapabilityState = record s { status = expired; expired_at_unix = some at } in
      if is_active s.status && leb s.contract.expires_at_unix at
      then (do
        set_state gone
        receipt ← lifecycle gone "expire" "ALLOW" ("ttl_expired" ∷ []) at
        rest ← later
        pure (receipt ∷ rest))
      else later

  unfoldable pub expire_due : ℤ → Exec Broker (List CapabilityDecisionReceipt)
  expire_due at_unix = do
    at ← lift (check_time at_unix)
    b ← get
    expire_each at (sort_states b.states)

  unfoldable pub state_value : CapabilityState → Value
  state_value s = object (
      ("capability_id", str s.contract.capability_id)
      ∷ ("contract_sha256", str s.contract.contract_sha256)
      ∷ ("status", str (status_name s.status))
      ∷ ("use_count", nat s.use_count)
      ∷ ("max_uses", nat s.contract.max_uses)
      ∷ ("expires_at_unix", nat s.contract.expires_at_unix)
      ∷ [])

  unfoldable pub state_document : Broker → List (String × Value)
  state_document b =
      let body =
        ("schema", str "liminal-capability-broker-state-v0.1")
        ∷ ("broker_id", str b.broker_id)
        ∷ ("head_sha256", str b.head)
        ∷ ("event_count", nat (length b.events))
        ∷ ("receipt_count", nat (length b.receipts))
        ∷ ("capabilities", array (map state_value (sort_states b.states)))
        ∷ ("authority", broker_authority)
        ∷ [] in
      body ++ ("state_sha256", str (canonical_sha256 (object body))) ∷ []

-- `events` and `receipts`
unfoldable pub event_documents : Broker → List Fields
event_documents b = map Event.as_document b.events

unfoldable pub receipt_documents : Broker → List Fields
receipt_documents b = map (λ r. fields (State.as_document r)) b.receipts
