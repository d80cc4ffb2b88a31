-- ===== src/Broker/Records.antt =====
-- `_event`, `_receipt`, `_lifecycle` and `_require`.
use liminal_osai.Prelude.{
  ℕ, ◌+◌, String, List, [], ◌∷◌, ◌++◌, Option, none, some, Exec, concat, show, sorted, distinct,
  length,
}
use liminal_osai.Json.{Value, Fields, str, nat, optional, object, strings}
use liminal_osai.Hashing.{Hashing, canonical_sha256}
use liminal_osai.Exec.{pure, raise, lift, get, modify, ◌>>=◌, ◌>>◌}
use liminal_osai.Contracts.Event.{CausalRuntimeEvent}
use liminal_osai.Contracts.Event
use liminal_osai.Broker.State.{
  broker_error, CapabilityDecisionReceipt, decision_body, CapabilityState, Broker,
}
use liminal_osai.Broker.Scopes.{effect_for}

-- the arguments of `_event`
pub record EventFields : Type 0 where
  pub event_type : String
  pub subject_id : String
  pub capability_id : String
  pub capability_type : String
  pub decision : String
  pub at_unix : ℕ
  pub input_sha : String
  pub output_sha : Option String
  pub reasons : List String
  pub recorder_event_id : Option String
  pub recorder_entry_sha256 : Option String

-- the arguments of `CausalRuntimeEvent.build` in `_event`
unfoldable pub event_kwargs : Broker → EventFields → List (String × Value)
event_kwargs b e =
    ("event_id", str (concat ("broker-event:" ∷ show (length b.events + 1) ∷ [])))
    ∷ ("event_type", str e.event_type)
    ∷ ("subject_id", str e.subject_id)
    ∷ ("capability_id", str e.capability_id)
    ∷ ("recorder_event_id", optional e.recorder_event_id)
    ∷ ("recorder_entry_sha256", optional e.recorder_entry_sha256)
    ∷ ("effect", str (effect_for e.capability_type))
    ∷ ("decision", str e.decision)
    ∷ ("observed_at_unix", nat e.at_unix)
    ∷ ("previous_causal_event_sha256", str b.head)
    ∷ ("input_sha256", str e.input_sha)
    ∷ ("output_sha256", optional e.output_sha)
    ∷ ("reason_codes", strings e.reasons)
    ∷ []

-- the arguments of `_receipt`
pub record ReceiptFields : Type 0 where
  pub capability_id : Option String
  pub subject_id : String
  pub capability_type : String
  pub policy_sha : String
  pub action_sha : String
  pub scope : Fields
  pub decision : String
  pub reasons : List String
  pub at_unix : ℕ
  pub before : ℕ
  pub after : ℕ

module _ ⦃h : Hashing⦄ where
  unfoldable pub record_event : EventFields → Exec Broker CausalRuntimeEvent
  record_event e = do
    b ← get
    event ← lift (Event.build (event_kwargs b e))
    modify (λ c. record c { events = c.events ++ event ∷ []; head = event.event_sha256 })
    pure event

  unfoldable pub new_decision :
      Broker → ReceiptFields → CausalRuntimeEvent → CapabilityDecisionReceipt
  new_decision b r event =
      let base : CapabilityDecisionReceipt = record {
        decision_id = concat ("broker-decision:" ∷ show (length b.receipts + 1) ∷ []);
        capability_id = r.capability_id;
        subject_id = r.subject_id;
        capability_type = r.capability_type;
        policy_sha256 = r.policy_sha;
        action_sha256 = r.action_sha;
        requested_scope = r.scope;
        decision = r.decision;
        reason_codes = sorted (distinct r.reasons);
        at_unix = r.at_unix;
        use_count_before = r.before;
        use_count_after = r.after;
        causal_event_sha256 = event.event_sha256;
        broker_head_sha256 = b.head;
        receipt_sha256 = "";
      } in
      record base { receipt_sha256 = canonical_sha256 (object (decision_body base)) }

  unfoldable pub record_receipt :
      ReceiptFields → CausalRuntimeEvent → Exec Broker CapabilityDecisionReceipt
  record_receipt r event = do
    b ← get
    let receipt = new_decision b r event
    modify (λ c. record c { receipts = c.receipts ++ receipt ∷ [] })
    pure receipt

  unfoldable pub lifecycle :
      CapabilityState → String → String → List String → ℕ → Exec Broker CapabilityDecisionReceipt
  lifecycle s event_type decision reasons at = do
    event ← record_event (record {
      event_type = event_type;
      subject_id = s.contract.subject_id;
      capability_id = s.contract.capability_id;
      capability_type = s.contract.capability_type;
      decision = decision;
      at_unix = at;
      input_sha = s.contract.contract_sha256;
      output_sha = none;
      reasons = reasons;
      recorder_event_id = none;
      recorder_entry_sha256 = none;
    })
    record_receipt
        (record {
          capability_id = some s.contract.capability_id;
          subject_id = s.contract.subject_id;
          capability_type = s.contract.capability_type;
          policy_sha = s.contract.policy_sha256;
          action_sha = s.contract.contract_sha256;
          scope = s.contract.scope;
          decision = decision;
          reasons = reasons;
          at_unix = at;
          before = s.use_count;
          after = s.use_count;
        })
        event

-- `_require`
abbrev pub or_unknown : Option CapabilityState → Exec Broker CapabilityState
or_unknown none = raise (broker_error "unknown capability_id")
or_unknown (some s) = pure s
