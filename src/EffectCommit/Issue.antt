-- ===== src/EffectCommit/Issue.antt =====
-- `issue_for_trusted_adapter`.
use Prim.Native.String
use liminal_osai.Prelude.{
  ℕ, ◌+◌, String, false, not, [], ◌∷◌, ◌++◌, none, some, ◌==◌, if◌then◌else◌, Result, ok, err, Done,
  Exec, concat, show, length,
}
use liminal_osai.Json.{Value, Fields, str, obj, object, get_field, get_or_null, is_text}
use liminal_osai.Hashing.{Hashing, canonical_sha256, zero_sha256}
use liminal_osai.Exec.{pure, lift, get, modify, raise_if, ◌>>=◌, ◌>>◌}
use liminal_osai.Mediation.Operation.{RuntimeOperation, validate, normalized_scope}
use liminal_osai.EffectCommit.State.{
  effect_commit_error, TrustedRuntimeWorld, TrustedExecutionSession,
  EffectCommitAuthorizationReceipt, Lease, Host, EffectBroker, put_lease,
}
use liminal_osai.EffectCommit.Documents.{sha}
use liminal_osai.EffectCommit.Observe.{now, capability_active, observe_world, observe_session}
use liminal_osai.EffectCommit.Receipts.{sign_authorization}

-- what is read of the capability's decision
pub record Decision : Type 0 where
  pub capability_id : String
  pub receipt_sha256 : String
  pub bound_contract_sha256 : String

-- `not isinstance(capability_id, str) or not capability_id`
unfoldable pub capability_id_of : Value → Result String
capability_id_of (str s) =
    if s == "" then err (effect_commit_error "capability_id_missing") else ok s
capability_id_of _ = err (effect_commit_error "capability_id_missing")

abbrev pub bound_contract_of : Fields → Value
bound_contract_of fs = elim (get_field "bound_contract_sha256" fs) [
  | none ↦ str zero_sha256
  | some v ↦ v
]

unfoldable pub read_decision : {S : Type 0} → Fields → Exec S Decision
read_decision capability = do
  raise_if (not (is_text (get_or_null "decision" capability) "ALLOW"))
      (effect_commit_error "capability_decision_not_allow")
  id ← lift (capability_id_of (get_or_null "capability_id" capability))
  receipt ← lift (sha (get_or_null "receipt_sha256" capability) "capability_receipt_sha256")
  bound ← lift (sha (bound_contract_of capability) "bound_contract_sha256")
  raise_if (bound == zero_sha256) (effect_commit_error "capability_decision_not_epoch_bound")
  pure (record { capability_id = id; receipt_sha256 = receipt; bound_contract_sha256 = bound })

module _ {W : Type 0} (host : Host W) ⦃h : Hashing⦄ where
  -- the id of the next lease
  unfoldable pub new_lease_id :
      ℕ → RuntimeOperation → Decision → TrustedRuntimeWorld → TrustedExecutionSession → String
  new_lease_id count operation decision world session =
      let digest = canonical_sha256 (
        object (
          ("operation", str operation.operation_id)
          ∷ ("capability", str decision.receipt_sha256)
          ∷ ("world", str world.snapshot_sha256)
          ∷ ("session", str session.session_sha256)
          ∷ [])) in
      concat ("effect-lease:" ∷ show (count + 1) ∷ ":" ∷ String.slice digest 0 20 ∷ [])

  unfoldable pub new_authorization :
      String
      → RuntimeOperation
      → Decision
      → TrustedRuntimeWorld
      → TrustedExecutionSession
      → String
      → ℕ
      → EffectCommitAuthorizationReceipt
  new_authorization id operation decision world session scope_sha issued =
      sign_authorization (record {
        operation_id = operation.operation_id;
        lease_id_sha256 = canonical_sha256 (str id);
        capability_id = decision.capability_id;
        capability_receipt_sha256 = decision.receipt_sha256;
        bound_contract_sha256 = decision.bound_contract_sha256;
        runtime_kind = operation.kind;
        scope_sha256 = scope_sha;
        payload_sha256 = operation.payload_sha256;
        runtime_epoch = world.epoch;
        runtime_state_sha256 = world.state_sha256;
        runtime_snapshot_sha256 = world.snapshot_sha256;
        execution_session_sha256 = session.session_sha256;
        execution_session_evidence_sha256 = session.evidence_sha256;
        host_binding_sha256 = host.host_binding_sha256;
        issued_at_unix = issued;
        expires_at_unix = issued + host.lease_ttl_seconds;
        receipt_sha256 = "";
      })

  unfoldable pub new_lease :
      String
      → RuntimeOperation
      → Decision
      → TrustedRuntimeWorld
      → TrustedExecutionSession
      → String
      → ℕ
      → String
      → Lease
  new_lease id operation decision world session scope_sha issued receipt_sha = record {
    lease_id = id;
    operation = operation;
    capability_id = decision.capability_id;
    capability_receipt_sha256 = decision.receipt_sha256;
    bound_contract_sha256 = decision.bound_contract_sha256;
    scope_sha256 = scope_sha;
    runtime_world = world;
    session = session;
    authorization_receipt_sha256 = receipt_sha;
    issued_at_unix = issued;
    expires_at_unix = issued + host.lease_ttl_seconds;
    consumed = false;
  }

  -- the receipt and the lease, written down
  unfoldable pub record_lease :
      EffectCommitAuthorizationReceipt → Lease → Exec (EffectBroker W) Done
  record_lease receipt lease = modify (λ b. record b {
    authorizations = b.authorizations ++ receipt ∷ [];
    leases = put_lease lease b.leases;
  })

  unfoldable pub issue :
      RuntimeOperation → Fields → Exec (EffectBroker W) (String × EffectCommitAuthorizationReceipt)
  issue operation capability = do
    lift (validate operation)
    decision ← read_decision capability
    b ← get
    raise_if b.contained (effect_commit_error "containment_active")
    issued ← now host
    world ← observe_world host
    raise_if world.tainted (effect_commit_error "runtime_state_tainted")
    session ← observe_session host operation.operation_id
    raise_if (not session.active) (effect_commit_error "execution_session_inactive")
    live ← capability_active host decision.capability_id world
    raise_if (not live) (effect_commit_error "source_capability_inactive_or_stale")
    scope ← lift (normalized_scope operation)
    c ← get
    let scope_sha = canonical_sha256 (obj scope)
    let id = new_lease_id (length c.leases) operation decision world session
    let receipt = new_authorization id operation decision world session scope_sha issued
    record_lease receipt
        (new_lease id operation decision world session scope_sha issued receipt.receipt_sha256)
    pure (id, receipt)
