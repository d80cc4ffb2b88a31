-- ===== src/EffectCommit/State.antt =====
-- The world, the session, the receipts, the leases, and the state of the broker.
use liminal_osai.Prelude.{
  ℕ, String, Bool, true, false, List, [], ◌∷◌, ◌++◌, Option, none, some, ◌==◌, if◌then◌else◌,
  Result, Exception, Exec,
}
use liminal_osai.Json.{Value, Fields, bool, str, nat, object, strings, fields}
use liminal_osai.Mediation.Operation.{RuntimeOperation, ExecutionObservation}

abbrev pub effect_commit_error : String → Exception
effect_commit_error code = record { type_name = "EffectCommitError"; message = code }

-- `AUTHORITY`
abbrev pub authority : List (String × Value)
authority =
    ("mode", str "epoch_bound_effect_commit_only")
    ∷ ("capability_grant", bool false)
    ∷ ("runtime_mutation", bool false)
    ∷ ("effect_commit", bool true)
    ∷ ("one_time_lease", bool true)
    ∷ ("trusted_runtime_recheck", bool true)
    ∷ ("trusted_session_recheck", bool true)
    ∷ ("shared_runtime_commit_fence", bool true)
    ∷ ("containment_gate", bool true)
    ∷ ("raw_runtime_values", bool false)
    ∷ ("raw_session_identity", bool false)
    ∷ ("secret_material_access", bool false)
    ∷ ("network_authority", bool false)
    ∷ ("kernel_enforcement", bool false)
    ∷ []

pub record TrustedRuntimeWorld : Type 0 where
  pub epoch : ℕ
  pub state_sha256 : String
  pub tainted : Bool
  pub snapshot_sha256 : String

pub record TrustedExecutionSession : Type 0 where
  pub operation_id_sha256 : String
  pub session_sha256 : String
  pub host_binding_sha256 : String
  pub active : Bool
  pub evidence_sha256 : String

pub record EffectCommitAuthorizationReceipt : Type 0 where
  pub operation_id : String
  pub lease_id_sha256 : String
  pub capability_id : String
  pub capability_receipt_sha256 : String
  pub bound_contract_sha256 : String
  pub runtime_kind : String
  pub scope_sha256 : String
  pub payload_sha256 : String
  pub runtime_epoch : ℕ
  pub runtime_state_sha256 : String
  pub runtime_snapshot_sha256 : String
  pub execution_session_sha256 : String
  pub execution_session_evidence_sha256 : String
  pub host_binding_sha256 : String
  pub issued_at_unix : ℕ
  pub expires_at_unix : ℕ
  pub receipt_sha256 : String

unfoldable pub authorization_body : EffectCommitAuthorizationReceipt → List (String × Value)
authorization_body r =
    ("schema", str "liminal-epoch-bound-effect-lease-v0.1")
    ∷ ("operation_id", str r.operation_id)
    ∷ ("lease_id_sha256", str r.lease_id_sha256)
    ∷ ("capability_id", str r.capability_id)
    ∷ ("capability_receipt_sha256", str r.capability_receipt_sha256)
    ∷ ("bound_contract_sha256", str r.bound_contract_sha256)
    ∷ ("runtime_kind", str r.runtime_kind)
    ∷ ("scope_sha256", str r.scope_sha256)
    ∷ ("payload_sha256", str r.payload_sha256)
    ∷ ("runtime_epoch", nat r.runtime_epoch)
    ∷ ("runtime_state_sha256", str r.runtime_state_sha256)
    ∷ ("runtime_snapshot_sha256", str r.runtime_snapshot_sha256)
    ∷ ("execution_session_sha256", str r.execution_session_sha256)
    ∷ ("execution_session_evidence_sha256", str r.execution_session_evidence_sha256)
    ∷ ("host_binding_sha256", str r.host_binding_sha256)
    ∷ ("issued_at_unix", nat r.issued_at_unix)
    ∷ ("expires_at_unix", nat r.expires_at_unix)
    ∷ ("authority", object authority)
    ∷ []

unfoldable pub authorization_document : EffectCommitAuthorizationReceipt → Fields
authorization_document r =
    fields (authorization_body r ++ ("receipt_sha256", str r.receipt_sha256) ∷ [])

pub record EffectCommitReceipt : Type 0 where
  pub operation_id : String
  pub authorization_receipt_sha256 : String
  pub lease_id_sha256 : String
  pub runtime_epoch : ℕ
  pub runtime_state_sha256 : String
  pub runtime_snapshot_sha256 : String
  pub execution_session_sha256 : String
  pub execution_session_evidence_sha256 : String
  pub capability_receipt_sha256 : String
  pub committed_at_unix : ℕ
  pub effect_outcome : String
  pub result_sha256 : String
  pub reason_codes : List String
  pub receipt_sha256 : String

unfoldable pub commit_body : EffectCommitReceipt → List (String × Value)
commit_body r =
    ("schema", str "liminal-epoch-bound-effect-commit-receipt-v0.1")
    ∷ ("operation_id", str r.operation_id)
    ∷ ("authorization_receipt_sha256", str r.authorization_receipt_sha256)
    ∷ ("lease_id_sha256", str r.lease_id_sha256)
    ∷ ("runtime_epoch", nat r.runtime_epoch)
    ∷ ("runtime_state_sha256", str r.runtime_state_sha256)
    ∷ ("runtime_snapshot_sha256", str r.runtime_snapshot_sha256)
    ∷ ("execution_session_sha256", str r.execution_session_sha256)
    ∷ ("execution_session_evidence_sha256", str r.execution_session_evidence_sha256)
    ∷ ("capability_receipt_sha256", str r.capability_receipt_sha256)
    ∷ ("committed_at_unix", nat r.committed_at_unix)
    ∷ ("effect_outcome", str r.effect_outcome)
    ∷ ("result_sha256", str r.result_sha256)
    ∷ ("reason_codes", strings r.reason_codes)
    ∷ ("authority", object authority)
    ∷ []

unfoldable pub commit_document : EffectCommitReceipt → Fields
commit_document r = fields (commit_body r ++ ("receipt_sha256", str r.receipt_sha256) ∷ [])

pub record Lease : Type 0 where
  pub lease_id : String
  pub operation : RuntimeOperation
  pub capability_id : String
  pub capability_receipt_sha256 : String
  pub bound_contract_sha256 : String
  pub scope_sha256 : String
  pub runtime_world : TrustedRuntimeWorld
  pub session : TrustedExecutionSession
  pub authorization_receipt_sha256 : String
  pub issued_at_unix : ℕ
  pub expires_at_unix : ℕ
  pub consumed : Bool

-- What the broker is given, over the world that it changes: the providers, the capability broker's
-- `state_document`, the clock, and the digest of an adapter's token.
pub record Host (W : Type 0) : Type 0 where
  pub state_document : W → Result Fields × W
  pub session_document : String → W → Result Fields × W
  pub capability_document : W → Result Fields × W
  pub clock : W → Result Value × W
  pub token_sha256 : String → String
  pub host_binding_sha256 : String
  pub adapter_token_sha256 : String
  pub lease_ttl_seconds : ℕ

-- the callback that has the effect
abbrev pub Executor : Type 0 → Type 0
Executor W = RuntimeOperation → W → Result ExecutionObservation × W

-- The dict `_leases` is the list of its values: each stands under its `lease_id`.
pub record EffectBroker (W : Type 0) : Type 0 where
  pub world : W
  pub leases : List Lease
  pub authorizations : List EffectCommitAuthorizationReceipt
  pub commits : List EffectCommitReceipt
  pub contained : Bool

-- a new broker
abbrev pub create : {W : Type 0} → W → EffectBroker W
create w = record { world = w; leases = []; authorizations = []; commits = []; contained = false }

-- `_leases.get(lease_id)`
abbrev pub find_lease : String → List Lease → Option Lease
find_lease id [] = none
find_lease id (l ∷ ls) = let rest = find_lease id ls in if l.lease_id == id then some l else rest

-- `_leases[lease.lease_id] = lease`
abbrev pub put_lease : Lease → List Lease → List Lease
put_lease l [] = l ∷ []
put_lease l (m ∷ ms) =
    let rest = put_lease l ms in if m.lease_id == l.lease_id then l ∷ ms else m ∷ rest

module _ {W A : Type 0} where
  -- a callback, called from a method
  abbrev pub call : (W → Result A × W) → Exec (EffectBroker W) A
  call f b = let (r, w) = f b.world in (r, record b { world = w })
