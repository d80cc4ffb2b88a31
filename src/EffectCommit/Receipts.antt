-- ===== src/EffectCommit/Receipts.antt =====
-- The receipts that are signed: of an authorization, and of a commit.
use liminal_osai.Prelude.{ℕ, String, List, [], ◌∷◌, ◌++◌, Done, Exec, sorted, distinct}
use liminal_osai.Json.{str, object}
use liminal_osai.Hashing.{Hashing, canonical_sha256}
use liminal_osai.Exec.{lift, modify, ◌>>=◌}
use liminal_osai.EffectCommit.State.{
  TrustedRuntimeWorld, TrustedExecutionSession, EffectCommitAuthorizationReceipt,
  authorization_body, EffectCommitReceipt, commit_body, Lease, EffectBroker,
}
use liminal_osai.EffectCommit.Documents.{sha}

module _ ⦃h : Hashing⦄ where
  abbrev pub sign_authorization :
      EffectCommitAuthorizationReceipt → EffectCommitAuthorizationReceipt
  sign_authorization r = record r {
    receipt_sha256 = canonical_sha256 (object (authorization_body r));
  }

  abbrev pub sign_commit : EffectCommitReceipt → EffectCommitReceipt
  sign_commit r = record r { receipt_sha256 = canonical_sha256 (object (commit_body r)) }

  unfoldable pub new_commit :
      Lease
      → TrustedRuntimeWorld
      → TrustedExecutionSession
      → ℕ
      → String
      → String
      → List String
      → EffectCommitReceipt
  new_commit lease world session committed_at outcome result reasons = sign_commit (record {
    operation_id = lease.operation.operation_id;
    authorization_receipt_sha256 = lease.authorization_receipt_sha256;
    lease_id_sha256 = canonical_sha256 (str lease.lease_id);
    runtime_epoch = world.epoch;
    runtime_state_sha256 = world.state_sha256;
    runtime_snapshot_sha256 = world.snapshot_sha256;
    execution_session_sha256 = session.session_sha256;
    execution_session_evidence_sha256 = session.evidence_sha256;
    capability_receipt_sha256 = lease.capability_receipt_sha256;
    committed_at_unix = committed_at;
    effect_outcome = outcome;
    result_sha256 = result;
    reason_codes = sorted (distinct reasons);
    receipt_sha256 = "";
  })

  -- `_append_commit`
  unfoldable pub append_commit :
      {W : Type 0}
      → Lease
      → TrustedRuntimeWorld
      → TrustedExecutionSession
      → ℕ
      → String
      → String
      → List String
      → Exec (EffectBroker W) Done
  append_commit lease world session committed_at outcome result reasons = do
    digest ← lift (sha (str result) "result_sha256")
    modify (λ b. record b {
      commits =
          b.commits ++ new_commit lease world session committed_at outcome digest reasons ∷ [];
    })
