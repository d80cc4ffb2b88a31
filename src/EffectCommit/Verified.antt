-- ===== src/EffectCommit/Verified.antt =====
-- The broker's receipts and session documents are read back.
use liminal_osai.Prelude.{ℕ, String, ◌≡◌, refl, Bool, true, List, ok, ◌>>=◌, eq_refl, is_sha256}
use liminal_osai.Json.{Value, str, object}
use liminal_osai.Hashing.{Hashing, canonical_sha256}
use liminal_osai.EffectCommit.State.{
  TrustedRuntimeWorld, TrustedExecutionSession, authorization_body, authorization_document,
  commit_body, commit_document, Lease, Host,
}
use liminal_osai.EffectCommit.Documents.{
  sha, boolean, read_session, session_body, build_session_document, verify_document,
  verify_authorization_receipt, verify_commit_receipt,
}
use liminal_osai.EffectCommit.Receipts.{new_commit}
use liminal_osai.EffectCommit.Issue.{Decision, new_authorization}
use liminal_osai.Mediation.Operation.{RuntimeOperation}

module _ ⦃h : Hashing⦄ where
  -- The commit receipt that the broker makes is accepted by `verify_commit_receipt`, which gives
  -- the document back.
  pub verify_commit_receipt-new_commit :
      (lease : Lease) (world : TrustedRuntimeWorld) (session : TrustedExecutionSession) (n : ℕ)
      (outcome result : String) (reasons : List String)
      → let document = commit_document (new_commit lease world session n outcome result reasons) in
        verify_commit_receipt document ≡ ok document
  unfolding verify_commit_receipt verify_document commit_document commit_body new_commit
  verify_commit_receipt-new_commit lease world session n outcome result reasons =
      rw (eq_refl (new_commit lease world session n outcome result reasons).receipt_sha256) refl

  pub verify_authorization_receipt-new_authorization :
      {W : Type 0} (host : Host W) (id : String) (operation : RuntimeOperation)
      (decision : Decision) (world : TrustedRuntimeWorld) (session : TrustedExecutionSession)
      (scope_sha : String) (n : ℕ)
      → let document =
          authorization_document
            (new_authorization host id operation decision world session scope_sha n) in
        verify_authorization_receipt document ≡ ok document
  unfolding verify_authorization_receipt verify_document authorization_document authorization_body
      new_authorization
  verify_authorization_receipt-new_authorization host id operation decision world session scope_sha
        n =
      rw
        (eq_refl
          (new_authorization host id operation decision world session scope_sha n).receipt_sha256)
        refl

  -- Where every digest is 64 lowercase hexadecimal characters, a session document that is built for
  -- an operation, from two digests of that form, is read back as it was built, for the same
  -- operation and host.
  pub read_session-build_session_document :
      (digests : (v : Value) → is_sha256 (canonical_sha256 v) ≡ true)
      (operation_id session_sha host_sha : String) (active : Bool)
      → is_sha256 session_sha ≡ true
      → is_sha256 host_sha ≡ true
      → let operation = canonical_sha256 (str operation_id) in
        (build_session_document operation_id session_sha host_sha active >>= λ document.
        read_session document operation_id host_sha)
        ≡ ok (record {
          operation_id_sha256 = operation;
          session_sha256 = session_sha;
          host_binding_sha256 = host_sha;
          active = active;
          evidence_sha256 =
              canonical_sha256 (object (session_body operation session_sha host_sha active));
        })
  unfolding build_session_document read_session sha boolean
  read_session-build_session_document digests operation_id session_sha host_sha active s t =
      let operation = canonical_sha256 (str operation_id) in
      let evidence =
        canonical_sha256 (object (session_body operation session_sha host_sha active)) in
      rw s (
        rw t (
          rw (digests (str operation_id)) (
            rw (eq_refl operation) (
              rw s (
                rw t (
                  rw (eq_refl host_sha) (
                    rw (digests (object (session_body operation session_sha host_sha active)))
                      (rw (eq_refl evidence) refl))))))))
