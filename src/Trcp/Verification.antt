-- ===== src/Trcp/Verification.antt =====
-- `verify` and `confirm_finding`.
use liminal_osai.Prelude.{
  String, Bool, true, not, Option, none, some, [], ◌∷◌, ◌++◌, Done, Exec, ◌==◌, concat,
  if◌then◌else◌,
}
use liminal_osai.Json.{Fields, fields, str, object}
use liminal_osai.Hashing.{Hashing, canonical_sha256}
use liminal_osai.Exec.{pure, get, modify, raise_if, ◌>>=◌, ◌>>◌}
use liminal_osai.Trcp.Errors.{trcp_error}
use liminal_osai.Trcp.State.{
  closed, is_verifying, Finding, VerificationRecord, verification_body, Simulator,
}
use liminal_osai.Trcp.Protocol.{append, transition, with_status}
use liminal_osai.Trcp.Common.{or_raise, is_some}

module _ ⦃h : Hashing⦄ where
  -- the record that `verify` stores
  unfoldable pub new_verification : Simulator → Finding → String → VerificationRecord
  new_verification s finding result =
      let evidence = object (("fixture", str "trcp-verifier-v1") ∷ ("result", str result) ∷ []) in
      let body : VerificationRecord = record {
        finding_id = finding.finding_id;
        result = result;
        evidence_references = concat ("sha256:" ∷ canonical_sha256 evidence ∷ []) ∷ [];
        performed_at = s.now_unix;
        record_sha256 = "";
      } in
      record body { record_sha256 = canonical_sha256 (object (verification_body body)) }

  unfoldable pub status_fields : Finding → String → Fields
  status_fields finding status =
      fields (("finding_id", str finding.finding_id) ∷ ("status", str status) ∷ [])

  -- `verify` of a finding, after its checks
  unfoldable pub verify_finding : Bool → Finding → Exec Simulator (Option VerificationRecord)
  verify_finding reproduced finding = do
    s ← get
    let result : String = if reproduced then "REPRODUCED" else "NOT_REPRODUCED"
    let verification = new_verification s finding result
    modify (λ t. record t {
      finding = some (with_status finding result);
      verification = some verification;
    })
    append "VERIFICATION_RECORDED" (
        fields (
          verification_body verification ++ ("record_sha256", str verification.record_sha256) ∷ []))
    append "FINDING_STATUS_UPDATED" (status_fields finding result)
    if reproduced then pure tt else transition closed "finding_not_reproduced"
    pure (some verification)

  -- the two ends of `verify`; `none` stands for the empty dict
  unfoldable pub verify_or_close :
      Bool → Option Finding → Exec Simulator (Option VerificationRecord)
  verify_or_close reproduced none = do transition closed "no_finding_to_verify"; pure none
  verify_or_close reproduced (some finding) = verify_finding reproduced finding

  unfoldable pub verify : Bool → Exec Simulator (Option VerificationRecord)
  verify reproduced = do
    s ← get
    raise_if (is_some s.verification)
        (trcp_error "verification has already been recorded for this finding")
    raise_if (not (is_verifying s.state)) (trcp_error "verification requires VERIFYING state")
    verify_or_close reproduced s.finding

  -- `self.verification is None or self.verification["result"] != "REPRODUCED"`
  abbrev pub not_reproduced : Option VerificationRecord → Bool
  not_reproduced none = true
  not_reproduced (some v) = not (v.result == "REPRODUCED")

  unfoldable pub confirm_finding : Exec Simulator Done
  confirm_finding = do
    s ← get
    finding ← or_raise s.finding (trcp_error "no finding exists")
    raise_if (not_reproduced s.verification)
        (trcp_error "finding cannot become CONFIRMED without reproduced verification")
    raise_if (not (is_verifying s.state))
        (trcp_error "finding confirmation requires VERIFYING state")
    modify (λ t. record t { finding = some (with_status finding "CONFIRMED") })
    append "FINDING_STATUS_UPDATED" (status_fields finding "CONFIRMED")
    transition closed "verified_finding_confirmed"
