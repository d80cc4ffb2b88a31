-- ===== src/Trcp/Failover.antt =====
-- `record_failover` and `execute_fallback`.
use mathlib.Core.Bool.{decide}
use liminal_osai.Prelude.{
  String, Bool, not, ◌||◌, ◌&&◌, Option, none, some, [], ◌∷◌, ◌++◌, Done, Exec, ◌==◌, length,
  concat, show, if◌then◌else◌,
}
use liminal_osai.Json.{Fields, fields, str, object}
use liminal_osai.Json.Equality.{Value-discrete}
use liminal_osai.Hashing.{Hashing, canonical_sha256}
use liminal_osai.Exec.{pure, lift, get, modify, raise_if, ◌>>=◌, ◌>>◌}
use liminal_osai.Trcp.Errors.{trcp_error}
use liminal_osai.Trcp.Authorization
use liminal_osai.Trcp.Authorization.{AuthorizationRecord}
use liminal_osai.Trcp.Scope
use liminal_osai.Trcp.Scope.{ScopeEnvelope}
use liminal_osai.Trcp.Provider
use liminal_osai.Trcp.Provider.{MockProvider, ProviderOutput, failover_outcomes}
use liminal_osai.Trcp.State.{
  State, active_on_fallback, verifying, auth_expired, scope_invalid, human_review_required, aborted,
  is_failover_pending, RunRecord, FailoverRecord, failover_body, Simulator,
}
use liminal_osai.Trcp.Task.{validate_task}
use liminal_osai.Trcp.Protocol.{
  append, transition, fail_failover, or_fail, record_run, capture_finding,
}
use liminal_osai.Trcp.Common.{is_falsy, last_or_raise, or_scope, or_raise, lower}

module _ ⦃h : Hashing⦄ where
  -- `if c: self._fail_failover(new_state, reason, message)`
  abbrev pub fail_if : Bool → State → String → String → Exec Simulator Done
  fail_if c new_state reason message = if c then fail_failover new_state reason message else pure tt

  -- the record that `record_failover` stores, once all its checks have passed
  unfoldable pub new_failover :
      Simulator
      → MockProvider
      → ScopeEnvelope
      → RunRecord
      → (approved minimized human : Bool) → Option String
      → FailoverRecord
  new_failover s fallback candidate previous approved minimized human reference =
      let body : FailoverRecord = record {
        failover_id = concat ("failover:" ∷ show (length s.provider_runs) ∷ []);
        previous_run_id = previous.run_id;
        scope_id = candidate.scope_id;
        reason = previous.outcome;
        new_provider_id = fallback.provider_id;
        new_model_id = fallback.model_id;
        permission_delta =
            if decide
              (Value-discrete (Scope.permission_view candidate) (Scope.permission_view s.scope))
            then "UNCHANGED"
            else "NARROWER";
        data_handling_approved = approved;
        sensitive_artifacts_minimized = minimized;
        human_approval_required = human;
        human_approval_reference = if human then reference else none;
        created_at = s.now_unix;
        record_sha256 = "";
      } in
      record body { record_sha256 = canonical_sha256 (object (failover_body body)) }

  unfoldable pub record_failover :
      MockProvider
      → Option ScopeEnvelope
      → (approved minimized human : Bool) → Option String
      → Exec Simulator FailoverRecord
  record_failover fallback fallback_scope approved minimized human reference = do
    s ← get
    raise_if (not (is_failover_pending s.state))
        (trcp_error "failover decision requires FAILOVER_PENDING state")
    or_fail (Authorization.validate s.authorization s.now_unix) auth_expired
        "authorization_revalidation_failed"
    let candidate = or_scope fallback_scope s.scope
    fail_if
        (not (candidate.network_mode == "LOCAL_ONLY")
          || not (candidate.data_handling_class == "SYNTHETIC_ONLY"))
        human_review_required "fallback_outside_v0_1_data_boundary"
        "TRCP v0.1 failover supports only LOCAL_ONLY SYNTHETIC_ONLY data"
    or_fail (Scope.validate candidate s.authorization s.now_unix) scope_invalid
        "fallback_scope_revalidation_failed"
    fail_if (not (Scope.is_equal_or_narrower_than candidate s.scope)) scope_invalid
        "fallback_scope_would_broaden_permissions" "fallback scope would broaden permissions"
    fail_if (not approved) human_review_required "data_handling_not_approved"
        "fallback data handling requires human review"
    fail_if (not minimized) human_review_required "sensitive_artifacts_not_minimized"
        "sensitive artifacts must be minimized before failover"
    fail_if (human && is_falsy reference) human_review_required "required_human_approval_missing"
        "required human approval is missing"
    previous ← last_or_raise s.provider_runs
    let decision = new_failover s fallback candidate previous approved minimized human reference
    modify (λ t. record t { failover_record = some decision })
    append "FAILOVER_DECISION_RECORDED"
        (fields (failover_body decision ++ ("record_sha256", str decision.record_sha256) ∷ []))
    modify (λ t. record t { scope = candidate })
    append "EFFECTIVE_SCOPE_UPDATED" (fields (("scope_id", str candidate.scope_id) ∷ []))
    pure decision

  -- what `execute_fallback` does with the output of the run `run`
  unfoldable pub after_fallback : ProviderOutput → RunRecord → Exec Simulator Done
  after_fallback output run =
      if not (output.outcome == "COMPLETED")
      then transition aborted (concat ("fallback_" ∷ lower output.outcome ∷ []))
      else (do
        capture_finding output run.run_id
        transition verifying "fallback_provider_completed")

  unfoldable pub execute_fallback : Fields → MockProvider → Exec Simulator ProviderOutput
  execute_fallback task provider = do
    s ← get
    raise_if (not (is_failover_pending s.state))
        (trcp_error "fallback execution requires FAILOVER_PENDING state")
    decision ←
        or_raise s.failover_record (trcp_error "fallback execution requires FailoverDecisionRecord")
    fail_if
        (not (provider.provider_id == decision.new_provider_id)
          || not (provider.model_id == decision.new_model_id))
        aborted "fallback_provider_mismatch"
        "fallback provider does not match FailoverDecisionRecord"
    or_fail (Authorization.validate s.authorization s.now_unix) auth_expired
        "authorization_expired_before_fallback"
    or_fail (Scope.validate s.scope s.authorization s.now_unix) scope_invalid
        "effective_scope_invalid_before_fallback"
    task_hash ←
        or_fail (validate_task s.authorization s.scope task) scope_invalid
          "fallback_task_outside_effective_scope"
    previous ← last_or_raise s.provider_runs
    fail_if (not (task_hash == previous.normalized_task_hash)) scope_invalid "fallback_task_changed"
        "fallback must execute the same normalized task"
    transition active_on_fallback "recorded_failover_started"
    output ← lift (Provider.run provider task_hash)
    run ← record_run provider task_hash output
    after_fallback output run
    pure output
