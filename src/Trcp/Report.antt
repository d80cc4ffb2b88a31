-- ===== src/Trcp/Report.antt =====
-- `report` of the simulator, `default_fixture` and `run_default_scenario`.
use liminal_osai.Prelude.{
  pos, String, true, false, Option, none, some, List, [], ◌∷◌, ◌++◌, map, Result, Exec, concat,
  show, sorted,
}
use liminal_osai.Json.{Value, null, Fields, fields, str, int, bool, nat, obj, object, array}
use liminal_osai.Hashing.{Hashing, canonical_sha256}
use liminal_osai.Exec.{pure, get, ◌>>=◌, ◌>>◌}
use liminal_osai.Trcp.Authorization
use liminal_osai.Trcp.Authorization.{AuthorizationRecord}
use liminal_osai.Trcp.Scope
use liminal_osai.Trcp.Scope.{ScopeEnvelope}
use liminal_osai.Trcp.Provider
use liminal_osai.Trcp.Provider.{MockProvider}
use liminal_osai.Trcp.Task.{validate_task}
use liminal_osai.Trcp.Protocol.{
  next_event, append, transition, fail_failover, or_fail, provider_run_record, record_run,
  new_finding, store_finding, capture_finding, finding_fields, with_status,
}
use liminal_osai.Trcp.State.{
  state_name, may_move, core, TraceEvent, RunRecord, run_body, FailoverRecord, failover_body,
  Finding, finding_body, VerificationRecord, verification_body, Simulator,
}
use liminal_osai.Trcp.Methods.{fresh, create, authorize, after_primary, execute_primary}
use liminal_osai.Trcp.Failover.{new_failover, record_failover, after_fallback, execute_fallback}
use liminal_osai.Trcp.Verification.{
  verify, verify_or_close, verify_finding, new_verification, status_fields, confirm_finding,
}

abbrev trace_value : TraceEvent → Value
trace_value e = object (
    ("sequence", nat e.sequence)
    ∷ ("observed_at_unix", int e.observed_at_unix)
    ∷ ("kind", str e.kind)
    ∷ ("state", str (state_name e.state))
    ∷ ("payload", obj e.payload)
    ∷ ("previous_event_sha256", str e.previous_event_sha256)
    ∷ ("event_sha256", str e.event_sha256)
    ∷ [])

-- a record's body with its digest
abbrev hashed : List (String × Value) → String → Value
hashed body digest = object (body ++ ("record_sha256", str digest) ∷ [])

abbrev run_value : RunRecord → Value
run_value r = hashed (run_body r) r.record_sha256

abbrev failover_value : Option FailoverRecord → Value
failover_value none = null
failover_value (some r) = hashed (failover_body r) r.record_sha256

abbrev finding_value : Option Finding → Value
finding_value none = null
finding_value (some f) = hashed (finding_body f) f.record_sha256

abbrev verification_value : Option VerificationRecord → Value
verification_value none = null
verification_value (some v) = hashed (verification_body v) v.record_sha256

abbrev authority : Value
authority = object (
    ("mode", str "local_deterministic_simulation_only")
    ∷ ("external_network", bool false)
    ∷ ("live_targets", bool false)
    ∷ ("credential_access", bool false)
    ∷ ("exploit_execution", bool false)
    ∷ ("provider_api_calls", bool false)
    ∷ ("automatic_disclosure", bool false)
    ∷ ("data_handling_class", str "SYNTHETIC_ONLY")
    ∷ [])

unfoldable pub report_body : Simulator → List (String × Value)
report_body s =
    ("schema", str "liminal-trcp-simulator-report-v0.1")
    ∷ ("protocol_schema", str "liminal-trcp-simulator-v0.1")
    ∷ ("final_state", str (state_name s.state))
    ∷ ("authorization", Authorization.as_dict s.authorization)
    ∷ ("initial_scope", Scope.as_dict s.initial_scope)
    ∷ ("scope", Scope.as_dict s.scope)
    ∷ ("provider_runs", array (map run_value s.provider_runs))
    ∷ ("failover_record", failover_value s.failover_record)
    ∷ ("finding", finding_value s.finding)
    ∷ ("verification", verification_value s.verification)
    ∷ ("disclosure", null)
    ∷ ("trace", array (map trace_value s.trace))
    ∷ ("authority", authority)
    ∷ []

abbrev pub default_authorization : AuthorizationRecord
default_authorization = record {
  authorization_id = "auth:trcp-demo";
  subject_id = "researcher:fixture";
  asset_id = "fixture:repo";
  valid_from = pos 900;
  valid_until = pos 2000;
  allowed_activity_classes = "STATIC_ANALYSIS" ∷ [];
  authority_source = "synthetic-fixture";
  owner_or_authorizer = "fixture-owner";
  proof_reference = "fixture://authorization";
  created_at = pos 900;
}

abbrev pub default_scope : ScopeEnvelope
default_scope = record {
  scope_id = "scope:trcp-demo";
  authorization_id = "auth:trcp-demo";
  allowed_targets = "fixture:repo" ∷ [];
  allowed_actions = "ANALYZE_FIXTURE" ∷ [];
  allowed_environments = "LOCAL_FIXTURE" ∷ [];
  prohibited_actions = "LIVE_EXPLOIT" ∷ "CREDENTIAL_ACCESS" ∷ "PUBLIC_TARGET_SCAN" ∷ [];
  data_handling_class = "SYNTHETIC_ONLY";
  network_mode = "LOCAL_ONLY";
  expires_at = pos 2000;
}

abbrev pub default_task : Fields
default_task = fields (
    ("task_id", str "task:2")
    ∷ ("asset_id", str "fixture:repo")
    ∷ ("activity_class", str "STATIC_ANALYSIS")
    ∷ ("action", str "ANALYZE_FIXTURE")
    ∷ ("fixture", str "synthetic-safe-fixture-v1")
    ∷ [])

abbrev pub default_primary : MockProvider
default_primary = record {
  provider_id = "provider:A";
  model_id = "mock-model-a";
  outcome = "ACCESS_RESTRICTED";
  synthetic_finding = none;
  provider_metadata = none;
}

abbrev pub default_fallback : MockProvider
default_fallback = record {
  provider_id = "provider:B";
  model_id = "mock-model-b";
  outcome = "COMPLETED";
  synthetic_finding = some (
      fields (
        ("finding_class", str "SYNTHETIC_BOUNDARY_CHECK")
        ∷ ("location_reference", str "fixture://sample#L1")
        ∷ ("summary", str "Synthetic fixture matches expected marker")
        ∷ ("severity_claim", str "LOW")
        ∷ ("confidence_claim", str "FIXTURE")
        ∷ []));
  provider_metadata = none;
}

module _ ⦃h : Hashing⦄ where
  unfoldable pub report : Simulator → Value
  report s =
      object
        (report_body s ++ ("report_sha256", str (canonical_sha256 (object (report_body s)))) ∷ [])

  -- the method calls of `run_default_scenario`, on the simulator that it creates
  unfoldable pub default_scenario : Exec Simulator Value
  default_scenario = do
    authorize
    execute_primary default_task default_primary
    record_failover default_fallback none true true false none
    execute_fallback default_task default_fallback
    verify true
    confirm_finding
    s ← get
    pure (report s)

  unfoldable pub run_default_scenario : Result Value × Simulator
  unfolding default_scenario ◌>>◌ ◌>>=◌ authorize create fresh append next_event core
      Authorization.validate Scope.validate transition may_move execute_primary or_fail
      fail_failover validate_task Provider.run Provider.output_body provider_run_record record_run
      run_body after_primary record_failover new_failover failover_body
      Scope.is_equal_or_narrower_than Scope.permission_view execute_fallback after_fallback
      capture_finding store_finding new_finding finding_body finding_fields with_status verify
      verify_or_close verify_finding new_verification verification_body status_fields
      confirm_finding report report_body Authorization.as_dict Scope.as_dict concat show sorted
  run_default_scenario = default_scenario (create default_authorization default_scope (pos 1000))
