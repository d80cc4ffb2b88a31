-- ===== src/Trcp/Methods.antt =====
-- Construction, `advance_time`, `authorize` and `execute_primary`.
use liminal_osai.Prelude.{ℤ, not, none, [], ◌∷◌, Done, Exec, ◌==◌, member, ltb_ℤ, if◌then◌else◌}
use liminal_osai.Json.{Fields, fields, str, int}
use liminal_osai.Hashing.{Hashing}
use liminal_osai.Exec.{pure, lift, get, modify, raise_if, ◌>>=◌, ◌>>◌}
use liminal_osai.Trcp.Errors.{trcp_error}
use liminal_osai.Trcp.Authorization
use liminal_osai.Trcp.Authorization.{AuthorizationRecord}
use liminal_osai.Trcp.Scope
use liminal_osai.Trcp.Scope.{ScopeEnvelope}
use liminal_osai.Trcp.Provider
use liminal_osai.Trcp.Provider.{MockProvider, ProviderOutput, failover_outcomes}
use liminal_osai.Trcp.State.{
  new, authorized, active, degraded, failover_pending, verifying, auth_expired, scope_invalid,
  aborted, state_name, is_new, is_authorized, RunRecord, Simulator,
}
use liminal_osai.Trcp.Task.{validate_task}
use liminal_osai.Trcp.Protocol.{append, transition, or_fail, record_run, capture_finding}

-- the fields that `__init__` sets
unfoldable pub fresh : AuthorizationRecord → ScopeEnvelope → ℤ → Simulator
fresh authorization scope now = record {
  authorization = authorization;
  initial_scope = scope;
  scope = scope;
  now_unix = now;
  state = new;
  trace = [];
  provider_runs = [];
  failover_record = none;
  finding = none;
  verification = none;
}

module _ ⦃h : Hashing⦄ where
  unfoldable pub create : AuthorizationRecord → ScopeEnvelope → ℤ → Simulator
  unfolding fresh
  create authorization scope now =
      (append "SIMULATOR_CREATED" (fields (("state", str (state_name new)) ∷ []))
        (fresh authorization scope now)).1

  unfoldable pub advance_time : ℤ → Exec Simulator Done
  advance_time now = do
    s ← get
    raise_if (ltb_ℤ now s.now_unix) (trcp_error "simulator clock cannot move backward")
    modify (λ t. record t { now_unix = now })
    append "CLOCK_ADVANCED" (fields (("now_unix", int now) ∷ []))

  unfoldable pub authorize : Exec Simulator Done
  authorize = do
    s ← get
    raise_if (not (is_new s.state)) (trcp_error "authorize is only valid from NEW")
    lift (Authorization.validate s.authorization s.now_unix)
    lift (Scope.validate s.scope s.authorization s.now_unix)
    transition authorized "authorization_and_scope_valid"

  -- what `execute_primary` does with the output of the run `run`
  unfoldable pub after_primary : ProviderOutput → RunRecord → Exec Simulator Done
  after_primary output run =
      if member output.outcome failover_outcomes
      then (do
        transition degraded output.outcome
        transition failover_pending "provider_continuity_required")
      else if output.outcome == "COMPLETED"
      then (do capture_finding output run.run_id; transition verifying "primary_provider_completed")
      else transition aborted output.outcome

  unfoldable pub execute_primary : Fields → MockProvider → Exec Simulator ProviderOutput
  execute_primary task provider = do
    s ← get
    raise_if (not (is_authorized s.state))
        (trcp_error "primary execution requires AUTHORIZED state")
    or_fail (Authorization.validate s.authorization s.now_unix) auth_expired
        "authorization_expired_before_primary"
    or_fail (Scope.validate s.scope s.authorization s.now_unix) scope_invalid
        "scope_invalid_before_primary"
    task_hash ←
        or_fail (validate_task s.authorization s.scope task) scope_invalid
          "primary_task_outside_effective_scope"
    transition active "primary_provider_started"
    output ← lift (Provider.run provider task_hash)
    run ← record_run provider task_hash output
    after_primary output run
    pure output
