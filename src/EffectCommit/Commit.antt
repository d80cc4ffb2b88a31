-- ===== src/EffectCommit/Commit.antt =====
-- `_commit`, the calls that lead to it, and the containment gate.
use liminal_osai.Prelude.{
  ℕ, String, Bool, true, false, not, List, [], ◌∷◌, Option, none, some, ◌==◌, nat_beq, ltb,
  if◌then◌else◌, Exception, Result, ok, err, Done, Exec,
}
use liminal_osai.Json.{Fields, str, object}
use liminal_osai.Hashing.{Hashing, canonical_sha256}
use liminal_osai.Exec.{pure, raise, lift, get, modify, raise_if, attempt, ◌>>=◌, ◌>>◌}
use liminal_osai.Mediation.Operation.{RuntimeOperation, ExecutionObservation, validate_observation}
use liminal_osai.EffectCommit.State.{
  effect_commit_error, TrustedRuntimeWorld, TrustedExecutionSession, Lease, Host, Executor,
  EffectBroker, find_lease, put_lease, call,
}
use liminal_osai.EffectCommit.Documents.{sha}
use liminal_osai.EffectCommit.Observe.{now, capability_active, observe_world, observe_session}
use liminal_osai.EffectCommit.Receipts.{append_commit}
use liminal_osai.EffectCommit.Issue.{issue}

abbrev pub committed_reasons : List String
committed_reasons =
    "runtime_world_rechecked" ∷ "execution_session_rechecked" ∷ "source_capability_active"
    ∷ "lease_consumed" ∷ "effect_committed_under_fence" ∷ []

-- what leaves `_commit` for an exception of the `try`
abbrev pub outcome_error : Exception → Exception
outcome_error e =
    if e.type_name == "EffectCommitError" then e else effect_commit_error "effect_callback_failed"

module _ {W : Type 0} where
  abbrev pub known_lease : Option Lease → Exec (EffectBroker W) Lease
  known_lease none = raise (effect_commit_error "unknown_lease")
  known_lease (some lease) = pure lease

  -- `lease.consumed = True`
  unfoldable pub burn : Lease → Exec (EffectBroker W) Done
  burn lease =
      modify (λ b. record b { leases = put_lease (record lease { consumed = true }) b.leases })

  -- the body of the `try`
  unfoldable pub run : Executor W → RuntimeOperation → Exec (EffectBroker W) ExecutionObservation
  run executor operation = do
    observation ← call (executor operation)
    lift (validate_observation observation)
    pure observation

  module _ ⦃h : Hashing⦄ where
    unfoldable pub settle :
        Lease
        → TrustedRuntimeWorld
        → TrustedExecutionSession
        → ℕ
        → Result ExecutionObservation
        → Exec (EffectBroker W) ExecutionObservation
    settle lease world session at (err e) = do
      append_commit lease world session at "FAILED"
          (canonical_sha256 (object (("error_type", str e.type_name) ∷ [])))
          ("lease_consumed" ∷ "effect_callback_failed" ∷ [])
      raise (outcome_error e)
    settle lease world session at (ok observation) = do
      append_commit lease world session at "SUCCEEDED" observation.result_sha256 committed_reasons
      pure observation

module _ {W : Type 0} (host : Host W) ⦃h : Hashing⦄ where
  -- `_commit`, from the checks of the world on
  unfoldable pub commit_lease : Lease → ℕ → Executor W → Exec (EffectBroker W) ExecutionObservation
  commit_lease lease at executor = do
    world ← observe_world host
    raise_if world.tainted (effect_commit_error "runtime_state_tainted")
    raise_if (not (nat_beq world.epoch lease.runtime_world.epoch))
        (effect_commit_error "stale_runtime_epoch")
    raise_if (not (world.state_sha256 == lease.runtime_world.state_sha256))
        (effect_commit_error "stale_runtime_state")
    session ← observe_session host lease.operation.operation_id
    raise_if (not session.active) (effect_commit_error "execution_session_inactive")
    raise_if (not (session.session_sha256 == lease.session.session_sha256))
        (effect_commit_error "execution_session_changed")
    live ← capability_active host lease.capability_id world
    raise_if (not live) (effect_commit_error "source_capability_inactive_or_stale")
    burn lease
    result ← attempt (run executor lease.operation)
    settle lease world session at result

  unfoldable pub commit : String → Executor W → Exec (EffectBroker W) ExecutionObservation
  commit lease_id executor = do
    at ← now host
    b ← get
    raise_if b.contained (effect_commit_error "containment_active")
    lease ← known_lease (find_lease lease_id b.leases)
    raise_if lease.consumed (effect_commit_error "lease_replayed")
    raise_if (ltb at lease.issued_at_unix) (effect_commit_error "clock_regression")
    raise_if (ltb lease.expires_at_unix at) (effect_commit_error "lease_expired")
    commit_lease lease at executor

  -- `consume_for_trusted_adapter`
  unfoldable pub consume : String → String → Executor W → Exec (EffectBroker W) ExecutionObservation
  consume lease_id adapter_token executor = do
    raise_if (adapter_token == "") (effect_commit_error "adapter_auth_failed")
    raise_if (not (host.token_sha256 adapter_token == host.adapter_token_sha256))
        (effect_commit_error "adapter_auth_failed")
    commit lease_id executor

  unfoldable pub commit_authorized_effect :
      RuntimeOperation → Fields → Executor W → Exec (EffectBroker W) ExecutionObservation
  commit_authorized_effect operation capability executor = do
    issued ← issue host operation capability
    commit issued.0 executor

  -- `enter_containment` and `exit_containment`
  unfoldable pub set_containment : Bool → String → String → Exec (EffectBroker W) Done
  set_containment contained receipt name = do
    digest ← lift (sha (str receipt) name)
    modify (λ b. record b { contained = contained })

  unfoldable pub enter_containment : String → Exec (EffectBroker W) Done
  enter_containment receipt = set_containment true receipt "incident_receipt_sha256"

  unfoldable pub exit_containment : String → Exec (EffectBroker W) Done
  exit_containment receipt = set_containment false receipt "human_release_receipt_sha256"
