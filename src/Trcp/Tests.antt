-- ===== src/Trcp/Tests.antt =====
-- The default scenario, run, and each theorem at a concrete simulator.
use liminal_osai.Prelude.{
  pos, String, ◌≡◌, ◌⊎◌, refl, true, false, none, some, ok, List, [], ◌∷◌, ◌++◌, concat, show,
  sorted,
}
use liminal_osai.Json.{obj}
use liminal_osai.Hashing.{zero_sha256, canonical_sha256}
use liminal_osai.Hashing.Toy.{toy, toy_digest}
use liminal_osai.Exec.{◌>>=◌, ◌>>◌}
use liminal_osai.Trcp.Authorization
use liminal_osai.Trcp.Scope
use liminal_osai.Trcp.Scope.{is_equal_or_narrower_than}
use liminal_osai.Trcp.Provider
use liminal_osai.Trcp.Task.{validate_task}
use liminal_osai.Trcp.Protocol.{
  next_event, append, transition, fail_failover, or_fail, provider_run_record, record_run,
  new_finding, store_finding, capture_finding, finding_fields, with_status,
}
use liminal_osai.Trcp.State.{
  closed, may_move, core, run_body, failover_body, finding_body, verification_body, is_authorized,
  is_failover_pending, Simulator,
}
use liminal_osai.Trcp.Methods.{fresh, create, authorize, after_primary, execute_primary}
use liminal_osai.Trcp.Failover.{new_failover, record_failover, after_fallback, execute_fallback}
use liminal_osai.Trcp.Verification.{
  verify, verify_or_close, verify_finding, new_verification, status_fields, confirm_finding,
}
use liminal_osai.Trcp.Calls.{
  Call, authorize_call, execute_primary_call, record_failover_call, execute_fallback_call,
  verify_call, confirm_finding_call, perform, after,
}
use liminal_osai.Trcp.Trace.{IsTrace}
use liminal_osai.Trcp.Invariant.{HasStatus, HasResult}
use liminal_osai.Trcp.Gate.{IsAdmitted, IsFallback, execute_primary_gate, execute_fallback_gate}
use liminal_osai.Trcp.Guarantees.{
  is_final, after-IsTrace, after_narrows, confirmed_is_reproduced, final_absorbs, never_returns,
}
use liminal_osai.Trcp.Admission.{no_task_gained}
use liminal_osai.Trcp.Report.{
  run_default_scenario, default_authorization, default_scope, default_task, default_primary,
  default_fallback,
}

default_scenario_closes : run_default_scenario.1.state ≡ closed
unfolding run_default_scenario toy_digest
default_scenario_closes = refl

abbrev begin : Simulator
begin = create default_authorization default_scope (pos 1000)

-- the calls of the default scenario
abbrev default_calls : List Call
default_calls =
    authorize_call
    ∷ execute_primary_call default_task default_primary
    ∷ record_failover_call default_fallback none true true false none
    ∷ execute_fallback_call default_task default_fallback
    ∷ verify_call true
    ∷ confirm_finding_call
    ∷ []

-- a fallback under a scope that prohibits more and ends earlier
abbrev narrowed_scope : Scope.ScopeEnvelope
narrowed_scope = record default_scope {
  scope_id = "scope:trcp-narrow";
  prohibited_actions = "PERSISTENCE" ∷ default_scope.prohibited_actions;
  expires_at = pos 1500;
}

abbrev narrowing_calls : List Call
narrowing_calls =
    authorize_call
    ∷ execute_primary_call default_task default_primary
    ∷ record_failover_call default_fallback (some narrowed_scope) true true false none
    ∷ []

-- what the simulator shows at the end of the default calls, and of those that narrow the scope
record Outcome : Type 0 where
  final : is_final (after begin default_calls).state ≡ true
  confirmed : HasStatus "CONFIRMED" (after begin default_calls).finding
  again :
      (after (after (after begin default_calls) default_calls) []).state
      ≡ (after begin default_calls).state
  narrowed : (after begin narrowing_calls).scope ≡ narrowed_scope
  accepted :
      validate_task default_authorization (after begin narrowing_calls).scope default_task
      ≡ ok (canonical_sha256 (obj default_task))

default_outcome : Outcome
unfolding after perform ◌>>◌ ◌>>=◌ authorize create fresh append next_event core
    Authorization.validate Scope.validate transition may_move execute_primary or_fail fail_failover
    validate_task Provider.run Provider.output_body provider_run_record record_run run_body
    after_primary record_failover new_failover failover_body Scope.is_equal_or_narrower_than
    Scope.permission_view execute_fallback after_fallback capture_finding store_finding new_finding
    finding_body finding_fields with_status verify verify_or_close verify_finding new_verification
    verification_body status_fields confirm_finding concat show sorted toy_digest
default_outcome = record {
  final = refl;
  confirmed = refl;
  again = refl;
  narrowed = refl;
  accepted = refl;
}

after-IsTrace_example : IsTrace 1 zero_sha256 (after begin default_calls).trace
after-IsTrace_example = after-IsTrace default_authorization default_scope (pos 1000) default_calls

after_narrows_example :
    let s = after begin default_calls in
    (s.authorization ≡ default_authorization)
    × (s.initial_scope ≡ default_scope)
    × ((s.scope ≡ default_scope) ⊎ (is_equal_or_narrower_than s.scope default_scope ≡ true))
after_narrows_example = after_narrows default_authorization default_scope (pos 1000) default_calls

confirmed_is_reproduced_example : HasResult "REPRODUCED" (after begin default_calls).verification
confirmed_is_reproduced_example =
    confirmed_is_reproduced default_authorization default_scope (pos 1000) default_calls
      default_outcome.confirmed

final_absorbs_example :
    (after begin (default_calls ++ default_calls)).state ≡ (after begin default_calls).state
final_absorbs_example =
    final_absorbs default_authorization default_scope (pos 1000) default_calls default_calls
      default_outcome.final

never_returns_example :
    (after (after begin default_calls) default_calls).state ≡ (after begin default_calls).state
never_returns_example =
    never_returns default_authorization default_scope (pos 1000) default_calls default_calls []
      default_outcome.again

no_task_gained_example :
    validate_task default_authorization default_scope default_task
    ≡ ok (canonical_sha256 (obj default_task))
no_task_gained_example =
    no_task_gained default_authorization default_scope (pos 1000) narrowing_calls default_task
      (canonical_sha256 (obj default_task)) default_outcome.accepted

abbrev ready : Simulator
ready = after begin (authorize_call ∷ [])

execute_primary_gate_example :
    ((execute_primary default_task default_primary ready).1.provider_runs ≡ ready.provider_runs)
    ⊎ ((is_authorized ready.state ≡ true)
        × ((task_hash : String) × IsAdmitted ready default_task task_hash))
execute_primary_gate_example = execute_primary_gate default_task default_primary ready

-- a simulator that waits for the fallback provider
abbrev waiting : Simulator
waiting = after begin (
    authorize_call
    ∷ execute_primary_call default_task default_primary
    ∷ record_failover_call default_fallback none true true false none
    ∷ [])

execute_fallback_gate_example :
    ((execute_fallback default_task default_fallback waiting).1.provider_runs
      ≡ waiting.provider_runs)
    ⊎ ((is_failover_pending waiting.state ≡ true)
        × IsFallback waiting default_task default_fallback)
execute_fallback_gate_example = execute_fallback_gate default_task default_fallback waiting
