-- ===== src/Trcp/Calls.antt =====
-- The public methods as calls: a client calls them in any order, and goes on after an exception.
use liminal_osai.Prelude.{ℤ, Bool, Option, String, List, [], ◌∷◌, Done, Exec}
use liminal_osai.Json.{Fields}
use liminal_osai.Hashing.{Hashing}
use liminal_osai.Exec.{pure, ◌>>◌}
use liminal_osai.Trcp.Scope.{ScopeEnvelope}
use liminal_osai.Trcp.Provider.{MockProvider}
use liminal_osai.Trcp.State.{Simulator}
use liminal_osai.Trcp.Methods.{advance_time, authorize, execute_primary}
use liminal_osai.Trcp.Failover.{record_failover, execute_fallback}
use liminal_osai.Trcp.Verification.{verify, confirm_finding}

pub data Call : Type 0 where
  advance_time_call : ℤ → Call
  authorize_call : Call
  execute_primary_call : Fields → MockProvider → Call
  record_failover_call :
      MockProvider → Option ScopeEnvelope → (approved minimized human : Bool) → Option String → Call
  execute_fallback_call : Fields → MockProvider → Call
  verify_call : Bool → Call
  confirm_finding_call : Call

module _ ⦃h : Hashing⦄ where
  unfoldable pub perform : Call → Exec Simulator Done
  perform (advance_time_call now) = advance_time now
  perform authorize_call = authorize
  perform (execute_primary_call task provider) = do execute_primary task provider; pure tt
  perform (record_failover_call fallback scope approved minimized human reference) = do
    record_failover fallback scope approved minimized human reference
    pure tt
  perform (execute_fallback_call task provider) = do execute_fallback task provider; pure tt
  perform (verify_call reproduced) = do verify reproduced; pure tt
  perform confirm_finding_call = confirm_finding

  -- the simulator after some calls, returned or raised
  unfoldable pub after : Simulator → List Call → Simulator
  after s [] = s
  after s (c ∷ cs) = after (perform c s).1 cs
