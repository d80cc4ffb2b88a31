-- ===== src/EffectCommit/Calls.antt =====
-- The calls that a host may make on the broker.
use liminal_osai.Prelude.{String, List, [], ◌∷◌, Done, Exec}
use liminal_osai.Json.{Fields}
use liminal_osai.Hashing.{Hashing}
use liminal_osai.Exec.{pure, ◌>>◌}
use liminal_osai.Mediation.Operation.{RuntimeOperation}
use liminal_osai.EffectCommit.State.{Host, Executor, EffectBroker}
use liminal_osai.EffectCommit.Issue.{issue}
use liminal_osai.EffectCommit.Commit.{
  consume, commit_authorized_effect, enter_containment, exit_containment,
}

pub data Call (W : Type 0) : Type 0 where
  issue_call : RuntimeOperation → Fields → Call W
  consume_call : String → String → Executor W → Call W
  effect_call : RuntimeOperation → Fields → Executor W → Call W
  enter_call : String → Call W
  exit_call : String → Call W

module _ {W : Type 0} (host : Host W) ⦃h : Hashing⦄ where
  unfoldable pub perform : Call W → Exec (EffectBroker W) Done
  perform (issue_call operation capability) = do issue host operation capability; pure tt
  perform (consume_call id token executor) = do consume host id token executor; pure tt
  perform (effect_call operation capability executor) = do
    commit_authorized_effect host operation capability executor
    pure tt
  perform (enter_call receipt) = enter_containment host receipt
  perform (exit_call receipt) = exit_containment host receipt

  -- the broker after some calls, returned or raised
  unfoldable pub after : EffectBroker W → List (Call W) → EffectBroker W
  after b [] = b
  after b (c ∷ cs) = after (perform c b).1 cs
