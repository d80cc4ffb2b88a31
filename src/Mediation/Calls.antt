-- ===== src/Mediation/Calls.antt =====
-- The calls that a host makes on the mediator, and the same with executors that are logged.
use liminal_osai.Prelude.{String, List, [], ◌∷◌, Done, Exec}
use liminal_osai.Hashing.{Hashing}
use liminal_osai.Exec.{pure, ◌>>◌}
use liminal_osai.Mediation.Operation.{RuntimeOperation}
use liminal_osai.Mediation.State.{Executor, Mediator}
use liminal_osai.EffectCommit.Logged.{LoggedWorld, logged_executor}
use liminal_osai.Mediation.Mediator.{enter_containment, exit_containment, mediate}

-- The calls that the host makes on the mediator.
pub data Call (W : Type 0) : Type 0 where
  mediate_call : RuntimeOperation → Executor W → Call W
  enter_call : String → Call W
  exit_call : String → Call W

module _ {W : Type 0} ⦃h : Hashing⦄ where
  unfoldable pub perform : Call W → Exec (Mediator W) Done
  perform (mediate_call o executor) = do mediate o executor; pure tt
  perform (enter_call receipt) = enter_containment receipt
  perform (exit_call receipt) = exit_containment receipt

  -- the mediator after some calls, returned or raised
  unfoldable pub after : Mediator W → List (Call W) → Mediator W
  after m [] = m
  after m (c ∷ cs) = after (perform c m).1 cs

abbrev pub logged_call : {W : Type 0} → Call W → Call (LoggedWorld W)
logged_call (mediate_call o executor) = mediate_call o (logged_executor executor)
logged_call (enter_call receipt) = enter_call receipt
logged_call (exit_call receipt) = exit_call receipt
