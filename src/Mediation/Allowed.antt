-- ===== src/Mediation/Allowed.antt =====
-- The executors' calls are within the uses that the broker has allowed.
use liminal_osai.Prelude.{
  ℕ, ◌+◌, String, Bool, true, false, List, [], ◌∷◌, ◌++◌, ◌==◌, Result, ok, err, Done, length,
}
use liminal_osai.Json.{Fields}
use liminal_osai.Hashing.{Hashing}
use liminal_osai.Exec.{pure, lift, ◌>>=◌, ◌>>◌}
use liminal_osai.Broker.State.{CapabilityDecisionReceipt}
use liminal_osai.Broker.Authorize.{Request, authorize}
use liminal_osai.Mediation.Operation.{RuntimeOperation, ExecutionObservation, validate_observation}
use liminal_osai.Mediation.State.{Executor, Mediator, on_broker}
use liminal_osai.Prelude.{eq_iff, ◌≤◌, ◌≡◌, inl, inr, Bool-cases, arith, map, length-append}
use liminal_osai.Exec.{continue}
use liminal_osai.Exec.Keeps.{
  get_bind-at, Keeps, Keeps-bind, Keeps-then, Keeps-get_bind, Keeps-lift, Keeps-modify, Keeps-pure,
  bind_with-at, attempt_bind-at,
}
use liminal_osai.Broker.State.{Broker, CapabilityState}
use liminal_osai.Broker.State
use liminal_osai.Broker.Calls
use liminal_osai.Broker.Recording.{IsSound}
use liminal_osai.Broker.Using.{Keeps-authorize}
use liminal_osai.Broker.Preservation.{after-IsSound}
use liminal_osai.Broker.Guarantees.{create-IsSound}
use liminal_osai.EffectCommit.Logged.{LoggedWorld, logged_executor}
use liminal_osai.Mediation.State.{create}
use liminal_osai.Mediation.Mediator.{
  Outcome, request_of, run, set_containment, enter_containment, exit_containment, finish, settle,
  finish_blocked, dispatch, proceed, mediate,
}
use liminal_osai.Mediation.Calls.{
  Call, mediate_call, enter_call, exit_call, perform, after, logged_call,
}
use liminal_osai.Mediation.Uses.{
  total_uses, total_budget, budget_bounds, authorize-UsedAtLeast, authorize-allowed,
}

-- a sound broker, with `spare` more uses than the log has calls
abbrev Within : {W : Type 0} → ℕ → Mediator (LoggedWorld W) → Type 0
Within spare m = IsSound [] m.broker × (length m.world.1 + spare ≤ total_uses m.broker.states)

module _ {W : Type 0} ⦃h : Hashing⦄ where
  Keeps-finish :
      (o : RuntimeOperation) (f : Outcome)
      → Keeps {S = Mediator (LoggedWorld W)} (Within 0) (finish o f)
  unfolding finish
  Keeps-finish o f = Keeps-get_bind _ λ m i. Keeps-bind _ _ (Keeps-lift _) λ event.
      Keeps-then _ _ (Keeps-modify _ (λ n p. p))
        (Keeps-then _ _ (Keeps-modify _ (λ n p. p)) (Keeps-pure _))

  Keeps-settle :
      (o : RuntimeOperation) (capability : CapabilityDecisionReceipt) (scope_sha : String)
      (r : Result ExecutionObservation)
      → Keeps {S = Mediator (LoggedWorld W)} (Within 0) (settle o capability scope_sha r)
  unfolding settle
  Keeps-settle o capability scope_sha (err e) = Keeps-finish o _
  Keeps-settle o capability scope_sha (ok seen) = Keeps-finish o _

  -- The executor's call is logged.
  run-Within :
      (executor : Executor W) (o : RuntimeOperation) (m : Mediator (LoggedWorld W))
      → Within 1 m
      → Within 0 (run (logged_executor executor) o m).1
  unfolding run ◌>>=◌ ◌>>◌
  run-Within executor o m (sound, room) = one (executor o m.world.0).0
    where
      ended : Mediator (LoggedWorld W)
      ended = record m { world = ((executor o m.world.0).1, m.world.1 ++ o ∷ []) }

      within : Within 0 ended
      within = (sound, (let more = length-append m.world.1 (o ∷ []) in omega arith))

      checked :
          (d : Result Done) (seen : ExecutionObservation)
          → Within 0 (continue d (λ _. pure seen) ended).1
      checked (ok d) seen = within
      checked (err e) seen = within

      one :
          (r : Result ExecutionObservation)
          → Within 0 (continue r (λ seen. lift (validate_observation seen) >> pure seen) ended).1
      one (err e) = within
      one (ok seen) = checked (validate_observation seen) seen

  dispatch-Within :
      (o : RuntimeOperation) (scope_sha : String) (executor : Executor W)
      (capability : CapabilityDecisionReceipt) (m : Mediator (LoggedWorld W))
      → Within 0 m
      → (capability.decision ≡ "ALLOW" → Within 1 m)
      → Within 0 (dispatch o scope_sha (logged_executor executor) capability m).1
  unfolding dispatch finish_blocked
  dispatch-Within o scope_sha executor capability m i allowed =
      elim (Bool-cases (capability.decision == "ALLOW")) [
        | inl e ↦ rw e (
            attempt_bind-at (Within 0) (run (logged_executor executor) o) _ m (
              (Keeps-settle o capability scope_sha _).at _
                (run-Within executor o m (allowed ((eq_iff _ _).0 e)))))
        | inr e ↦ rw e ((Keeps-finish o _).at m i)
      ]

  authorized-Within :
      (q : Request) (m : Mediator (LoggedWorld W))
      → Within 0 m
      → Within 0 (on_broker (authorize q) m).1
        × ((r : CapabilityDecisionReceipt)
            → (on_broker (authorize q) m).0 ≡ ok r
            → r.decision ≡ "ALLOW"
            → Within 1 (on_broker (authorize q) m).1)
  authorized-Within q m (sound, low) =
      let still = (Keeps-authorize [] q).at m.broker sound in
      let n = length m.world.1 in
      (
        (
          still,
          (let kept = authorize-UsedAtLeast q m.broker sound.unique n (omega arith) in omega arith),
        ),
        (λ r returned allow. (
          still,
          (let one_more = authorize-allowed q m.broker sound.unique r returned allow in
              omega arith),
        )),
      )

  proceed-Within :
      (o : RuntimeOperation) (scope : Fields) (scope_sha : String) (executor : Executor W)
      (contained : Bool) (m : Mediator (LoggedWorld W))
      → Within 0 m
      → Within 0 (proceed o scope scope_sha (logged_executor executor) contained m).1
  unfolding proceed finish_blocked
  proceed-Within o scope scope_sha executor true m i = (Keeps-finish o _).at m i
  proceed-Within o scope scope_sha executor false m i =
      let (kept, more) = authorized-Within (request_of o scope scope_sha) m i in
      bind_with-at (Within 0) (on_broker (authorize (request_of o scope scope_sha))) _ m kept
        (λ r returned. dispatch-Within o scope_sha executor r _ kept (more r returned))

  Keeps-mediate :
      (o : RuntimeOperation) (executor : Executor W)
      → Keeps (Within 0) (mediate o (logged_executor executor))
  unfolding mediate
  Keeps-mediate o executor = Keeps-then _ _ (Keeps-lift _) (
      Keeps-bind _ _ (Keeps-lift _) λ scope. record {
        at = λ m i. get_bind-at (Within 0) _ m (proceed-Within o scope _ executor m.contained m i);
      })

  Keeps-perform : (c : Call W) → Keeps (Within 0) (perform (logged_call c))
  unfolding perform enter_containment exit_containment set_containment
  Keeps-perform (mediate_call o executor) =
      Keeps-then _ _ (Keeps-mediate o executor) (Keeps-pure tt)
  Keeps-perform (enter_call receipt) = Keeps-then _ _ (Keeps-lift _) (Keeps-modify _ (λ m i. i))
  Keeps-perform (exit_call receipt) = Keeps-then _ _ (Keeps-lift _) (Keeps-modify _ (λ m i. i))

  after-Within :
      (calls : List (Call W)) (m : Mediator (LoggedWorld W))
      → Within 0 m
      → Within 0 (after m (map logged_call calls))
  unfolding after
  after-Within [] m i = i
  after-Within (c ∷ cs) m i =
      after-Within cs (perform (logged_call c) m).1 ((Keeps-perform c).at m i)

  -- For a mediator over a new broker on which any calls were made, after any sequence of `mediate`,
  -- `enter_containment` and `exit_containment`, returned or raised, executors were called no more
  -- often than the capabilities of the broker were used, all together, which is no more than the
  -- sum of their `max_uses`.
  pub effects_allowed :
      (w : W) (broker_id : String) (admissions : List Calls.Call) (calls : List (Call W))
      → let broker = Calls.after (State.create broker_id) admissions in
        let m = after (create (w, []) broker) (map logged_call calls) in
        (length m.world.1 ≤ total_uses m.broker.states)
        × (total_uses m.broker.states ≤ total_budget m.broker.states)
  effects_allowed w broker_id admissions calls =
      let sound = after-IsSound [] admissions (State.create broker_id) (create-IsSound broker_id) in
      let broker = Calls.after (State.create broker_id) admissions in
      let m = after (create (w, []) broker) (map logged_call calls) in
      let (still, low) = after-Within calls (create (w, []) broker) (sound, omega arith) in
      (omega arith, budget_bounds m.broker.receipts m.broker.states still.bounded)
