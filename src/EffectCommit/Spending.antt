-- ===== src/EffectCommit/Spending.antt =====
-- `_commit` burns one lease for one effect, and writes one receipt.
use liminal_osai.Prelude.{
  ℕ, suc, ◌+◌, ◌≤◌, String, ◌≡◌, refl, ap, subst, ◌∙◌, true, false, List, [], ◌∷◌, ◌++◌, Result, ok,
  err, Done, length, length-append, arith, is_sha256,
}
use liminal_osai.Json.{Value}
use liminal_osai.Hashing.{Hashing, canonical_sha256}
use liminal_osai.Exec.{pure, lift, modify, attempt, continue, ◌>>=◌, ◌>>◌}
use liminal_osai.Exec.Keeps.{
  then_raise-at, then_pure-at, attempt_bind-at, modify_bind-at, bind-at, raise_if_then-at,
}
use liminal_osai.Mediation.Operation.{RuntimeOperation, ExecutionObservation, validate_observation}
use liminal_osai.EffectCommit.State.{
  TrustedRuntimeWorld, TrustedExecutionSession, Lease, Host, Executor, EffectBroker, put_lease,
}
use liminal_osai.EffectCommit.Documents.{sha}
use liminal_osai.EffectCommit.Observe.{capability_active, observe_world, observe_session}
use liminal_osai.EffectCommit.Receipts.{append_commit}
use liminal_osai.EffectCommit.Commit.{burn, run, settle, commit_lease}
use liminal_osai.EffectCommit.Logged.{
  LoggedWorld, logged_host, logged_executor, unused, burned, burn-unused,
}
use liminal_osai.Exec.Returns.{pure-ok, bind-ok, lift_then-ok}
use liminal_osai.Mediation.Observed.{validate_observation-is_sha256}
use liminal_osai.EffectCommit.Effects.{
  Having, Counted, Usable, Owed, Keeps-capability_active, Keeps-observe_world,
  Keeps-observe_session,
}

module _ {W : Type 0} (executor : Executor W) (operation : RuntimeOperation) where
  -- The executor's call is logged, and nothing else of the broker changes.
  run-Owed :
      (b : EffectBroker (LoggedWorld W))
      → (length b.world.1 + suc (unused b.leases) ≤ length b.authorizations)
        × (length b.commits ≡ length b.world.1)
      → Having Owed (run (logged_executor executor) operation b).1
  unfolding run ◌>>=◌ ◌>>◌
  run-Owed b (room, even) = one (executor operation b.world.0).0
    where
      more : length (b.world.1 ++ operation ∷ []) ≡ length b.world.1 + 1
      more = length-append b.world.1 (operation ∷ [])

      ended : EffectBroker (LoggedWorld W)
      ended = record b { world = ((executor operation b.world.0).1, b.world.1 ++ operation ∷ []) }

      owed : Having Owed ended
      owed = record { bounded = omega (arith, more); recorded = omega (arith, more) }

      checked :
          (d : Result Done) (o : ExecutionObservation)
          → Having Owed (continue d (λ _. pure o) ended).1
      checked (ok d) o = owed
      checked (err e) o = owed

      one :
          (r : Result ExecutionObservation)
          → Having Owed (continue r (λ o. lift (validate_observation o) >> pure o) ended).1
      one (err e) = owed
      one (ok o) = checked (validate_observation o) o

  -- An observation that is accepted has a digest.
  run-is_sha256 :
      (b : EffectBroker (LoggedWorld W)) (o : ExecutionObservation)
      → (run (logged_executor executor) operation b).0 ≡ ok o
      → is_sha256 o.result_sha256 ≡ true
  unfolding run
  run-is_sha256 b o h =
      let ended = (run (logged_executor executor) operation b).1 in
      let returned : run (logged_executor executor) operation b ≡ (ok o, ended) =
        ap (λ r. (r, ended)) h in
      let (seen, u, called, later) = bind-ok _ _ b ended o returned in
      let (d, valid, later) = lift_then-ok _ _ u ended o later in
      let (same, there) = pure-ok seen o u ended later in
      subst (λ x. is_sha256 x.result_sha256 ≡ true) same
        (validate_observation-is_sha256 seen d valid)

module _ {W : Type 0} ⦃h : Hashing⦄ where
  append_commit-Counted :
      (lease : Lease) (world : TrustedRuntimeWorld) (session : TrustedExecutionSession) (n : ℕ)
      (outcome result : String) (reasons : List String) (b : EffectBroker (LoggedWorld W))
      → is_sha256 result ≡ true
      → Having Owed b
      → Having Counted (append_commit lease world session n outcome result reasons b).1
  unfolding append_commit sha ◌>>=◌
  append_commit-Counted lease world session n outcome result reasons b digest o =
      rw digest (record {
        bounded = o.bounded;
        recorded = length-append b.commits _ ∙ (let r = o.recorded in omega arith);
      })

  module _ (digests : (v : Value) → is_sha256 (canonical_sha256 v) ≡ true) where
    settle-Counted :
        (lease : Lease) (world : TrustedRuntimeWorld) (session : TrustedExecutionSession) (n : ℕ)
        (r : Result ExecutionObservation) (b : EffectBroker (LoggedWorld W))
        → ((o : ExecutionObservation) → r ≡ ok o → is_sha256 o.result_sha256 ≡ true)
        → Having Owed b
        → Having Counted (settle lease world session n r b).1
    unfolding settle
    settle-Counted lease world session n (err e) b valid o =
        then_raise-at ExecutionObservation (Having Counted) _ _ b
          (append_commit-Counted lease world session n _ _ _ b (digests _) o)
    settle-Counted lease world session n (ok seen) b valid o =
        then_pure-at (Having Counted) _ _ b
          (append_commit-Counted lease world session n _ _ _ b (valid seen refl) o)

    pub commit_lease-Counted :
        (host : Host W) (executor : Executor W) (lease : Lease) (n : ℕ)
        (b : EffectBroker (LoggedWorld W))
        → lease.consumed ≡ false
        → Having (Usable lease) b
        → Having Counted (commit_lease (logged_host host) lease n (logged_executor executor) b).1
    unfolding commit_lease burn
    commit_lease-Counted host executor lease n b fresh usable =
        let P = Having (Usable lease) in
        let Q = Having Counted in
        bind-at P Q (observe_world (logged_host host)) _ b (Keeps-observe_world (Usable lease) host)
          (λ c p. p.0)
          (λ world c p. raise_if_then-at Q _ _ _ c p.0 λ _. raise_if_then-at Q _ _ _ c p.0 λ _.
            raise_if_then-at Q _ _ _ c p.0 λ _.
              bind-at P Q (observe_session (logged_host host) lease.operation.operation_id) _ c
                (Keeps-observe_session (Usable lease) host _) (λ d p. p.0)
                (λ session d p. raise_if_then-at Q _ _ _ d p.0 λ _.
                  raise_if_then-at Q _ _ _ d p.0 λ _.
                    bind-at P Q (capability_active (logged_host host) lease.capability_id world) _ d
                      (Keeps-capability_active (Usable lease) host _ _) (λ e p. p.0)
                      (λ live e p. raise_if_then-at Q _ _ _ e p.0 λ _. spend world session e p) p)
                p)
          usable
      where
        spend :
            (world : TrustedRuntimeWorld) (session : TrustedExecutionSession)
            (c : EffectBroker (LoggedWorld W))
            → Having (Usable lease) c
            → Having Counted
                ((modify (λ d. record d { leases = put_lease (burned lease) d.leases })
                    >> (attempt (run (logged_executor executor) lease.operation) >>= λ r.
                        settle lease world session n r))
                  c).1
        spend world session c (counted, found) =
            let d : EffectBroker (LoggedWorld W) = record c {
              leases = put_lease (burned lease) c.leases;
            } in
            let one_less = burn-unused c.leases lease found fresh in
            let room = counted.bounded in
            modify_bind-at (Having Counted) _ _ c (
              attempt_bind-at (Having Counted) (run (logged_executor executor) lease.operation) _ d
                (settle-Counted lease world session n _
                  (run (logged_executor executor) lease.operation d).1
                  (λ o e. run-is_sha256 executor lease.operation d o e)
                  (run-Owed executor lease.operation d (omega arith, counted.recorded))))
