-- ===== src/EffectCommit/Once.antt =====
-- After any calls: no more effects than leases, and one receipt for each effect.
use liminal_osai.Prelude.{
  ltb, ℕ, ◌+◌, ◌≤◌, String, ◌≡◌, refl, sym, subst, Bool, true, false, List, [], ◌∷◌, Option, none,
  some, length, length-append, arith, map, is_sha256,
}
use liminal_osai.Json.{Value, Fields}
use liminal_osai.Hashing.{Hashing, canonical_sha256}
use liminal_osai.Exec.{raise_if, ◌>>=◌, ◌>>◌}
use liminal_osai.Exec.Keeps.{
  Keeps, Keeps-bind, Keeps-then, Keeps-lift, Keeps-raise_if, Keeps-pure, Keeps-get, Keeps-modify,
  raise_if_then-at, get_bind-at,
}
use liminal_osai.Mediation.Operation.{RuntimeOperation}
use liminal_osai.EffectCommit.State.{
  effect_commit_error, Lease, Host, Executor, EffectBroker, EffectCommitAuthorizationReceipt,
  create, find_lease,
}
use liminal_osai.EffectCommit.Issue.{record_lease, issue}
use liminal_osai.EffectCommit.Commit.{
  known_lease, commit_lease, commit, consume, commit_authorized_effect, set_containment,
  enter_containment, exit_containment,
}
use liminal_osai.EffectCommit.Calls.{
  Call, issue_call, consume_call, effect_call, enter_call, exit_call, perform, after,
}
use liminal_osai.EffectCommit.Logged.{
  LoggedWorld, logged_host, logged_executor, logged_call, unused, put-unused, find_lease-id,
}
use liminal_osai.EffectCommit.Effects.{
  Keeps-read_decision, Having, Counted, Keeps-now, Keeps-capability_active, Keeps-observe_world,
  Keeps-observe_session,
}
use liminal_osai.EffectCommit.Spending.{commit_lease-Counted}

module _ {W : Type 0} (host : Host W) ⦃h : Hashing⦄ where
  Keeps-record_lease :
      (receipt : EffectCommitAuthorizationReceipt) (lease : Lease)
      → Keeps {S = EffectBroker (LoggedWorld W)}
          (Having Counted)
          (record_lease (logged_host host) receipt lease)
  unfolding record_lease
  Keeps-record_lease receipt lease = Keeps-modify _ λ b i.
      let one_more = length-append b.authorizations (receipt ∷ []) in
      let put = put-unused lease b.leases in
      let room = i.bounded in record { bounded = omega arith; recorded = i.recorded }

  Keeps-issue :
      (operation : RuntimeOperation) (capability : Fields)
      → Keeps (Having Counted) (issue (logged_host host) operation capability)
  unfolding issue
  Keeps-issue operation capability = Keeps-then _ _ (Keeps-lift _) (
      Keeps-bind _ _ (Keeps-read_decision capability) λ decision. Keeps-bind _ _ Keeps-get λ b.
        Keeps-then _ _ (Keeps-raise_if _ _) (
          Keeps-bind _ _ (Keeps-now Counted host) λ n.
            Keeps-bind _ _ (Keeps-observe_world Counted host) λ world.
              Keeps-then _ _ (Keeps-raise_if _ _) (
                Keeps-bind _ _ (Keeps-observe_session Counted host _) λ session.
                  Keeps-then _ _ (Keeps-raise_if _ _) (
                    Keeps-bind _ _ (Keeps-capability_active Counted host _ _) λ live.
                      Keeps-then _ _ (Keeps-raise_if _ _) (
                        Keeps-bind _ _ (Keeps-lift _) λ scope.
                          Keeps-bind _ _ Keeps-get
                            λ c. Keeps-then _ _ (Keeps-record_lease _ _) (Keeps-pure _))))))

  module _ (digests : (v : Value) → is_sha256 (canonical_sha256 v) ≡ true) where
    known_commit-Counted :
        (id : String) (executor : Executor W) (n : ℕ) (b : EffectBroker (LoggedWorld W))
        (o : Option Lease)
        → find_lease id b.leases ≡ o
        → Having Counted b
        → Having Counted
            ((known_lease o >>= λ lease.
                raise_if lease.consumed (effect_commit_error "lease_replayed")
                >> (raise_if (ltb n lease.issued_at_unix) (effect_commit_error "clock_regression")
                    >> (raise_if (ltb lease.expires_at_unix n) (effect_commit_error "lease_expired")
                        >> commit_lease (logged_host host) lease n (logged_executor executor))))
              b).1
    unfolding ◌>>=◌
    known_commit-Counted id executor n b none e i = i
    known_commit-Counted id executor n b (some lease) e i =
        let Q = Having Counted in
        raise_if_then-at Q _ _ _ b i λ fresh. raise_if_then-at Q _ _ _ b i λ _.
          raise_if_then-at Q _ _ _ b i λ _.
            commit_lease-Counted digests host executor lease n b fresh (
              i,
              subst (λ j. find_lease j b.leases ≡ some lease)
                  (sym (find_lease-id id b.leases lease e)) e,
            )

    Keeps-commit :
        (id : String) (executor : Executor W)
        → Keeps (Having Counted) (commit (logged_host host) id (logged_executor executor))
    unfolding commit
    Keeps-commit id executor = Keeps-bind _ _ (Keeps-now Counted host) λ n. record {
      at = λ b i. get_bind-at (Having Counted) _ b (
          raise_if_then-at (Having Counted) _ _ _ b i
            λ _. known_commit-Counted id executor n b (find_lease id b.leases) refl i);
    }

    Keeps-set_containment :
        (contained : Bool) (receipt name : String)
        → Keeps {S = EffectBroker (LoggedWorld W)}
            (Having Counted)
            (set_containment (logged_host host) contained receipt name)
    unfolding set_containment
    Keeps-set_containment contained receipt name =
        Keeps-bind _ _ (Keeps-lift _) λ d. Keeps-modify _ λ b i. i

    Keeps-perform :
        (c : Call W) → Keeps (Having Counted) (perform (logged_host host) (logged_call c))
    unfolding perform consume commit_authorized_effect enter_containment exit_containment
    Keeps-perform (issue_call operation capability) =
        Keeps-then _ _ (Keeps-issue operation capability) (Keeps-pure tt)
    Keeps-perform (consume_call id token executor) =
        Keeps-then _ _
          (Keeps-then _ _ (Keeps-raise_if _ _)
            (Keeps-then _ _ (Keeps-raise_if _ _) (Keeps-commit id executor)))
          (Keeps-pure tt)
    Keeps-perform (effect_call operation capability executor) =
        Keeps-then _ _
          (Keeps-bind _ _ (Keeps-issue operation capability)
            λ issued. Keeps-commit issued.0 executor)
          (Keeps-pure tt)
    Keeps-perform (enter_call receipt) = Keeps-set_containment true receipt _
    Keeps-perform (exit_call receipt) = Keeps-set_containment false receipt _

    after-Counted :
        (calls : List (Call W)) (b : EffectBroker (LoggedWorld W))
        → Having Counted b
        → Having Counted (after (logged_host host) b (map logged_call calls))
    unfolding after
    after-Counted [] b i = i
    after-Counted (c ∷ cs) b i =
        after-Counted cs (perform (logged_host host) (logged_call c) b).1 ((Keeps-perform c).at b i)

    -- Where every digest is 64 lowercase hexadecimal characters, after any calls on a new broker,
    -- returned or raised, the calls of executors and the leases not consumed are together no more
    -- than the authorizations that were issued, and there is exactly one commit receipt for each
    -- call of an executor, failed ones included.
    pub effects_once :
        (w : W) (calls : List (Call W))
        → let b = after (logged_host host) (create (w, [])) (map logged_call calls) in
          (length b.world.1 + unused b.leases ≤ length b.authorizations)
          × (length b.commits ≡ length b.world.1)
    effects_once w calls =
        let i =
          after-Counted calls (create (w, []))
            (record { bounded = omega arith; recorded = refl }) in
        (i.bounded, i.recorded)
