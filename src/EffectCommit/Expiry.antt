-- ===== src/EffectCommit/Expiry.antt =====
-- Whatever calls are made, a lease expires in 30 seconds at most.
use liminal_osai.Prelude.{
  ℕ, ◌+◌, ◌≤◌, String, ◌≡◌, refl, subst, List, [], ◌∷◌, Option, none, some, ok, arith, ltb,
}
use liminal_osai.Json.{Fields}
use liminal_osai.Hashing.{Hashing}
use liminal_osai.Exec.{raise_if, ◌>>=◌, ◌>>◌}
use liminal_osai.Exec.Keeps.{
  Keeps, Keeps-bind, Keeps-then, Keeps-lift, Keeps-raise_if, Keeps-pure, Keeps-get, Keeps-modify,
  get_bind-at, raise_if_then-at,
}
use liminal_osai.Mediation.Operation.{RuntimeOperation}
use liminal_osai.EffectCommit.State.{
  effect_commit_error, EffectCommitAuthorizationReceipt, Lease, Host, Executor, EffectBroker,
  find_lease,
}
use liminal_osai.EffectCommit.Issue.{new_lease, record_lease, issue}
use liminal_osai.EffectCommit.Commit.{
  known_lease, commit_lease, commit, consume, commit_authorized_effect, set_containment,
  enter_containment, exit_containment,
}
use liminal_osai.EffectCommit.Calls.{
  Call, issue_call, consume_call, effect_call, enter_call, exit_call, perform, after,
}
use liminal_osai.EffectCommit.Effects.{Keeps-read_decision}
use liminal_osai.EffectCommit.Construct.{max_lease_ttl_seconds, construct, construct-ok}
use liminal_osai.EffectCommit.Brief.{
  put-All, find-All, IsBrief, AllBrief, Keeps-clock, Keeps-capability, Keeps-world, Keeps-session,
  Keeps-commit_lease,
}

module _ {W : Type 0} (host : Host W) ⦃h : Hashing⦄ where
  Keeps-add :
      (receipt : EffectCommitAuthorizationReceipt) (l : Lease)
      → IsBrief host l
      → Keeps (AllBrief host) (record_lease host receipt l)
  unfolding record_lease
  Keeps-add receipt l brief = Keeps-modify _ λ b p. put-All (IsBrief host) l b.leases brief p

  Keeps-issued :
      (operation : RuntimeOperation) (capability : Fields)
      → Keeps (AllBrief host) (issue host operation capability)
  unfolding issue new_lease
  Keeps-issued operation capability = Keeps-then _ _ (Keeps-lift _) (
      Keeps-bind _ _ (Keeps-read_decision capability) λ decision. Keeps-bind _ _ Keeps-get λ b.
        Keeps-then _ _ (Keeps-raise_if _ _) (
          Keeps-bind _ _ (Keeps-clock host) λ n. Keeps-bind _ _ (Keeps-world host) λ world.
            Keeps-then _ _ (Keeps-raise_if _ _) (
              Keeps-bind _ _ (Keeps-session host _) λ session. Keeps-then _ _ (Keeps-raise_if _ _) (
                Keeps-bind _ _ (Keeps-capability host _ _) λ live.
                  Keeps-then _ _ (Keeps-raise_if _ _) (
                    Keeps-bind _ _ (Keeps-lift _) λ scope.
                      Keeps-bind _ _ Keeps-get
                        λ c. Keeps-then _ _ (Keeps-add _ _ refl) (Keeps-pure _))))))

  known_commit-AllBrief :
      (id : String) (executor : Executor W) (n : ℕ) (b : EffectBroker W) (o : Option Lease)
      → find_lease id b.leases ≡ o
      → AllBrief host b
      → AllBrief host
          ((known_lease o >>= λ lease.
              raise_if lease.consumed (effect_commit_error "lease_replayed")
              >> (raise_if (ltb n lease.issued_at_unix) (effect_commit_error "clock_regression")
                  >> (raise_if (ltb lease.expires_at_unix n) (effect_commit_error "lease_expired")
                      >> commit_lease host lease n executor)))
            b).1
  unfolding ◌>>=◌
  known_commit-AllBrief id executor n b none e p = p
  known_commit-AllBrief id executor n b (some lease) e p =
      (Keeps-then _ _ (Keeps-raise_if _ _) (
          Keeps-then _ _ (Keeps-raise_if _ _) (
            Keeps-then _ _ (Keeps-raise_if _ _) (
              Keeps-commit_lease host lease n executor
                (find-All (IsBrief host) id b.leases lease p e))))).at
        b p

  Keeps-committed :
      (id : String) (executor : Executor W) → Keeps (AllBrief host) (commit host id executor)
  unfolding commit
  Keeps-committed id executor = Keeps-bind _ _ (Keeps-clock host) λ n. record {
    at = λ b p. get_bind-at (AllBrief host) _ b (
        raise_if_then-at (AllBrief host) _ _ _ b p
          λ _. known_commit-AllBrief id executor n b (find_lease id b.leases) refl p);
  }

  Keeps-called : (c : Call W) → Keeps (AllBrief host) (perform host c)
  unfolding perform consume commit_authorized_effect enter_containment exit_containment
      set_containment
  Keeps-called (issue_call operation capability) =
      Keeps-then _ _ (Keeps-issued operation capability) (Keeps-pure tt)
  Keeps-called (consume_call id token executor) =
      Keeps-then _ _
        (Keeps-then _ _ (Keeps-raise_if _ _)
          (Keeps-then _ _ (Keeps-raise_if _ _) (Keeps-committed id executor)))
        (Keeps-pure tt)
  Keeps-called (effect_call operation capability executor) =
      Keeps-then _ _
        (Keeps-bind _ _ (Keeps-issued operation capability)
          λ issued. Keeps-committed issued.0 executor)
        (Keeps-pure tt)
  Keeps-called (enter_call receipt) = Keeps-bind _ _ (Keeps-lift _) λ d. Keeps-modify _ λ b p. p
  Keeps-called (exit_call receipt) = Keeps-bind _ _ (Keeps-lift _) λ d. Keeps-modify _ λ b p. p

  after-AllBrief :
      (calls : List (Call W)) (b : EffectBroker W)
      → AllBrief host b
      → AllBrief host (after host b calls)
  unfolding after
  after-AllBrief [] b p = p
  after-AllBrief (c ∷ cs) b p = after-AllBrief cs (perform host c b).1 ((Keeps-called c).at b p)

  -- On a broker that the constructor gives, after any calls, returned or raised, each lease expires
  -- at least one and at most `MAX_LEASE_TTL_SECONDS`, which is 30, seconds after it was issued.
  pub leases_brief :
      (w : W) (b : EffectBroker W) (calls : List (Call W)) (id : String) (lease : Lease)
      → construct host w ≡ ok b
      → find_lease id (after host b calls).leases ≡ some lease
      → (lease.issued_at_unix + 1 ≤ lease.expires_at_unix)
        × (lease.expires_at_unix ≤ lease.issued_at_unix + max_lease_ttl_seconds)
  leases_brief w b calls id lease made found =
      let (new, low, high) = construct-ok host w b made in
      let brief = after-AllBrief calls b (subst (AllBrief host) new tt) in
      let length_of : lease.expires_at_unix ≡ lease.issued_at_unix + host.lease_ttl_seconds =
        find-All (IsBrief host) id (after host b calls).leases lease brief found in
      (omega arith, omega arith)
