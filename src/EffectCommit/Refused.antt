-- ===== src/EffectCommit/Refused.antt =====
-- What is refused: a consumed lease, and any issue or commit in containment.
use liminal_osai.Prelude.{String, ◌≡◌, refl, ap, ◌∙◌, true, Option, none, some, Exception, Exec}
use liminal_osai.Hashing.{Hashing}
use liminal_osai.Exec.{raise_if, ◌>>=◌, ◌>>◌}
use liminal_osai.EffectCommit.Issue.{read_decision, issue}
use liminal_osai.EffectCommit.Effects.{Keeps-read_decision}
use liminal_osai.Json.{Fields}
use liminal_osai.Exec.Keeps.{bind_with-at, lift_then_ok-at, bind-at, raise_if_then-at, get_bind-at}
use liminal_osai.EffectCommit.State.{Lease, Host, Executor, EffectBroker, find_lease}
use liminal_osai.EffectCommit.Observe.{now}
use liminal_osai.EffectCommit.Commit.{known_lease, commit}
use liminal_osai.EffectCommit.Logged.{LoggedWorld, logged_host, logged_executor}
use liminal_osai.EffectCommit.Effects.{Relation, Having, Keeps-now}
use liminal_osai.Mediation.Operation.{RuntimeOperation}
use liminal_osai.EffectCommit.Gate.{now_frame}

module _ {W : Type 0} (host : Host W) ⦃h : Hashing⦄ where
  used_lease :
      {S A : Type 0} (P : EffectBroker S → Type 0) (o : Option Lease) (lease : Lease)
      (e : Exception) (rest : Lease → Exec (EffectBroker S) A) (b : EffectBroker S)
      → o ≡ some lease
      → lease.consumed ≡ true
      → P b
      → P ((known_lease o >>= λ l. raise_if l.consumed e >> rest l) b).1
  unfolding ◌>>=◌
  used_lease P none lease e rest b is used p = p
  used_lease P (some l) lease e rest b is used p =
      raise_if_then-at P l.consumed e (rest l) b p λ fresh. absurd (let same : l ≡ lease = cc in cc)

  -- A commit of a lease that is consumed calls no executor and changes no lease, authorization or
  -- commit receipt.
  pub replay_refused :
      (id : String) (executor : Executor W) (b : EffectBroker (LoggedWorld W)) (lease : Lease)
      → find_lease id b.leases ≡ some lease
      → lease.consumed ≡ true
      → let d = (commit (logged_host host) id (logged_executor executor) b).1 in
        (d.world.1 ≡ b.world.1)
        × (d.leases ≡ b.leases)
        × (d.authorizations ≡ b.authorizations)
        × (d.commits ≡ b.commits)
  unfolding commit
  replay_refused id executor b lease found used =
      let Same : Relation = λ log leases authorizations commits.
        (log ≡ b.world.1)
        × (leases ≡ b.leases)
        × (authorizations ≡ b.authorizations)
        × (commits ≡ b.commits) in
      let P = Having Same in
      bind-at P P (now (logged_host host)) _ b (Keeps-now Same host) (λ c p. p)
        (λ n c p. get_bind-at P _ c (
          raise_if_then-at P _ _ _ c p λ _.
            used_lease P (find_lease id c.leases) lease _ _ c (ap (find_lease id) p.1 ∙ found) used
              p))
        (refl, refl, refl, refl)

  contained_commit :
      (id : String) (executor : Executor W) (b : EffectBroker W)
      → b.contained ≡ true
      → (commit host id executor b).1 ≡ (now host b).1
  unfolding commit
  contained_commit id executor b gate =
      let P : EffectBroker W → Type 0 = λ c. c ≡ (now host b).1 in
      bind_with-at P (now host) _ b refl λ n read. get_bind-at P _ (now host b).1 (
        raise_if_then-at P _ _ _ (now host b).1 refl λ unlocked.
          let c = (now host b).1 in
          let same = (now_frame host b c n (ap (λ q. (q, c)) read)).1 in absurd cc)

  contained_issue :
      (operation : RuntimeOperation) (capability : Fields) (b : EffectBroker W)
      → b.contained ≡ true
      → (issue host operation capability b).1 ≡ b
  unfolding issue
  contained_issue operation capability b gate =
      let P : EffectBroker W → Type 0 = λ c. c ≡ b in
      lift_then_ok-at P _ _ b refl λ d valid.
        bind-at P P (read_decision capability) _ b (Keeps-read_decision capability) (λ c e. e)
          (λ decision c e. get_bind-at P _ c (
            raise_if_then-at P _ _ _ c e
              λ unlocked. absurd (let same = ap (λ x. x.contained) e in cc)))
          refl

  -- In containment, `issue_for_trusted_adapter` changes nothing, and a commit does no more than
  -- read the clock: no lease is issued and no executor is called.
  pub contained_refuses :
      (operation : RuntimeOperation) (capability : Fields) (id : String) (executor : Executor W)
      (b : EffectBroker W)
      → b.contained ≡ true
      → ((issue host operation capability b).1 ≡ b)
        × ((commit host id executor b).1 ≡ (now host b).1)
  contained_refuses operation capability id executor b gate =
      (contained_issue operation capability b gate, contained_commit id executor b gate)
