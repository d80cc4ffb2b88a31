-- ===== src/EffectCommit/Gate.antt =====
-- What a `_commit` that returns has checked and done, in that order.
use liminal_osai.Prelude.{
  eq_iff, ℕ, [], ◌∷◌, ◌++◌, Result, err, ◌≤◌, String, ◌≡◌, refl, sym, ap, subst, ◌∙◌, true, false,
  Option, none, some, ok, arith,
}
use liminal_osai.Json.{str}
use liminal_osai.Hashing.{Hashing}
use liminal_osai.Exec.{◌>>=◌, ◌>>◌, attempt}
use liminal_osai.Exec.Keeps.{Keeps-bind, Keeps-lift}
use liminal_osai.Mediation.Operation.{ExecutionObservation}
use liminal_osai.EffectCommit.State.{
  TrustedRuntimeWorld, TrustedExecutionSession, Lease, Host, Executor, EffectBroker, find_lease,
  put_lease, call,
}
use liminal_osai.EffectCommit.Observe.{now, capability_active, observe_world, observe_session}
use liminal_osai.EffectCommit.Commit.{
  known_lease, commit_lease, commit, run, burn, settle, committed_reasons, outcome_error,
}
use liminal_osai.EffectCommit.Receipts.{new_commit, append_commit}
use liminal_osai.EffectCommit.Documents.{sha}
use liminal_osai.Exec.Returns.{pure-ok, bind-ok, lift_bind-ok, then-ok}
use liminal_osai.Exec.Returns.{get_bind-ok, raise_if_then-ok}

-- what follows the checks of the lease, call by call: each observation is made in the state that
-- the one before it left, and the executor is called in the state that the last one left, with the
-- lease consumed
pub record Rechecked {W : Type 0} (host : Host W) ⦃h : Hashing⦄ (lease : Lease) (time : ℕ)
    (executor : Executor W) (b c : EffectBroker W) (o : ExecutionObservation) : Type 0 where
  pub world : TrustedRuntimeWorld
  pub with_world : EffectBroker W
  pub world_read : observe_world host b ≡ (ok world, with_world)
  pub untainted : world.tainted ≡ false
  pub same_epoch : world.epoch ≡ lease.runtime_world.epoch
  pub same_state : world.state_sha256 ≡ lease.runtime_world.state_sha256
  pub session : TrustedExecutionSession
  pub with_session : EffectBroker W
  pub session_read :
      observe_session host lease.operation.operation_id with_world ≡ (ok session, with_session)
  pub active : session.active ≡ true
  pub same_session : session.session_sha256 ≡ lease.session.session_sha256
  pub asked : EffectBroker W
  pub capability_read :
      capability_active host lease.capability_id world with_session ≡ (ok true, asked)
  pub effected : EffectBroker W
  pub ran :
      run executor lease.operation
        (record asked { leases = put_lease (record lease { consumed = true }) asked.leases })
      ≡ (ok o, effected)
  pub signed : c ≡ record effected {
    commits =
        effected.commits
        ++ new_commit lease world session time "SUCCEEDED" o.result_sha256 committed_reasons ∷ [];
  }

-- what a commit that returned has done
pub record Committed {W : Type 0} (host : Host W) ⦃h : Hashing⦄ (id : String)
    (executor : Executor W) (b c : EffectBroker W) (o : ExecutionObservation) : Type 0 where
  pub lease : Lease
  pub found : find_lease id b.leases ≡ some lease
  pub fresh : lease.consumed ≡ false
  pub uncontained : b.contained ≡ false
  pub time : ℕ
  pub timed : EffectBroker W
  pub time_read : now host b ≡ (ok time, timed)
  pub not_before : lease.issued_at_unix ≤ time
  pub not_after : time ≤ lease.expires_at_unix
  pub rechecked : Rechecked host lease time executor timed c o

sha-ok : (s name d : String) → sha (str s) name ≡ ok d → d ≡ s
unfolding sha
sha-ok s name d e = ground arith

module _ {W : Type 0} (host : Host W) ⦃h : Hashing⦄ where
  settle-ok :
      (lease : Lease) (world : TrustedRuntimeWorld) (session : TrustedExecutionSession) (n : ℕ)
      (r : Result ExecutionObservation) (b c : EffectBroker W) (o : ExecutionObservation)
      → settle lease world session n r b ≡ (ok o, c)
      → (r ≡ ok o)
        × (c ≡ record b {
          commits =
              b.commits
              ++ new_commit lease world session n "SUCCEEDED" o.result_sha256 committed_reasons
                ∷ [];
        })
  unfolding settle append_commit
  settle-ok lease world session n (err e) b c o returned =
      let (_, d, _, bad) = then-ok _ _ b c o returned in
      absurd (let clash : err (outcome_error e) ≡ ok o = ap (λ q. q.0) bad in cc)
  settle-ok lease world session n (ok x) b c o returned =
      let (_, d, appended, later) = then-ok _ _ b c o returned in
      let (same, there) = pure-ok x o d c later in
      let (digest, is_digest, wrote) = lift_bind-ok _ _ b d tt appended in
      let is_result = sha-ok x.result_sha256 "result_sha256" digest is_digest in
      let End : String → ExecutionObservation → EffectBroker W = λ result y. record b {
        commits =
            b.commits ++ new_commit lease world session n "SUCCEEDED" result committed_reasons ∷ [];
      } in
      (
        ap ok same,
        sym there
            ∙ sym (ap (λ q. q.1) wrote)
            ∙ ap (λ y. End y x) is_result
            ∙ ap (λ y. End y.result_sha256 y) same,
      )

  -- The executor ran after the lease was consumed, and its result is the one that is signed.
  effect-ok :
      (lease : Lease) (world : TrustedRuntimeWorld) (session : TrustedExecutionSession) (n : ℕ)
      (executor : Executor W) (b c : EffectBroker W) (o : ExecutionObservation)
      → (burn lease >> (attempt (run executor lease.operation) >>= settle lease world session n)) b
        ≡ (ok o, c)
      → (d : EffectBroker W) × (run executor lease.operation
            (record b { leases = put_lease (record lease { consumed = true }) b.leases })
          ≡ (ok o, d))
        × (c ≡ record d {
          commits =
              d.commits
              ++ new_commit lease world session n "SUCCEEDED" o.result_sha256 committed_reasons
                ∷ [];
        })
  unfolding burn attempt ◌>>◌ ◌>>=◌
  effect-ok lease world session n executor b c o returned =
      let burned : EffectBroker W = record b {
        leases = put_lease (record lease { consumed = true }) b.leases;
      } in
      let (is_o, signed) =
        settle-ok lease world session n (run executor lease.operation burned).0
          (run executor lease.operation burned).1 c o returned in
      (
        (run executor lease.operation burned).1,
        ap (λ x. (x, (run executor lease.operation burned).1)) is_o,
        signed,
      )

  commit_lease-Rechecked :
      (lease : Lease) (n : ℕ) (executor : Executor W) (b c : EffectBroker W)
      (o : ExecutionObservation)
      → commit_lease host lease n executor b ≡ (ok o, c)
      → Rechecked host lease n executor b c o
  unfolding commit_lease
  commit_lease-Rechecked lease n executor b c o returned =
      let (world, d, seen, later) = bind-ok _ _ b c o returned in
      let (untainted, later) = raise_if_then-ok _ _ _ d c o later in
      let (epoch, later) = raise_if_then-ok _ _ _ d c o later in
      let (state, later) = raise_if_then-ok _ _ _ d c o later in
      let (session, e, met, later) = bind-ok _ _ d c o later in
      let (active, later) = raise_if_then-ok _ _ _ e c o later in
      let (same, later) = raise_if_then-ok _ _ _ e c o later in
      let (live, f, asked, later) = bind-ok _ _ e c o later in
      let (dead, later) = raise_if_then-ok _ _ _ f c o later in
      let is_live : live ≡ true = ground arith in
      let (g, ran, signed) = effect-ok lease world session n executor f c o later in
      record {
        world = world;
        with_world = d;
        world_read = seen;
        untainted = untainted;
        same_epoch = ground arith;
        same_state = (eq_iff _ _).0 (ground arith);
        session = session;
        with_session = e;
        session_read = met;
        active = ground arith;
        same_session = (eq_iff _ _).0 (ground arith);
        asked = f;
        capability_read = asked ∙ ap (λ x. (ok x, f)) is_live;
        effected = g;
        ran = ran;
        signed = signed;
      }

  known_lease-ok :
      (o : Option Lease) (lease : Lease) (b c : EffectBroker W)
      → known_lease o b ≡ (ok lease, c)
      → (o ≡ some lease) × (b ≡ c)
  known_lease-ok none lease b c e = absurd (let bad = ap (λ q. q.0) e in cc)
  known_lease-ok (some l) lease b c e =
      let (same, there) = pure-ok l lease b c e in (ap some same, there)

  -- The clock leaves the leases and the gate as they are.
  pub now_frame :
      (b c : EffectBroker W) (n : ℕ)
      → now host b ≡ (ok n, c)
      → (c.leases ≡ b.leases) × (c.contained ≡ b.contained)
  unfolding now
  now_frame b c n e =
      let P : EffectBroker W → Type 0 = λ d. (d.leases ≡ b.leases) × (d.contained ≡ b.contained) in
      let kept : P (now host b).1 =
        (Keeps-bind {P = P} (call host.clock) _ (record { at = λ d p. p }) λ v. Keeps-lift _).at b
          (refl, refl) in
      subst P (ap (λ q. q.1) e) kept

  -- A commit that returns read the time from the clock, and found, outside containment, a lease
  -- under that id that was not consumed, at a time from its issue to its expiry. Then it observed,
  -- each in the state that the observation before it left, a world that is not tainted and has the
  -- lease's epoch and state, an active session that is the lease's, and the capability as active in
  -- that world. Only in the state that the last of them left, with the lease consumed, did it call
  -- the executor on the lease's operation. The call gave the observation that is returned, and the
  -- commit appended one signed receipt of it and changed nothing else.
  pub commit_gate :
      (id : String) (executor : Executor W) (b c : EffectBroker W) (o : ExecutionObservation)
      → commit host id executor b ≡ (ok o, c)
      → Committed host id executor b c o
  unfolding commit
  commit_gate id executor b c o returned =
      let (n, d, read, later) = bind-ok _ _ b c o returned in
      let (leases, gate) = now_frame b d n read in
      let (uncontained, later) = raise_if_then-ok _ _ _ d c o (get_bind-ok _ d c o later) in
      let (lease, e, known, later) = bind-ok _ _ d c o later in
      let (found, there) = known_lease-ok _ lease d e known in
      let (fresh, later) = raise_if_then-ok _ _ _ e c o later in
      let (early, later) = raise_if_then-ok _ _ _ e c o later in
      let (late, later) = raise_if_then-ok _ _ _ e c o later in
      record {
        lease = lease;
        found = ap (find_lease id) (sym leases) ∙ found;
        fresh = fresh;
        uncontained = sym gate ∙ uncontained;
        time = n;
        timed = d;
        time_read = read;
        not_before = ground arith;
        not_after = ground arith;
        rechecked =
            subst (λ x. Rechecked host lease n executor x c o) (sym there)
              (commit_lease-Rechecked lease n executor e c o later);
      }
