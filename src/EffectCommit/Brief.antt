-- ===== src/EffectCommit/Brief.antt =====
-- The leases of a broker that its constructor gives are short: 30 seconds at most.
use liminal_osai.Prelude.{
  ℕ, ◌+◌, String, ◌≡◌, subst, inl, inr, Bool, true, false, Bool-cases, List, [], ◌∷◌, some, ◌==◌,
  Result, ok, err, All, arith, if◌then◌else◌,
}
use liminal_osai.Hashing.{Hashing}
use liminal_osai.Exec.Keeps.{
  Keeps, Keeps-bind, Keeps-then, Keeps-lift, Keeps-raise, Keeps-raise_if, Keeps-pure, Keeps-attempt,
  Keeps-modify,
}
use liminal_osai.Mediation.Operation.{RuntimeOperation, ExecutionObservation}
use liminal_osai.EffectCommit.State.{
  TrustedRuntimeWorld, TrustedExecutionSession, Lease, Host, Executor, EffectBroker, find_lease,
  put_lease, call,
}
use liminal_osai.EffectCommit.Observe.{now, capability_active, observe_world, observe_session}
use liminal_osai.EffectCommit.Receipts.{append_commit}
use liminal_osai.EffectCommit.Commit.{burn, run, settle, commit_lease}

pub put-All :
    (P : Lease → Type 0) (l : Lease) (ls : List Lease) → P l → All P ls → All P (put_lease l ls)
put-All P l [] p a = (p, tt)
put-All P l (m ∷ ms) p (q, a) = one (m.lease_id == l.lease_id) (put-All P l ms p a)
  where
    one : (b : Bool) → All P (put_lease l ms) → All P (if b then l ∷ ms else m ∷ put_lease l ms)
    one true rest = (p, a)
    one false rest = (q, rest)

pub find-All :
    (P : Lease → Type 0) (id : String) (ls : List Lease) (l : Lease)
    → All P ls
    → find_lease id ls ≡ some l
    → P l
find-All P id [] l a found = absurd cc
find-All P id (m ∷ ms) l (p, a) found = elim (Bool-cases (m.lease_id == id)) [
  | inl e ↦ subst P (ground arith) p
  | inr e ↦ find-All P id ms l a (ground arith)
]

module _ {W : Type 0} (host : Host W) where
  abbrev pub IsBrief : Lease → Type 0
  IsBrief l = l.expires_at_unix ≡ l.issued_at_unix + host.lease_ttl_seconds

  abbrev pub AllBrief : EffectBroker W → Type 0
  AllBrief b = All IsBrief b.leases

  Keeps-call : {A : Type 0} (f : W → Result A × W) → Keeps AllBrief (call f)
  Keeps-call f = record { at = λ b p. p }

  Keeps-run : (executor : Executor W) (o : RuntimeOperation) → Keeps AllBrief (run executor o)
  unfolding run
  Keeps-run executor o =
      Keeps-bind _ _ (Keeps-call (executor o)) λ seen. Keeps-then _ _ (Keeps-lift _) (Keeps-pure _)

  Keeps-burn : (lease : Lease) → IsBrief lease → Keeps AllBrief (burn lease)
  unfolding burn
  Keeps-burn lease brief =
      Keeps-modify _ λ b p. put-All IsBrief (record lease { consumed = true }) b.leases brief p

  pub Keeps-clock : Keeps AllBrief (now host)
  unfolding now
  Keeps-clock = Keeps-bind _ _ (Keeps-call host.clock) λ v. Keeps-lift _

  pub Keeps-capability :
      (id : String) (w : TrustedRuntimeWorld) → Keeps AllBrief (capability_active host id w)
  unfolding capability_active
  Keeps-capability id w =
      Keeps-bind _ _ (Keeps-attempt _ (Keeps-call host.capability_document)) λ v. Keeps-lift _

  module _ ⦃h : Hashing⦄ where
    pub Keeps-world : Keeps AllBrief (observe_world host)
    unfolding observe_world
    Keeps-world = Keeps-bind _ _ (Keeps-call host.state_document) λ v. Keeps-lift _

    pub Keeps-session : (id : String) → Keeps AllBrief (observe_session host id)
    unfolding observe_session
    Keeps-session id = Keeps-bind _ _ (Keeps-call (host.session_document id)) λ v. Keeps-lift _

    Keeps-append_commit :
        (l : Lease) (w : TrustedRuntimeWorld) (s : TrustedExecutionSession) (n : ℕ)
        (outcome result : String) (reasons : List String)
        → Keeps AllBrief (append_commit l w s n outcome result reasons)
    unfolding append_commit
    Keeps-append_commit l w s n outcome result reasons =
        Keeps-bind _ _ (Keeps-lift _) λ d. Keeps-modify _ λ b p. p

    Keeps-settled :
        (l : Lease) (w : TrustedRuntimeWorld) (s : TrustedExecutionSession) (n : ℕ)
        (r : Result ExecutionObservation)
        → Keeps AllBrief (settle l w s n r)
    unfolding settle
    Keeps-settled l w s n (ok seen) =
        Keeps-then _ _ (Keeps-append_commit l w s n _ _ _) (Keeps-pure _)
    Keeps-settled l w s n (err e) =
        Keeps-then _ _ (Keeps-append_commit l w s n _ _ _) (Keeps-raise _)

    pub Keeps-commit_lease :
        (l : Lease) (n : ℕ) (executor : Executor W)
        → IsBrief l
        → Keeps AllBrief (commit_lease host l n executor)
    unfolding commit_lease
    Keeps-commit_lease l n executor brief = Keeps-bind _ _ Keeps-world λ w.
        Keeps-then _ _ (Keeps-raise_if _ _) (
          Keeps-then _ _ (Keeps-raise_if _ _) (
            Keeps-then _ _ (Keeps-raise_if _ _) (
              Keeps-bind _ _ (Keeps-session _) λ s. Keeps-then _ _ (Keeps-raise_if _ _) (
                Keeps-then _ _ (Keeps-raise_if _ _) (
                  Keeps-bind _ _ (Keeps-capability _ _) λ live.
                    Keeps-then _ _ (Keeps-raise_if _ _) (
                      Keeps-then _ _ (Keeps-burn l brief) (
                        Keeps-bind _ _ (Keeps-attempt _ (Keeps-run executor _))
                          λ r. Keeps-settled l w s n r)))))))
