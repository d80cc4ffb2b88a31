-- ===== src/EffectCommit/Effects.antt =====
-- The invariant: each effect has used up a lease and has a receipt.
use liminal_osai.Prelude.{suc, ◌+◌, ◌≤◌, String, ◌≡◌, List, some, Result, length}
use liminal_osai.Hashing.{Hashing}
use liminal_osai.Exec.Keeps.{Keeps, Keeps-bind, Keeps-lift, Keeps-attempt}
use liminal_osai.Mediation.Operation.{RuntimeOperation}
use liminal_osai.Json.{Fields}
use liminal_osai.EffectCommit.Issue.{read_decision}
use liminal_osai.Exec.Keeps.{Keeps-raise_if, Keeps-then, Keeps-pure}
use liminal_osai.EffectCommit.State.{
  TrustedRuntimeWorld, Lease, Host, EffectBroker, EffectCommitReceipt,
  EffectCommitAuthorizationReceipt, find_lease, call,
}
use liminal_osai.EffectCommit.Observe.{now, capability_active, observe_world, observe_session}
use liminal_osai.EffectCommit.Logged.{LoggedWorld, silent, logged_host, unused}

-- a relation of the log, the leases, the authorizations and the commits
abbrev pub Relation : Type 1
Relation =
    List RuntimeOperation
    → List Lease
    → List EffectCommitAuthorizationReceipt
    → List EffectCommitReceipt
    → Type 0

abbrev pub Having : {W : Type 0} → Relation → EffectBroker (LoggedWorld W) → Type 0
Having R b = R b.world.1 b.leases b.authorizations b.commits

-- each effect has used up a lease, and has a receipt
pub record Counted (log : List RuntimeOperation) (leases : List Lease)
    (authorizations : List EffectCommitAuthorizationReceipt) (commits : List EffectCommitReceipt)
    : Type 0 where
  pub bounded : length log + unused leases ≤ length authorizations
  pub recorded : length commits ≡ length log

-- a lease that may be used
abbrev pub Usable : Lease → Relation
Usable lease log leases authorizations commits =
    Counted log leases authorizations commits × (find_lease lease.lease_id leases ≡ some lease)

-- an effect is on the way: its lease is burned
pub record Owed (log : List RuntimeOperation) (leases : List Lease)
    (authorizations : List EffectCommitAuthorizationReceipt) (commits : List EffectCommitReceipt)
    : Type 0 where
  pub bounded : length log + unused leases ≤ length authorizations
  pub recorded : suc (length commits) ≡ length log

module _ {W : Type 0} (R : Relation) where
  pub Keeps-silent :
      {A : Type 0} (f : W → Result A × W)
      → Keeps {S = EffectBroker (LoggedWorld W)} (Having R) (call (silent f))
  Keeps-silent f = record { at = λ b p. p }

  module _ (host : Host W) where
    pub Keeps-now : Keeps (Having R) (now (logged_host host))
    unfolding now
    Keeps-now = Keeps-bind _ _ (Keeps-silent host.clock) λ v. Keeps-lift _

    pub Keeps-capability_active :
        (id : String) (world : TrustedRuntimeWorld)
        → Keeps (Having R) (capability_active (logged_host host) id world)
    unfolding capability_active
    Keeps-capability_active id world =
        Keeps-bind _ _ (Keeps-attempt _ (Keeps-silent host.capability_document)) λ v. Keeps-lift _

    module _ ⦃h : Hashing⦄ where
      pub Keeps-observe_world : Keeps (Having R) (observe_world (logged_host host))
      unfolding observe_world
      Keeps-observe_world = Keeps-bind _ _ (Keeps-silent host.state_document) λ v. Keeps-lift _

      pub Keeps-observe_session :
          (id : String) → Keeps (Having R) (observe_session (logged_host host) id)
      unfolding observe_session
      Keeps-observe_session id =
          Keeps-bind _ _ (Keeps-silent (host.session_document id)) λ v. Keeps-lift _

pub Keeps-read_decision :
    {S : Type 0} {P : S → Type 0} (capability : Fields) → Keeps P (read_decision capability)
unfolding read_decision
Keeps-read_decision capability = Keeps-then _ _ (Keeps-raise_if _ _) (
    Keeps-bind _ _ (Keeps-lift _) λ id. Keeps-bind _ _ (Keeps-lift _) λ receipt.
      Keeps-bind _ _ (Keeps-lift _) λ bound. Keeps-then _ _ (Keeps-raise_if _ _) (Keeps-pure _))
