-- ===== src/EffectCommit/Logged.antt =====
-- A world that logs the operations that executors are called on.
use liminal_osai.Prelude.{
  ℕ, suc, ◌≤◌, String, ◌≡◌, refl, ap, ◌∙◌, true, false, List, [], ◌∷◌, ◌++◌, some, Result,
  if◌then◌else◌, arith, ◌==◌, eq_iff, inl, inr, Bool-cases,
}
use liminal_osai.Mediation.Operation.{RuntimeOperation}
use liminal_osai.EffectCommit.State.{Lease, Host, Executor, find_lease, put_lease}
use liminal_osai.EffectCommit.Calls.{
  Call, issue_call, consume_call, effect_call, enter_call, exit_call,
}

-- the world with the log
abbrev pub LoggedWorld : Type 0 → Type 0
LoggedWorld W = W × List RuntimeOperation

module _ {W A : Type 0} where
  -- a callback that is not logged
  abbrev pub silent : (W → Result A × W) → LoggedWorld W → Result A × LoggedWorld W
  silent f w = ((f w.0).0, ((f w.0).1, w.1))

module _ {W : Type 0} where
  abbrev pub logged_host : Host W → Host (LoggedWorld W)
  logged_host host = record {
    state_document = silent host.state_document;
    session_document = λ id. silent (host.session_document id);
    capability_document = silent host.capability_document;
    clock = silent host.clock;
    token_sha256 = host.token_sha256;
    host_binding_sha256 = host.host_binding_sha256;
    adapter_token_sha256 = host.adapter_token_sha256;
    lease_ttl_seconds = host.lease_ttl_seconds;
  }

  abbrev pub logged_executor : Executor W → Executor (LoggedWorld W)
  logged_executor executor operation w =
      ((executor operation w.0).0, ((executor operation w.0).1, w.1 ++ operation ∷ []))

  abbrev pub logged_call : Call W → Call (LoggedWorld W)
  logged_call (issue_call operation capability) = issue_call operation capability
  logged_call (consume_call id token executor) = consume_call id token (logged_executor executor)
  logged_call (effect_call operation capability executor) =
      effect_call operation capability (logged_executor executor)
  logged_call (enter_call receipt) = enter_call receipt
  logged_call (exit_call receipt) = exit_call receipt

-- how many leases are not consumed
abbrev pub unused : List Lease → ℕ
unused [] = 0
unused (l ∷ ls) = let rest = unused ls in if l.consumed then rest else suc rest

pub put-unused : (l : Lease) (ls : List Lease) → unused (put_lease l ls) ≤ suc (unused ls)
put-unused l [] = ground arith
put-unused l (m ∷ ms) = ground (arith, put-unused l ms)

pub find_lease-id :
    (id : String) (ls : List Lease) (l : Lease) → find_lease id ls ≡ some l → l.lease_id ≡ id
find_lease-id id [] l found = absurd cc
find_lease-id id (m ∷ ms) l found = ground (arith, eq_iff m.lease_id id, find_lease-id id ms l)

abbrev pub burned : Lease → Lease
burned l = record l { consumed = true }

pub burn-unused :
    (ls : List Lease) (l : Lease)
    → find_lease l.lease_id ls ≡ some l
    → l.consumed ≡ false
    → suc (unused (put_lease (burned l) ls)) ≡ unused ls
burn-unused [] l found fresh = absurd cc
burn-unused (m ∷ ms) l found fresh = elim (Bool-cases (m.lease_id == l.lease_id)) [
  | inl e ↦
      let same : m ≡ l = ground arith in
      let unburned : m.consumed ≡ false = ap (λ x. x.consumed) same ∙ fresh in
      rw e (rw unburned refl)
  | inr e ↦ let rest = burn-unused ms l (ground arith) fresh in rw e (ground arith)
]
