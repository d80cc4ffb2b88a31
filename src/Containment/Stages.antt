-- ===== src/Containment/Stages.antt =====
-- `_step`, and the parts of `contain`: what is revoked, and each callback under its `try`.
use liminal_osai.Prelude.{
  ℤ, String, Bool, true, false, List, [], ◌∷◌, ◌++◌, Option, none, some, ◌==◌, if◌then◌else◌,
  Result, ok, err, Done, Exec, concat,
}
use liminal_osai.Json.{Fields, str, obj, object}
use liminal_osai.Hashing.{Hashing, canonical_sha256, zero_sha256}
use liminal_osai.Exec.{pure, lift, get, modify, attempt, ◌>>=◌, ◌>>◌}
use liminal_osai.Containment.State.{
  Stage, stage_name, next_stage, containment_blocked, Transition, transition_body, Environment,
  Coordinator, chain_head, CapabilityView,
}
use liminal_osai.Containment.Checks.{require_sha, validate_quiescence_receipt, validate_snapshot}

module _ {W A : Type 0} where
  -- a callback, called from a method
  abbrev pub call : (W → Result A × W) → Exec (Coordinator W) A
  call f c = let (r, w) = f c.world in (r, record c { world = w })

-- `target == expected`; past the last state, the index is out of range
abbrev pub expect : Option Stage → Stage → Stage → Result Done
expect none current target =
    err (record { type_name = "IndexError"; message = "tuple index out of range" })
expect (some expected) current target =
    if stage_name target == stage_name expected
    then ok tt
    else err (
        containment_blocked (
          concat (
            "invalid containment transition "
            ∷ stage_name current
            ∷ "->"
            ∷ stage_name target
            ∷ [])))

module _ {W : Type 0} ⦃h : Hashing⦄ where
  -- the transition that `_step` appends
  unfoldable pub new_transition : Coordinator W → Stage → ℤ → String → Transition
  new_transition c target at evidence =
      let body : Transition = record {
        source = c.state;
        target = target;
        at_unix = at;
        evidence_sha256 = evidence;
        previous_transition_sha256 = chain_head c.transitions;
        transition_sha256 = "";
      } in
      record body { transition_sha256 = canonical_sha256 (object (transition_body body)) }

  unfoldable pub step : Stage → ℤ → String → Exec (Coordinator W) Done
  step target at evidence = do
    c ← get
    lift (expect (next_stage c.state) c.state target)
    lift (require_sha (str evidence) "transition evidence")
    modify (λ d. record d {
      transitions = d.transitions ++ new_transition d target at evidence ∷ [];
      state = target;
    })

-- `failures.append(f"{kind}:{type(exc).__name__}")`, where a `try` caught an exception
abbrev pub failure : {A : Type 0} → String → Result A → List String
failure kind (ok a) = []
failure kind (err e) = concat (kind ∷ ":" ∷ e.type_name ∷ []) ∷ []

-- the ids that were revoked and the failures, in the order of the capabilities
pub record Revocation : Type 0 where
  pub revoked : List String
  pub failures : List String

abbrev pub no_revocation : Revocation
no_revocation = record { revoked = []; failures = [] }

-- what one call of `revoke` adds
unfoldable pub add_revocation : String → Result String → Revocation → Revocation
add_revocation id (ok decision) rest =
    if decision == "ALLOW"
    then record rest { revoked = id ∷ rest.revoked }
    else record rest { failures = concat ("revoke_blocked:" ∷ id ∷ []) ∷ rest.failures }
add_revocation id (err e) rest = record rest {
  failures = concat ("revoke:" ∷ id ∷ ":" ∷ e.type_name ∷ []) ∷ rest.failures;
}

module _ {W : Type 0} (env : Environment W) where
  -- the loop over the capabilities of the broker's document
  unfoldable pub revoke_each : ℤ → List CapabilityView → Exec (Coordinator W) Revocation
  revoke_each at [] = pure no_revocation
  revoke_each at (cap ∷ caps) =
      let skip = revoke_each at caps in
      if cap.status == "active"
      then (do
        r ← attempt (call (env.revoke_capability cap.capability_id at))
        rest ← skip
        pure (add_revocation cap.capability_id r rest))
      else skip

  module _ ⦃h : Hashing⦄ where
    -- the digest of the quiescence receipt and the failures of the `try`
    unfoldable pub quiescence_of : Result (String × Bool) → String × List String
    quiescence_of (ok (sha, true)) = (sha, [])
    quiescence_of (ok (sha, false)) = (sha, "runtime_quiescence_incomplete" ∷ [])
    quiescence_of (err e) = (zero_sha256, failure {A = Done} "runtime_quiescence" (err e))

    unfoldable pub quiesce :
        Option (W → Result Fields × W) → Exec (Coordinator W) (String × List String)
    quiesce none = pure (canonical_sha256 (object (("mode", str "not_configured") ∷ [])), [])
    quiesce (some callback) = do
      r ← attempt (do receipt ← call callback; lift (validate_quiescence_receipt receipt))
      pure (quiescence_of r)

    abbrev pub or_zero : Result String → String
    or_zero (ok sha) = sha
    or_zero (err e) = zero_sha256

    unfoldable pub seal_stage : Exec (Coordinator W) (Result String)
    seal_stage = attempt (do sealed ← call env.seal_trace; lift (require_sha sealed "sealed trace"))

    abbrev pub digest_after : Result Done → Fields → Result String
    digest_after (ok valid) taken = ok (canonical_sha256 (obj taken))
    digest_after (err e) taken = err e

    -- the digest of a snapshot that is valid
    unfoldable pub snapshot_digest : Fields → Result String
    snapshot_digest taken = digest_after (validate_snapshot taken) taken

    unfoldable pub snapshot_stage : Exec (Coordinator W) (Result String)
    snapshot_stage = attempt (do taken ← call env.snapshot_forensics; lift (snapshot_digest taken))
