-- ===== src/Containment/Review.antt =====
-- `contain` always ends in REVIEW, whatever fails on the way.
use liminal_osai.Prelude.{
  raise_if, ◌>>◌, IsOk, ℤ, String, ◌≡◌, refl, Bool, true, false, not, List, [], ◌∷◌, Option, none,
  some, ◌==◌, Bool-cases, Exception, Result, ok, err, Done, is_sha256, inl, inr, arith,
}
use liminal_osai.Json.{Value, Fields, str, get_or_null, is_text, obj}
use liminal_osai.Hashing.{Hashing, canonical_sha256, zero_sha256}
use liminal_osai.Exec
use liminal_osai.Exec.{pure, lift, get, modify, attempt, continue, ◌>>=◌}
use liminal_osai.Containment.State.{
  Stage, idle, detect, freeze, revoke, seal, snapshot, review, Environment, Coordinator,
  CapabilityView, IncidentReceipt, create,
}
use liminal_osai.Containment.Checks.{require_sha, validated_phase3_receipt, validate_snapshot}
use liminal_osai.Containment.Stages.{
  call, revoke_each, quiesce, or_zero, seal_stage, snapshot_stage, snapshot_digest, digest_after,
}
use liminal_osai.Containment.Coordinator.{contain_stages, contain}
use liminal_osai.Containment.Leads.{
  Good, Leads, Any, Leads-pure, Leads-get_bind, Leads-modify_then, Leads-attempt, Leads-bind,
  Leads-then, Leads-step,
}

pub require_sha_is_sha :
    (v : Value) (name : String) {s : String} → require_sha v name ≡ ok s → is_sha256 s ≡ true
unfolding require_sha
require_sha_is_sha (str t) name h = ground arith
require_sha_is_sha (Value.null) name h = cc
require_sha_is_sha (Value.bool b) name h = cc
require_sha_is_sha (Value.int n) name h = cc
require_sha_is_sha (Value.arr vs) name h = cc
require_sha_is_sha (Value.obj fs) name h = cc

guarded_ok :
    {A : Type 0} (c : Bool) (e : Exception) (rest : Result A) {a : A}
    → (raise_if c e >> rest) ≡ ok a
    → rest ≡ ok a
guarded_ok false e rest h = h
guarded_ok true e rest h = cc

validated_is_sha :
    (r : Fields) {s : String} → validated_phase3_receipt r ≡ ok s → is_sha256 s ≡ true
unfolding validated_phase3_receipt
validated_is_sha r h =
    require_sha_is_sha (get_or_null "receipt_sha256" r) "phase3 receipt"
      (guarded_ok (not (is_text (get_or_null "decision" r) "CONTAIN")) _ _ h)

module _ {W A B : Type 0} (g : A → Result B) where
  checked_state :
      (r : Result A) (d : Coordinator W) → (continue r (λ a. lift (g a)) d).1.state ≡ d.state
  checked_state (ok a) d = refl
  checked_state (err e) d = refl

  -- a callback and a check of what it returned leave the stage as it was
  callback_stage :
      (f : W → Result A × W) (c : Coordinator W)
      → ((call f >>= λ a. lift (g a)) c).1.state ≡ c.state
  unfolding ◌>>=◌
  callback_stage f c = let (r, w) = f c.world in checked_state r (record c { world = w })

  module _ (R : Result B → Type 0) where
    checked_value :
        ((a : A) → R (g a))
        → ((e : Exception) → R (err e))
        → (r : Result A) (d : Coordinator W) → R (continue r (λ a. lift (g a)) d).0
    checked_value of_value of_error (ok a) d = of_value a
    checked_value of_value of_error (err e) d = of_error e

    callback_value :
        (f : W → Result A × W) (c : Coordinator W)
        → ((a : A) → R (g a))
        → ((e : Exception) → R (err e))
        → R ((call f >>= λ a. lift (g a)) c).0
    unfolding ◌>>=◌
    callback_value f c of_value of_error =
        let (r, w) = f c.world in checked_value of_value of_error r (record c { world = w })

zero_is_sha : is_sha256 zero_sha256 ≡ true
unfolding is_sha256
zero_is_sha = refl

module _ {W : Type 0} ⦃h : Hashing⦄ (env : Environment W) where
  Leads-revoke_each :
      (x : Stage) (at : ℤ) (caps : List CapabilityView) → Leads x x Any (revoke_each env at caps)
  unfolding revoke_each
  Leads-revoke_each x at [] = Leads-pure _ tt
  Leads-revoke_each x at (cap ∷ caps) = elim (Bool-cases (cap.status == "active")) [
    | inl live ↦ rw live (
        Leads-bind _ _ (Leads-attempt {R = Any} _ (λ c. refl) (λ c. tt))
          λ r q. Leads-bind _ _ (Leads-revoke_each x at caps) λ rest q'. Leads-pure _ tt)
    | inr other ↦ rw other (Leads-revoke_each x at caps)
  ]

  quiet-Leads :
      (x : Stage) (callback : Option (W → Result Fields × W)) → Leads x x Any (quiesce env callback)
  unfolding quiesce
  quiet-Leads x none = Leads-pure _ tt
  quiet-Leads x (some callback) =
      Leads-bind _ _ (Leads-attempt {R = Any} _ (callback_stage _ callback) (λ c. tt))
        λ r q. Leads-pure _ tt

  -- a digest, or no value
  abbrev Digest : Result String → Type 0
  Digest r = is_sha256 (or_zero env r) ≡ true

  seal-Leads : (x : Stage) → Leads x x Any (seal_stage env)
  unfolding seal_stage
  seal-Leads x = Leads-attempt {R = Any} _ (callback_stage _ env.seal_trace) (λ c. tt)

  snapshot-Leads :
      (x : Stage)
      → ((v : Value) → is_sha256 (canonical_sha256 v) ≡ true)
      → Leads x x Digest (snapshot_stage env)
  unfolding snapshot_stage snapshot_digest
  snapshot-Leads x sha = Leads-attempt {R = Digest} _ (callback_stage _ env.snapshot_forensics) λ c.
      callback_value (snapshot_digest env) Digest env.snapshot_forensics c
        (λ taken. digest_ok (validate_snapshot taken) taken) (λ e. zero_is_sha)
    where
      digest_ok : (v : Result Done) (taken : Fields) → Digest (digest_after env v taken)
      digest_ok (ok valid) taken = sha (obj taken)
      digest_ok (err e) taken = zero_is_sha

  stages-Leads :
      (phase3 incident : String) (at : ℤ)
      → ((v : Value) → is_sha256 (canonical_sha256 v) ≡ true)
      → is_sha256 phase3 ≡ true
      → Leads idle review Any (contain_stages env phase3 incident at)
  unfolding contain_stages
  stages-Leads phase3 incident at sha p = Leads-then _ _ (Leads-step idle detect at phase3 refl p) (
      Leads-bind _ _ (Leads-attempt {R = Any} _ (λ c. refl) (λ c. tt)) λ frozen _.
        Leads-bind _ _ (Leads-attempt {R = Any} _ (λ c. refl) (λ c. tt)) λ closed _.
          Leads-then _ _ (Leads-step detect freeze at _ refl (sha _)) (
            Leads-get_bind _ λ c _. Leads-bind _ _ (Leads-revoke_each freeze at _) λ revocation _.
              Leads-then _ _ (Leads-step freeze revoke at _ refl (sha _)) (
                Leads-bind _ _ (quiet-Leads revoke env.quiesce_runtime) λ quiet _.
                  Leads-bind _ _ (seal-Leads revoke) λ sealed _.
                    Leads-then _ _ (Leads-step revoke seal at _ refl (sha _)) (
                      Leads-bind _ _ (snapshot-Leads seal sha) λ taken digest.
                        Leads-then _ _ (Leads-step seal snapshot at _ refl digest) (
                          Leads-then _ _ (Leads-step snapshot review at _ refl (sha _)) (
                            Leads-get_bind _
                              λ d _. Leads-modify_then _ _ (λ e. refl) (Leads-pure _ tt)))))))

  -- Where every digest is 64 lowercase hexadecimal characters, and the receipt of phase 3 is valid
  -- and decides CONTAIN, `contain` on a new coordinator returns an incident receipt and ends in
  -- REVIEW, whatever the callbacks and the broker return or raise.
  pub contain_reviews :
      (w : W) (receipt : Fields) (phase3 incident : String) (at : ℤ)
      → ((v : Value) → is_sha256 (canonical_sha256 v) ≡ true)
      → validated_phase3_receipt receipt ≡ ok phase3
      → IsOk (contain env receipt incident at (create w)).0
        × ((contain env receipt incident at (create w)).1.state ≡ review)
  unfolding contain ◌>>=◌ Exec.◌>>◌
  contain_reviews w receipt phase3 incident at sha valid = rw valid (
      good _ _
        ((stages-Leads phase3 incident at sha (validated_is_sha receipt valid)).at (create w) refl))
    where
      good :
          (r : Result IncidentReceipt) (c : Coordinator W)
          → Good review Any r c
          → IsOk r × (c.state ≡ review)
      good (ok a) c (_, e) = (tt, e)
      good (err x) c bad = absurd bad
