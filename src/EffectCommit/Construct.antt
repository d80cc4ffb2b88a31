-- ===== src/EffectCommit/Construct.antt =====
-- The constructor's checks, and the broker's own report of its state.
use liminal_osai.Prelude.{
  Bool, true, false, String, ◌≤◌, ◌≡◌, refl, Exception, err, arith, ℕ, suc, ◌||◌, List, [], ◌∷◌,
  ◌++◌, ltb, if◌then◌else◌, Result, ok, raise_if, ◌>>=◌, ◌>>◌, length, map,
}
use liminal_osai.Json.{Fields, bool, str, nat, object, fields}
use liminal_osai.Hashing.{Hashing, canonical_sha256}
use liminal_osai.EffectCommit.State.{
  effect_commit_error, authority, authorization_document, commit_document, Lease, Host,
  EffectBroker, create,
}
use liminal_osai.EffectCommit.Documents.{sha}

-- `MAX_LEASE_TTL_SECONDS`
abbrev pub max_lease_ttl_seconds : ℕ
max_lease_ttl_seconds = 30

-- the number of leases that are consumed
abbrev pub consumed_count : List Lease → ℕ
consumed_count [] = 0
consumed_count (l ∷ ls) = let rest = consumed_count ls in if l.consumed then suc rest else rest

module _ {W : Type 0} where
  unfoldable pub construct : Host W → W → Result (EffectBroker W)
  unfolding sha
  construct host w = do
    host_binding ← sha (str host.host_binding_sha256) "host_binding_sha256"
    adapter_token ← sha (str host.adapter_token_sha256) "adapter_token_sha256"
    raise_if (ltb host.lease_ttl_seconds 1 || ltb max_lease_ttl_seconds host.lease_ttl_seconds)
        (effect_commit_error "invalid_lease_ttl_seconds")
    ok (create w)

  unfoldable pub authorization_receipts : EffectBroker W → List Fields
  authorization_receipts b = map authorization_document b.authorizations

  unfoldable pub commit_receipts : EffectBroker W → List Fields
  commit_receipts b = map commit_document b.commits

  unfoldable pub state_document : ⦃h : Hashing⦄ → EffectBroker W → Fields
  state_document b =
      let body =
        ("schema", str "liminal-effect-commit-state-v0.1")
        ∷ ("lease_count", nat (length b.leases))
        ∷ ("consumed_count", nat (consumed_count b.leases))
        ∷ ("contained", bool b.contained)
        ∷ ("authorization_count", nat (length b.authorizations))
        ∷ ("commit_count", nat (length b.commits))
        ∷ ("authority", object authority)
        ∷ [] in
      fields (body ++ ("state_sha256", str (canonical_sha256 (object body))) ∷ [])

three_checks :
    {A : Type 0} (p q : Result String) (c : Bool) (e : Exception) (a b : A)
    → (p >>= λ x. q >>= λ y. raise_if c e >> ok a) ≡ ok b
    → (c ≡ false) × (a ≡ b)
three_checks (ok x) (ok y) false e a b h = (refl, (let same : ok a ≡ ok b = h in cc))
three_checks (ok x) (ok y) true e a b h = absurd cc
three_checks (ok x) (err f) c e a b h = absurd cc
three_checks (err f) q c e a b h = absurd cc

-- What the constructor gives is new, and its leases are from 1 to 30 seconds long.
pub construct-ok :
    {W : Type 0} (host : Host W) (w : W) (b : EffectBroker W)
    → construct host w ≡ ok b
    → (create w ≡ b)
      × (1 ≤ host.lease_ttl_seconds)
      × (host.lease_ttl_seconds ≤ max_lease_ttl_seconds)
unfolding construct
construct-ok host w b h =
    let (within, same) =
      three_checks (sha (str host.host_binding_sha256) "host_binding_sha256")
        (sha (str host.adapter_token_sha256) "adapter_token_sha256")
        (ltb host.lease_ttl_seconds 1 || ltb max_lease_ttl_seconds host.lease_ttl_seconds) _ _ b
        h in
    (same, ground arith, ground arith)
