-- ===== src/Contracts/Capability/Delegable.antt =====
-- What `from_document` has checked of a contract that may be delegated.
use liminal_osai.Prelude.{
  ◌≡◌, refl, subst, Bool, true, false, ◌&&◌, not, leb, ltb, member, [], ◌∷◌, ◌==◌, Exception,
  Result, ok, err, raise_if, ◌>>=◌, ◌>>◌,
}
use liminal_osai.Json.{Value, Fields, object, get_or_null}
use liminal_osai.Hashing.{Hashing, canonical_sha256}
use liminal_osai.Contracts.Validators.{
  mapping, exact, contract_error, string, time, identifier, sha,
}
use liminal_osai.Contracts.Event.{is_none, optionally}
use liminal_osai.Contracts.Capability.{
  CapabilityContract, contract_body, contract_keys, uses, boolean, read_contract, from_document,
}
use liminal_osai.Contracts.Scope.{capability_types, validate_scope}

-- What holds of the result, if there is one.
record Ensures {A : Type 0} (Q : A → Type 0) (m : Result A) : Type 0 where
  holds : (a : A) → m ≡ ok a → Q a

module _ {A B : Type 0} {Q : B → Type 0} where
  Ensures-bind :
      (m : Result A) (next : A → Result B) → ((a : A) → Ensures Q (next a)) → Ensures Q (m >>= next)
  Ensures-bind (ok a) next f = f a
  Ensures-bind (err e) next f = record { holds = λ a h. absurd cc }

module _ {B : Type 0} {Q : B → Type 0} where
  Ensures-guard :
      (c : Bool) (e : Exception) (next : Result B)
      → (c ≡ false → Ensures Q next)
      → Ensures Q (raise_if c e >> next)
  Ensures-guard false e next f = f refl
  Ensures-guard true e next f = record { holds = λ a h. absurd cc }

ok_keeps : {A : Type 0} (Q : A → Type 0) (a b : A) → ok a ≡ ok b → Q a → Q b
ok_keeps Q a b e q = let same : a ≡ b = cc in subst Q same q

abbrev HasParentIfDelegable : CapabilityContract → Type 0
HasParentIfDelegable c = (c.delegable && is_none c.parent_capability_id) ≡ false

read_contract-delegable : (raw : Fields) → Ensures HasParentIfDelegable (read_contract raw)
unfolding read_contract
read_contract-delegable raw =
    Ensures-bind (string (get_or_null "capability_type" raw) "capability_type") _ λ t.
      Ensures-guard (not (member t capability_types)) _ _ λ known.
        Ensures-bind (time (get_or_null "issued_at_unix" raw) "issued_at_unix") _ λ i.
          Ensures-bind (time (get_or_null "not_before_unix" raw) "not_before_unix") _ λ n.
            Ensures-bind (time (get_or_null "expires_at_unix" raw) "expires_at_unix") _ λ e.
              Ensures-guard (not (leb i n && ltb n e)) _ _ λ window.
                Ensures-bind (uses (get_or_null "max_uses" raw)) _ λ u.
                  Ensures-bind (boolean (get_or_null "delegable" raw) "delegable") _ λ d.
                    Ensures-bind
                      (optionally identifier (get_or_null "parent_capability_id" raw)
                        "parent_capability_id")
                      _
                      λ p. Ensures-guard (d && is_none p) _ _ λ rule.
                        Ensures-bind (identifier (get_or_null "capability_id" raw) "capability_id")
                          _
                          λ c.
                            Ensures-bind (identifier (get_or_null "subject_id" raw) "subject_id") _
                              λ s.
                                Ensures-bind (identifier (get_or_null "issuer_id" raw) "issuer_id")
                                  _
                                  λ j.
                                    Ensures-bind (validate_scope t (get_or_null "scope" raw)) _
                                      λ scope.
                                        Ensures-bind
                                          (sha (get_or_null "policy_sha256" raw) "policy_sha256") _
                                          λ q.
                                            Ensures-bind
                                              (sha (get_or_null "contract_sha256" raw)
                                                "contract_sha256")
                                              _
                                              λ z. record {
                                                holds = λ a made.
                                                    ok_keeps HasParentIfDelegable _ a made rule;
                                              }

from_document-Ensures : ⦃h : Hashing⦄ (v : Value) → Ensures HasParentIfDelegable (from_document v)
unfolding from_document
from_document-Ensures v = Ensures-bind (mapping v "capability") _ λ raw.
    Ensures-bind (exact raw contract_keys "capability") _ λ d.
      Ensures-guard _ _ _ λ boundary. after_read (read_contract raw) (read_contract-delegable raw)
  where
    after_read :
        (m : Result CapabilityContract)
        → Ensures HasParentIfDelegable m
        → Ensures HasParentIfDelegable (
            m >>= λ c.
            raise_if
              (not (canonical_sha256 (object (contract_body c)) == c.contract_sha256))
              (contract_error ("capability contract_sha256 mismatch" ∷ []))
            >> ok c)
    after_read (ok c) known = Ensures-guard _ _ _ λ same. record {
      holds = λ a made. ok_keeps HasParentIfDelegable c a made (known.holds c refl);
    }
    after_read (err e) known = record { holds = λ a made. absurd cc }

pub from_document-delegable :
    ⦃h : Hashing⦄ (v : Value) (c : CapabilityContract)
    → from_document v ≡ ok c
    → (c.delegable && is_none c.parent_capability_id) ≡ false
from_document-delegable v c read = (from_document-Ensures v).holds c read
