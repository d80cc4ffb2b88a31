-- ===== src/Contracts/Capability.antt =====
-- `CapabilityContract`: `body`, `as_document`, `from_document` and `build`.
pub mod Delegable
use liminal_osai.Prelude.{
  ℕ, String, Bool, true, false, not, ◌&&◌, ◌||◌, List, [], ◌∷◌, ◌++◌, Option, none, some, ◌==◌,
  if◌then◌else◌, Exception, Result, ok, err, Done, raise_if, ◌>>=◌, ◌>>◌, leb, ltb, member,
}
use liminal_osai.Json.{
  Value, Fields, null, bool, int, str, arr, obj, nat, optional, object, fields, is_text,
  get_or_null,
}
use liminal_osai.Prelude.{ℤ, pos}
use liminal_osai.Hashing.{Hashing, canonical_sha256}
use liminal_osai.Contracts.Validators.{
  contract_error, mapping, string, identifier, sha, time, exact, authority, is_authority,
}
use liminal_osai.Contracts.Event.{optionally, is_none}
use liminal_osai.Contracts.Scope.{capability_types, validate_scope}

pub record CapabilityContract : Type 0 where
  pub capability_id : String
  pub capability_type : String
  pub subject_id : String
  pub issuer_id : String
  pub scope : Fields
  pub issued_at_unix : ℕ
  pub not_before_unix : ℕ
  pub expires_at_unix : ℕ
  pub max_uses : ℕ
  pub delegable : Bool
  pub parent_capability_id : Option String
  pub policy_sha256 : String
  pub contract_sha256 : String

unfoldable pub contract_body : CapabilityContract → List (String × Value)
contract_body c =
    ("schema", str "liminal-capability-contract-v0.1")
    ∷ ("capability_id", str c.capability_id)
    ∷ ("capability_type", str c.capability_type)
    ∷ ("subject_id", str c.subject_id)
    ∷ ("issuer_id", str c.issuer_id)
    ∷ ("scope", obj c.scope)
    ∷ ("issued_at_unix", nat c.issued_at_unix)
    ∷ ("not_before_unix", nat c.not_before_unix)
    ∷ ("expires_at_unix", nat c.expires_at_unix)
    ∷ ("max_uses", nat c.max_uses)
    ∷ ("delegable", bool c.delegable)
    ∷ ("parent_capability_id", optional c.parent_capability_id)
    ∷ ("policy_sha256", str c.policy_sha256)
    ∷ ("authority", object authority)
    ∷ []

unfoldable pub as_document : CapabilityContract → Fields
as_document c = fields (contract_body c ++ ("contract_sha256", str c.contract_sha256) ∷ [])

abbrev pub contract_keys : List String
contract_keys =
    "schema" ∷ "capability_id" ∷ "capability_type" ∷ "subject_id" ∷ "issuer_id" ∷ "scope"
    ∷ "issued_at_unix" ∷ "not_before_unix" ∷ "expires_at_unix" ∷ "max_uses" ∷ "delegable"
    ∷ "parent_capability_id" ∷ "policy_sha256" ∷ "authority" ∷ "contract_sha256" ∷ []

-- `_bool`
unfoldable pub boolean : Value → String → Result Bool
boolean (bool b) name = ok b
boolean _ name = err (contract_error (name ∷ " must be boolean" ∷ []))

-- `_int(value, "max_uses", minimum=1)` and the bound after it
unfoldable pub uses : Value → Result ℕ
uses (int (pos n)) =
    if ltb n 1
    then err (contract_error ("max_uses must be an integer >= 1" ∷ []))
    else if ltb 1000 n
    then err (contract_error ("max_uses exceeds Phase 0 bounded contract limit" ∷ []))
    else ok n
uses _ = err (contract_error ("max_uses must be an integer >= 1" ∷ []))

-- the fields of a contract, in the order in which `from_document` looks at them
unfoldable pub read_contract : Fields → Result CapabilityContract
unfolding boolean uses
read_contract raw = do
  capability_type ← string (get_or_null "capability_type" raw) "capability_type"
  raise_if (not (member capability_type capability_types))
      (contract_error ("unsupported capability_type" ∷ []))
  issued ← time (get_or_null "issued_at_unix" raw) "issued_at_unix"
  not_before ← time (get_or_null "not_before_unix" raw) "not_before_unix"
  expires ← time (get_or_null "expires_at_unix" raw) "expires_at_unix"
  raise_if (not (leb issued not_before && ltb not_before expires))
      (contract_error ("capability validity window is invalid" ∷ []))
  max_uses ← uses (get_or_null "max_uses" raw)
  delegable ← boolean (get_or_null "delegable" raw) "delegable"
  parent ← optionally identifier (get_or_null "parent_capability_id" raw) "parent_capability_id"
  raise_if (delegable && is_none parent)
      (contract_error ("delegable capabilities require explicit parent_capability_id" ∷ []))
  capability_id ← identifier (get_or_null "capability_id" raw) "capability_id"
  subject_id ← identifier (get_or_null "subject_id" raw) "subject_id"
  issuer_id ← identifier (get_or_null "issuer_id" raw) "issuer_id"
  scope ← validate_scope capability_type (get_or_null "scope" raw)
  policy ← sha (get_or_null "policy_sha256" raw) "policy_sha256"
  digest ← sha (get_or_null "contract_sha256" raw) "contract_sha256"
  ok (record {
    capability_id = capability_id;
    capability_type = capability_type;
    subject_id = subject_id;
    issuer_id = issuer_id;
    scope = scope;
    issued_at_unix = issued;
    not_before_unix = not_before;
    expires_at_unix = expires;
    max_uses = max_uses;
    delegable = delegable;
    parent_capability_id = parent;
    policy_sha256 = policy;
    contract_sha256 = digest;
  })

module _ ⦃h : Hashing⦄ where
  unfoldable pub from_document : Value → Result CapabilityContract
  from_document value = do
    raw ← mapping value "capability"
    exact raw contract_keys "capability"
    raise_if
        (not (is_text (get_or_null "schema" raw) "liminal-capability-contract-v0.1")
          || not (is_authority (get_or_null "authority" raw)))
        (contract_error ("capability schema or authority boundary mismatch" ∷ []))
    c ← read_contract raw
    raise_if (not (canonical_sha256 (object (contract_body c)) == c.contract_sha256))
        (contract_error ("capability contract_sha256 mismatch" ∷ []))
    ok c

  -- `build`, with the keyword arguments as entries
  unfoldable pub build : List (String × Value) → Result CapabilityContract
  build kwargs =
      let body =
        ("schema", str "liminal-capability-contract-v0.1") ∷ kwargs
        ++ ("authority", object authority) ∷ [] in
      from_document
        (object (body ++ ("contract_sha256", str (canonical_sha256 (object body))) ∷ []))
