-- ===== src/EffectCommit/Documents.antt =====
-- The documents that the providers give, and the documents of the broker's receipts, read back.
use liminal_osai.Prelude.{
  ℕ, pos, String, Bool, true, false, not, ◌&&◌, ◌||◌, List, [], ◌∷◌, ◌++◌, none, some, ◌==◌,
  nat_beq, if◌then◌else◌, Result, ok, err, raise_if, ◌>>=◌, ◌>>◌, concat, is_sha256,
}
use liminal_osai.Json.{
  Value, Items, Fields, bool, int, str, arr, obj, nil, fields, item, nat, object, get_field,
  get_or_null, is_text, has_exactly, is_end, is_flat, without,
}
use liminal_osai.Hashing.{Hashing, canonical_sha256}
use liminal_osai.EffectCommit.State.{
  effect_commit_error, authority, TrustedRuntimeWorld, TrustedExecutionSession,
}

-- `_sha`
unfoldable pub sha : Value → String → Result String
sha (str s) name =
    if is_sha256 s then ok s else err (effect_commit_error (concat ("invalid_" ∷ name ∷ [])))
sha _ name = err (effect_commit_error (concat ("invalid_" ∷ name ∷ [])))

-- a number that is not a boolean and not negative
unfoldable pub natural : Value → String → Result ℕ
natural (int (pos n)) code = ok n
natural _ code = err (effect_commit_error code)

-- `type(value) is bool`
unfoldable pub boolean : Value → String → Result Bool
boolean (bool b) code = ok b
boolean _ code = err (effect_commit_error code)

-- `raw.get(key, raw.get(other))`
abbrev pub get_either : String → String → Fields → Value
get_either key other raw = elim (get_field key raw) [ none ↦ get_or_null other raw | some v ↦ v ]

abbrev pub session_keys : List String
session_keys =
    "schema" ∷ "operation_id_sha256" ∷ "session_sha256" ∷ "host_binding_sha256" ∷ "active"
    ∷ "evidence_sha256" ∷ []

-- the document of a session without its evidence
abbrev pub session_body : String → String → String → Bool → List (String × Value)
session_body operation session host active =
    ("schema", str "liminal-trusted-execution-session-v0.1")
    ∷ ("operation_id_sha256", str operation)
    ∷ ("session_sha256", str session)
    ∷ ("host_binding_sha256", str host)
    ∷ ("active", bool active)
    ∷ []

abbrev is_authority : Value → Bool
is_authority (obj fs) = is_flat fs authority
is_authority _ = false

module _ ⦃h : Hashing⦄ where
  -- `TrustedRuntimeWorld.observe`, after the provider's answer
  unfoldable pub read_world : Fields → Result TrustedRuntimeWorld
  unfolding natural sha boolean
  read_world raw = do
    epoch ← natural (get_either "epoch" "runtime_epoch" raw) "invalid_runtime_epoch"
    state ← sha (get_either "state_sha256" "runtime_state_sha256" raw) "runtime_state_sha256"
    tainted ← boolean (get_either "tainted" "runtime_tainted" raw) "invalid_runtime_taint_state"
    let body = ("epoch", nat epoch) ∷ ("state_sha256", str state) ∷ ("tainted", bool tainted) ∷ []
    ok (record {
      epoch = epoch;
      state_sha256 = state;
      tainted = tainted;
      snapshot_sha256 = canonical_sha256 (object body);
    })

  -- `TrustedExecutionSession.observe`, after the provider's answer
  unfoldable pub read_session : Fields → String → String → Result TrustedExecutionSession
  unfolding sha boolean
  read_session raw operation_id expected_host = do
    raise_if
        (not (has_exactly raw session_keys)
          || not (is_text (get_or_null "schema" raw) "liminal-trusted-execution-session-v0.1"))
        (effect_commit_error "execution_session_schema_mismatch")
    operation ← sha (get_or_null "operation_id_sha256" raw) "operation_id_sha256"
    raise_if (not (operation == canonical_sha256 (str operation_id)))
        (effect_commit_error "execution_session_operation_mismatch")
    session ← sha (get_or_null "session_sha256" raw) "session_sha256"
    host ← sha (get_or_null "host_binding_sha256" raw) "host_binding_sha256"
    raise_if (not (host == expected_host)) (effect_commit_error "execution_session_host_mismatch")
    active ← boolean (get_or_null "active" raw) "execution_session_active_invalid"
    evidence ← sha (get_or_null "evidence_sha256" raw) "evidence_sha256"
    raise_if
        (not (evidence == canonical_sha256 (object (session_body operation session host active))))
        (effect_commit_error "execution_session_evidence_mismatch")
    ok (record {
      operation_id_sha256 = operation;
      session_sha256 = session;
      host_binding_sha256 = host;
      active = active;
      evidence_sha256 = evidence;
    })

  unfoldable pub build_session_document : String → String → String → Bool → Result Fields
  unfolding sha
  build_session_document operation_id session_sha host_sha active = do
    session ← sha (str session_sha) "session_sha256"
    host ← sha (str host_sha) "host_binding_sha256"
    let body = session_body (canonical_sha256 (str operation_id)) session_sha host_sha active
    ok (fields (body ++ ("evidence_sha256", str (canonical_sha256 (object body))) ∷ []))

  -- `verify_authorization_receipt` and `verify_commit_receipt`, which differ in the schema and the codes
  unfoldable pub verify_document : String → String → String → Fields → Result Fields
  verify_document schema schema_code digest_code document = do
    let raw = without "receipt_sha256" document
    raise_if
        (not (is_text (get_or_null "schema" raw) schema)
          || not (is_authority (get_or_null "authority" raw)))
        (effect_commit_error schema_code)
    raise_if (not (is_text (get_or_null "receipt_sha256" document) (canonical_sha256 (obj raw))))
        (effect_commit_error digest_code)
    ok document

  unfoldable pub verify_authorization_receipt : Fields → Result Fields
  unfolding verify_document
  verify_authorization_receipt document =
      verify_document "liminal-epoch-bound-effect-lease-v0.1" "lease_receipt_schema_mismatch"
        "lease_receipt_digest_mismatch" document

  unfoldable pub verify_commit_receipt : Fields → Result Fields
  unfolding verify_document
  verify_commit_receipt document =
      verify_document "liminal-epoch-bound-effect-commit-receipt-v0.1"
        "commit_receipt_schema_mismatch" "commit_receipt_digest_mismatch" document

-- `v == n`; Python's `True` and `False` are equal to 1 and 0
abbrev equals_nat : Value → ℕ → Bool
equals_nat (int (pos m)) n = nat_beq m n
equals_nat (bool true) n = nat_beq 1 n
equals_nat (bool false) n = nat_beq 0 n
equals_nat _ n = false

abbrev is_true : Value → Bool
is_true (bool b) = b
is_true _ = false

-- `for item in …`, over the value
unfoldable pub iterate : Value → Result Items
iterate (arr vs) = ok vs
iterate (str s) =
    if s == "" then ok nil else err (record { type_name = "AttributeError"; message = "get" })
iterate (obj fs) =
    if is_end fs then ok nil else err (record { type_name = "AttributeError"; message = "get" })
iterate _ = err (record { type_name = "TypeError"; message = "object is not iterable" })

-- the loop over the capabilities
unfoldable pub is_listed : String → TrustedRuntimeWorld → Items → Result Bool
is_listed id world nil = ok false
is_listed id world (item (obj fs) rest) =
    let later = is_listed id world rest in
    if not (is_text (get_or_null "capability_id" fs) id)
    then later
    else ok (
        is_text (get_or_null "status" fs) "active"
        && is_true (get_or_null "epoch_bound" fs)
        && equals_nat (get_or_null "runtime_epoch" fs) world.epoch
        && is_text (get_or_null "runtime_state_sha256" fs) world.state_sha256)
is_listed id world (item _ rest) = err (record { type_name = "AttributeError"; message = "get" })

-- `state.get("capabilities", [])`
abbrev pub capabilities_of : Fields → Value
capabilities_of state = elim (get_field "capabilities" state) [ none ↦ arr nil | some v ↦ v ]
