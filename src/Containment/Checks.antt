-- ===== src/Containment/Checks.antt =====
-- `_validated_phase3_receipt`, `_validate_quiescence_receipt`, `_require_sha`, `_validate_snapshot`.
use liminal_osai.Prelude.{
  pos, String, Bool, true, false, not, ◌&&◌, [], ◌∷◌, Option, none, some, if◌then◌else◌, zero,
  Result, ok, err, Done, raise_if, ◌>>=◌, ◌>>◌, concat, is_sha256, is_subset,
}
use liminal_osai.Json.{Value, Fields, int, str, get_field, keys, is_text, truthy, get_or_null}
use liminal_osai.Hashing.{Hashing}
use liminal_osai.ProcessTree.Receipt.{verify_receipt}
use liminal_osai.Containment.State.{containment_error, containment_blocked}
use liminal_osai.Containment.Lineage.{verify_lineage}

-- `_require_sha`, which gives the text back
unfoldable pub require_sha : Value → String → Result String
require_sha (str s) name =
    if is_sha256 s
    then ok s
    else err (containment_error (concat (name ∷ " must be lowercase SHA-256" ∷ [])))
require_sha _ name = err (containment_error (concat (name ∷ " must be lowercase SHA-256" ∷ [])))

unfoldable pub validated_phase3_receipt : Fields → Result String
validated_phase3_receipt value = do
  raise_if (not (is_text (get_or_null "decision" value) "CONTAIN"))
      (containment_blocked "Phase 4 requires decision=CONTAIN")
  require_sha (get_or_null "receipt_sha256" value) "phase3 receipt"

-- `d[k]`
unfoldable pub index : String → Fields → Result Value
index k fs = elim (get_field k fs) [
  | none ↦ err (record { type_name = "KeyError"; message = k })
  | some v ↦ ok v
]

-- a digest that a receipt was verified with
abbrev pub text_of : Value → String
text_of (str s) = s
text_of _ = ""

-- `v == 0`
abbrev pub is_zero_int : Value → Bool
is_zero_int (int (pos zero)) = true
is_zero_int _ = false

-- `verified["zero_survivors"] and verified["survivor_count"] == 0 and not verified["failure_codes"]`
unfoldable pub tree_complete : Fields → Result Bool
unfolding index
tree_complete verified = do
  claim ← index "zero_survivors" verified
  if not (truthy claim) then ok false else (do
    count ← index "survivor_count" verified
    if not (is_zero_int count)
        then ok false
        else (do codes ← index "failure_codes" verified; ok (not (truthy codes))))

module _ ⦃h : Hashing⦄ where
  unfoldable pub validate_quiescence_receipt : Fields → Result (String × Bool)
  validate_quiescence_receipt value =
      let schema = get_or_null "schema" value in
      if is_text schema "liminal-process-lineage-containment-receipt-v0.1"
      then (do
        verified ← verify_lineage value
        ok (
          text_of (get_or_null "receipt_sha256" verified),
          is_text (get_or_null "decision" verified) "ALLOW"
              && is_zero_int (get_or_null "surviving_count" verified),
        ))
      else if is_text schema "liminal-process-tree-containment-receipt-v0.1"
      then (do
        verified ← verify_receipt value
        complete ← tree_complete verified
        ok (text_of (get_or_null "receipt_sha256" verified), complete))
      else err (containment_error "unsupported runtime quiescence receipt profile")

-- `if key in value: _require_sha(value[key], key)`
unfoldable pub require_sha_at : String → Fields → Result Done
unfolding require_sha
require_sha_at k value = present (get_field k value)
  where
    present : Option Value → Result Done
    present none = ok tt
    present (some v) = do require_sha v k; ok tt

unfoldable pub validate_snapshot : Fields → Result Done
unfolding require_sha_at
validate_snapshot value = do
  raise_if
      (not (
        is_subset (keys value) (
          "trace_head_sha256" ∷ "broker_head_sha256" ∷ "event_count" ∷ "capability_count"
          ∷ "reason_codes" ∷ [])))
      (containment_error "snapshot contains unsupported/raw fields")
  require_sha_at "trace_head_sha256" value
  require_sha_at "broker_head_sha256" value
