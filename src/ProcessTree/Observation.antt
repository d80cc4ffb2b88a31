-- ===== src/ProcessTree/Observation.antt =====
-- `ProcessTreeObservation`: what the host reports of a session, validated.
use liminal_osai.Prelude.{
  ℕ, pos, String, Bool, not, ◌&&◌, ◌||◌, List, [], ◌∷◌, none, some, ltb, nat_beq, ◌==◌,
  if◌then◌else◌, Exception, Result, ok, err, Done, raise_if, ◌>>=◌, ◌>>◌, concat, is_blank, has_nul,
  is_sha256, str_len,
}
use liminal_osai.Json.{Value, Fields, null, bool, int, str, nat, get_field, has_exactly}
use liminal_osai.Hashing.{Hashing, canonical_sha256, zero_sha256}

abbrev pub process_tree_error : String → Exception
process_tree_error m = record { type_name = "ProcessTreeError"; message = m }

-- `_validate_id`, for a text
unfoldable pub validate_id : String → String → Result Done
validate_id value name =
    raise_if (is_blank value || has_nul value || ltb 256 (str_len value))
      (process_tree_error (concat (name ∷ " must be a bounded non-empty string" ∷ [])))

-- `_require_sha`, for a text
unfoldable pub require_sha : String → String → Result Done
require_sha value name =
    raise_if (not (is_sha256 value))
      (process_tree_error (concat (name ∷ " must be lowercase SHA-256" ∷ [])))

-- `_require_sha`, for any value of a document
unfoldable pub require_sha_value : Value → String → Result String
unfolding require_sha
require_sha_value (str s) name = do require_sha s name; ok s
require_sha_value _ name =
    err (process_tree_error (concat (name ∷ " must be lowercase SHA-256" ∷ [])))

pub record ProcessTreeObservation : Type 0 where
  pub session_id : String
  pub exists : Bool
  pub running : Bool
  pub descendant_count : ℕ
  pub tree_sha256 : String

-- the bounds on `descendant_count`
unfoldable pub descendants_of : Value → Result ℕ
descendants_of (int (pos n)) =
    if ltb 4096 n then err (process_tree_error "descendant_count is outside bounds") else ok n
descendants_of _ = err (process_tree_error "descendant_count is outside bounds")

-- `value[k]`, for a key that is there
abbrev at_key : String → Fields → Value
at_key k fs = elim (get_field k fs) [ none ↦ null | some v ↦ v ]

-- `from_mapping`, after the keys are checked
unfoldable pub observe : String → Value → Value → Value → Value → Result ProcessTreeObservation
unfolding descendants_of require_sha_value
observe id (bool exists) (bool running) descendants tree_sha = do
  raise_if (running && not exists) (process_tree_error "running session must exist")
  count ← descendants_of descendants
  sha ← require_sha_value tree_sha "tree_sha256"
  raise_if (not exists && (running || not (nat_beq count 0) || not (sha == zero_sha256)))
      (process_tree_error "absent session must have zero survivor evidence")
  ok (record {
    session_id = id;
    exists = exists;
    running = running;
    descendant_count = count;
    tree_sha256 = sha;
  })
observe id _ _ descendants tree_sha =
    err (process_tree_error "process observation booleans are invalid")

unfoldable pub from_mapping : String → Fields → Result ProcessTreeObservation
unfolding validate_id observe
from_mapping id value = do
  validate_id id "session_id"
  raise_if
      (not (has_exactly value ("exists" ∷ "running" ∷ "descendant_count" ∷ "tree_sha256" ∷ [])))
      (process_tree_error "process observation schema mismatch")
  observe id (at_key "exists" value) (at_key "running" value) (at_key "descendant_count" value)
      (at_key "tree_sha256" value)

unfoldable pub safe_body : ⦃h : Hashing⦄ → ProcessTreeObservation → List (String × Value)
safe_body o =
    ("session_id_sha256", str (canonical_sha256 (str o.session_id)))
    ∷ ("exists", bool o.exists)
    ∷ ("running", bool o.running)
    ∷ ("descendant_count", nat o.descendant_count)
    ∷ ("tree_sha256", str o.tree_sha256)
    ∷ []
