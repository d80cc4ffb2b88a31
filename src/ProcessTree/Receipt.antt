-- ===== src/ProcessTree/Receipt.antt =====
-- `verify_receipt`, on a document of any shape.
use liminal_osai.Prelude.{
  pos, String, Bool, true, false, not, ◌&&◌, ◌||◌, List, [], ◌∷◌, zero, Result, ok, Done, raise_if,
  ◌>>◌, concat,
}
use liminal_osai.Json.{Value, Fields, int, obj, without, truthy, is_text, is_flat, get_or_null}
use liminal_osai.Hashing.{Hashing, canonical_sha256}
use liminal_osai.ProcessTree.Observation.{process_tree_error}
use liminal_osai.ProcessTree.State.{authority}

abbrev pub is_natural : Value → Bool
is_natural (int (pos n)) = true
is_natural _ = false

abbrev pub is_authority : Value → Bool
is_authority (obj fs) = is_flat fs authority
is_authority _ = false

-- `v != 0`, for a number `v`
abbrev pub is_nonzero : Value → Bool
is_nonzero (int (pos zero)) = false
is_nonzero _ = true

-- the loop over the counters
unfoldable pub check_counts : Fields → List String → Result Done
check_counts raw [] = ok tt
check_counts raw (k ∷ ks) =
    let rest = check_counts raw ks in
    do
      raise_if (not (is_natural (get_or_null k raw)))
          (process_tree_error (concat ("invalid " ∷ k ∷ [])))
      rest

module _ ⦃h : Hashing⦄ where
  unfoldable pub verify_receipt : Fields → Result Fields
  unfolding check_counts
  verify_receipt document =
      let raw = without "receipt_sha256" document in
      do
        raise_if
            (not
                (is_text (get_or_null "schema" raw) "liminal-process-tree-containment-receipt-v0.1")
              || not (is_authority (get_or_null "authority" raw)))
            (process_tree_error "process-tree receipt schema or authority mismatch")
        raise_if
            (not (is_text (get_or_null "receipt_sha256" document) (canonical_sha256 (obj raw))))
            (process_tree_error "process-tree receipt digest mismatch")
        check_counts raw (
            "session_count" ∷ "active_before_count" ∷ "terminated_count" ∷ "already_absent_count"
            ∷ "survivor_count" ∷ [])
        raise_if
            (truthy (get_or_null "zero_survivors" raw)
              && (is_nonzero (get_or_null "survivor_count" raw)
                  || truthy (get_or_null "failure_codes" raw)))
            (process_tree_error "zero-survivor claim contradicts receipt evidence")
        ok document
