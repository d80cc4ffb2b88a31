-- ===== src/Containment/Lineage.antt =====
-- `verify_receipt` of sdk/liminal_process_lineage/__init__.py, the second profile of process evidence.
use liminal_osai.Prelude.{
  ℕ, ◌+◌, pos, String, Bool, true, false, not, ◌&&◌, ◌||◌, List, [], ◌∷◌, nat_beq, ◌==◌,
  if◌then◌else◌, Exception, Result, ok, err, Done, raise_if, ◌>>=◌, ◌>>◌, concat, is_sha256,
}
use liminal_osai.Json.{
  Value, Fields, bool, int, str, arr, obj, without, is_text, is_flat, get_or_null,
}
use liminal_osai.Hashing.{Hashing, canonical_sha256}

abbrev pub lineage_error : String → Exception
lineage_error m = record { type_name = "ProcessLineageError"; message = m }

abbrev pub lineage_authority : List (String × Value)
lineage_authority =
    ("mode", str "trusted_host_process_lineage_containment")
    ∷ ("model_supplied_pid_authority", bool false)
    ∷ ("shell_execution", bool false)
    ∷ ("direct_kill_syscall", bool false)
    ∷ ("direct_container_runtime_access", bool false)
    ∷ ("trusted_backend_process_control", bool true)
    ∷ ("explicit_parent_child_lineage", bool true)
    ∷ ("session_scoped_only", bool true)
    ∷ ("digest_only_receipts", bool true)
    ∷ ("zero_survivor_required", bool true)
    ∷ ("kernel_escape_prevention", bool false)
    ∷ []

abbrev pub is_lineage_authority : Value → Bool
is_lineage_authority (obj fs) = is_flat fs lineage_authority
is_lineage_authority _ = false

abbrev pub is_digest : Value → Bool
is_digest (str s) = is_sha256 s
is_digest _ = false

-- the loop over the digests
unfoldable pub check_digests : Fields → List String → Result Done
check_digests raw [] = ok tt
check_digests raw (k ∷ ks) =
    let rest = check_digests raw ks in
    do
      raise_if (not (is_digest (get_or_null k raw)))
          (lineage_error (concat (k ∷ " must be lowercase SHA-256" ∷ [])))
      rest

-- whether the decision is ALLOW; a list or a dict is no member of a set
unfoldable pub allows : Value → Result Bool
allows (str s) =
    if s == "ALLOW"
    then ok true
    else if s == "BLOCK"
    then ok false
    else err (lineage_error "unsupported process-lineage decision")
allows (arr vs) = err (record { type_name = "TypeError"; message = "unhashable type: 'list'" })
allows (obj fs) = err (record { type_name = "TypeError"; message = "unhashable type: 'dict'" })
allows _ = err (lineage_error "unsupported process-lineage decision")

-- a counter, one round of the loop over them
unfoldable pub count_of : Fields → String → Result ℕ
count_of raw k = natural (get_or_null k raw)
  where
    natural : Value → Result ℕ
    natural (int (pos n)) = ok n
    natural _ = err (lineage_error (concat ("invalid " ∷ k ∷ [])))

module _ ⦃h : Hashing⦄ where
  unfoldable pub verify_lineage : Fields → Result Fields
  unfolding check_digests allows count_of
  verify_lineage document =
      let raw = without "receipt_sha256" document in
      do
        raise_if
            (not (
                is_text (get_or_null "schema" raw)
                  "liminal-process-lineage-containment-receipt-v0.1")
              || not (is_lineage_authority (get_or_null "authority" raw)))
            (lineage_error "process-lineage receipt schema or authority mismatch")
        check_digests raw (
            "backend_binding_sha256" ∷ "before_tree_sha256" ∷ "frozen_tree_sha256"
            ∷ "after_tree_sha256" ∷ "freeze_evidence_sha256" ∷ "terminate_evidence_sha256" ∷ [])
        allowed ← allows (get_or_null "decision" raw)
        observed ← count_of raw "observed_count"
        terminated ← count_of raw "terminated_count"
        surviving ← count_of raw "surviving_count"
        raise_if (not (nat_beq (terminated + surviving) observed))
            (lineage_error "process counts do not reconcile")
        raise_if (allowed && not (nat_beq surviving 0))
            (lineage_error "ALLOW receipt cannot contain surviving processes")
        raise_if
            (not (is_text (get_or_null "receipt_sha256" document) (canonical_sha256 (obj raw))))
            (lineage_error "process-lineage receipt digest mismatch")
        ok document
