-- ===== src/Mediation/Operation.antt =====
-- `RuntimeOperation` and `ExecutionObservation`.
use liminal_osai.Prelude.{
  ℤ, pos, String, Bool, not, ◌&&◌, List, [], ◌∷◌, ◌==◌, if◌then◌else◌, Exception, Result, ok, err,
  Done, raise_if, ◌>>◌, ◌>>=◌, concat, member, leb_ℤ, is_blank, is_sha256,
}
use liminal_osai.Json.{Fields, obj}
use liminal_osai.Hashing.{Hashing, canonical_sha256}
use liminal_osai.Contracts.Scope.{validate_scope}

abbrev pub mediation_error : String → Exception
mediation_error m = record { type_name = "MediationError"; message = m }

-- the keys of `OPERATION_TO_CAPABILITY`, which takes each to itself
abbrev pub operation_kinds : List String
operation_kinds =
    "process.execute" ∷ "process.spawn_child" ∷ "package.install"
    ∷ "filesystem.write_outside_workspace" ∷ "credential.access" ∷ "runtime.configure" ∷ []

pub record RuntimeOperation : Type 0 where
  pub operation_id : String
  pub subject_id : String
  pub policy_sha256 : String
  pub kind : String
  pub scope : Fields
  pub payload_sha256 : String
  pub at_unix : ℤ
  pub privilege_level_before : ℤ
  pub privilege_level_after : ℤ

-- `_sha`
unfoldable pub check_sha : String → String → Result Done
check_sha value name =
    raise_if (not (is_sha256 value))
      (mediation_error (concat (name ∷ " must be a lowercase SHA-256 digest" ∷ [])))

-- `except ContractError as exc: raise MediationError(str(exc))`
unfoldable pub as_mediation_error : {A : Type 0} → Result A → Result A
as_mediation_error (ok a) = ok a
as_mediation_error (err e) =
    if e.type_name == "ContractError" then err (mediation_error e.message) else err e

unfoldable pub normalized_scope : RuntimeOperation → Result Fields
normalized_scope o = do
  raise_if (not (member o.kind operation_kinds))
      (mediation_error "unsupported runtime operation kind")
  as_mediation_error (validate_scope o.kind (obj o.scope))

abbrev out_of_levels : ℤ → Bool
out_of_levels v = not (leb_ℤ (pos 0) v && leb_ℤ v (pos 10))

unfoldable pub validate : RuntimeOperation → Result Done
unfolding check_sha
validate o = do
  raise_if (is_blank o.operation_id) (mediation_error "operation_id must be non-empty")
  raise_if (is_blank o.subject_id) (mediation_error "subject_id must be non-empty")
  check_sha o.policy_sha256 "policy_sha256"
  check_sha o.payload_sha256 "payload_sha256"
  raise_if (not (leb_ℤ (pos 0) o.at_unix)) (mediation_error "at_unix must be non-negative")
  raise_if (out_of_levels o.privilege_level_before)
      (mediation_error "privilege_level_before must be between 0 and 10")
  raise_if (out_of_levels o.privilege_level_after)
      (mediation_error "privilege_level_after must be between 0 and 10")
  scope ← normalized_scope o
  ok tt

pub record ExecutionObservation : Type 0 where
  pub outcome : String
  pub result_sha256 : String

abbrev pub success : ⦃h : Hashing⦄ → Fields → ExecutionObservation
success safe_metadata = record {
  outcome = "SUCCEEDED";
  result_sha256 = canonical_sha256 (obj safe_metadata);
}

unfoldable pub validate_observation : ExecutionObservation → Result Done
unfolding check_sha
validate_observation o = do
  raise_if (not (o.outcome == "SUCCEEDED"))
      (mediation_error "host observation outcome must be SUCCEEDED")
  check_sha o.result_sha256 "result_sha256"
