-- ===== src/Trcp/Provider.antt =====
-- `MockProvider` and the output of a run.
use liminal_osai.Prelude.{
  String, not, Option, none, some, List, [], ◌∷◌, ◌++◌, Result, ok, raise_if, ◌>>◌, member,
}
use liminal_osai.Json.{Value, Fields, end, str, obj, object}
use liminal_osai.Hashing.{Hashing, canonical_sha256}
use liminal_osai.Trcp.Errors.{trcp_error}

abbrev pub failover_outcomes : List String
failover_outcomes =
    "REFUSED" ∷ "ACCESS_RESTRICTED" ∷ "RATE_LIMITED" ∷ "PROVIDER_ERROR" ∷ "TIMEOUT" ∷ []

abbrev pub provider_outcomes : List String
provider_outcomes = failover_outcomes ++ "COMPLETED" ∷ "ABORTED_BY_OPERATOR" ∷ []

-- an absent mapping serves as the empty one
abbrev pub or_empty : Option Fields → Fields
or_empty none = end
or_empty (some fs) = fs

pub record MockProvider : Type 0 where
  pub provider_id : String
  pub model_id : String
  pub outcome : String
  pub synthetic_finding : Option Fields
  pub provider_metadata : Option Fields

-- the dict that `MockProvider.run` returns
pub record ProviderOutput : Type 0 where
  pub provider_id : String
  pub model_id : String
  pub outcome : String
  pub normalized_task_hash : String
  pub synthetic_finding : Fields
  pub provider_metadata : Fields
  pub provider_output_sha256 : String

unfoldable pub output_body : MockProvider → String → Value
output_body p task_hash = object (
    ("provider_id", str p.provider_id)
    ∷ ("model_id", str p.model_id)
    ∷ ("outcome", str p.outcome)
    ∷ ("normalized_task_hash", str task_hash)
    ∷ ("synthetic_finding", obj (or_empty p.synthetic_finding))
    ∷ ("provider_metadata", obj (or_empty p.provider_metadata))
    ∷ [])

unfoldable pub run : ⦃h : Hashing⦄ → MockProvider → String → Result ProviderOutput
run p task_hash = do
  raise_if (not (member p.outcome provider_outcomes))
      (trcp_error "unsupported mock provider outcome")
  ok (record {
    provider_id = p.provider_id;
    model_id = p.model_id;
    outcome = p.outcome;
    normalized_task_hash = task_hash;
    synthetic_finding = or_empty p.synthetic_finding;
    provider_metadata = or_empty p.provider_metadata;
    provider_output_sha256 = canonical_sha256 (output_body p task_hash);
  })
