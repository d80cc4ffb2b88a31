-- ===== src/Trcp/Authorization.antt =====
-- `AuthorizationRecord` and its validation.
use liminal_osai.Prelude.{
  ℤ, String, not, ◌&&◌, ◌||◌, List, [], ◌∷◌, Result, Done, raise_if, ◌>>◌, ltb_ℤ, leb_ℤ, ◌==◌,
  is_empty,
}
use liminal_osai.Json.{Value, str, int, object, strings}
use liminal_osai.Trcp.Errors.{trcp_error}

pub record AuthorizationRecord : Type 0 where
  pub authorization_id : String
  pub subject_id : String
  pub asset_id : String
  pub valid_from : ℤ
  pub valid_until : ℤ
  pub allowed_activity_classes : List String
  pub authority_source : String
  pub owner_or_authorizer : String
  pub proof_reference : String
  pub created_at : ℤ

unfoldable pub validate : AuthorizationRecord → ℤ → Result Done
validate a now = do
  raise_if (a.authorization_id == "" || a.subject_id == "" || a.asset_id == "")
      (trcp_error "authorization identity fields must be non-empty")
  raise_if (ltb_ℤ a.valid_until a.valid_from)
      (trcp_error "authorization validity window is inverted")
  raise_if (not (leb_ℤ a.valid_from now && leb_ℤ now a.valid_until))
      (trcp_error "authorization is not currently valid")
  raise_if (is_empty a.allowed_activity_classes)
      (trcp_error "authorization must allow at least one activity class")

unfoldable pub as_dict : AuthorizationRecord → Value
as_dict a = object (
    ("authorization_id", str a.authorization_id)
    ∷ ("subject_id", str a.subject_id)
    ∷ ("asset_id", str a.asset_id)
    ∷ ("authority_source", str a.authority_source)
    ∷ ("valid_from", int a.valid_from)
    ∷ ("valid_until", int a.valid_until)
    ∷ ("allowed_activity_classes", strings a.allowed_activity_classes)
    ∷ ("owner_or_authorizer", str a.owner_or_authorizer)
    ∷ ("proof_reference", str a.proof_reference)
    ∷ ("created_at", int a.created_at)
    ∷ [])
