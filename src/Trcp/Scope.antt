-- ===== src/Trcp/Scope.antt =====
-- `ScopeEnvelope`: its validation, its permissions, and the order on scopes.
use liminal_osai.Prelude.{
  ℤ, String, Bool, not, ◌&&◌, ◌||◌, List, [], ◌∷◌, Result, Done, raise_if, ◌>>◌, ltb_ℤ, leb_ℤ, ◌==◌,
  member, is_subset, any, is_empty, sorted,
}
use liminal_osai.Json.{Value, str, int, object, strings, nat}
use liminal_osai.Trcp.Errors.{trcp_error}
use liminal_osai.Trcp.Authorization.{AuthorizationRecord}

pub record ScopeEnvelope : Type 0 where
  pub scope_id : String
  pub authorization_id : String
  pub allowed_targets : List String
  pub allowed_actions : List String
  pub allowed_environments : List String
  pub prohibited_actions : List String
  pub data_handling_class : String
  pub network_mode : String
  pub expires_at : ℤ

unfoldable pub validate : ScopeEnvelope → AuthorizationRecord → ℤ → Result Done
validate s a now = do
  raise_if (not (s.authorization_id == a.authorization_id))
      (trcp_error "scope authorization_id does not match authorization")
  raise_if (not (member a.asset_id s.allowed_targets))
      (trcp_error "authorized asset is not inside scope")
  raise_if (not (s.network_mode == "LOCAL_ONLY"))
      (trcp_error "TRCP v0.1 requires LOCAL_ONLY network mode")
  raise_if (not (s.data_handling_class == "SYNTHETIC_ONLY"))
      (trcp_error "TRCP v0.1 requires SYNTHETIC_ONLY data handling")
  raise_if
      (is_empty s.allowed_environments
        || any (λ env. not (env == "LOCAL_FIXTURE")) s.allowed_environments)
      (trcp_error "TRCP v0.1 requires LOCAL_FIXTURE environments")
  raise_if (ltb_ℤ s.expires_at now) (trcp_error "scope has expired")
  raise_if (is_empty s.allowed_actions) (trcp_error "scope must allow at least one action")
  raise_if (any (λ action. member action s.prohibited_actions) s.allowed_actions)
      (trcp_error "scope cannot both allow and prohibit the same action")

-- permission semantics, without the record's identity
unfoldable pub permission_view : ScopeEnvelope → Value
permission_view s = object (
    ("authorization_id", str s.authorization_id)
    ∷ ("allowed_targets", strings (sorted s.allowed_targets))
    ∷ ("allowed_environments", strings (sorted s.allowed_environments))
    ∷ ("allowed_actions", strings (sorted s.allowed_actions))
    ∷ ("prohibited_actions", strings (sorted s.prohibited_actions))
    ∷ ("data_handling_class", str s.data_handling_class)
    ∷ ("network_mode", str s.network_mode)
    ∷ ("expires_at", int s.expires_at)
    ∷ [])

unfoldable pub is_equal_or_narrower_than : ScopeEnvelope → ScopeEnvelope → Bool
is_equal_or_narrower_than s parent =
    s.authorization_id == parent.authorization_id
    && is_subset s.allowed_targets parent.allowed_targets
    && is_subset s.allowed_actions parent.allowed_actions
    && is_subset s.allowed_environments parent.allowed_environments
    && is_subset parent.prohibited_actions s.prohibited_actions
    && s.data_handling_class == parent.data_handling_class
    && s.network_mode == parent.network_mode
    && parent.network_mode == "LOCAL_ONLY"
    && leb_ℤ s.expires_at parent.expires_at

unfoldable pub as_dict : ScopeEnvelope → Value
as_dict s = object (
    ("scope_id", str s.scope_id)
    ∷ ("authorization_id", str s.authorization_id)
    ∷ ("allowed_targets", strings s.allowed_targets)
    ∷ ("allowed_environments", strings s.allowed_environments)
    ∷ ("allowed_actions", strings s.allowed_actions)
    ∷ ("prohibited_actions", strings s.prohibited_actions)
    ∷ ("rate_limits", object (("fixture_runs", nat 8) ∷ []))
    ∷ ("compute_limits", object (("synthetic_steps", nat 32) ∷ []))
    ∷ ("data_handling_class", str s.data_handling_class)
    ∷ ("network_mode", str s.network_mode)
    ∷ ("expires_at", int s.expires_at)
    ∷ [])
