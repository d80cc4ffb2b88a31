-- ===== src/Trcp/Task.antt =====
-- `_validate_task`: a task against the authorization and a scope.
use liminal_osai.Prelude.{String, not, List, [], ◌∷◌, Result, ok, raise_if, ◌>>◌, ◌==◌}
use liminal_osai.Json.{Fields, obj, field_is, field_in, has_exactly}
use liminal_osai.Hashing.{Hashing, canonical_sha256}
use liminal_osai.Trcp.Errors.{trcp_error}
use liminal_osai.Trcp.Authorization.{AuthorizationRecord}
use liminal_osai.Trcp.Scope.{ScopeEnvelope}

abbrev pub task_keys : List String
task_keys = "task_id" ∷ "asset_id" ∷ "activity_class" ∷ "action" ∷ "fixture" ∷ []

module _ ⦃h : Hashing⦄ where
  unfoldable pub validate_task : AuthorizationRecord → ScopeEnvelope → Fields → Result String
  validate_task a scope task = do
    raise_if (not (has_exactly task task_keys))
        (trcp_error "task must contain exactly task_id, asset_id, activity_class, action, fixture")
    raise_if (not (field_is "asset_id" task a.asset_id))
        (trcp_error "task asset is outside authorization")
    raise_if (not (field_in "asset_id" task scope.allowed_targets))
        (trcp_error "task asset is outside scope")
    raise_if (not (field_in "activity_class" task a.allowed_activity_classes))
        (trcp_error "task activity class is outside authorization")
    raise_if (field_in "action" task scope.prohibited_actions)
        (trcp_error "task action is explicitly prohibited by scope")
    raise_if (not (field_in "action" task scope.allowed_actions))
        (trcp_error "task action is outside scope")
    raise_if (not (scope.network_mode == "LOCAL_ONLY"))
        (trcp_error "task would leave local-only simulator")
    ok (canonical_sha256 (obj task))
