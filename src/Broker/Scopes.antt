-- ===== src/Broker/Scopes.antt =====
-- `_scope_contains` and `_effect_for`.
use liminal_osai.Prelude.{
  String, Bool, true, false, not, ◌&&◌, ◌||◌, Option, none, some, ◌==◌, if◌then◌else◌, ltb_ℤ,
}
use liminal_osai.Json.{Value, Items, Fields, int, arr, nil, item, end, field, get_field, eq_value}

-- `v in vs`
abbrev pub holds : Value → Items → Bool
holds v nil = false
holds v (item w ws) = eq_value v w || holds v ws

-- `set(vs).issubset(set(ws))`
abbrev pub is_contained : Items → Items → Bool
is_contained nil ws = true
is_contained (item v vs) ws = holds v ws && is_contained vs ws

-- `isinstance(granted, int) and not requested > granted`, for a requested number
abbrev within : Value → Value → Bool
within (int requested) (int granted) = not (ltb_ℤ granted requested)
within _ _ = false

abbrev list_within : Items → Value → Bool
list_within vs (arr ws) = is_contained vs ws
list_within vs _ = false

-- one round of the loop, for a key that is granted
abbrev pub item_within : String → Value → Value → Bool
item_within key (arr vs) granted = list_within vs granted
item_within key requested granted =
    if key == "max_children" then within requested granted else eq_value granted requested

abbrev pub granted_within : String → Value → Option Value → Bool
granted_within key requested none = false
granted_within key requested (some granted) = item_within key requested granted

abbrev pub all_within : Fields → Fields → Bool
all_within granted end = true
all_within granted (field key v fs) =
    granted_within key v (get_field key granted) && all_within granted fs

-- `granted.get(k) == requested.get(k)`
abbrev pub same_entry : Option Value → Option Value → Bool
same_entry none none = true
same_entry (some v) (some w) = eq_value v w
same_entry _ _ = false

unfoldable pub scope_contains : String → Fields → Fields → Bool
scope_contains capability_type granted requested =
    if (capability_type == "repository.read" || capability_type == "repository.write")
      && not (same_entry (get_field "repository" granted) (get_field "repository" requested))
    then false
    else all_within granted requested

unfoldable pub effect_for : String → String
effect_for t =
    if t == "repository.read"
    then "read"
    else if t == "repository.write" || t == "filesystem.write_outside_workspace"
    then "write"
    else if t == "process.execute" || t == "package.install" || t == "process.spawn_child"
    then "execute"
    else if t == "network.open" || t == "network.connect_domain"
    then "network"
    else if t == "credential.access"
    then "secret"
    else "config"
