-- ===== src/ProcessTree/Sessions.antt =====
-- `_inspect`, `_get`, `_set_status`, `register_session`, `mark_complete` and `state_document`.
use liminal_osai.Prelude.{
  String, not, ◌&&◌, ◌||◌, List, [], ◌∷◌, ◌++◌, Option, none, some, map, length, nat_beq,
  if◌then◌else◌, Result, Done, Exec, ◌==◌,
}
use liminal_osai.Json.{Value, str, nat, object, array}
use liminal_osai.Hashing.{Hashing, canonical_sha256}
use liminal_osai.Exec.{pure, raise, lift, get, modify, raise_if, ◌>>=◌, ◌>>◌}
use liminal_osai.ProcessTree.Observation.{
  process_tree_error, validate_id, require_sha, ProcessTreeObservation, from_mapping,
}
use liminal_osai.ProcessTree.State.{
  Status, status_name, active, completed, is_terminal, SessionBinding, binding_body, authority,
  Host, Supervisor, find_session, has_session, replace_session, sort_sessions,
}

-- a callback of the host, called from a method
abbrev pub host_call : {W A : Type 0} → (W → Result A × W) → Exec (Supervisor W) A
host_call f s = let (r, w) = f s.world in (r, record s { world = w })

module _ {W : Type 0} where
  -- what `_get` does with the binding it finds
  abbrev pub known : Option SessionBinding → Exec (Supervisor W) SessionBinding
  known none = raise (process_tree_error "unknown execution session")
  known (some b) = pure b

  unfoldable pub get_binding : String → Exec (Supervisor W) SessionBinding
  get_binding id = do
    lift (validate_id id "session_id")
    s ← get
    known (find_session id s.sessions)

  -- what `_set_status` does with the binding it finds; a missing key is a KeyError
  unfoldable pub move_status : String → Status → Option SessionBinding → Exec (Supervisor W) Done
  move_status id status none = raise (record { type_name = "KeyError"; message = id })
  move_status id status (some current) = do
    raise_if (is_terminal current.status && not (status_name status == status_name current.status))
        (process_tree_error "terminal execution session cannot be resurrected")
    modify (λ s. record s {
      sessions = replace_session id (record current { status = status }) s.sessions;
    })

  unfoldable pub set_status : String → Status → Exec (Supervisor W) Done
  set_status id status = do s ← get; move_status id status (find_session id s.sessions)

module _ {W : Type 0} (host : Host W) where
  unfoldable pub inspect : String → Exec (Supervisor W) ProcessTreeObservation
  inspect id = do value ← host_call (host.inspect_session id); lift (from_mapping id value)

module _ {W : Type 0} ⦃h : Hashing⦄ where
  unfoldable pub register_session :
      (session_id operation_id plan_sha256 backend_identity_sha256 : String)
      → Exec (Supervisor W) (List (String × Value))
  register_session id operation plan backend = do
    lift (validate_id id "session_id")
    lift (validate_id operation "operation_id")
    lift (require_sha plan "plan_sha256")
    lift (require_sha backend "backend_identity_sha256")
    s ← get
    raise_if (has_session id s.sessions)
        (process_tree_error "execution session replay/duplicate is forbidden")
    let binding : SessionBinding = record {
      session_id = id;
      operation_id = operation;
      plan_sha256 = plan;
      backend_identity_sha256 = backend;
      status = active;
    }
    modify (λ t. record t { sessions = t.sessions ++ binding ∷ [] })
    pure (
        binding_body binding
        ++ ("binding_sha256", str (canonical_sha256 (object (binding_body binding)))) ∷ [])

  unfoldable pub state_document : Supervisor W → List (String × Value)
  state_document s =
      let safe = map (λ b. object (binding_body b)) (sort_sessions s.sessions) in
      let body =
        ("sessions", array safe)
        ∷ ("session_count", nat (length safe))
        ∷ ("authority", object authority)
        ∷ [] in
      body ++ ("state_sha256", str (canonical_sha256 (object body))) ∷ []

  module _ (host : Host W) where
    -- `mark_complete`, for a session that is not terminal
    unfoldable pub complete_if_absent : String → Exec (Supervisor W) (List (String × Value))
    complete_if_absent id = do
      observation ← inspect host id
      raise_if
          (observation.exists
            || observation.running
            || not (nat_beq observation.descendant_count 0))
          (process_tree_error "cannot mark a live process tree complete")
      set_status id completed
      binding ← get_binding id
      pure (binding_body binding)

    unfoldable pub mark_complete : String → Exec (Supervisor W) (List (String × Value))
    mark_complete id = do
      binding ← get_binding id
      if is_terminal binding.status then pure (binding_body binding) else complete_if_absent id
