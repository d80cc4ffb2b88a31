-- ===== src/ProcessTree/State.antt =====
-- `SessionBinding`, the containment receipt, the host's callbacks and the supervisor's state.
use liminal_osai.Prelude.{
  ℕ, String, Bool, true, false, List, [], ◌∷◌, Option, none, some, ◌==◌, if◌then◌else◌, Result,
  Done, str_leb, keep, not, ◌++◌,
}
use liminal_osai.Json.{Value, Fields, bool, str, nat, object, strings}
use liminal_osai.Hashing.{Hashing, canonical_sha256}

-- the five texts that `_set_status` allows
pub data Status : Type 0 where
  active frozen terminated completed error : Status

abbrev pub status_name : Status → String
status_name active = "ACTIVE"
status_name frozen = "FROZEN"
status_name terminated = "TERMINATED"
status_name completed = "COMPLETED"
status_name error = "ERROR"

-- `status in {"COMPLETED", "TERMINATED"}`
abbrev pub is_terminal : Status → Bool
is_terminal terminated = true
is_terminal completed = true
is_terminal _ = false

pub record SessionBinding : Type 0 where
  pub session_id : String
  pub operation_id : String
  pub plan_sha256 : String
  pub backend_identity_sha256 : String
  pub status : Status

unfoldable pub binding_body : ⦃h : Hashing⦄ → SessionBinding → List (String × Value)
binding_body b =
    ("session_id_sha256", str (canonical_sha256 (str b.session_id)))
    ∷ ("operation_id_sha256", str (canonical_sha256 (str b.operation_id)))
    ∷ ("plan_sha256", str b.plan_sha256)
    ∷ ("backend_identity_sha256", str b.backend_identity_sha256)
    ∷ ("status", str (status_name b.status))
    ∷ []

abbrev pub authority : List (String × Value)
authority =
    ("mode", str "host_bound_process_tree_containment")
    ∷ ("trusted_host_callbacks", bool true)
    ∷ ("freeze_registered_sessions", bool true)
    ∷ ("terminate_registered_sessions", bool true)
    ∷ ("verify_zero_survivors", bool true)
    ∷ ("separate_freeze_and_quiesce", bool true)
    ∷ ("digest_only_receipts", bool true)
    ∷ ("direct_host_process_enumeration", bool false)
    ∷ ("direct_subprocess_execution", bool false)
    ∷ ("direct_docker_api_access", bool false)
    ∷ ("kernel_escape_resistance", bool false)
    ∷ ("container_runtime_compromise_resistance", bool false)
    ∷ ("automatic_release", bool false)
    ∷ []

pub record ProcessTreeContainmentReceipt : Type 0 where
  pub incident_id : String
  pub session_count : ℕ
  pub active_before_count : ℕ
  pub terminated_count : ℕ
  pub already_absent_count : ℕ
  pub survivor_count : ℕ
  pub session_set_sha256 : String
  pub before_root_sha256 : String
  pub after_root_sha256 : String
  pub failure_codes : List String
  pub zero_survivors : Bool
  pub receipt_sha256 : String

unfoldable pub receipt_body : ⦃h : Hashing⦄ → ProcessTreeContainmentReceipt → List (String × Value)
receipt_body r =
    ("schema", str "liminal-process-tree-containment-receipt-v0.1")
    ∷ ("incident_id_sha256", str (canonical_sha256 (str r.incident_id)))
    ∷ ("session_count", nat r.session_count)
    ∷ ("active_before_count", nat r.active_before_count)
    ∷ ("terminated_count", nat r.terminated_count)
    ∷ ("already_absent_count", nat r.already_absent_count)
    ∷ ("survivor_count", nat r.survivor_count)
    ∷ ("session_set_sha256", str r.session_set_sha256)
    ∷ ("before_root_sha256", str r.before_root_sha256)
    ∷ ("after_root_sha256", str r.after_root_sha256)
    ∷ ("failure_codes", strings r.failure_codes)
    ∷ ("zero_survivors", bool r.zero_survivors)
    ∷ ("authority", object authority)
    ∷ []

unfoldable pub as_document : ⦃h : Hashing⦄ → ProcessTreeContainmentReceipt → List (String × Value)
as_document r = receipt_body r ++ ("receipt_sha256", str r.receipt_sha256) ∷ []

-- The host's callbacks, over what they change: each returns or raises.
pub record Host (W : Type 0) : Type 0 where
  pub inspect_session : String → W → Result Fields × W
  pub freeze_session : String → W → Result Done × W
  pub terminate_session : String → W → Result Done × W

-- The dict `_sessions` is the list of its values: each stands under its own `session_id`.
pub record Supervisor (W : Type 0) : Type 0 where
  pub world : W
  pub sessions : List SessionBinding
  pub receipts : List ProcessTreeContainmentReceipt
  pub freeze_receipts : List (List (String × Value))

-- `_sessions.get(id)`
abbrev pub find_session : String → List SessionBinding → Option SessionBinding
find_session id [] = none
find_session id (b ∷ bs) = if b.session_id == id then some b else find_session id bs

-- `id in _sessions`
abbrev pub has_session : String → List SessionBinding → Bool
has_session id bs = elim (find_session id bs) [ none ↦ false | some b ↦ true ]

-- `_sessions[id] = binding`, for a key that is there
abbrev pub replace_session : String → SessionBinding → List SessionBinding → List SessionBinding
replace_session id new [] = []
replace_session id new (b ∷ bs) =
    if b.session_id == id then new ∷ bs else b ∷ replace_session id new bs

abbrev pub insert_session : SessionBinding → List SessionBinding → List SessionBinding
insert_session b [] = b ∷ []
insert_session b (c ∷ cs) =
    if str_leb b.session_id c.session_id then b ∷ c ∷ cs else c ∷ insert_session b cs

-- `self._sessions[key] for key in sorted(self._sessions)`
abbrev pub sort_sessions : List SessionBinding → List SessionBinding
sort_sessions [] = []
sort_sessions (b ∷ bs) = insert_session b (sort_sessions bs)

-- the sessions that a sweep takes, in the order of their ids
abbrev pub candidates : List SessionBinding → List SessionBinding
candidates bs = keep (λ b. not (is_terminal b.status)) (sort_sessions bs)
