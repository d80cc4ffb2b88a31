-- ===== src/Contracts/Transition.antt =====
-- `validate_containment_transition`.
use liminal_osai.Prelude.{
  String, Bool, not, ◌&&◌, ◌||◌, List, [], ◌∷◌, Option, none, some, ◌==◌, if◌then◌else◌, Result, ok,
  err, raise_if, ◌>>=◌, ◌>>◌, member, is_empty, any,
}
use liminal_osai.Json.{Value, null, str, nat, optional, object, strings, is_text, get_or_null}
use liminal_osai.Contracts.Validators.{
  contract_error, mapping, string, identifier, sha, time, exact, sorted_unique_strings, authority,
  is_authority,
}

-- `CONTAINMENT_TRANSITIONS`
abbrev pub containment_transitions : List (String × String)
containment_transitions =
    ("IDLE", "DETECT")
    ∷ ("DETECT", "FREEZE")
    ∷ ("FREEZE", "REVOKE")
    ∷ ("REVOKE", "SEAL")
    ∷ ("SEAL", "SNAPSHOT")
    ∷ ("SNAPSHOT", "REVIEW")
    ∷ ("REVIEW", "RELEASED")
    ∷ []

-- `CONTAINMENT_STATES`
abbrev pub containment_states : List String
containment_states =
    "IDLE" ∷ "DETECT" ∷ "FREEZE" ∷ "REVOKE" ∷ "SEAL" ∷ "SNAPSHOT" ∷ "REVIEW" ∷ "RELEASED" ∷ []

unfoldable pub is_legal : String → String → Bool
is_legal before after =
    member before containment_states
    && member after containment_states
    && any (λ (b, a). before == b && after == a) containment_transitions

-- the human release id: needed for RELEASED, and for nothing else
unfoldable pub release_id_of : String → Value → Result (Option String)
release_id_of after null =
    if after == "RELEASED"
    then err (contract_error ("RELEASED requires explicit human_release_id" ∷ []))
    else ok none
release_id_of after v =
    if after == "RELEASED"
    then (do id ← identifier v "human_release_id"; ok (some id))
    else err (contract_error ("human_release_id is allowed only for RELEASED" ∷ []))

unfoldable pub validate_containment_transition : Value → Result (List (String × Value))
unfolding is_legal release_id_of
validate_containment_transition value = do
  raw ← mapping value "containment_transition"
  exact raw
      ("schema" ∷ "incident_id" ∷ "from_state" ∷ "to_state" ∷ "reason_codes" ∷ "evidence_sha256"
        ∷ "at_unix" ∷ "human_release_id" ∷ "authority" ∷ [])
      "containment_transition"
  raise_if
      (not (is_text (get_or_null "schema" raw) "liminal-containment-transition-v0.1")
        || not (is_authority (get_or_null "authority" raw)))
      (contract_error ("containment schema or authority boundary mismatch" ∷ []))
  before ← string (get_or_null "from_state" raw) "from_state"
  after ← string (get_or_null "to_state" raw) "to_state"
  raise_if (not (is_legal before after)) (contract_error ("illegal containment transition" ∷ []))
  reasons ← sorted_unique_strings (get_or_null "reason_codes" raw) "reason_codes"
  raise_if (is_empty reasons) (contract_error ("containment reason_codes must not be empty" ∷ []))
  release_id ← release_id_of after (get_or_null "human_release_id" raw)
  incident ← identifier (get_or_null "incident_id" raw) "incident_id"
  evidence ← sha (get_or_null "evidence_sha256" raw) "evidence_sha256"
  at ← time (get_or_null "at_unix" raw) "at_unix"
  ok (
      ("schema", str "liminal-containment-transition-v0.1")
      ∷ ("incident_id", str incident)
      ∷ ("from_state", str before)
      ∷ ("to_state", str after)
      ∷ ("reason_codes", strings reasons)
      ∷ ("evidence_sha256", str evidence)
      ∷ ("at_unix", nat at)
      ∷ ("human_release_id", optional release_id)
      ∷ ("authority", object authority)
      ∷ [])
