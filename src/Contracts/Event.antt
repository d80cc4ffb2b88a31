-- ===== src/Contracts/Event.antt =====
-- `CausalRuntimeEvent`: `body`, `as_document`, `from_document` and `build`.
use liminal_osai.Prelude.{
  ℕ, String, Bool, true, false, not, ◌&&◌, ◌||◌, List, [], ◌∷◌, ◌++◌, Option, none, some, ◌==◌,
  Result, ok, raise_if, ◌>>=◌, ◌>>◌, member, is_empty,
}
use liminal_osai.Json.{
  Value, Fields, null, str, nat, optional, object, fields, strings, is_text, get_or_null,
}
use liminal_osai.Hashing.{Hashing, canonical_sha256}
use liminal_osai.Contracts.Validators.{
  contract_error, mapping, string, identifier, sha, time, exact, sorted_unique_strings, authority,
  is_authority,
}

pub record CausalRuntimeEvent : Type 0 where
  pub event_id : String
  pub event_type : String
  pub subject_id : String
  pub capability_id : Option String
  pub recorder_event_id : Option String
  pub recorder_entry_sha256 : Option String
  pub effect : String
  pub decision : String
  pub observed_at_unix : ℕ
  pub previous_causal_event_sha256 : String
  pub input_sha256 : String
  pub output_sha256 : Option String
  pub reason_codes : List String
  pub event_sha256 : String

unfoldable pub event_body : CausalRuntimeEvent → List (String × Value)
event_body e =
    ("schema", str "liminal-causal-runtime-event-v0.1")
    ∷ ("event_id", str e.event_id)
    ∷ ("event_type", str e.event_type)
    ∷ ("subject_id", str e.subject_id)
    ∷ ("capability_id", optional e.capability_id)
    ∷ ("recorder_event_id", optional e.recorder_event_id)
    ∷ ("recorder_entry_sha256", optional e.recorder_entry_sha256)
    ∷ ("effect", str e.effect)
    ∷ ("decision", str e.decision)
    ∷ ("observed_at_unix", nat e.observed_at_unix)
    ∷ ("previous_causal_event_sha256", str e.previous_causal_event_sha256)
    ∷ ("input_sha256", str e.input_sha256)
    ∷ ("output_sha256", optional e.output_sha256)
    ∷ ("reason_codes", strings e.reason_codes)
    ∷ ("authority", object authority)
    ∷ []

unfoldable pub as_document : CausalRuntimeEvent → Fields
as_document e = fields (event_body e ++ ("event_sha256", str e.event_sha256) ∷ [])

-- `CAPABILITY_EVENTS`, which is also the set of the lifecycle events
abbrev pub lifecycle_events : List String
lifecycle_events = "grant" ∷ "use" ∷ "deny" ∷ "revoke" ∷ "expire" ∷ []

abbrev pub event_keys : List String
event_keys =
    "schema" ∷ "event_id" ∷ "event_type" ∷ "subject_id" ∷ "capability_id" ∷ "recorder_event_id"
    ∷ "recorder_entry_sha256" ∷ "effect" ∷ "decision" ∷ "observed_at_unix"
    ∷ "previous_causal_event_sha256" ∷ "input_sha256" ∷ "output_sha256" ∷ "reason_codes"
    ∷ "authority" ∷ "event_sha256" ∷ []

-- `None if value is None else check(value, name)`
unfoldable pub optionally :
    (Value → String → Result String) → Value → String → Result (Option String)
optionally check null name = ok none
optionally check v name = do s ← check v name; ok (some s)

abbrev pub is_none : Option String → Bool
is_none none = true
is_none (some s) = false

-- `a != b`
abbrev pub differ : Bool → Bool → Bool
differ true b = not b
differ false b = b

-- `value not in allowed`
unfoldable pub one_of : Value → String → List String → String → Result String
one_of v name allowed message = do
  s ← string v name
  raise_if (not (member s allowed)) (contract_error (message ∷ []))
  ok s

-- the fields of an event, in the order in which `from_document` looks at them
unfoldable pub read_event : Fields → Result CausalRuntimeEvent
read_event raw = do
  event_type ←
      one_of (get_or_null "event_type" raw) "event_type"
        (lifecycle_events
          ++ "runtime_action" ∷ "objective_violation" ∷ "containment_transition" ∷ [])
        "unsupported causal event_type"
  effect ←
      one_of (get_or_null "effect" raw) "effect"
        ("read" ∷ "write" ∷ "execute" ∷ "network" ∷ "secret" ∷ "config" ∷ []) "unsupported effect"
  decision ←
      one_of (get_or_null "decision" raw) "decision" ("ALLOW" ∷ "REVISE" ∷ "BLOCK" ∷ "CONTAIN" ∷ [])
        "unsupported decision"
  capability_id ← optionally identifier (get_or_null "capability_id" raw) "capability_id"
  raise_if (member event_type lifecycle_events && is_none capability_id)
      (contract_error ("capability lifecycle event requires capability_id" ∷ []))
  recorder_id ← optionally identifier (get_or_null "recorder_event_id" raw) "recorder_event_id"
  recorder_hash ← optionally sha (get_or_null "recorder_entry_sha256" raw) "recorder_entry_sha256"
  raise_if (differ (is_none recorder_id) (is_none recorder_hash))
      (contract_error ("recorder_event_id and recorder_entry_sha256 must appear together" ∷ []))
  reasons ← sorted_unique_strings (get_or_null "reason_codes" raw) "reason_codes"
  raise_if (is_empty reasons) (contract_error ("reason_codes must not be empty" ∷ []))
  output_hash ← optionally sha (get_or_null "output_sha256" raw) "output_sha256"
  event_id ← identifier (get_or_null "event_id" raw) "event_id"
  subject_id ← identifier (get_or_null "subject_id" raw) "subject_id"
  observed ← time (get_or_null "observed_at_unix" raw) "observed_at_unix"
  previous ← sha (get_or_null "previous_causal_event_sha256" raw) "previous_causal_event_sha256"
  input ← sha (get_or_null "input_sha256" raw) "input_sha256"
  digest ← sha (get_or_null "event_sha256" raw) "event_sha256"
  ok (record {
    event_id = event_id;
    event_type = event_type;
    subject_id = subject_id;
    capability_id = capability_id;
    recorder_event_id = recorder_id;
    recorder_entry_sha256 = recorder_hash;
    effect = effect;
    decision = decision;
    observed_at_unix = observed;
    previous_causal_event_sha256 = previous;
    input_sha256 = input;
    output_sha256 = output_hash;
    reason_codes = reasons;
    event_sha256 = digest;
  })

module _ ⦃h : Hashing⦄ where
  unfoldable pub from_document : Value → Result CausalRuntimeEvent
  from_document value = do
    raw ← mapping value "causal_event"
    exact raw event_keys "causal_event"
    raise_if
        (not (is_text (get_or_null "schema" raw) "liminal-causal-runtime-event-v0.1")
          || not (is_authority (get_or_null "authority" raw)))
        (contract_error ("causal-event schema or authority boundary mismatch" ∷ []))
    e ← read_event raw
    raise_if (not (canonical_sha256 (object (event_body e)) == e.event_sha256))
        (contract_error ("causal event_sha256 mismatch" ∷ []))
    ok e

  -- `build`, with the keyword arguments as entries
  unfoldable pub build : List (String × Value) → Result CausalRuntimeEvent
  build kwargs =
      let body =
        ("schema", str "liminal-causal-runtime-event-v0.1") ∷ kwargs
        ++ ("authority", object authority) ∷ [] in
      from_document (object (body ++ ("event_sha256", str (canonical_sha256 (object body))) ∷ []))
