-- ===== src/Escalation/Replay.antt =====
-- `replay`: mappings, each made into a `TrajectoryEvent`, and analyzed.
use liminal_osai.Prelude.{
  ℤ, String, not, List, [], ◌∷◌, Option, none, some, Exception, Result, ok, err, raise_if, ◌>>=◌,
  ◌>>◌, ◌==◌, is_empty,
}
use liminal_osai.Json.{Value}
use liminal_osai.Hashing.{Hashing, canonical_sha256}
use liminal_osai.Escalation.Event.{TrajectoryEvent, body, escalation_error}
use liminal_osai.Escalation.Decision.{analyze_trajectory}

-- A mapping whose values have the annotated types of the fields that they are for: each field is
-- there or not, and `unexpected` are the other keys. The dataclass does not check the types, and
-- what it does with values of others is outside the model.
pub record RawEvent : Type 0 where
  pub event_id : Option String
  pub sequence : Option ℤ
  pub observed_at_unix : Option ℤ
  pub kind : Option String
  pub decision : Option String
  pub subject_id : Option String
  pub capability_id : Option (Option String)
  pub privilege_level_before : Option ℤ
  pub privilege_level_after : Option ℤ
  pub metadata_sha256 : Option String
  pub previous_event_sha256 : Option String
  pub event_sha256 : Option String
  pub unexpected : List String

-- Python's words for the arguments that are wrong are left out.
abbrev pub type_error : Exception
type_error = record { type_name = "TypeError"; message = "TrajectoryEvent.__init__()" }

-- an argument without a default
abbrev pub required : {A : Type 0} → Option A → Result A
required none = err type_error
required (some a) = ok a

-- `TrajectoryEvent(**dict(raw))`
unfoldable pub parse_event : RawEvent → Result TrajectoryEvent
parse_event raw = do
  raise_if (not (is_empty raw.unexpected)) type_error
  event_id ← required raw.event_id
  sequence ← required raw.sequence
  observed_at ← required raw.observed_at_unix
  kind ← required raw.kind
  decision ← required raw.decision
  subject_id ← required raw.subject_id
  capability_id ← required raw.capability_id
  before ← required raw.privilege_level_before
  after ← required raw.privilege_level_after
  metadata ← required raw.metadata_sha256
  previous ← required raw.previous_event_sha256
  digest ← required raw.event_sha256
  ok (record {
    event_id = event_id;
    sequence = sequence;
    observed_at_unix = observed_at;
    kind = kind;
    decision = decision;
    subject_id = subject_id;
    capability_id = capability_id;
    privilege_level_before = before;
    privilege_level_after = after;
    metadata_sha256 = metadata;
    previous_event_sha256 = previous;
    event_sha256 = digest;
  })

module _ ⦃h : Hashing⦄ where
  -- the loop of `replay`
  unfoldable pub parse_events : List RawEvent → Result (List TrajectoryEvent)
  parse_events [] = ok []
  parse_events (raw ∷ raws) =
      let rest = parse_events raws in
      do
        event ← parse_event raw
        raise_if (not (canonical_sha256 (body event) == event.event_sha256))
            (escalation_error "event digest mismatch")
        events ← rest
        ok (event ∷ events)

  unfoldable pub replay : List RawEvent → Result Value
  replay raws = do parsed ← parse_events raws; analyze_trajectory parsed
