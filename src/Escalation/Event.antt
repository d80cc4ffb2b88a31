-- ===== src/Escalation/Event.antt =====
-- The event of a trajectory: `TrajectoryEvent`, its hashed body, and `TrajectoryEvent.build`.
use liminal_osai.Prelude.{
  ℤ, pos, String, Bool, not, ◌&&◌, Option, List, [], ◌∷◌, Exception, Result, ok, raise_if, ◌>>◌,
  is_blank, str_len, nat_beq, ltb_ℤ, leb_ℤ, member,
}
use liminal_osai.Json.{Value, Fields, obj, str, int, object, optional}
use liminal_osai.Hashing.{Hashing, canonical_sha256}

pub record TrajectoryEvent : Type 0 where
  pub event_id : String
  pub sequence : ℤ
  pub observed_at_unix : ℤ
  pub kind : String
  pub decision : String
  pub subject_id : String
  pub capability_id : Option String
  pub privilege_level_before : ℤ
  pub privilege_level_after : ℤ
  pub metadata_sha256 : String
  pub previous_event_sha256 : String
  pub event_sha256 : String

unfoldable pub body_fields : TrajectoryEvent → List (String × Value)
body_fields e =
    ("event_id", str e.event_id)
    ∷ ("sequence", int e.sequence)
    ∷ ("observed_at_unix", int e.observed_at_unix)
    ∷ ("kind", str e.kind)
    ∷ ("decision", str e.decision)
    ∷ ("subject_id", str e.subject_id)
    ∷ ("capability_id", optional e.capability_id)
    ∷ ("privilege_level_before", int e.privilege_level_before)
    ∷ ("privilege_level_after", int e.privilege_level_after)
    ∷ ("metadata_sha256", str e.metadata_sha256)
    ∷ ("previous_event_sha256", str e.previous_event_sha256)
    ∷ []

unfoldable pub body : TrajectoryEvent → Value
unfolding body_fields
body e = object (body_fields e)

abbrev pub escalation_error : String → Exception
escalation_error m = record { type_name = "EscalationError"; message = m }

abbrev pub event_kinds : List String
event_kinds =
    "package.install" ∷ "network.connect_domain" ∷ "credential.access" ∷ "process.spawn_child"
    ∷ "process.execute" ∷ "runtime.configure" ∷ "repository.write" ∷ "capability.grant"
    ∷ "capability.revoke" ∷ []

abbrev pub event_decisions : List String
event_decisions = "ALLOW" ∷ "BLOCK" ∷ "REVISE" ∷ "CONTAIN" ∷ []

-- `not 0 <= value <= 10`
abbrev out_of_levels : ℤ → Bool
out_of_levels v = not (leb_ℤ (pos 0) v && leb_ℤ v (pos 10))

module _ ⦃h : Hashing⦄ where
  -- the event with its digest filled in
  unfoldable pub seal : TrajectoryEvent → TrajectoryEvent
  unfolding body
  seal e = record e { event_sha256 = canonical_sha256 (body e) }

  unfoldable pub build :
      (event_id : String) (sequence observed_at_unix : ℤ) (kind decision subject_id : String)
      (capability_id : Option String) (privilege_level_before privilege_level_after : ℤ)
      (metadata : Fields) (previous_event_sha256 : String)
      → Result TrajectoryEvent
  unfolding seal is_blank
  build event_id sequence observed_at kind decision subject_id capability_id before after metadata
        previous =
      do
        raise_if (is_blank event_id) (escalation_error "event_id must be non-empty")
        raise_if (ltb_ℤ sequence (pos 1)) (escalation_error "sequence must be >= 1")
        raise_if (ltb_ℤ observed_at (pos 0))
            (escalation_error "observed_at_unix must be non-negative")
        raise_if (not (member kind event_kinds)) (escalation_error "unsupported event kind")
        raise_if (not (member decision event_decisions)) (escalation_error "unsupported decision")
        raise_if (is_blank subject_id) (escalation_error "subject_id must be non-empty")
        raise_if (out_of_levels before)
            (escalation_error "privilege_level_before must be between 0 and 10")
        raise_if (out_of_levels after)
            (escalation_error "privilege_level_after must be between 0 and 10")
        raise_if (not (nat_beq (str_len previous) 64))
            (escalation_error "previous_event_sha256 must be a SHA-256 digest")
        ok (
            seal (record {
              event_id = event_id;
              sequence = sequence;
              observed_at_unix = observed_at;
              kind = kind;
              decision = decision;
              subject_id = subject_id;
              capability_id = capability_id;
              privilege_level_before = before;
              privilege_level_after = after;
              metadata_sha256 = canonical_sha256 (obj metadata);
              previous_event_sha256 = previous;
              event_sha256 = "";
            }))
