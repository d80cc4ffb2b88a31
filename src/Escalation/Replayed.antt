-- ===== src/Escalation/Replayed.antt =====
-- What `replay` accepts.
use liminal_osai.Prelude.{
  ℕ, ℤ, String, ◌≡◌, refl, ap, sym, ◌∙◌, ◌↔◌, not, List, [], ◌∷◌, map, Option, none, some, Result,
  ok, ◌>>=◌, ◌>>◌, subst, negsuc, >>=-eq-ok, raise_if, is_empty, eq_iff, ◌==◌,
}
use liminal_osai.Json.{Value}
use liminal_osai.Hashing.{Hashing, canonical_sha256, zero_sha256}
use liminal_osai.Escalation.Event.{TrajectoryEvent, body}
use liminal_osai.Escalation.Chain.{verify_from, verify_chain}
use liminal_osai.Escalation.Decision.{analyze_trajectory}
use liminal_osai.Escalation.Replay.{
  RawEvent, required, type_error, parse_event, parse_events, replay,
}
use liminal_osai.Escalation.Tamper.{IsChain, verify_from_sound}

-- the mapping with the twelve fields of an event and no other key
abbrev pub complete : TrajectoryEvent → RawEvent
complete e = record {
  event_id = some e.event_id;
  sequence = some e.sequence;
  observed_at_unix = some e.observed_at_unix;
  kind = some e.kind;
  decision = some e.decision;
  subject_id = some e.subject_id;
  capability_id = some e.capability_id;
  privilege_level_before = some e.privilege_level_before;
  privilege_level_after = some e.privilege_level_after;
  metadata_sha256 = some e.metadata_sha256;
  previous_event_sha256 = some e.previous_event_sha256;
  event_sha256 = some e.event_sha256;
  unexpected = [];
}

required_bind-ok :
    {A B : Type 0} (o : Option A) (next : A → Result B) (b : B)
    → (required o >>= next) ≡ ok b
    → (a : A) × (o ≡ some a) × (next a ≡ ok b)
required_bind-ok none next b h = absurd cc
required_bind-ok (some a) next b h = (a, refl, h)

parse_event-complete : (e : TrajectoryEvent) → parse_event (complete e) ≡ ok e
unfolding parse_event
parse_event-complete e = refl

ok_injective : {A : Type 0} (a b : A) → ok a ≡ ok b → a ≡ b
ok_injective a b h = cc

unexpected-ok :
    {B : Type 0} (names : List String) (rest : Result B) (b : B)
    → (raise_if (not (is_empty names)) type_error >> rest) ≡ ok b
    → (names ≡ []) × (rest ≡ ok b)
unexpected-ok [] rest b h = (refl, h)
unexpected-ok (n ∷ ns) rest b h = absurd cc

complete-parse_event :
    (raw : RawEvent) (e : TrajectoryEvent) → parse_event raw ≡ ok e → raw ≡ complete e
unfolding parse_event
complete-parse_event raw e parsed =
    let (nothing, later) = unexpected-ok raw.unexpected _ e parsed in
    let (id, e1, later) = required_bind-ok raw.event_id _ e later in
    let (sequence, e2, later) = required_bind-ok raw.sequence _ e later in
    let (at_unix, e3, later) = required_bind-ok raw.observed_at_unix _ e later in
    let (kind, e4, later) = required_bind-ok raw.kind _ e later in
    let (decision, e5, later) = required_bind-ok raw.decision _ e later in
    let (subject, e6, later) = required_bind-ok raw.subject_id _ e later in
    let (capability, e7, later) = required_bind-ok raw.capability_id _ e later in
    let (before, e8, later) = required_bind-ok raw.privilege_level_before _ e later in
    let (after, e9, later) = required_bind-ok raw.privilege_level_after _ e later in
    let (metadata, e10, later) = required_bind-ok raw.metadata_sha256 _ e later in
    let (previous, e11, later) = required_bind-ok raw.previous_event_sha256 _ e later in
    let (digest, e12, later) = required_bind-ok raw.event_sha256 _ e later in
    let same : raw ≡ complete _ = λ i. record {
      event_id = e1 i;
      sequence = e2 i;
      observed_at_unix = e3 i;
      kind = e4 i;
      decision = e5 i;
      subject_id = e6 i;
      capability_id = e7 i;
      privilege_level_before = e8 i;
      privilege_level_after = e9 i;
      metadata_sha256 = e10 i;
      previous_event_sha256 = e11 i;
      event_sha256 = e12 i;
      unexpected = nothing i;
    } in
    same ∙ ap complete (ok_injective _ e later)

module _ ⦃h : Hashing⦄ where
  complete-parse_events :
      (raws : List RawEvent) (events : List TrajectoryEvent)
      → parse_events raws ≡ ok events
      → raws ≡ map complete events
  unfolding parse_events
  complete-parse_events [] events parsed = ap (map complete) (ok_injective [] events parsed)
  complete-parse_events (raw ∷ raws) events parsed =
      let (e, is_e, later) = >>=-eq-ok (parse_event raw) _ parsed in
      let (_, _, later) =
        >>=-eq-ok (raise_if (not (canonical_sha256 (body e) == e.event_sha256)) _) _ later in
      let (es, is_es, later) = >>=-eq-ok (parse_events raws) _ later in
      let head = complete-parse_event raw e is_e in
      let tail = complete-parse_events raws es is_es in
      (λ i. head i ∷ tail i) ∙ ap (map complete) (ok_injective (e ∷ es) events later)

  parse_events-complete :
      (i : ℕ) (p : String) (t : ℤ) (es : List TrajectoryEvent)
      → IsChain i p t es
      → parse_events (map complete es) ≡ ok es
  unfolding parse_events
  parse_events-complete i p t [] c = refl
  parse_events-complete i p t (e ∷ es) c =
      let rest = parse_events-complete _ _ _ es c.1 in
      let hashed = (eq_iff (canonical_sha256 (body e)) e.event_sha256).1 c.0.hashed in
      rw (parse_event-complete e) (rw hashed (rw rest refl))

  analyzed-IsChain :
      (events : List TrajectoryEvent) (r : Value)
      → analyze_trajectory events ≡ ok r
      → IsChain 1 zero_sha256 (negsuc 0) events
  unfolding analyze_trajectory verify_chain
  analyzed-IsChain events r a =
      let (_, v, _) = >>=-eq-ok (verify_from 1 zero_sha256 (negsuc 0) events) _ a in
      verify_from_sound 1 zero_sha256 (negsuc 0) events v

  replay_of_ok :
      (events : List TrajectoryEvent) (r : Value)
      → analyze_trajectory events ≡ ok r
      → replay (map complete events) ≡ ok r
  unfolding replay
  replay_of_ok events r a =
      rw (parse_events-complete 1 zero_sha256 (negsuc 0) events (analyzed-IsChain events r a)) a

  -- `replay` accepts exactly the mappings that hold the twelve fields of the events of a
  -- trajectory, and no other key, where `analyze_trajectory` accepts that trajectory, and it gives
  -- the same receipt. The values of the mappings are of the annotated types.
  pub replay_iff :
      (raws : List RawEvent) (receipt : Value)
      → (replay raws ≡ ok receipt) ↔ (
          (events : List TrajectoryEvent) × (raws ≡ map complete events)
          × (analyze_trajectory events ≡ ok receipt))
  unfolding replay
  replay_iff raws receipt = (
    λ accepted.
        let (events, parsed, analyzed) = >>=-eq-ok (parse_events raws) _ accepted in
        (events, complete-parse_events raws events parsed, analyzed),
    λ (events, is_raws, analyzed).
        subst (λ x. replay x ≡ ok receipt) (sym is_raws) (replay_of_ok events receipt analyzed),
  )
