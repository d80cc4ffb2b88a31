-- ===== src/Escalation/Extend.antt =====
-- Extending a verified trajectory by an event that `TrajectoryEvent.build` made.
use liminal_osai.Prelude.{
  ℕ, suc, ◌+◌, ℤ, pos, negsuc, ◌≤ℤ◌, String, ◌≡◌, sym, subst, Option, List, [], ◌∷◌, ◌++◌, ok,
  length, arith,
}
use liminal_osai.Json.{Fields}
use liminal_osai.Hashing.{Hashing, canonical_sha256, zero_sha256}
use liminal_osai.Escalation.Event.{TrajectoryEvent, body, build}
use liminal_osai.Escalation.Chain.{verify_chain}
use liminal_osai.Escalation.Tamper.{
  IsLinked, IsChain, head_from, verify_from_sound, verify_from_complete,
}

abbrev pub time_from : ℤ → List TrajectoryEvent → ℤ
time_from t [] = t
time_from t (e ∷ es) = time_from e.observed_at_unix es

module _ ⦃h : Hashing⦄ where
  IsChain-append :
      (i : ℕ) (p : String) (t : ℤ) (es : List TrajectoryEvent) (e : TrajectoryEvent)
      → IsChain i p t es
      → IsLinked (i + length es) (head_from p es) (time_from t es) e
      → IsChain i p t (es ++ e ∷ [])
  IsChain-append i p t [] e c l = (
    record {
      numbered = ground (arith, l.numbered);
      linked = l.linked;
      later = l.later;
      hashed = l.hashed;
    },
    tt,
  )
  IsChain-append i p t (d ∷ es) e c l = (
    c.0,
    IsChain-append (suc i) d.event_sha256 d.observed_at_unix es e c.1 (record {
      numbered = ground (arith, l.numbered);
      linked = l.linked;
      later = l.later;
      hashed = l.hashed;
    }),
  )

  build_fields :
      (i : String) (s t : ℤ) (k d u : String) (c : Option String) (b a : ℤ) (m : Fields)
      (p : String) (e : TrajectoryEvent)
      → build i s t k d u c b a m p ≡ ok e
      → (e.sequence ≡ s)
        × (e.observed_at_unix ≡ t)
        × (e.previous_event_sha256 ≡ p)
        × (canonical_sha256 (body e) ≡ e.event_sha256)
  unfolding build body
  build_fields i s t k d u c b a m p e w = ground arith

  -- A verified trajectory, extended by an event that `build` accepts with the next sequence number,
  -- the digest at the end of the trajectory and a time that is not earlier, is verified.
  pub verify_chain-build :
      (events : List TrajectoryEvent) (id : String) (at : ℤ) (kind decision subject : String)
      (capability : Option String) (before after : ℤ) (metadata : Fields) (e : TrajectoryEvent)
      → verify_chain events ≡ ok tt
      → time_from (negsuc 0) events ≤ℤ at
      → build id
          (pos (1 + length events))
          at
          kind
          decision
          subject
          capability
          before
          after
          metadata
          (head_from zero_sha256 events)
        ≡ ok e
      → verify_chain (events ++ e ∷ []) ≡ ok tt
  unfolding verify_chain
  verify_chain-build events id at kind decision subject capability before after metadata e v le b =
      let (numbered, timed, linked, hashed) =
        build_fields id (pos (1 + length events)) at kind decision subject capability before after
          metadata (head_from zero_sha256 events) e b in
      verify_from_complete 1 zero_sha256 (negsuc 0) (events ++ e ∷ []) (
        IsChain-append 1 zero_sha256 (negsuc 0) events e
          (verify_from_sound 1 zero_sha256 (negsuc 0) events v)
          (record {
            numbered = numbered;
            linked = linked;
            later = subst (λ x. time_from (negsuc 0) events ≤ℤ x) (sym timed) le;
            hashed = hashed;
          }))
