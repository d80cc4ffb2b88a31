-- ===== src/Escalation/Tests.antt =====
-- Runs of the trajectory analysis, and each theorem at a concrete trajectory.
use mathlib.Core.List.{Sublistᴰ}
use liminal_osai.Prelude.{
  ℕ, ◌+◌, ◌≤◌, pos, ◌-ℤ◌, String, ◌≡◌, ◌≢◌, refl, ◌↔◌, ◌⊎◌, true, none, List, [], ◌∷◌, ◌++◌, map,
  ok, err, arith,
}
use liminal_osai.Json.{end, obj}
use liminal_osai.Hashing.{canonical_sha256, zero_sha256}
use liminal_osai.Hashing.Toy.{toy, toy_digest}
use liminal_osai.Escalation.Event.{TrajectoryEvent, seal, build}
use liminal_osai.Escalation.Chain.{verify_chain}
use liminal_osai.Escalation.Score.{
  ordered_subsequence, contributors_for, match_rules, privilege_points, privilege_delta,
  capability_points, peak_caps, update_caps,
}
use liminal_osai.Escalation.Decision.{allowed_of, risk_of, assess, analyze_trajectory, as_document}
use liminal_osai.Escalation.Replay.{RawEvent, type_error, parse_event, parse_events, replay}
use liminal_osai.Escalation.Replayed.{complete, replay_iff}
use liminal_osai.Escalation.Subsequence.{ordered_subsequence_iff, contributors_for_kinds}
use liminal_osai.Escalation.Growth.{assess_grows}
use liminal_osai.Escalation.Tamper.{Collision, verify_chain_binds}
use liminal_osai.Escalation.Extend.{verify_chain-build}
use liminal_osai.Escalation.Attack.{kinds_of, assess_staged_attack}

-- an allowed event of the subject "agent:a", not yet sealed
abbrev raw_event : String → ℕ → String → ℕ → ℕ → String → TrajectoryEvent
raw_event id n kind before after previous = record {
  event_id = id;
  sequence = pos n;
  observed_at_unix = pos (100 + n);
  kind = kind;
  decision = "ALLOW";
  subject_id = "agent:a";
  capability_id = none;
  privilege_level_before = pos before;
  privilege_level_after = pos after;
  metadata_sha256 = zero_sha256;
  previous_event_sha256 = previous;
  event_sha256 = "";
}

abbrev install : TrajectoryEvent
install = seal (raw_event "e1" 1 "package.install" 0 1 zero_sha256)

abbrev credential : TrajectoryEvent
credential = seal (raw_event "e2" 2 "credential.access" 1 1 install.event_sha256)

abbrev child : TrajectoryEvent
child = seal (raw_event "e3" 3 "process.spawn_child" 1 2 credential.event_sha256)

-- the third event as `TrajectoryEvent.build` makes it, with empty metadata
abbrev built_child : TrajectoryEvent
built_child = seal (record (raw_event "e3" 3 "process.spawn_child" 1 2 credential.event_sha256) {
  metadata_sha256 = canonical_sha256 (obj end);
})

abbrev quiet : List TrajectoryEvent
quiet = install ∷ credential ∷ []

abbrev attack : List TrajectoryEvent
attack = install ∷ credential ∷ child ∷ []

attack_verified : verify_chain attack ≡ ok tt
unfolding verify_chain seal toy_digest
attack_verified = refl

quiet_verified : verify_chain quiet ≡ ok tt
unfolding verify_chain seal toy_digest
quiet_verified = refl

attack_score : (assess attack).risk_score ≡ 85
unfolding assess risk_of match_rules ordered_subsequence allowed_of privilege_points privilege_delta
    ◌-ℤ◌ capability_points peak_caps update_caps seal toy_digest
attack_score = refl

ordered_subsequence_iff_example :
    (ordered_subsequence ("a" ∷ "b" ∷ "c" ∷ []) "a" ("c" ∷ []) ≡ true)
    ↔ Sublistᴰ {A = String} ("a" ∷ "c" ∷ []) ("a" ∷ "b" ∷ "c" ∷ [])
ordered_subsequence_iff_example = ordered_subsequence_iff ("a" ∷ "b" ∷ "c" ∷ []) "a" ("c" ∷ [])

contributors_for_kinds_example :
    (chosen : List TrajectoryEvent) × Sublistᴰ chosen attack
    × (kinds_of chosen ≡ "credential.access" ∷ "process.spawn_child" ∷ [])
    × (contributors_for attack "credential.access" ("process.spawn_child" ∷ [])
        ≡ map (λ (e : TrajectoryEvent). e.event_id) chosen)
unfolding ordered_subsequence seal
contributors_for_kinds_example =
    contributors_for_kinds attack "credential.access" ("process.spawn_child" ∷ []) refl

assess_grows_example :
    ((assess quiet).risk_score ≤ (assess (quiet ++ child ∷ [])).risk_score)
    × ((assess quiet).decision ≡ "CONTAIN" → (assess (quiet ++ child ∷ [])).decision ≡ "CONTAIN")
unfolding seal
assess_grows_example = assess_grows quiet credential child refl (omega arith)

-- a trajectory of the same length whose last digest is another
verify_chain_binds_example : Collision ⊎ (attack ≡ attack)
verify_chain_binds_example =
    verify_chain_binds attack attack refl attack_verified attack_verified refl

verify_chain-build_example : verify_chain (quiet ++ built_child ∷ []) ≡ ok tt
unfolding build seal toy_digest
verify_chain-build_example =
    verify_chain-build quiet "e3" (pos 103) "process.spawn_child" "ALLOW" "agent:a" none (pos 1)
      (pos 2) end built_child quiet_verified (omega arith) refl

-- the mappings of a trajectory, and of one whose second event has a key too many
abbrev raw_attack : List RawEvent
raw_attack = map complete attack

abbrev raw_extended : List RawEvent
raw_extended = complete install ∷ record (complete credential) { unexpected = "note" ∷ [] } ∷ []

attack_replays : replay raw_attack ≡ analyze_trajectory attack
unfolding replay parse_events parse_event analyze_trajectory verify_chain assess as_document seal
    toy_digest
attack_replays = refl

extended_refused : replay raw_extended ≡ err type_error
unfolding replay parse_events parse_event seal toy_digest
extended_refused = refl

replay_iff_example : (replay raw_attack ≡ ok (as_document (assess attack))) ↔ (
    (events : List TrajectoryEvent) × (raw_attack ≡ map complete events)
    × (analyze_trajectory events ≡ ok (as_document (assess attack))))
replay_iff_example = replay_iff raw_attack (as_document (assess attack))

assess_staged_attack_example :
    (75 ≤ (assess attack).risk_score)
    × ((assess attack).decision ≢ "ALLOW")
    × ((assess attack).decision ≢ "REVISE")
unfolding allowed_of seal
assess_staged_attack_example =
    assess_staged_attack attack
      (Sublistᴰ.cons-cons refl (Sublistᴰ.cons-cons refl (Sublistᴰ.cons-cons refl Sublistᴰ.slnil)))
