-- ===== src/Escalation/Decision.antt =====
-- `analyze_trajectory`: the decision, its explanation and its receipt.
use liminal_osai.Prelude.{
  ℕ, zero, ◌+◌, ℤ, pos, negsuc, String, Bool, true, false, not, List, [], ◌∷◌, ◌++◌, map, Result,
  ok, ◌>>◌, ltb, ◌==◌, keep, is_empty, concat, join, show, show_ℤ, sorted, distinct,
}
use Prim.Native.Nat.{min}
use liminal_osai.Json.{Value, str, int, nat, bool, object, array, strings}
use liminal_osai.Hashing.{Hashing, canonical_sha256}
use liminal_osai.Escalation.Event.{TrajectoryEvent, body_fields}
use liminal_osai.Escalation.Chain.{verify_chain}
use liminal_osai.Escalation.Score.{
  Matches, rules, sort_rules, match_rules, privilege_delta, privilege_points, peak_caps,
  capability_points, decision_for,
}

-- `f"{n:+d}"`
abbrev signed : ℤ → String
signed (pos n) = concat ("+" ∷ show n ∷ [])
signed (negsuc n) = show_ℤ (negsuc n)

abbrev is_zero : ℤ → Bool
is_zero (pos zero) = true
is_zero _ = false

abbrev part_if : Bool → String → List String
part_if true part = part ∷ []
part_if false part = []

explain : String → ℕ → List String → List String → ℤ → ℕ → String
explain decision score matched event_ids delta peak = join "; " (
    concat ("trajectory risk=" ∷ show score ∷ "/100 → " ∷ decision ∷ [])
      ∷ part_if (not (is_empty matched)) (concat ("matched rules: " ∷ join ", " matched ∷ []))
    ++ part_if (not (is_empty event_ids))
        (concat ("contributing events: " ∷ join ", " event_ids ∷ []))
    ++ part_if (not (is_zero delta)) (concat ("privilege delta: " ∷ signed delta ∷ []))
    ++ part_if (ltb 0 peak) (concat ("peak active capability count: " ∷ show peak ∷ [])))

pub record EscalationDecision : Type 0 where
  pub decision : String
  pub risk_score : ℕ
  pub matched_rules : List String
  pub contributing_event_ids : List String
  pub privilege_delta : ℤ
  pub capability_delta : ℕ
  pub explanation : String
  pub graph_sha256 : String
  pub receipt_sha256 : String

abbrev authority : Value
authority = object (
    ("mode", str "trajectory_analysis_only")
    ∷ ("capability_grant", bool false)
    ∷ ("execution", bool false)
    ∷ ("network_mediation", bool false)
    ∷ ("credential_access", bool false)
    ∷ ("process_control", bool false)
    ∷ ("containment_execution", bool false)
    ∷ ("human_release", bool false)
    ∷ [])

unfoldable pub decision_fields : EscalationDecision → List (String × Value)
decision_fields d =
    ("schema", str "liminal-causal-escalation-decision-v0.1")
    ∷ ("decision", str d.decision)
    ∷ ("risk_score", nat d.risk_score)
    ∷ ("matched_rules", strings d.matched_rules)
    ∷ ("contributing_event_ids", strings d.contributing_event_ids)
    ∷ ("privilege_delta", int d.privilege_delta)
    ∷ ("capability_delta", nat d.capability_delta)
    ∷ ("explanation", str d.explanation)
    ∷ ("graph_sha256", str d.graph_sha256)
    ∷ ("authority", authority)
    ∷ []

unfoldable pub as_document : EscalationDecision → Value
unfolding decision_fields
as_document d = object (decision_fields d ++ ("receipt_sha256", str d.receipt_sha256) ∷ [])

abbrev pub is_allowed : TrajectoryEvent → Bool
is_allowed e = e.decision == "ALLOW"

unfoldable pub allowed_of : List TrajectoryEvent → List TrajectoryEvent
allowed_of = keep is_allowed

abbrev pub matches_of : List TrajectoryEvent → Matches
matches_of events = match_rules (allowed_of events) (sort_rules rules)

-- `risk`, before and after `min(100, risk)`
unfoldable pub raw_risk : List TrajectoryEvent → ℕ
raw_risk events =
    (matches_of events).risk
    + privilege_points (privilege_delta events)
    + capability_points (peak_caps [] 0 (allowed_of events))

unfoldable pub risk_of : List TrajectoryEvent → ℕ
unfolding raw_risk
risk_of events = min 100 (raw_risk events)

-- `event.body() | {"event_sha256": ...}`
abbrev node : TrajectoryEvent → Value
node e = object (body_fields e ++ ("event_sha256", str e.event_sha256) ∷ [])

module _ ⦃h : Hashing⦄ where
  unfoldable pub graph_sha : List TrajectoryEvent → String
  graph_sha events = canonical_sha256 (array (map node events))

  -- the decision that `analyze_trajectory` reaches on a verified trajectory
  unfoldable pub assess : List TrajectoryEvent → EscalationDecision
  unfolding explain
  assess events =
      let found = matches_of events in
      let risk = risk_of events in
      let decision = decision_for risk in
      let contributing = sorted (distinct found.contributors) in
      let delta = privilege_delta events in
      let peak = peak_caps [] 0 (allowed_of events) in
      let base : EscalationDecision = record {
        decision = decision;
        risk_score = risk;
        matched_rules = found.matched;
        contributing_event_ids = contributing;
        privilege_delta = delta;
        capability_delta = peak;
        explanation = explain decision risk found.matched contributing delta peak;
        graph_sha256 = graph_sha events;
        receipt_sha256 = "";
      } in
      record base { receipt_sha256 = canonical_sha256 (object (decision_fields base)) }

  unfoldable pub analyze_trajectory : List TrajectoryEvent → Result Value
  analyze_trajectory events = do verify_chain events; ok (as_document (assess events))
