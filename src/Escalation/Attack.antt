-- ===== src/Escalation/Attack.antt =====
-- What the analysis decides on the staged attack that its rules describe.
use mathlib.Core.List.{Sublistᴰ}
use liminal_osai.Prelude.{ℕ, ◌≤◌, String, ◌≡◌, ◌≢◌, true, List, [], ◌∷◌, map, arith, eq_iff}
use liminal_osai.Hashing.{Hashing}
use liminal_osai.Escalation.Event.{TrajectoryEvent}
use liminal_osai.Escalation.Score.{
  rules, sort_rules, ordered_subsequence, match_rules, decision_for,
}
use liminal_osai.Escalation.Decision.{allowed_of, raw_risk, risk_of, assess}
use liminal_osai.Escalation.Subsequence.{ordered_subsequence_complete}

abbrev pub kinds_of : List TrajectoryEvent → List String
kinds_of = map (λ (e : TrajectoryEvent). e.kind)

Sublistᴰ-tail {ℓ} : {A : Type ℓ} {x : A} {xs ys : List A} → Sublistᴰ (x ∷ xs) ys → Sublistᴰ xs ys
Sublistᴰ-tail (Sublistᴰ.cons s) = Sublistᴰ.cons (Sublistᴰ-tail s)
Sublistᴰ-tail (Sublistᴰ.cons-cons e s) = Sublistᴰ.cons s

-- The two rules that a staged attack matches weigh 75 together.
staged_risk :
    (allowed : List TrajectoryEvent)
    → ordered_subsequence
        (kinds_of allowed)
        "package.install"
        ("credential.access" ∷ "process.spawn_child" ∷ [])
      ≡ true
    → ordered_subsequence (kinds_of allowed) "credential.access" ("process.spawn_child" ∷ []) ≡ true
    → 75 ≤ (match_rules allowed (sort_rules rules)).risk
unfolding match_rules
staged_risk allowed p q = ground arith

decision_for-blocks : (n : ℕ) → 50 ≤ n → (decision_for n ≢ "ALLOW") × (decision_for n ≢ "REVISE")
unfolding decision_for
decision_for-blocks n le = (
  λ e. ground (arith, eq_iff "BLOCK" "ALLOW", eq_iff "CONTAIN" "ALLOW"),
  λ e. ground (arith, eq_iff "BLOCK" "REVISE", eq_iff "CONTAIN" "REVISE"),
)

module _ ⦃h : Hashing⦄ where
  -- If a package installation, a later credential access and a later child process were all
  -- allowed, the score is at least 75 and the decision is neither ALLOW nor REVISE.
  pub assess_staged_attack :
      (events : List TrajectoryEvent)
      → Sublistᴰ
          ("package.install" ∷ "credential.access" ∷ "process.spawn_child" ∷ [])
          (kinds_of (allowed_of events))
      → (75 ≤ (assess events).risk_score)
        × ((assess events).decision ≢ "ALLOW")
        × ((assess events).decision ≢ "REVISE")
  unfolding assess risk_of raw_risk
  assess_staged_attack events s =
      let heavy =
        staged_risk (allowed_of events)
          (ordered_subsequence_complete (kinds_of (allowed_of events)) "package.install"
            ("credential.access" ∷ "process.spawn_child" ∷ []) s)
          (ordered_subsequence_complete (kinds_of (allowed_of events)) "credential.access"
            ("process.spawn_child" ∷ []) (Sublistᴰ-tail s)) in
      let high : 75 ≤ risk_of events = omega (arith, heavy) in
      let (not_allow, not_revise) = decision_for-blocks (risk_of events) (omega arith) in
      (high, not_allow, not_revise)
