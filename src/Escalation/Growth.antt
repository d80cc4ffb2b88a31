-- ===== src/Escalation/Growth.antt =====
-- How the score moves as a trajectory grows by an event.
use mathlib.Core.List.{map-append}
use liminal_osai.Prelude.{
  ℕ, ◌≤◌, ℤ, pos, negsuc, ◌≤ℤ◌, -ℤ_parts, String, ◌≡◌, refl, Bool, true, some, List, [], ◌∷◌, ◌++◌,
  map, eq_iff, ◌↔◌, keep, last?, length, arith, ltb, if◌then◌else◌,
}
use liminal_osai.Hashing.{Hashing}
use liminal_osai.Escalation.Event.{TrajectoryEvent}
use liminal_osai.Escalation.Score.{
  Rule, rules, sort_rules, ordered_subsequence, match_rules, last_after, privilege_delta,
  privilege_points, update_caps, peak_caps, capability_points, decision_for,
}
use liminal_osai.Escalation.Decision.{is_allowed, allowed_of, raw_risk, risk_of, assess}

pub keep-append {ℓ} :
    {A : Type ℓ} (p : A → Bool) (xs ys : List A) → keep p (xs ++ ys) ≡ keep p xs ++ keep p ys
keep-append p [] ys = refl
keep-append p (x ∷ xs) ys = ground (arith, keep-append p xs ys)

ordered_subsequence-append :
    (vs ws : List String) (r : String) (rs : List String)
    → ordered_subsequence vs r rs ≡ true
    → ordered_subsequence (vs ++ ws) r rs ≡ true
unfolding ordered_subsequence
ordered_subsequence-append [] ws r rs h = absurd (cc)
ordered_subsequence-append (v ∷ vs) ws r [] h =
    ground (arith, ordered_subsequence-append vs ws r [])
ordered_subsequence-append (v ∷ vs) ws r (s ∷ rs) h =
    ground
      (arith, ordered_subsequence-append vs ws r (s ∷ rs), ordered_subsequence-append vs ws s rs)

match_rules_mono :
    (es fs : List TrajectoryEvent) (rs : List Rule)
    → (match_rules es rs).risk ≤ (match_rules (es ++ fs) rs).risk
unfolding match_rules
match_rules_mono es fs [] = omega arith
match_rules_mono es fs (r ∷ rs) = rw map-append (
    ground (
      arith,
      match_rules_mono es fs rs,
      ordered_subsequence-append (map (λ (e : TrajectoryEvent). e.kind) es)
          (map (λ (e : TrajectoryEvent). e.kind) fs) r.first r.others,
    ))

peak_caps_ge :
    (active : List String) (most : ℕ) (es : List TrajectoryEvent) → most ≤ peak_caps active most es
unfolding peak_caps
peak_caps_ge active most [] = omega arith
peak_caps_ge active most (e ∷ es) =
    let now = update_caps e active in
    ground (arith, peak_caps_ge now (if ltb most (length now) then length now else most) es)

peak_caps_mono :
    (active : List String) (most : ℕ) (es fs : List TrajectoryEvent)
    → peak_caps active most es ≤ peak_caps active most (es ++ fs)
unfolding peak_caps
peak_caps_mono active most [] fs = peak_caps_ge active most fs
peak_caps_mono active most (e ∷ es) fs =
    let now = update_caps e active in
    peak_caps_mono now (if ltb most (length now) then length now else most) es fs

capability_points_mono : (m n : ℕ) → m ≤ n → capability_points m ≤ capability_points n
unfolding capability_points
capability_points_mono m n h = ground arith

privilege_points_mono : (a b : ℤ) → a ≤ℤ b → privilege_points a ≤ privilege_points b
unfolding privilege_points
privilege_points_mono (pos a) (pos b) h = omega arith
privilege_points_mono (pos a) (negsuc b) h = absurd (omega arith)
privilege_points_mono (negsuc a) b h = omega arith

last_after-append :
    (level : ℤ) (es : List TrajectoryEvent) (e : TrajectoryEvent)
    → last_after level (es ++ e ∷ []) ≡ e.privilege_level_after
last_after-append level [] e = refl
last_after-append level (d ∷ es) e = last_after-append d.privilege_level_after es e

last_after-last :
    (d : TrajectoryEvent) (es : List TrajectoryEvent) (l : TrajectoryEvent)
    → last? (d ∷ es) ≡ some l
    → last_after d.privilege_level_after es ≡ l.privilege_level_after
last_after-last d [] l h = ground arith
last_after-last d (f ∷ es) l h = last_after-last f es l h

privilege_delta_grows :
    (es : List TrajectoryEvent) (l e : TrajectoryEvent)
    → last? es ≡ some l
    → l.privilege_level_after ≤ℤ e.privilege_level_after
    → privilege_delta es ≤ℤ privilege_delta (es ++ e ∷ [])
unfolding privilege_delta
privilege_delta_grows [] l e h up = absurd (cc)
privilege_delta_grows (d ∷ es) l e h up =
    rw (last_after-append, last_after-last d es l h)
      (omega (
        arith,
        -ℤ_parts l.privilege_level_after d.privilege_level_before,
        -ℤ_parts e.privilege_level_after d.privilege_level_before,
      ))

raw_risk_grows :
    (es : List TrajectoryEvent) (l e : TrajectoryEvent)
    → last? es ≡ some l
    → l.privilege_level_after ≤ℤ e.privilege_level_after
    → raw_risk es ≤ raw_risk (es ++ e ∷ [])
unfolding raw_risk allowed_of
raw_risk_grows es l e h up = rw keep-append (
    omega (
      arith,
      match_rules_mono (keep is_allowed es) (keep is_allowed (e ∷ [])) (sort_rules rules),
      privilege_points_mono (privilege_delta es) (privilege_delta (es ++ e ∷ []))
          (privilege_delta_grows es l e h up),
      capability_points_mono (peak_caps [] 0 (keep is_allowed es))
          (peak_caps [] 0 (keep is_allowed es ++ keep is_allowed (e ∷ [])))
          (peak_caps_mono [] 0 (keep is_allowed es) (keep is_allowed (e ∷ []))),
    ))

-- The decision is CONTAIN exactly from a score of 80 on.
decision_for-contain : (n : ℕ) → (decision_for n ≡ "CONTAIN") ↔ (80 ≤ n)
unfolding decision_for
decision_for-contain n = (
  λ e.
      ground (arith, eq_iff "BLOCK" "CONTAIN", eq_iff "REVISE" "CONTAIN", eq_iff "ALLOW" "CONTAIN"),
  λ le. ground arith,
)

module _ ⦃h : Hashing⦄ where
  -- One more event, allowed or not, that does not lower the privilege level never lowers the risk
  -- score, and a trajectory that was to be contained stays so.
  pub assess_grows :
      (events : List TrajectoryEvent) (latest e : TrajectoryEvent)
      → last? events ≡ some latest
      → latest.privilege_level_after ≤ℤ e.privilege_level_after
      → ((assess events).risk_score ≤ (assess (events ++ e ∷ [])).risk_score)
        × ((assess events).decision ≡ "CONTAIN" → (assess (events ++ e ∷ [])).decision ≡ "CONTAIN")
  unfolding assess risk_of
  assess_grows events latest e p up =
      let grows = raw_risk_grows events latest e p up in
      let contains = decision_for-contain (risk_of events) in
      let still_contains = decision_for-contain (risk_of (events ++ e ∷ [])) in
      (omega (arith, grows), λ c. still_contains.1 (omega (arith, contains.0 c, grows)))
