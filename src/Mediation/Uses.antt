-- ===== src/Mediation/Uses.antt =====
-- How often the capabilities of a broker were used, all together, and what `authorize` adds.
use liminal_osai.Prelude.{
  ℕ, suc, ◌+◌, ◌≤◌, String, ◌≡◌, refl, inl, inr, true, false, Bool-cases, List, [], ◌∷◌, ◌++◌, some,
  ◌==◌, eq_iff, arith, All, is_empty,
}
use liminal_osai.Json.{Fields}
use liminal_osai.Hashing.{Hashing}
use liminal_osai.Exec.{◌>>=◌, ◌>>◌}
use liminal_osai.Exec.Keeps.{bind-at, raise_if_then-at, get_bind-at, Keeps-lift}
use liminal_osai.Broker.State.{CapabilityState, Broker, find_state}
use liminal_osai.Broker.Authorize.{
  ineligible, Request, candidates, commit_use, deny, choose, authorize,
}
use liminal_osai.Broker.Dict.{id_of, IsUnique}
use liminal_osai.Broker.Invariant.{IsWithin}
use liminal_osai.Broker.Recording.{record-at}
use liminal_osai.Broker.Using.{IsCandidate, candidates_lem}
use liminal_osai.Broker.Refusals.{decided}
use liminal_osai.Broker.State.{CapabilityDecisionReceipt, replace_state}
use liminal_osai.Broker.Recording.{Having}
use liminal_osai.Broker.Authorize.{ineligible}
use liminal_osai.Prelude.{ap, sym, ◌∙◌, false, true, eq_iff, ok}
use liminal_osai.Exec.{lift}

-- the uses of all the capabilities, and the uses that their contracts allow
abbrev pub total_uses : List CapabilityState → ℕ
total_uses [] = 0
total_uses (s ∷ ss) = s.use_count + total_uses ss

abbrev pub total_budget : List CapabilityState → ℕ
total_budget [] = 0
total_budget (s ∷ ss) = s.contract.max_uses + total_budget ss

pub budget_bounds :
    (rs : List CapabilityDecisionReceipt) (ss : List CapabilityState)
    → All (IsWithin rs) ss
    → total_uses ss ≤ total_budget ss
budget_bounds rs [] a = omega arith
budget_bounds rs (s ∷ ss) ((low, high), a) = omega (arith, budget_bounds rs ss a)

pub replace-total :
    (id : String) (s new : CapabilityState) (ss : List CapabilityState)
    → find_state id ss ≡ some s
    → total_uses (replace_state id new ss) + s.use_count ≡ total_uses ss + new.use_count
replace-total id s new [] found = absurd cc
replace-total id s new (t ∷ ss) found = elim (Bool-cases (id_of t == id)) [
  | inl e ↦
      let same : t.use_count ≡ s.use_count =
        ap (λ x. x.use_count) (let q : t ≡ s = ground arith in q) in
      rw e (omega (arith, same))
  | inr e ↦ let rest = replace-total id s new ss (ground arith) in rw e (omega arith)
]

allow_block : (d : String) → d ≡ "ALLOW" → ¬ (d ≡ "BLOCK")
allow_block d a b = let impossible : false ≡ true = (eq_iff "ALLOW" "BLOCK").1 (sym a ∙ b) in cc

-- the states have been used so often, at least
abbrev pub UsedAtLeast : ℕ → List CapabilityState → List CapabilityDecisionReceipt → Type 0
UsedAtLeast n ss rs = n ≤ total_uses ss

module _ ⦃h : Hashing⦄ (q : Request) (scope : Fields) (sha : String) (n : ℕ) (least : ℕ) where
  choose-UsedAtLeast :
      (reasons : List String) (ss : List CapabilityState) (b : Broker)
      → All (IsCandidate q b.states) ss
      → least ≤ total_uses b.states
      → least ≤ total_uses (choose q scope sha n reasons ss b).1.states
  unfolding choose deny commit_use ◌>>◌ ◌>>=◌
  choose-UsedAtLeast reasons [] b a low =
      record-at (UsedAtLeast least) (UsedAtLeast least) _ _ b (λ ss rs k. k) (λ ss rs r k is. k) low
  choose-UsedAtLeast reasons (s ∷ ss) b (a, rest) low =
      elim (Bool-cases (is_empty (ineligible s q.policy_sha256 scope n))) [
        | inl e ↦
            let new : CapabilityState = record s { use_count = s.use_count + 1 } in
            let sum = replace-total (id_of s) s new b.states a.0 in
            let kept : least ≤ total_uses (replace_state (id_of s) new b.states) = omega arith in
            rw e (
              record-at (UsedAtLeast least) (UsedAtLeast least) _ _ _ (λ ss rs k. k)
                (λ ss rs r k is. k) kept)
        | inr e ↦
            rw e
              (choose-UsedAtLeast (reasons ++ ineligible s q.policy_sha256 scope n) ss b rest low)
      ]

module _ ⦃h : Hashing⦄ (q : Request) (b : Broker) (unique : IsUnique b.states) where
  -- No use is forgotten, returned or raised.
  pub authorize-UsedAtLeast :
      (least : ℕ) → least ≤ total_uses b.states → least ≤ total_uses (authorize q b).1.states
  unfolding authorize
  authorize-UsedAtLeast least low =
      let P : Broker → Type 0 = λ c. c.states ≡ b.states in
      bind-at P (Having (UsedAtLeast least)) (lift _) _ b (Keeps-lift _) (λ c e. rw e low)
        (λ n c e. raise_if_then-at (Having (UsedAtLeast least)) _ _ _ c (rw e low) λ _.
          bind-at P (Having (UsedAtLeast least)) (lift _) _ c (Keeps-lift _) (λ d f. rw f low)
            (λ scope d f. get_bind-at (Having (UsedAtLeast least)) _ d (
              choose-UsedAtLeast q scope _ n least [] (candidates q d.states) d
                (candidates_lem q d.states (rw f unique)) (rw f low)))
            e)
        refl

  -- An `authorize` that allows adds one use.
  pub authorize-allowed :
      (r : CapabilityDecisionReceipt)
      → (authorize q b).0 ≡ ok r
      → r.decision ≡ "ALLOW"
      → total_uses (authorize q b).1.states ≡ suc (total_uses b.states)
  authorize-allowed r returned allowed =
      let c = (authorize q b).1 in
      let d = decided q b c r unique (ap (λ x. (x, c)) returned) in
      elim d.outcome [
        | inl g ↦
            let sum =
              replace-total (id_of g.state) g.state
                (record g.state { use_count = g.state.use_count + 1 }) b.states g.candidate.0 in
            rw g.counted (omega arith)
        | inr f ↦ absurd (allow_block r.decision allowed f.blocked)
      ]
