-- ===== src/Broker/Refusals.antt =====
-- The two outcomes of an `authorize` that returns.
use liminal_osai.Prelude.{
  ℕ, ◌+◌, ℤ, pos, String, ◌≡◌, refl, ap, ◌⊎◌, inl, inr, Bool, true, false, Bool-cases, &&-join,
  List, [], ◌∷◌, ◌++◌, some, Result, ok, err, All, keep, ltb, leb, negsuc, if◌then◌else◌, arith,
  eq_iff, ◌==◌, sorted, distinct, is_empty,
}
use liminal_osai.Json.{Fields, obj}
use liminal_osai.Hashing.{Hashing}
use liminal_osai.Exec.Returns.{lift_bind-ok, get_bind-ok, modify_then-ok, raise_if_then-ok}
use liminal_osai.Contracts.Scope.{validate_scope}
use liminal_osai.Broker.State.{
  CapabilityDecisionReceipt, CapabilityState, Broker, create, replace_state, check_time,
}
use liminal_osai.Broker.Records.{new_decision}
use liminal_osai.Broker.Authorize.{
  ineligible, Request, candidates, as_broker_error, commit_use, deny, choose, authorize,
}
use liminal_osai.Broker.Calls.{Call, after}
use liminal_osai.Broker.Dict.{id_of, IsUnique, All-sort_back}
use liminal_osai.Broker.Using.{Eligible, ineligible-Eligible, IsCandidate, candidates_lem}
use liminal_osai.Broker.Grants.{record_lem}
use liminal_osai.Broker.Guarantees.{create-IsSound}
use liminal_osai.Broker.Preservation.{after-IsSound}

Eligible-ineligible :
    (s : CapabilityState) (policy : String) (scope : Fields) (n : ℕ)
    → Eligible s policy scope n
    → ineligible s policy scope n ≡ []
unfolding ineligible sorted distinct
Eligible-ineligible s policy scope n can =
    let early : ltb n s.contract.not_before_unix ≡ false = let x = can.started in ground arith in
    let late : leb s.contract.expires_at_unix n ≡ false = let x = can.live in ground arith in
    let used : leb s.contract.max_uses s.use_count ≡ false = let x = can.room in ground arith in
    let same : (s.contract.policy_sha256 == policy) ≡ true =
      (eq_iff s.contract.policy_sha256 policy).1 can.same_policy in
    rw can.running (rw early (rw late (rw same (rw used (rw can.contained refl)))))

-- the receipt and the states after a use that was allowed
pub record Granted (q : Request) (scope : Fields) (n : ℕ) (b c : Broker)
    (r : CapabilityDecisionReceipt) : Type 0 where
  pub state : CapabilityState
  pub candidate : IsCandidate q b.states state
  pub eligible : Eligible state q.policy_sha256 scope n
  pub allowed : r.decision ≡ "ALLOW"
  pub named : r.capability_id ≡ some (id_of state)
  pub counted :
      c.states
      ≡ replace_state (id_of state) (record state { use_count = state.use_count + 1 }) b.states

-- a state that could have served the request
abbrev pub Serves : Request → Fields → ℕ → CapabilityState → Type 0
Serves q scope n s =
    (s.contract.subject_id ≡ q.subject_id)
    × (s.contract.capability_type ≡ q.capability_type)
    × Eligible s q.policy_sha256 scope n

-- the receipt and the states after a refusal
pub record Refused (q : Request) (scope : Fields) (n : ℕ) (b c : Broker)
    (r : CapabilityDecisionReceipt) : Type 0 where
  pub blocked : r.decision ≡ "BLOCK"
  pub untouched : c.states ≡ b.states
  pub none_serves : All (λ s. ¬ Serves q scope n s) b.states

keep_back :
    (p : CapabilityState → Bool) (P R : CapabilityState → Type 0) (ss : List CapabilityState)
    → ((s : CapabilityState) → p s ≡ true → P s → R s)
    → ((s : CapabilityState) → p s ≡ false → R s)
    → All P (keep p ss)
    → All R ss
keep_back p P R [] f g a = tt
keep_back p P R (s ∷ ss) f g a = one (p s) refl a (keep_back p P R ss f g)
  where
    one :
        (b : Bool)
        → p s ≡ b
        → All P (elim b [ true ↦ s ∷ keep p ss | false ↦ keep p ss ])
        → (All P (keep p ss) → All R ss)
        → All R (s ∷ ss)
    one true e (x, y) back = (f s e x, back y)
    one false e y back = (g s e, back y)

-- No candidate is fit: no state could have served.
none_serves_lem :
    (q : Request) (scope : Fields) (n : ℕ) (ss : List CapabilityState)
    → All (λ s. ¬ Eligible s q.policy_sha256 scope n) (candidates q ss)
    → All (λ s. ¬ Serves q scope n s) ss
none_serves_lem q scope n ss a =
    keep_back _ (λ s. ¬ Eligible s q.policy_sha256 scope n) (λ s. ¬ Serves q scope n s) ss
      (λ s e unfit serves. unfit serves.2)
      (λ s e serves.
        let match = &&-join _ _ ((eq_iff _ _).1 serves.0) ((eq_iff _ _).1 serves.1) in cc)
      (All-sort_back (λ s. ¬ Eligible s q.policy_sha256 scope n) _ a)

abbrev AllUnfit : Request → Fields → ℕ → List CapabilityState → Type 0
AllUnfit q scope n ss = All (λ s. ¬ Eligible s q.policy_sha256 scope n) ss

module _ ⦃h : Hashing⦄ (q : Request) (scope : Fields) (sha : String) (n : ℕ) (b c : Broker)
    (r : CapabilityDecisionReceipt) where
  commit_use_lem :
      (s : CapabilityState)
      → IsCandidate q b.states s
      → Eligible s q.policy_sha256 scope n
      → commit_use q scope sha n s b ≡ (ok r, c)
      → Granted q scope n b c r
  unfolding commit_use new_decision
  commit_use_lem s there can returned =
      let (event, built, is_r, is_c) = record_lem _ _ _ c r (modify_then-ok _ _ b c r returned) in
      record {
        state = s;
        candidate = there;
        eligible = can;
        allowed = ap (λ x. x.decision) is_r;
        named = ap (λ x. x.capability_id) is_r;
        counted = ap (λ x. x.states) is_c;
      }

  choose_lem :
      (reasons : List String) (ss : List CapabilityState)
      → All (IsCandidate q b.states) ss
      → choose q scope sha n reasons ss b ≡ (ok r, c)
      → Granted q scope n b c r
        ⊎ ((r.decision ≡ "BLOCK") × (c.states ≡ b.states) × AllUnfit q scope n ss)
  unfolding choose deny new_decision
  choose_lem reasons [] a returned =
      let (event, built, is_r, is_c) = record_lem _ _ b c r returned in
      inr (ap (λ x. x.decision) is_r, ap (λ x. x.states) is_c, tt)
  choose_lem reasons (s ∷ ss) (there, a) returned =
      one (is_empty bad) refl returned (choose_lem (reasons ++ bad) ss a)
    where
      bad : List String
      bad = ineligible s q.policy_sha256 scope n

      one :
          (empty : Bool)
          → is_empty bad ≡ empty
          → (if empty then commit_use q scope sha n s else choose q scope sha n (reasons ++ bad) ss)
              b
            ≡ (ok r, c)
          → (choose q scope sha n (reasons ++ bad) ss b ≡ (ok r, c)
              → Granted q scope n b c r
                ⊎ ((r.decision ≡ "BLOCK") × (c.states ≡ b.states) × AllUnfit q scope n ss))
          → Granted q scope n b c r
            ⊎ ((r.decision ≡ "BLOCK") × (c.states ≡ b.states) × AllUnfit q scope n (s ∷ ss))
      one true e k rest = inl (commit_use_lem s there (ineligible-Eligible _ _ _ _ e) k)
      one false e k rest = elim (rest k) [
        | inl granted ↦ inl granted
        | inr (block, same, unfit) ↦
            inr
              (block, same, ((λ can. let none_left = Eligible-ineligible _ _ _ _ can in cc), unfit))
      ]

as_broker_error-ok : {A : Type 0} (x : Result A) (a : A) → as_broker_error x ≡ ok a → x ≡ ok a
unfolding as_broker_error
as_broker_error-ok (ok a) b e = e
as_broker_error-ok (err e) b k = elim (Bool-cases (e.type_name == "ContractError")) [
  | inl same ↦ absurd (ground arith)
  | inr other ↦ absurd (ground arith)
]

pub check_time-ok : (at : ℤ) (n : ℕ) → check_time at ≡ ok n → at ≡ pos n
unfolding check_time
check_time-ok (pos m) n e = ap pos (let same : ok m ≡ ok n = e in cc)
check_time-ok (negsuc m) n e = absurd cc

-- what an `authorize` that returned has decided
pub record Decided (q : Request) (b c : Broker) (r : CapabilityDecisionReceipt) : Type 0 where
  pub time : ℕ
  pub scope : Fields
  pub time_given : q.at_unix ≡ pos time
  pub scope_valid : validate_scope q.capability_type (obj q.requested_scope) ≡ ok scope
  pub outcome : Granted q scope time b c r ⊎ Refused q scope time b c r

pub decided :
    ⦃h : Hashing⦄ (q : Request) (b c : Broker) (r : CapabilityDecisionReceipt)
    → IsUnique b.states
    → authorize q b ≡ (ok r, c)
    → Decided q b c r
unfolding authorize
decided q b c r u returned =
    let (n, is_n, later) = lift_bind-ok _ _ b c r returned in
    let (known, later) = raise_if_then-ok _ _ _ b c r later in
    let (scope, valid, later) = lift_bind-ok _ _ b c r later in
    record {
      time = n;
      scope = scope;
      time_given = check_time-ok _ _ is_n;
      scope_valid = as_broker_error-ok _ _ valid;
      outcome =
          elim (choose_lem q scope _ n b c r [] (candidates q b.states)
            (candidates_lem q b.states u) (get_bind-ok _ b c r later)) [
              | inl granted ↦ inl granted
              | inr (block, same, unfit) ↦ inr (record {
                blocked = block;
                untouched = same;
                none_serves = none_serves_lem q scope n b.states unfit;
              })
            ];
    }

-- An `authorize` that returns, on a broker that any calls have left, had a valid time and scope and
-- does one of two things. It allows the use of a capability of that subject and type that is
-- active, in its window, under the policy, not used up and contains the scope, whose use count
-- alone goes up by one. Or it blocks, no state changes, and no capability of the broker could have
-- served.
pub authorize_lem :
    ⦃h : Hashing⦄ (broker_id : String) (calls : List Call) (q : Request) (c : Broker)
    (r : CapabilityDecisionReceipt)
    → authorize q (after (create broker_id) calls) ≡ (ok r, c)
    → Decided q (after (create broker_id) calls) c r
authorize_lem broker_id calls q c r returned =
    decided q (after (create broker_id) calls) c r
      (after-IsSound [] calls (create broker_id) (create-IsSound broker_id)).unique returned
