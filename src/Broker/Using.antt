-- ===== src/Broker/Using.antt =====
-- `authorize`: who may use a capability, and what a use keeps.
use liminal_osai.Prelude.{
  ℕ, suc, ◌+◌, ◌≤◌, ◌<◌, String, ◌≡◌, refl, inl, inr, Bool, true, false, not, ◌&&◌, Bool-cases,
  &&-split, List, [], ◌∷◌, ◌++◌, some, ◌==◌, eq_iff, arith, if◌then◌else◌, ltb, leb, All, sorted,
  distinct, insert_sorted, str_leb, member, keep, is_empty,
}
use liminal_osai.Json.{Fields}
use liminal_osai.Hashing.{Hashing}
use liminal_osai.Exec.{◌>>=◌, ◌>>◌}
use liminal_osai.Exec.Keeps.{Keeps, Keeps-raise_if_then, get_bind-at, Keeps-bind, Keeps-lift}
use liminal_osai.Broker.State.{is_active, CapabilityState, Broker, find_state}
use liminal_osai.Broker.Scopes.{scope_contains}
use liminal_osai.Broker.Authorize.{
  reason_if, ineligible, Request, candidates, deny_reasons, commit_use, deny, choose, authorize,
}
use liminal_osai.Broker.Dict.{
  id_of, IsUnique, All-find, find-replace_same, IsFound, unique-IsFound, All-keep, All-sort,
}
use liminal_osai.Broker.Invariant.{Inv, IsWithin, All-join, spent, Inv-spend, Inv-replace}
use liminal_osai.Broker.Recording.{IsSound, record-at, Keeps-record_quiet}

-- A capability that a request may use.
pub record Eligible (s : CapabilityState) (policy : String) (scope : Fields) (n : ℕ) : Type 0 where
  pub running : is_active s.status ≡ true
  pub started : s.contract.not_before_unix ≤ n
  pub live : n < s.contract.expires_at_unix
  pub same_policy : s.contract.policy_sha256 ≡ policy
  pub room : s.use_count < s.contract.max_uses
  pub contained : scope_contains s.contract.capability_type s.contract.scope scope ≡ true

-- Six tests that give no reason are false.
no_reason :
    (a b c d e f : Bool) (o p q r s t : String)
    → reason_if a o
        ++ reason_if b p
        ++ reason_if c q
        ++ reason_if d r
        ++ reason_if e s
        ++ reason_if f t
      ≡ []
    → (a ≡ false) × (b ≡ false) × (c ≡ false) × (d ≡ false) × (e ≡ false) × (f ≡ false)
no_reason true b c d e f o p q r s t h = absurd cc
no_reason false true c d e f o p q r s t h = absurd cc
no_reason false false true d e f o p q r s t h = absurd cc
no_reason false false false true e f o p q r s t h = absurd cc
no_reason false false false false true f o p q r s t h = absurd cc
no_reason false false false false false true o p q r s t h = absurd cc
no_reason false false false false false false o p q r s t h = (refl, refl, refl, refl, refl, refl)

insert_sorted-filled : (x : String) (xs : List String) → is_empty (insert_sorted x xs) ≡ false
insert_sorted-filled x [] = refl
insert_sorted-filled x (y ∷ ys) = elim (Bool-cases (str_leb x y)) [
  | inl h ↦ rw h refl
  | inr h ↦ rw h refl
]

sorted-nil : (xs : List String) → is_empty (sorted xs) ≡ true → xs ≡ []
unfolding sorted
sorted-nil [] h = refl
sorted-nil (x ∷ xs) h = absurd (let full = insert_sorted-filled x (sorted xs) in cc)

distinct-nil : (xs : List String) → distinct xs ≡ [] → xs ≡ []
unfolding distinct
distinct-nil [] h = refl
distinct-nil (x ∷ xs) h = absurd (one (distinct xs) h)
  where
    one : (rest : List String) → ¬ ((if member x rest then rest else x ∷ rest) ≡ [])
    one [] e = cc
    one (y ∷ ys) e = elim (Bool-cases (member x (y ∷ ys))) [
      | inl m ↦ let f : y ∷ ys ≡ [] = ground arith in cc
      | inr m ↦ let f : x ∷ y ∷ ys ≡ [] = ground arith in cc
    ]

-- No reason is left out.
pub ineligible-Eligible :
    (s : CapabilityState) (policy : String) (scope : Fields) (n : ℕ)
    → is_empty (ineligible s policy scope n) ≡ true
    → Eligible s policy scope n
unfolding ineligible
ineligible-Eligible s policy scope n h =
    let c = s.contract in
    let (running, started, live, same, room, contained) =
      no_reason (not (is_active s.status)) (ltb n c.not_before_unix) (leb c.expires_at_unix n)
        (not (c.policy_sha256 == policy)) (leb c.max_uses s.use_count)
        (not (scope_contains c.capability_type c.scope scope)) _ _ _ _ _ _
        (distinct-nil _ (sorted-nil _ h)) in
    record {
      running = ground arith;
      started = ground arith;
      live = ground arith;
      same_policy = (eq_iff c.policy_sha256 policy).0 (ground arith);
      room = ground arith;
      contained = ground arith;
    }

module _ (p : CapabilityState → Bool) where
  keep-All : (ss : List CapabilityState) → All (λ s. p s ≡ true) (keep p ss)
  keep-All [] = tt
  keep-All (s ∷ ss) = one (p s) refl (keep-All ss)
    where
      one :
          (b : Bool)
          → p s ≡ b
          → All (λ t. p t ≡ true) (keep p ss)
          → All (λ t. p t ≡ true) (elim b [ true ↦ s ∷ keep p ss | false ↦ keep p ss ])
      one true e rest = (e, rest)
      one false e rest = rest

-- a state of the broker that is for the request's subject and type
abbrev pub IsCandidate : Request → List CapabilityState → CapabilityState → Type 0
IsCandidate q ss s =
    IsFound ss s
    × (s.contract.subject_id ≡ q.subject_id)
    × (s.contract.capability_type ≡ q.capability_type)

pub candidates_lem :
    (q : Request) (ss : List CapabilityState)
    → IsUnique ss
    → All (IsCandidate q ss) (candidates q ss)
candidates_lem q ss u =
    let p : CapabilityState → Bool = λ s.
      s.contract.subject_id == q.subject_id && s.contract.capability_type == q.capability_type in
    All-sort (IsCandidate q ss) (keep p ss) (
      All-join (keep p ss)
        (λ s found match.
          let (subject, type) = &&-split _ _ match in
          (found, (eq_iff _ _).0 subject, (eq_iff _ _).0 type))
        (All-keep (IsFound ss) p ss (unique-IsFound ss u)) (keep-All p ss))

module _ ⦃h : Hashing⦄ (base : List CapabilityState) (q : Request) (scope : Fields) (sha : String)
    (n : ℕ) where
  commit_use-IsSound :
      (s : CapabilityState) (b : Broker)
      → IsFound b.states s
      → Eligible s q.policy_sha256 scope n
      → IsSound base b
      → IsSound base (commit_use q scope sha n s b).1
  unfolding commit_use ◌>>=◌ ◌>>◌
  commit_use-IsSound s b found can i =
      let id = id_of s in
      let new : CapabilityState = record s { use_count = s.use_count + 1 } in
      record-at
        (λ ss rs.
          Inv base ss rs × (find_state id ss ≡ some new) × (suc (spent id rs) ≤ new.use_count))
        (Inv base) _ _ _ (λ ss rs k. k.0) (λ ss rs r k is. Inv-spend k.0 r id new is.0 k.1 k.2)
        (
          Inv-replace i id s new found can.running refl (omega arith)
              (let room = can.room in omega arith),
          find-replace_same id new refl b.states s found,
          (let low = (All-find (IsWithin b.receipts) id b.states s i.bounded found).0 in
              omega arith),
        )

  deny-IsSound : (reasons : List String) → Keeps (IsSound base) (deny q scope sha n reasons)
  unfolding deny
  deny-IsSound reasons = Keeps-record_quiet base _ _ (λ r id is. rw is.0 refl)

  choose-IsSound :
      (reasons : List String) (ss : List CapabilityState) (b : Broker)
      → All (IsCandidate q b.states) ss
      → IsSound base b
      → IsSound base (choose q scope sha n reasons ss b).1
  unfolding choose
  choose-IsSound reasons [] b a i = (deny-IsSound (deny_reasons reasons)).at b i
  choose-IsSound reasons (s ∷ ss) b (a, rest) i =
      elim (Bool-cases (is_empty (ineligible s q.policy_sha256 scope n))) [
        | inl e ↦ rw e (commit_use-IsSound s b a.0 (ineligible-Eligible _ _ _ _ e) i)
        | inr e ↦
            rw e (choose-IsSound (reasons ++ ineligible s q.policy_sha256 scope n) ss b rest i)
      ]

pub Keeps-authorize :
    ⦃h : Hashing⦄ (base : List CapabilityState) (q : Request) → Keeps (IsSound base) (authorize q)
unfolding authorize
Keeps-authorize base q = Keeps-bind _ _ (Keeps-lift _) λ n. Keeps-raise_if_then _ _ _ λ _.
    Keeps-bind _ _ (Keeps-lift _) λ scope. record {
      at = λ b i. get_bind-at (IsSound base) _ b (
          choose-IsSound base q scope _ n [] (candidates q b.states) b
            (candidates_lem q b.states i.unique) i);
    }
