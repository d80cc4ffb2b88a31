-- ===== src/Broker/Invariant.antt =====
-- The invariant of a broker: distinct ids, uses on record within the counts, counts within the
-- contracts' bounds, and closed capabilities as they were.
use liminal_osai.Prelude.{
  ℕ, suc, ◌+◌, ◌≤◌, String, ◌≡◌, refl, sym, ap, subst, ◌∙◌, inl, inr, Bool, true, false, ◌&&◌,
  Bool-cases, List, [], ◌∷◌, ◌++◌, Option, none, some, Option-cases, ◌==◌, eq_iff, arith,
  if◌then◌else◌, ltb, All,
}
use liminal_osai.Broker.State.{
  CapabilityDecisionReceipt, is_active, CapabilityState, find_state, replace_state,
}
use liminal_osai.Broker.Dict.{
  id_of, IsUnique, find-IsFresh, replace-IsUnique, find-replace_same, find-replace_other,
  IsUnique-append, find-append, IsFound, unique-IsFound, All-replace, All-append_one, find_state-id,
  All-find,
}

abbrev names : Option String → String → Bool
names none id = false
names (some c) id = c == id

-- the receipt records a use of the capability
abbrev pub spends : String → CapabilityDecisionReceipt → Bool
spends id r = names r.capability_id id && ltb r.use_count_before r.use_count_after

-- how many receipts record a use of the capability
abbrev pub spent : String → List CapabilityDecisionReceipt → ℕ
spent id [] = 0
spent id (r ∷ rs) = let rest = spent id rs in if spends id r then suc rest else rest

spent-append :
    (id : String) (rs : List CapabilityDecisionReceipt) (r : CapabilityDecisionReceipt)
    → spent id (rs ++ r ∷ []) ≡ spent id rs + (if spends id r then 1 else 0)
spent-append id [] r = ground arith
spent-append id (q ∷ rs) r = ground (arith, spent-append id rs r)

-- Every capability of the first list that is not active is as it was in the second.
abbrev pub Persists : List CapabilityState → List CapabilityState → Type 0
Persists before now =
    (id : String) (s : CapabilityState)
    → find_state id before ≡ some s
    → is_active s.status ≡ false
    → find_state id now ≡ some s

abbrev pub IsWithin : List CapabilityDecisionReceipt → CapabilityState → Type 0
IsWithin rs s = (spent (id_of s) rs ≤ s.use_count) × (s.use_count ≤ s.contract.max_uses)

-- a capability that nothing was delegated to, and that delegates nothing
abbrev pub IsRoot : CapabilityState → Type 0
IsRoot s = (s.contract.parent_capability_id ≡ none) × (s.contract.delegable ≡ false)

pub record Inv (base ss : List CapabilityState) (rs : List CapabilityDecisionReceipt) : Type 0 where
  pub unique : IsUnique ss
  pub bounded : All (IsWithin rs) ss
  pub unknown : (id : String) → find_state id ss ≡ none → spent id rs ≡ 0
  pub final : Persists base ss
  pub rooted : All IsRoot ss

pub All-join :
    {P Q R : CapabilityState → Type 0} (ss : List CapabilityState)
    → ((s : CapabilityState) → P s → Q s → R s)
    → All P ss
    → All Q ss
    → All R ss
All-join [] f a b = tt
All-join (s ∷ ss) f (a, more_a) (b, more_b) = (f s a b, All-join ss f more_a more_b)

module _ {base ss : List CapabilityState} {rs : List CapabilityDecisionReceipt}
    (i : Inv base ss rs) where
  -- a receipt that records no use
  pub Inv-quiet :
      (r : CapabilityDecisionReceipt)
      → ((id : String) → spends id r ≡ false)
      → Inv base ss (rs ++ r ∷ [])
  Inv-quiet r quiet =
      let same : (id : String) → spent id (rs ++ r ∷ []) ≡ spent id rs =
        λ id. ground (arith, spent-append id rs r, quiet id) in
      record {
        unique = i.unique;
        bounded = All-join ss (λ s a b. (rw (same (id_of s)) a.0, a.1)) i.bounded i.bounded;
        unknown = λ id gone. same id ∙ i.unknown id gone;
        final = i.final;
        rooted = i.rooted;
      }

  -- the receipt of a use that is counted already
  pub Inv-spend :
      (r : CapabilityDecisionReceipt) (id : String) (s : CapabilityState)
      → r.capability_id ≡ some id
      → find_state id ss ≡ some s
      → suc (spent id rs) ≤ s.use_count
      → Inv base ss (rs ++ r ∷ [])
  Inv-spend r id s mine found room = record {
    unique = i.unique;
    bounded = All-join ss one i.bounded (unique-IsFound ss i.unique);
    unknown = λ j gone. elim (Bool-cases (id == j)) [
      | inl e ↦ let same : id ≡ j = (eq_iff id j).0 e in absurd cc
      | inr e ↦ other j e ∙ i.unknown j gone
    ];
    final = i.final;
    rooted = i.rooted;
  }
    where
      other : (j : String) → (id == j) ≡ false → spent j (rs ++ r ∷ []) ≡ spent j rs
      other j e =
          let quiet : spends j r ≡ false = rw mine (rw e refl) in
          ground (arith, spent-append j rs r)

      one : (t : CapabilityState) → IsWithin rs t → IsFound ss t → IsWithin (rs ++ r ∷ []) t
      one t (low, high) there = elim (Bool-cases (id == id_of t)) [
        | inl e ↦
            let same : id ≡ id_of t = (eq_iff id (id_of t)).0 e in
            let t_is : s ≡ t = cc in (ground (arith, spent-append (id_of t) rs r), high)
        | inr e ↦ (rw (other (id_of t) e) low, high)
      ]

  -- the state of an active capability, changed to one that keeps the contract and the bounds
  pub Inv-replace :
      (id : String) (s new : CapabilityState)
      → find_state id ss ≡ some s
      → is_active s.status ≡ true
      → new.contract ≡ s.contract
      → s.use_count ≤ new.use_count
      → new.use_count ≤ new.contract.max_uses
      → Inv base (replace_state id new ss) rs
  Inv-replace id s new found running kept up high = record {
    unique = replace-IsUnique id new same ss i.unique;
    bounded = All-replace (IsWithin rs) id new ss (within, high) i.bounded;
    unknown = λ j gone. elim (Bool-cases (id == j)) [
      | inl e ↦
          let is_j : id ≡ j = (eq_iff id j).0 e in
          absurd (let hit = find-replace_same id new same ss s found in cc)
      | inr e ↦ i.unknown j (sym (find-replace_other id new same j ss e) ∙ gone)
    ];
    final = λ j t there closed. elim (Bool-cases (id == j)) [
      | inl e ↦
          let is_j : id ≡ j = (eq_iff id j).0 e in
          let now : find_state j ss ≡ some t = i.final j t there closed in
          let t_is : s ≡ t = cc in absurd cc
      | inr e ↦ find-replace_other id new same j ss e ∙ i.final j t there closed
    ];
    rooted = All-replace IsRoot id new ss (rw kept root) i.rooted;
  }
    where
      root : IsRoot s
      root = All-find IsRoot id ss s i.rooted found

      same : id_of new ≡ id
      same = ap (λ c. c.capability_id) kept ∙ find_state-id id ss s found

      within : spent (id_of new) rs ≤ new.use_count
      within =
          let mine = find_state-id id ss s found in
          let low = (All-find (IsWithin rs) id ss s i.bounded found).0 in
          let e : id_of s ≡ id_of new = mine ∙ sym same in
          let low' : spent (id_of new) rs ≤ s.use_count =
            subst (λ j. spent j rs ≤ s.use_count) e low in
          omega arith

  -- a new capability
  pub Inv-append :
      (new : CapabilityState)
      → find_state (id_of new) ss ≡ none
      → new.use_count ≡ 0
      → IsRoot new
      → Inv base (ss ++ new ∷ []) rs
  Inv-append new free zero_uses root = record {
    unique = IsUnique-append ss new i.unique (find-IsFresh (id_of new) ss free);
    bounded =
        All-append_one (IsWithin rs) ss new i.bounded
          (let none_yet = i.unknown (id_of new) free in omega arith, omega arith);
    unknown = λ j gone. elim (Option-cases (find_state j ss)) [
      | inl free_j ↦ i.unknown j free_j
      | inr (s, there) ↦ absurd (let hit = find-append j ss new s there in cc)
    ];
    final = λ j t there closed. find-append j ss new t (i.final j t there closed);
    rooted = All-append_one IsRoot ss new i.rooted root;
  }
