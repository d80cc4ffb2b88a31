-- ===== src/Broker/Guarantees.antt =====
-- What holds of a broker after any calls, whether they returned or raised.
use liminal_osai.Prelude.{◌≤◌, String, ◌≡◌, refl, subst, false, List, [], none, some, All}
use liminal_osai.Hashing.{Hashing}
use liminal_osai.Broker.State.{is_active, CapabilityState, Broker, create, find_state}
use liminal_osai.Broker.Calls.{Call, after}
use liminal_osai.Broker.Dict.{find_state-id, All-find}
use liminal_osai.Broker.Invariant.{IsRoot, IsWithin, spent}
use liminal_osai.Broker.Recording.{IsSound}
use liminal_osai.Broker.Preservation.{after-IsSound}

pub create-IsSound : (broker_id : String) → IsSound [] (create broker_id)
create-IsSound broker_id = record {
  unique = tt;
  bounded = tt;
  unknown = λ id gone. refl;
  final = λ id s there closed. absurd cc;
  rooted = tt;
}

-- A sound broker is sound with itself as the start.
rebase : {base : List CapabilityState} (b : Broker) → IsSound base b → IsSound b.states b
rebase b i = record {
  unique = i.unique;
  bounded = i.bounded;
  unknown = i.unknown;
  final = λ id s there closed. there;
  rooted = i.rooted;
}

module _ ⦃h : Hashing⦄ (broker_id : String) (calls : List Call) where
  -- After any calls on a new broker, returned or raised, the receipts that record a use of a
  -- capability are no more than its use count, which is no more than its `max_uses`.
  pub uses_bounded :
      (id : String) (s : CapabilityState)
      → find_state id (after (create broker_id) calls).states ≡ some s
      → (spent id (after (create broker_id) calls).receipts ≤ s.use_count)
        × (s.use_count ≤ s.contract.max_uses)
  uses_bounded id s found =
      let b = after (create broker_id) calls in
      let i = after-IsSound [] calls (create broker_id) (create-IsSound broker_id) in
      let (low, high) = All-find (IsWithin b.receipts) id b.states s i.bounded found in
      (subst (λ j. spent j b.receipts ≤ s.use_count) (find_state-id id b.states s found) low, high)

  pub uses_known :
      (id : String)
      → find_state id (after (create broker_id) calls).states ≡ none
      → spent id (after (create broker_id) calls).receipts ≡ 0
  uses_known = (after-IsSound [] calls (create broker_id) (create-IsSound broker_id)).unknown

  -- After any calls on a new broker, no capability has a parent or is delegable: delegation fails
  -- closed.
  pub no_delegation : All IsRoot (after (create broker_id) calls).states
  no_delegation = (after-IsSound [] calls (create broker_id) (create-IsSound broker_id)).rooted

  -- A capability that is revoked or expired stays as it is, use count included, whatever calls
  -- follow.
  pub closed_final :
      (later : List Call) (id : String) (s : CapabilityState)
      → find_state id (after (create broker_id) calls).states ≡ some s
      → is_active s.status ≡ false
      → find_state id (after (after (create broker_id) calls) later).states ≡ some s
  closed_final later id s found closed =
      let b = after (create broker_id) calls in
      let i = rebase b (after-IsSound [] calls (create broker_id) (create-IsSound broker_id)) in
      (after-IsSound b.states later b i).final id s found closed
