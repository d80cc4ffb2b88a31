-- ===== src/Broker/Delegation.antt =====
-- What an `admit` of a new capability has checked, and what it has added, on a broker in any use.
use liminal_osai.Prelude.{
  ℕ, ◌≤◌, ◌<◌, ℤ, pos, String, ◌≡◌, refl, sym, ap, subst, ◌∙◌, List, [], ◌∷◌, ◌++◌, Option, none,
  some, arith, ok, All, false, ◌&&◌,
}
use liminal_osai.Json.{Fields, obj}
use liminal_osai.Hashing.{Hashing}
use liminal_osai.Exec.Returns.{
  lift_bind-ok, lift_then-ok, get_bind-ok, modify_then-ok, raise_if_then-ok,
}
use liminal_osai.Contracts.Capability.{CapabilityContract, from_document}
use liminal_osai.Broker.State.{
  CapabilityDecisionReceipt, CapabilityState, Broker, create, find_state,
}
use liminal_osai.Broker.Records.{lifecycle}
use liminal_osai.Broker.Admission.{new_state, admit_contract, admit}
use liminal_osai.Broker.Preservation.{new_state-IsRoot}
use liminal_osai.Broker.Invariant.{IsRoot}
use liminal_osai.Broker.Guarantees.{no_delegation}
use liminal_osai.Broker.Calls.{Call, after}
use liminal_osai.Contracts.Event.{is_none}
use liminal_osai.Contracts.Capability.Delegable.{from_document-delegable}
use liminal_osai.Broker.Grants.{record_lem}
use liminal_osai.Broker.Refusals.{check_time-ok}

-- an admission of a capability whose id is new: in time, without delegation
pub record Admitted (c : CapabilityContract) (at_unix : ℤ) (b d : Broker) : Type 0 where
  pub time : ℕ
  pub time_given : at_unix ≡ pos time
  pub issued : c.issued_at_unix ≤ time
  pub live : time < c.expires_at_unix
  pub orphan : c.parent_capability_id ≡ none
  pub undelegable : c.delegable ≡ false
  pub added : d.states ≡ b.states ++ new_state c ∷ []

module _ ⦃h : Hashing⦄ where
  lifecycle-states :
      (s : CapabilityState) (event_type decision : String) (reasons : List String) (n : ℕ)
      (b d : Broker) (r : CapabilityDecisionReceipt)
      → lifecycle s event_type decision reasons n b ≡ (ok r, d)
      → d.states ≡ b.states
  unfolding lifecycle
  lifecycle-states s event_type decision reasons n b d r returned =
      let (event, built, is_r, is_d) = record_lem _ _ b d r returned in ap (λ x. x.states) is_d

  admit_contract_lem :
      (c : CapabilityContract) (n : ℕ) (o : Option CapabilityState) (b d : Broker)
      (r : CapabilityDecisionReceipt)
      → o ≡ none
      → (c.delegable && is_none c.parent_capability_id) ≡ false
      → All IsRoot b.states
      → admit_contract c n o b ≡ (ok r, d)
      → Admitted c (pos n) b d
  unfolding admit_contract
  admit_contract_lem c n (some s) b d r free rule rooted returned = absurd cc
  admit_contract_lem c n none b d r free rule rooted returned =
      let (window, later) = raise_if_then-ok _ _ _ b d r returned in
      let (checked, valid, later) = lift_then-ok _ _ b d r (get_bind-ok _ b d r later) in
      let (orphan, undelegable) = new_state-IsRoot [] c b checked rule rooted valid in
      record {
        time = n;
        time_given = refl;
        issued = ground arith;
        live = ground arith;
        orphan = orphan;
        undelegable = undelegable;
        added = lifecycle-states _ _ _ _ _ _ d r (modify_then-ok _ _ b d r later);
      }

  rooted_admit-Admitted :
      (document : Fields) (at_unix : ℤ) (c : CapabilityContract) (b d : Broker)
      (r : CapabilityDecisionReceipt)
      → All IsRoot b.states
      → from_document (obj document) ≡ ok c
      → find_state c.capability_id b.states ≡ none
      → admit document at_unix b ≡ (ok r, d)
      → Admitted c at_unix b d
  unfolding admit
  rooted_admit-Admitted document at_unix c b d r rooted read free returned =
      let (n, is_n, later) = lift_bind-ok _ _ b d r returned in
      let (x, is_x, later) = lift_bind-ok _ _ b d r later in
      let later = get_bind-ok _ b d r later in
      let same : x ≡ c = (let e = sym is_x ∙ read in cc) in
      let free_x = ap (λ y. find_state y.capability_id b.states) same ∙ free in
      let done =
        admit_contract_lem x n (find_state x.capability_id b.states) b d r free_x
          (from_document-delegable _ x is_x) rooted later in
      subst (λ y. Admitted y at_unix b d) same
        (subst (λ y. Admitted x y b d) (sym (check_time-ok at_unix n is_n)) done)

  -- After any calls on a new broker, an `admit` that returns, of a document that is read as a
  -- contract whose id the broker does not hold, came at a time that is not before the contract's
  -- issue and before its expiry. The contract has no parent and cannot be delegated, and its
  -- capability is added, unused and active, behind the others, which stay as they were.
  pub admit-Admitted :
      (broker_id : String) (calls : List Call) (document : Fields) (at_unix : ℤ)
      (c : CapabilityContract) (d : Broker) (r : CapabilityDecisionReceipt)
      → from_document (obj document) ≡ ok c
      → find_state c.capability_id (after (create broker_id) calls).states ≡ none
      → admit document at_unix (after (create broker_id) calls) ≡ (ok r, d)
      → Admitted c at_unix (after (create broker_id) calls) d
  admit-Admitted broker_id calls document at_unix c d r =
      rooted_admit-Admitted document at_unix c (after (create broker_id) calls) d r
        (no_delegation broker_id calls)
