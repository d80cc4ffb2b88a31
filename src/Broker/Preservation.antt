-- ===== src/Broker/Preservation.antt =====
-- Each method of the broker keeps the invariant, returned or raised.
use liminal_osai.Prelude.{
  ℕ, ℤ, String, ◌≡◌, refl, sym, ap, subst, ◌∙◌, inl, inr, true, false, ◌&&◌, Bool-cases, &&-split,
  List, [], ◌∷◌, Option, none, some, arith, leb, All, ok, Done,
}
use liminal_osai.Json.{Fields}
use liminal_osai.Hashing.{Hashing}
use liminal_osai.Exec.{◌>>=◌, ◌>>◌}
use liminal_osai.Exec.Keeps.{
  bind-at, Keeps, Keeps-pure, get_bind-at, modify_then-at, Keeps-bind, Keeps-lift, Keeps-then,
  raise_if_then-at, lift_then_ok-at, Keeps-lift_bind, modify_bind-at, bind_pure-at,
}
use liminal_osai.Contracts.Event.{is_none}
use liminal_osai.Contracts.Capability.{CapabilityContract}
use liminal_osai.Contracts.Capability.Delegable.{from_document-delegable}
use liminal_osai.Broker.Delegable.{validate_parent-ok}
use liminal_osai.Broker.State.{
  CapabilityDecisionReceipt, revoked, expired, is_active, CapabilityState, Broker, find_state,
  replace_state, sort_states,
}
use liminal_osai.Broker.Records.{lifecycle, or_unknown}
use liminal_osai.Broker.Admission.{validate_parent, admit_contract, admit, new_state}
use liminal_osai.Broker.Lifecycle.{revoke_state, revoke, expire_each, expire_due}
use liminal_osai.Broker.Calls.{
  Call, admit_call, authorize_call, revoke_call, expire_due_call, perform, after,
}
use liminal_osai.Broker.Dict.{
  id_of, IsFresh, IsUnique, find_state-id, find-replace_other, IsFound, unique-IsFound, All-sort,
  All-find, ==_sym-false, IsUnique-sort,
}
use liminal_osai.Broker.Invariant.{
  Inv, IsRoot, IsWithin, All-join, Inv-quiet, Inv-replace, Inv-append,
}
use liminal_osai.Broker.Recording.{Having, IsSound, record-at, Keeps-lifecycle}
use liminal_osai.Broker.Using.{Keeps-authorize}

module _ ⦃h : Hashing⦄ (base : List CapabilityState) where
  -- an active state that is changed to another status
  close_sound :
      (s gone : CapabilityState) (b : Broker)
      → IsFound b.states s
      → is_active s.status ≡ true
      → gone.contract ≡ s.contract
      → gone.use_count ≡ s.use_count
      → IsSound base b
      → Inv base (replace_state (id_of s) gone b.states) b.receipts
  close_sound s gone b found running same count i =
      let high = (All-find (IsWithin b.receipts) (id_of s) b.states s i.bounded found).1 in
      Inv-replace i (id_of s) s gone found running same (rw count (omega arith))
        (rw count (rw same high))

  revoke_state-IsSound :
      (s : CapabilityState) (n : ℕ) (b : Broker)
      → IsFound b.states s
      → IsSound base b
      → IsSound base (revoke_state s n b).1
  unfolding revoke_state ◌>>◌ ◌>>=◌
  revoke_state-IsSound s n b found i = elim (Bool-cases (is_active s.status)) [
    | inl e ↦ rw e (
        (Keeps-lifecycle base _ _ _ _ n).at _ (
          close_sound s (record s { status = revoked; revoked_at_unix = some n }) b found e refl
            refl i))
    | inr e ↦ rw e ((Keeps-lifecycle base s _ _ _ n).at b i)
  ]

  found_revoke-IsSound :
      (id : String) (n : ℕ) (b : Broker) (o : Option CapabilityState)
      → find_state id b.states ≡ o
      → IsSound base b
      → IsSound base ((or_unknown o >>= λ s. revoke_state s n) b).1
  unfolding ◌>>=◌
  found_revoke-IsSound id n b none e i = i
  found_revoke-IsSound id n b (some s) e i =
      revoke_state-IsSound s n b
        (subst (λ j. find_state j b.states ≡ some s) (sym (find_state-id id b.states s e)) e) i

  Keeps-revoke : (id : String) (n : ℤ) → Keeps (IsSound base) (revoke id n)
  unfolding revoke
  Keeps-revoke id n = Keeps-bind _ _ (Keeps-lift _) λ m. record {
    at = λ b i.
        get_bind-at (IsSound base) _ b
          (found_revoke-IsSound id m b (find_state id b.states) refl i);
  }

  -- A contract that passes the check of its parent has no parent: none could delegate.
  pub new_state-IsRoot :
      (c : CapabilityContract) (b : Broker) (d : Done)
      → (c.delegable && is_none c.parent_capability_id) ≡ false
      → All IsRoot b.states
      → validate_parent c c.parent_capability_id b.states ≡ ok d
      → IsRoot (new_state c)
  new_state-IsRoot c b d rule rooted valid = one c.parent_capability_id refl
    where
      one : (o : Option String) → c.parent_capability_id ≡ o → IsRoot (new_state c)
      one none e = (e, ground arith)
      one (some id) e =
          let (parent, found, running, narrow) =
            validate_parent-ok c (some id) b.states d
              (sym (ap (λ x. validate_parent c x b.states) e) ∙ valid) in
          let (orphan, closed) = All-find IsRoot id b.states parent rooted found in
          absurd (let open_one = narrow.delegable in cc)

  admit_contract-IsSound :
      (c : CapabilityContract) (n : ℕ) (b : Broker) (o : Option CapabilityState)
      → find_state c.capability_id b.states ≡ o
      → (c.delegable && is_none c.parent_capability_id) ≡ false
      → IsSound base b
      → IsSound base (admit_contract c n o b).1
  unfolding admit_contract
  admit_contract-IsSound c n b (some old) e rule i =
      raise_if_then-at (IsSound base) _ _ _ b i (λ _. (Keeps-lifecycle base old _ _ _ n).at b i)
  admit_contract-IsSound c n b none e rule i = raise_if_then-at (IsSound base) _ _ _ b i λ _.
      get_bind-at (IsSound base) _ b (
        lift_then_ok-at (IsSound base) _ _ b i λ d valid.
          (modify_then-at (IsSound base) _ _ b (Keeps-lifecycle base (new_state c) _ _ _ n)
            (Inv-append i (new_state c) e refl (new_state-IsRoot c b d rule i.rooted valid))))

  Keeps-admit : (document : Fields) (n : ℤ) → Keeps (IsSound base) (admit document n)
  unfolding admit
  Keeps-admit document n = Keeps-bind _ _ (Keeps-lift _) λ m. Keeps-lift_bind _ _ λ c read. record {
    at = λ b i. get_bind-at (IsSound base) _ b (
        admit_contract-IsSound c m b (find_state c.capability_id b.states) refl
          (from_document-delegable _ c read) i);
  }

  -- what is left to visit is as it was read
  abbrev Pending :
      List CapabilityState → List CapabilityState → List CapabilityDecisionReceipt → Type 0
  Pending rest ss rs = Inv base ss rs × All (IsFound ss) rest

  close-pending :
      (s gone : CapabilityState) (rest : List CapabilityState) (b : Broker)
      → id_of gone ≡ id_of s
      → IsFresh (id_of s) rest
      → All (IsFound b.states) rest
      → All (IsFound (replace_state (id_of s) gone b.states)) rest
  close-pending s gone rest b same = All-join rest λ t fresh found.
      find-replace_other (id_of s) gone same (id_of t) b.states (==_sym-false _ _ fresh) ∙ found

  lifecycle-Pending :
      (rest : List CapabilityState) (s : CapabilityState) (event_type decision : String)
      (reasons : List String) (n : ℕ)
      → Keeps (Having (Pending rest)) (lifecycle s event_type decision reasons n)
  unfolding lifecycle
  lifecycle-Pending rest s event_type decision reasons n = record {
    at = λ b p.
        record-at (Pending rest) (Pending rest) _ _ b (λ ss rs k. k)
          (λ ss rs r k is. (Inv-quiet k.0 r (λ id. ground (arith, is.1, is.2)), k.1)) p;
  }

  expire_each-IsSound :
      (n : ℕ) (ss : List CapabilityState) (b : Broker)
      → IsUnique ss
      → All (IsFound b.states) ss
      → IsSound base b
      → IsSound base (expire_each n ss b).1
  unfolding expire_each
  expire_each-IsSound n [] b u a i = i
  expire_each-IsSound n (s ∷ ss) b (f, u) (a, rest) i =
      elim (Bool-cases (is_active s.status && leb s.contract.expires_at_unix n)) [
        | inl e ↦
            let gone : CapabilityState = record s { status = expired; expired_at_unix = some n } in
            rw e (
              modify_bind-at (IsSound base) _ _ b (
                bind-at (Having (Pending ss)) (IsSound base) _ _ _
                  (lifecycle-Pending ss gone _ _ _ n) (λ c k. k.0)
                  (λ _ c k.
                    bind_pure-at (IsSound base) _ _ c (expire_each-IsSound n ss c u k.1 k.0))
                  (
                    close_sound s gone b a (&&-split _ _ e).0 refl refl i,
                    close-pending s gone ss b refl f rest,
                  )))
        | inr e ↦ rw e (expire_each-IsSound n ss b u rest i)
      ]

  Keeps-expire_due : (n : ℤ) → Keeps (IsSound base) (expire_due n)
  unfolding expire_due
  Keeps-expire_due n = Keeps-bind _ _ (Keeps-lift _) λ m. record {
    at = λ b i. get_bind-at (IsSound base) _ b (
        expire_each-IsSound m (sort_states b.states) b (IsUnique-sort b.states i.unique)
          (All-sort (IsFound b.states) b.states (unique-IsFound b.states i.unique)) i);
  }

  pub Keeps-perform : (call : Call) → Keeps (IsSound base) (perform call)
  unfolding perform
  Keeps-perform (admit_call document n) = Keeps-then _ _ (Keeps-admit document n) (Keeps-pure tt)
  Keeps-perform (authorize_call q) = Keeps-then _ _ (Keeps-authorize base q) (Keeps-pure tt)
  Keeps-perform (revoke_call id n) = Keeps-then _ _ (Keeps-revoke id n) (Keeps-pure tt)
  Keeps-perform (expire_due_call n) = Keeps-then _ _ (Keeps-expire_due n) (Keeps-pure tt)

  -- The invariant holds after any calls.
  pub after-IsSound :
      (calls : List Call) (b : Broker) → IsSound base b → IsSound base (after b calls)
  unfolding after
  after-IsSound [] b i = i
  after-IsSound (call ∷ calls) b i =
      after-IsSound calls (perform call b).1 ((Keeps-perform call).at b i)
