-- ===== src/Broker/Recording.antt =====
-- `_event` and `_receipt`, one after the other, and what they keep of the states and receipts.
use liminal_osai.Prelude.{ℕ, String, ◌≡◌, refl, false, List, [], ◌∷◌, ◌++◌, arith}
use liminal_osai.Hashing.{Hashing}
use liminal_osai.Exec.{◌>>=◌, ◌>>◌}
use liminal_osai.Exec.Keeps.{
  bind-at, Keeps, Keeps-bind, Keeps-then, Keeps-pure, Keeps-lift, Keeps-get_bind, Keeps-modify,
}
use liminal_osai.Broker.State.{CapabilityDecisionReceipt, CapabilityState, Broker}
use liminal_osai.Broker.Records.{
  EventFields, ReceiptFields, record_event, new_decision, record_receipt, lifecycle,
}
use liminal_osai.Broker.Invariant.{Inv, spends, Inv-quiet}

-- a broker whose states and receipts are in the relation
abbrev pub Having :
    (List CapabilityState → List CapabilityDecisionReceipt → Type 0) → Broker → Type 0
Having R b = R b.states b.receipts

abbrev pub IsSound : List CapabilityState → Broker → Type 0
IsSound base = Having (Inv base)

-- what a receipt takes over from the arguments
abbrev pub IsReceiptOf : ReceiptFields → CapabilityDecisionReceipt → Type 0
IsReceiptOf f r =
    (r.capability_id ≡ f.capability_id)
    × (r.use_count_before ≡ f.before)
    × (r.use_count_after ≡ f.after)

module _ ⦃h : Hashing⦄ where
  pub Keeps-record_event :
      (R : List CapabilityState → List CapabilityDecisionReceipt → Type 0) (e : EventFields)
      → Keeps (Having R) (record_event e)
  unfolding record_event
  Keeps-record_event R e = Keeps-get_bind _ λ b _.
      Keeps-bind _ _ (Keeps-lift _)
        λ event. Keeps-then _ _ (Keeps-modify _ (λ c k. k)) (Keeps-pure event)

  -- From `R`, an event and a receipt lead to `Q`.
  pub record-at :
      (R Q : List CapabilityState → List CapabilityDecisionReceipt → Type 0) (e : EventFields)
      (f : ReceiptFields) (b : Broker)
      → ((ss : List CapabilityState) (rs : List CapabilityDecisionReceipt) → R ss rs → Q ss rs)
      → ((ss : List CapabilityState) (rs : List CapabilityDecisionReceipt)
            (r : CapabilityDecisionReceipt)
          → R ss rs
          → IsReceiptOf f r
          → Q ss (rs ++ r ∷ []))
      → Having R b
      → Having Q ((record_event e >>= λ event. record_receipt f event) b).1
  unfolding record_receipt new_decision ◌>>=◌ ◌>>◌
  record-at R Q e f b stop go p =
      bind-at (Having R) (Having Q) (record_event e) (λ event. record_receipt f event) b
        (Keeps-record_event R e) (λ c k. stop c.states c.receipts k)
        (λ event c k. go c.states c.receipts (new_decision c f event) k (refl, refl, refl)) p

  -- an event and a receipt that records no use
  pub Keeps-record_quiet :
      (base : List CapabilityState) (e : EventFields) (f : ReceiptFields)
      → ((r : CapabilityDecisionReceipt) (id : String) → IsReceiptOf f r → spends id r ≡ false)
      → Keeps (IsSound base) (record_event e >>= λ event. record_receipt f event)
  Keeps-record_quiet base e f quiet = record {
    at = λ b i.
        record-at (Inv base) (Inv base) e f b (λ ss rs j. j)
          (λ ss rs r j is. Inv-quiet j r (λ id. quiet r id is)) i;
  }

  pub Keeps-lifecycle :
      (base : List CapabilityState) (s : CapabilityState) (event_type decision : String)
      (reasons : List String) (n : ℕ)
      → Keeps (IsSound base) (lifecycle s event_type decision reasons n)
  unfolding lifecycle
  Keeps-lifecycle base s event_type decision reasons n =
      Keeps-record_quiet base _ _ λ r id is. ground (arith, is.0, is.1)
