-- ===== src/Broker/Grants.antt =====
-- What an `authorize` that allows a use has checked, and what it has changed.
use liminal_osai.Prelude.{◌≡◌, sym, ap, ◌∙◌, [], ◌∷◌, ◌++◌, ok}
use liminal_osai.Hashing.{Hashing}
use liminal_osai.Exec.{◌>>=◌}
use liminal_osai.Exec.Returns.{pure-ok, bind-ok, lift_bind-ok, get_bind-ok, modify_then-ok}
use liminal_osai.Contracts.Event.{CausalRuntimeEvent}
use liminal_osai.Contracts.Event
use liminal_osai.Broker.State.{CapabilityDecisionReceipt, Broker}
use liminal_osai.Broker.Records.{
  EventFields, event_kwargs, ReceiptFields, record_event, new_decision, record_receipt,
}

-- the broker after an event, and after a receipt
abbrev pub with_event : CausalRuntimeEvent → Broker → Broker
with_event event b = record b { events = b.events ++ event ∷ []; head = event.event_sha256 }

abbrev pub with_receipt : CapabilityDecisionReceipt → Broker → Broker
with_receipt r b = record b { receipts = b.receipts ++ r ∷ [] }

module _ ⦃h : Hashing⦄ where
  record_event_lem :
      (e : EventFields) (b c : Broker) (event : CausalRuntimeEvent)
      → record_event e b ≡ (ok event, c)
      → (Event.build (event_kwargs b e) ≡ ok event) × (with_event event b ≡ c)
  unfolding record_event
  record_event_lem e b c event returned =
      let (x, built, later) = lift_bind-ok _ _ b c event (get_bind-ok _ b c event returned) in
      let (same, there) = pure-ok _ _ _ _ (modify_then-ok _ _ b c event later) in
      (built ∙ ap ok same, ap (λ y. with_event y b) (sym same) ∙ there)

  record_receipt_lem :
      (f : ReceiptFields) (event : CausalRuntimeEvent) (b c : Broker)
      (r : CapabilityDecisionReceipt)
      → record_receipt f event b ≡ (ok r, c)
      → (new_decision b f event ≡ r) × (with_receipt r b ≡ c)
  unfolding record_receipt
  record_receipt_lem f event b c r returned =
      let (same, there) =
        pure-ok _ _ _ _ (modify_then-ok _ _ b c r (get_bind-ok _ b c r returned)) in
      (same, ap (λ y. with_receipt y b) (sym same) ∙ there)

  -- an event and a receipt, written down
  pub record_lem :
      (e : EventFields) (f : ReceiptFields) (b c : Broker) (r : CapabilityDecisionReceipt)
      → (record_event e >>= λ event. record_receipt f event) b ≡ (ok r, c)
      → (event : CausalRuntimeEvent) × (Event.build (event_kwargs b e) ≡ ok event)
        × (r ≡ new_decision (with_event event b) f event)
        × (c ≡ with_receipt r (with_event event b))
  record_lem e f b c r returned =
      let (event, u, made, kept) = bind-ok (record_event e) _ b c r returned in
      let (built, is_u) = record_event_lem e b u event made in
      let (same, there) = record_receipt_lem f event u c r kept in
      (
        event,
        built,
        sym same ∙ ap (λ d. new_decision d f event) (sym is_u),
        sym there ∙ ap (with_receipt r) (sym is_u),
      )
