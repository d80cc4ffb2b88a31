-- ===== src/Mediation/Verified.antt =====
-- The receipts of the mediator are accepted by `verify_receipt`.
use liminal_osai.Prelude.{◌≡◌, refl, ok, eq_refl}
use liminal_osai.Hashing.{Hashing}
use liminal_osai.Escalation.Event.{TrajectoryEvent}
use liminal_osai.Mediation.Operation.{RuntimeOperation}
use liminal_osai.Mediation.State.{verify_receipt, mediation_body, mediation_document}
use liminal_osai.Mediation.Mediator.{Outcome, new_receipt}

-- The receipt that `_finish` makes of an operation, an outcome and an event is accepted by
-- `verify_receipt`, which gives the document back.
pub verify_receipt-mediation_document :
    ⦃h : Hashing⦄ (o : RuntimeOperation) (f : Outcome) (event : TrajectoryEvent)
    → verify_receipt (mediation_document (new_receipt o f event))
      ≡ ok (mediation_document (new_receipt o f event))
unfolding verify_receipt mediation_document mediation_body new_receipt
verify_receipt-mediation_document o f event =
    rw (eq_refl (new_receipt o f event).receipt_sha256) refl
