-- ===== src/ProcessTree/Verified.antt =====
-- The receipts of `_quiesce` pass `verify_receipt`.
use liminal_osai.Prelude.{
  ℕ, zero, suc, String, ◌≡◌, refl, false, ◌&&◌, ◌||◌, List, [], ◌∷◌, nat_beq, is_empty, sorted, ok,
  eq_refl, arith,
}
use liminal_osai.Json.{fields, truthy, strings, nat}
use liminal_osai.Hashing.{Hashing}
use liminal_osai.ProcessTree.State.{SessionBinding, Host, receipt_body, as_document}
use liminal_osai.ProcessTree.Freeze.{Sweep}
use liminal_osai.ProcessTree.Quiesce.{new_receipt}
use liminal_osai.ProcessTree.Receipt.{verify_receipt, check_counts, is_nonzero}

-- the claim of no survivors agrees with the count and the codes
consistent :
    (survivors : ℕ) (codes : List String)
    → ((nat_beq survivors 0 && is_empty codes)
        && (is_nonzero (nat survivors) || truthy (strings (sorted codes))))
      ≡ false
unfolding sorted
consistent zero [] = refl
consistent zero (c ∷ cs) = refl
consistent (suc n) codes =
    let positive : nat_beq (suc n) 0 ≡ false = ground arith in rw positive refl

module _ {W : Type 0} (host : Host W) ⦃h : Hashing⦄ where
  -- Whatever a sweep has counted, the receipt that `_quiesce` makes of it is accepted by
  -- `verify_receipt`, which gives the document back.
  pub verify_receipt-new_receipt :
      (bs : List SessionBinding) (incident : String) (p : Sweep W)
      → verify_receipt (fields (as_document (new_receipt host bs incident p)))
        ≡ ok (fields (as_document (new_receipt host bs incident p)))
  unfolding verify_receipt check_counts as_document receipt_body new_receipt
  verify_receipt-new_receipt bs incident p =
      let r = new_receipt host bs incident p in
      rw (eq_refl r.receipt_sha256) (rw (consistent p.survivors p.failure_codes) refl)
