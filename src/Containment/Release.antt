-- ===== src/Containment/Release.antt =====
-- `release` needs a review, an approval and an incident without failures.
use liminal_osai.Prelude.{
  ℤ, String, ◌≡◌, ◌⊎◌, refl, Bool, true, false, Option, none, some, is_empty, is_blank, arith, inl,
  inr,
}
use liminal_osai.Hashing.{Hashing}
use liminal_osai.Exec.Keeps.{get_bind-at, raise_if_then-at}
use liminal_osai.Containment.State.{IncidentReceipt, Coordinator}
use liminal_osai.Containment.Coordinator.{is_review, release_incident, release}

-- what a release needs of the coordinator
pub record IsReleasable {W : Type 0} (c : Coordinator W) (id : String) (approved : Bool)
    : Type 0 where
  pub incident : IncidentReceipt
  pub in_review : is_review c.state ≡ true
  pub recorded : c.incident ≡ some incident
  pub approval : approved ≡ true
  pub named : is_blank id ≡ false
  pub complete : is_empty incident.partial_failures ≡ true

module _ {W : Type 0} ⦃h : Hashing⦄ (c : Coordinator W) (id : String) (approved : Bool) where
  data Outcome (d : Coordinator W) : Type 0 where
    same : d ≡ c → Outcome d
    allowed : IsReleasable c id approved → Outcome d

  outcome : {d : Coordinator W} → Outcome d → (d ≡ c) ⊎ IsReleasable c id approved
  outcome (same e) = inl e
  outcome (allowed r) = inr r

  of_incident :
      (at : ℤ) (o : Option IncidentReceipt)
      → is_review c.state ≡ true
      → c.incident ≡ o
      → Outcome (release_incident o id approved at c).1
  unfolding release_incident
  of_incident at none review found = same refl
  of_incident at (some r) review found = raise_if_then-at Outcome _ _ _ c (same refl) λ named.
      raise_if_then-at Outcome _ _ _ c (same refl) λ complete. allowed (record {
        incident = r;
        in_review = review;
        recorded = found;
        approval = ground arith;
        named = ground arith;
        complete = ground arith;
      })

  -- `release` changes nothing, or the coordinator was in REVIEW with an incident that has no
  -- partial failures, and the release was approved under an id that is not blank.
  pub release_gate : (at : ℤ) → ((release id approved at c).1 ≡ c) ⊎ IsReleasable c id approved
  unfolding release
  release_gate at = outcome (
      get_bind-at Outcome _ c (
        raise_if_then-at Outcome _ _ _ c (same refl)
          λ review. of_incident at c.incident (ground arith) refl))
