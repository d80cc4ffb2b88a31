-- ===== src/Containment/Accounted.antt =====
-- The revocation loop loses no capability.
use liminal_osai.Prelude.{
  ℤ, String, ◌≡◌, refl, true, false, List, [], ◌∷◌, inl, inr, Bool-cases, ◌==◌, eq_refl, member,
  concat, All, arith, Exception, Result, ok, err,
}
use liminal_osai.Containment.State.{Stage, Environment, Coordinator, CapabilityView}
use liminal_osai.Containment.Stages.{Revocation, add_revocation, revoke_each}
use liminal_osai.Containment.Leads.{
  Good, Leads, Any, Leads-pure, Leads-weaken, Leads-attempt, Leads-bind,
}

-- how a capability can end: it was not active, it was revoked, or a failure names it
pub data IsAccounted (r : Revocation) (view : CapabilityView) : Type 0 where
  inactive : (view.status == "active") ≡ false → IsAccounted r view
  taken : member view.capability_id r.revoked ≡ true → IsAccounted r view
  blocked :
      member (concat ("revoke_blocked:" ∷ view.capability_id ∷ [])) r.failures ≡ true
      → IsAccounted r view
  failed :
      (e : Exception)
      → member (concat ("revoke:" ∷ view.capability_id ∷ ":" ∷ e.type_name ∷ [])) r.failures ≡ true
      → IsAccounted r view

abbrev pub IsAllAccounted : List CapabilityView → Revocation → Type 0
IsAllAccounted views r = All (IsAccounted r) views

member-later : (x y : String) (ys : List String) → member x ys ≡ true → member x (y ∷ ys) ≡ true
member-later x y ys h = ground arith

module _ (id : String) (o : Result String) (r : Revocation) where
  -- what is added keeps what was there
  still : (v : CapabilityView) → IsAccounted r v → IsAccounted (add_revocation id o r) v
  unfolding add_revocation
  still v (inactive h) = inactive h
  still v (taken h) = taken (ground arith)
  still v (blocked h) = blocked (ground arith)
  still v (failed e h) = failed e (ground arith)

  still_all :
      (vs : List CapabilityView) → IsAllAccounted vs r → IsAllAccounted vs (add_revocation id o r)
  still_all [] a = tt
  still_all (v ∷ vs) (a, rest) = (still v a, still_all vs rest)

added :
    (v : CapabilityView) (o : Result String) (r : Revocation)
    → IsAccounted (add_revocation v.capability_id o r) v
unfolding add_revocation
added v (err e) r =
    failed e (rw (eq_refl (concat ("revoke:" ∷ v.capability_id ∷ ":" ∷ e.type_name ∷ []))) refl)
added v (ok decision) r = elim (Bool-cases (decision == "ALLOW")) [
  | inl allow ↦ taken (rw allow (rw (eq_refl v.capability_id) refl))
  | inr other ↦
      blocked (rw other (rw (eq_refl (concat ("revoke_blocked:" ∷ v.capability_id ∷ []))) refl))
]

module _ {W : Type 0} (env : Environment W) where
  accounted-Leads :
      (x : Stage) (at : ℤ) (views : List CapabilityView)
      → Leads x x (IsAllAccounted views) (revoke_each env at views)
  unfolding revoke_each
  accounted-Leads x at [] = Leads-pure _ tt
  accounted-Leads x at (v ∷ vs) = elim (Bool-cases (v.status == "active")) [
    | inl live ↦ rw live (
        Leads-bind _ _ (Leads-attempt {R = Any} _ (λ c. refl) (λ c. tt)) λ o q.
          Leads-bind _ _ (accounted-Leads x at vs)
            λ r rest. Leads-pure _ (added v o r, still_all v.capability_id o r vs rest))
    | inr other ↦
        rw other (Leads-weaken _ (accounted-Leads x at vs) λ r rest. (inactive other, rest))
  ]

  returned :
      (views : List CapabilityView) (x : Stage) (r : Result Revocation) (c : Coordinator W)
      → Good x (IsAllAccounted views) r c
      → (v : Revocation) × (r ≡ ok v) × IsAllAccounted views v
  returned views x (ok v) c (a, e) = (v, refl, a)
  returned views x (err e) c bad = absurd bad

  -- The revocation loop returns, whatever the broker returns or raises, and each capability that it
  -- was given was not active, or is among the revoked ones, or is named by a failure.
  pub revoke_each_accounts :
      (at : ℤ) (views : List CapabilityView) (c : Coordinator W)
      → (v : Revocation) × ((revoke_each env at views c).0 ≡ ok v) × IsAllAccounted views v
  revoke_each_accounts at views c =
      let (r, d) = revoke_each env at views c in
      returned views c.state r d ((accounted-Leads c.state at views).at c refl)
