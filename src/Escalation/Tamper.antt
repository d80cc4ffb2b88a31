-- ===== src/Escalation/Tamper.antt =====
-- The hash chain of a trajectory: what a verified chain is, how it grows, and that a change of a
-- verified trajectory shows in the digest of its last event.
use liminal_osai.Prelude.{
  ℕ, suc, ℤ, pos, negsuc, ◌≤ℤ◌, String, ◌≡◌, ◌≢◌, refl, ◌⊎◌, inl, inr, true, false, List, [], ◌∷◌,
  ok, eqb_ℤ, ltb_ℤ, ◌==◌, eq_iff, length, arith,
}
use liminal_osai.Json.Equality.{Value-discrete}
use liminal_osai.Hashing.{Hashing, canonical_sha256, zero_sha256}
use liminal_osai.Escalation.Event.{TrajectoryEvent, body}
use liminal_osai.Escalation.Chain.{verify_from, verify_chain}

module _ ⦃h : Hashing⦄ where
  -- what the loop of `_verify_chain` has checked of one event
  pub record IsLinked (index : ℕ) (previous : String) (last_time : ℤ) (e : TrajectoryEvent)
      : Type 0 where
    pub numbered : e.sequence ≡ pos index
    pub linked : e.previous_event_sha256 ≡ previous
    pub later : last_time ≤ℤ e.observed_at_unix
    pub hashed : canonical_sha256 (body e) ≡ e.event_sha256

  abbrev pub IsChain : ℕ → String → ℤ → List TrajectoryEvent → Type 0
  IsChain index previous last_time [] = Unit
  IsChain index previous last_time (e ∷ es) =
      IsLinked index previous last_time e × IsChain (suc index) e.event_sha256 e.observed_at_unix es

  pub verify_from_sound :
      (index : ℕ) (previous : String) (last_time : ℤ) (es : List TrajectoryEvent)
      → verify_from index previous last_time es ≡ ok tt
      → IsChain index previous last_time es
  unfolding verify_from
  verify_from_sound index previous last_time [] v = tt
  verify_from_sound index previous last_time (e ∷ es) v =
      let checks : (eqb_ℤ e.sequence (pos index) ≡ true)
          × ((e.previous_event_sha256 == previous) ≡ true)
          × (ltb_ℤ e.observed_at_unix last_time ≡ false)
          × ((canonical_sha256 (body e) == e.event_sha256) ≡ true)
          × (verify_from (suc index) e.event_sha256 e.observed_at_unix es ≡ ok tt) =
        ground arith in
      (
        record {
          numbered = ground (arith, checks.0);
          linked = (eq_iff _ _).0 checks.1;
          later = ground (arith, checks.2);
          hashed = (eq_iff _ _).0 checks.3;
        },
        verify_from_sound (suc index) e.event_sha256 e.observed_at_unix es checks.4,
      )

  pub verify_from_complete :
      (index : ℕ) (previous : String) (last_time : ℤ) (es : List TrajectoryEvent)
      → IsChain index previous last_time es
      → verify_from index previous last_time es ≡ ok tt
  unfolding verify_from
  verify_from_complete index previous last_time [] c = refl
  verify_from_complete index previous last_time (e ∷ es) c = ground (
    arith,
    c.0,
    eq_iff e.previous_event_sha256 previous,
    eq_iff (canonical_sha256 (body e)) e.event_sha256,
    verify_from_complete (suc index) e.event_sha256 e.observed_at_unix es c.1,
  )

  -- Two events with different bodies and one digest.
  pub record Collision : Type 0 where
    pub left : TrajectoryEvent
    pub right : TrajectoryEvent
    pub differ : body left ≢ body right
    pub agree : canonical_sha256 (body left) ≡ canonical_sha256 (body right)

  -- the digest at the end of a chain
  abbrev pub head_from : String → List TrajectoryEvent → String
  head_from previous [] = previous
  head_from previous (e ∷ es) = head_from e.event_sha256 es

  body-injective :
      (e f : TrajectoryEvent) → body e ≡ body f → e.event_sha256 ≡ f.event_sha256 → e ≡ f
  unfolding body
  body-injective e f b d = ground arith

  previous-body :
      (e f : TrajectoryEvent) → body e ≡ body f → e.previous_event_sha256 ≡ f.previous_event_sha256
  unfolding body
  previous-body e f b = cc

  tamper_from :
      (i j : ℕ) (p q : String) (t u : ℤ) (es fs : List TrajectoryEvent)
      → length es ≡ length fs
      → IsChain i p t es
      → IsChain j q u fs
      → head_from p es ≡ head_from q fs
      → Collision ⊎ ((es ≡ fs) × (p ≡ q))
  tamper_from i j p q t u [] [] n c d e = inr (refl, e)
  tamper_from i j p q t u [] (f ∷ fs) n c d e = absurd (omega arith)
  tamper_from i j p q t u (e ∷ es) [] n c d g = absurd (omega arith)
  tamper_from i j p q t u (e ∷ es) (f ∷ fs) n c d g =
      elim (tamper_from (suc i) (suc j) e.event_sha256 f.event_sha256 e.observed_at_unix
        f.observed_at_unix es fs (omega arith) c.1 d.1 g) [
          | inl collision ↦ inl collision
          | inr (tails, digests) ↦ elim (Value-discrete (body e) (body f)) [
            | yes same ↦ inr (
              cc (body-injective e f same digests, tails),
              cc (c.0.linked, d.0.linked, previous-body e f same),
            )
            | no other ↦ inl (record {
              left = e;
              right = f;
              differ = other;
              agree = cc (c.0.hashed, d.0.hashed, digests);
            })
          ]
        ]

  -- Two verified trajectories of one length whose last events have one digest are the same
  -- trajectory, event by event, unless two events with different bodies have one digest.
  pub verify_chain_binds :
      (es fs : List TrajectoryEvent)
      → length es ≡ length fs
      → verify_chain es ≡ ok tt
      → verify_chain fs ≡ ok tt
      → head_from zero_sha256 es ≡ head_from zero_sha256 fs
      → Collision ⊎ (es ≡ fs)
  unfolding verify_chain
  verify_chain_binds es fs n v w g =
      elim (tamper_from 1 1 zero_sha256 zero_sha256 (negsuc 0) (negsuc 0) es fs n
        (verify_from_sound 1 zero_sha256 (negsuc 0) es v)
        (verify_from_sound 1 zero_sha256 (negsuc 0) fs w) g) [
          | inl collision ↦ inl collision
          | inr (same, _) ↦ inr same
        ]
