-- ===== src/Escalation/Chain.antt =====
-- `_verify_chain`: sequence numbers, hash links, times and digests of a trajectory.
use liminal_osai.Prelude.{
  ℕ, suc, ℤ, pos, negsuc, String, not, List, [], ◌∷◌, Result, Done, ok, raise_if, ◌>>◌, eqb_ℤ,
  ltb_ℤ, ◌==◌,
}
use liminal_osai.Hashing.{Hashing, canonical_sha256, zero_sha256}
use liminal_osai.Escalation.Event.{TrajectoryEvent, body, escalation_error}

module _ ⦃h : Hashing⦄ where
  -- the loop, over `index`, `previous` and `last_time`
  unfoldable pub verify_from : ℕ → String → ℤ → List TrajectoryEvent → Result Done
  verify_from index previous last_time [] = ok tt
  verify_from index previous last_time (e ∷ es) =
      let rest = verify_from (suc index) e.event_sha256 e.observed_at_unix es in
      do
        raise_if (not (eqb_ℤ e.sequence (pos index)))
            (escalation_error "event sequence is disconnected")
        raise_if (not (e.previous_event_sha256 == previous))
            (escalation_error "causal hash chain is disconnected")
        raise_if (ltb_ℤ e.observed_at_unix last_time)
            (escalation_error "event time moved backwards")
        raise_if (not (canonical_sha256 (body e) == e.event_sha256))
            (escalation_error "event digest mismatch")
        rest

  unfoldable pub verify_chain : List TrajectoryEvent → Result Done
  unfolding verify_from
  verify_chain = verify_from 1 zero_sha256 (negsuc 0)
