-- ===== src/Mediation/Observed.antt =====
-- What `validate` has checked of an observation.
use liminal_osai.Prelude.{
  ◌≡◌, refl, Bool, true, false, not, ◌==◌, Exception, ok, Done, raise_if, ◌>>◌, is_sha256,
}
use liminal_osai.Mediation.Operation.{ExecutionObservation, check_sha, validate_observation}

two_checks :
    (a b : Bool) (x y : Exception) (d : Done)
    → (raise_if (not a) x >> raise_if (not b) y) ≡ ok d
    → b ≡ true
two_checks a true x y d h = refl
two_checks true false x y d h = absurd cc
two_checks false false x y d h = absurd cc

pub validate_observation-is_sha256 :
    (o : ExecutionObservation) (d : Done)
    → validate_observation o ≡ ok d
    → is_sha256 o.result_sha256 ≡ true
unfolding validate_observation check_sha
validate_observation-is_sha256 o d h =
    two_checks (o.outcome == "SUCCEEDED") (is_sha256 o.result_sha256) _ _ d h
