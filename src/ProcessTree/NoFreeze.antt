-- ===== src/ProcessTree/NoFreeze.antt =====
-- `quiesce_all` never freezes: it does the same whatever the host's `freeze_session` is.
use liminal_osai.Prelude.{String, ◌≡◌, refl, ap, false, List, [], ◌∷◌, Result, ok, err, Done}
use liminal_osai.Hashing.{Hashing}
use liminal_osai.Exec.{◌>>=◌, ◌>>◌, get, continue}
use liminal_osai.ProcessTree.Observation.{validate_id}
use liminal_osai.ProcessTree.State.{SessionBinding, Host, Supervisor, candidates}
use liminal_osai.ProcessTree.Sessions.{inspect}
use liminal_osai.ProcessTree.Freeze.{sweep}
use liminal_osai.ProcessTree.Quiesce.{
  survive, judge, note_failure, terminate, quiesce_running, quiesce_present, quiesce_seen,
  quiesce_one, quiesce_each, new_receipt, record_receipt, quiesce, quiesce_all,
}

module _ {W : Type 0} (host : Host W) (freeze : String → W → Result Done × W) ⦃h : Hashing⦄ where
  -- the host with another `freeze_session`
  abbrev pub other_host : Host W
  other_host = record host { freeze_session = freeze }

  one_same : (b : SessionBinding) → quiesce_one other_host false b ≡ quiesce_one host false b
  unfolding quiesce_one quiesce_seen quiesce_present quiesce_running terminate note_failure judge
      survive inspect
  one_same b = refl

  each_same :
      (bs : List SessionBinding) → quiesce_each other_host false bs ≡ quiesce_each host false bs
  unfolding quiesce_each
  each_same [] = refl
  each_same (b ∷ bs) = rw (one_same b) (rw (each_same bs) refl)

  quiesce_same :
      (bs : List SessionBinding) (incident : String)
      → quiesce other_host bs incident false ≡ quiesce host bs incident false
  unfolding quiesce record_receipt new_receipt
  quiesce_same bs incident = ap (λ m. sweep (m >> record_receipt host bs incident)) (each_same bs)

  -- the rest of `quiesce_all`, after the look at the incident's id
  guarded_same :
      (r : Result Done) (incident : String) (s : Supervisor W)
      → continue r (λ _. get >>= λ t. quiesce other_host (candidates t.sessions) incident false) s
        ≡ continue r (λ _. get >>= λ t. quiesce host (candidates t.sessions) incident false) s
  unfolding ◌>>=◌
  guarded_same (ok done) incident s = ap (λ m. m s) (quiesce_same (candidates s.sessions) incident)
  guarded_same (err e) incident s = refl

  -- `quiesce_all` gives the same result, and leaves the supervisor and the host the same, whatever
  -- the host's `freeze_session` does: it never calls it.
  pub quiesce_all_without_freeze :
      (incident : String) (s : Supervisor W)
      → quiesce_all other_host incident s ≡ quiesce_all host incident s
  unfolding quiesce_all ◌>>◌ ◌>>=◌
  quiesce_all_without_freeze incident s =
      guarded_same (validate_id incident "incident_id") incident s
