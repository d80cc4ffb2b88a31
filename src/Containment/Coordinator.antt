-- ===== src/Containment/Coordinator.antt =====
-- `contain`, `release` and `replay`.
use liminal_osai.Prelude.{
  ℤ, String, Bool, true, false, not, ◌||◌, List, [], ◌∷◌, ◌++◌, Option, none, some, map, Result, ok,
  err, Exec, sorted, is_blank, is_empty,
}
use liminal_osai.Json.{Value, Fields, str, object, array, strings}
use liminal_osai.Hashing.{Hashing, canonical_sha256}
use liminal_osai.Exec.{pure, raise, lift, get, modify, raise_if, attempt, ◌>>=◌, ◌>>◌}
use liminal_osai.Containment.State.{
  Stage, idle, detect, freeze, revoke, seal, snapshot, review, released, containment_blocked,
  IncidentReceipt, sign, transition_value, Environment, Coordinator, stage_name,
}
use liminal_osai.Containment.Checks.{validated_phase3_receipt}
use liminal_osai.Containment.Stages.{
  call, step, failure, revoke_each, quiesce, or_zero, seal_stage, snapshot_stage,
}

abbrev pub is_idle : Stage → Bool
is_idle idle = true
is_idle _ = false

abbrev pub is_review : Stage → Bool
is_review review = true
is_review _ = false

module _ {W : Type 0} ⦃h : Hashing⦄ where
  abbrev pub transition_root : Coordinator W → String
  transition_root c = canonical_sha256 (array (map transition_value c.transitions))

  module _ (env : Environment W) where
    -- from the first step to the last, for a receipt of phase 3 with the digest `phase3`
    unfoldable pub contain_stages : String → String → ℤ → Exec (Coordinator W) IncidentReceipt
    contain_stages phase3 incident at = do
      step detect at phase3
      frozen ← attempt (call env.freeze_runtime)
      closed ← attempt (call env.close_egress)
      let halted = failure "freeze" frozen ++ failure "egress" closed
      step freeze at (canonical_sha256 (object (("failures", strings halted) ∷ [])))
      c ← get
      revocation ← revoke_each env at (env.capabilities c.world)
      step revoke at (canonical_sha256 (strings (sorted revocation.revoked)))
      (quiescence, unquiet) ← quiesce env env.quiesce_runtime
      sealed ← seal_stage env
      step seal at (
          canonical_sha256 (
            object
              (("sealed", str (or_zero env sealed)) ∷ ("runtime_quiescence", str quiescence) ∷ [])))
      taken ← snapshot_stage env
      step snapshot at (or_zero env taken)
      let failures =
          halted
          ++ revocation.failures
          ++ unquiet
          ++ failure "seal" sealed
          ++ failure "snapshot" taken
      step review at (canonical_sha256 (strings failures))
      d ← get
      let receipt = sign (record {
        incident_id = incident;
        phase3_receipt_sha256 = phase3;
        final_state = d.state;
        transition_root_sha256 = transition_root d;
        revoked_capability_ids = sorted revocation.revoked;
        runtime_quiescence_sha256 = quiescence;
        sealed_trace_sha256 = or_zero env sealed;
        snapshot_sha256 = or_zero env taken;
        partial_failures = sorted failures;
        human_release_id = none;
        receipt_sha256 = "";
      })
      modify (λ e. record e { incident = some receipt })
      pure receipt

    unfoldable pub contain : Fields → String → ℤ → Exec (Coordinator W) IncidentReceipt
    contain phase3_receipt incident at = do
      c ← get
      raise_if (not (is_idle c.state)) (containment_blocked "containment already started")
      phase3 ← lift (validated_phase3_receipt phase3_receipt)
      contain_stages phase3 incident at

  -- `release`, after the look at the incident
  unfoldable pub release_incident :
      Option IncidentReceipt → String → Bool → ℤ → Exec (Coordinator W) IncidentReceipt
  release_incident none id approved at = raise (containment_blocked "release requires REVIEW state")
  release_incident (some incident) id approved at = do
    raise_if (not approved || is_blank id)
        (containment_blocked "explicit human release approval is required")
    raise_if (not (is_empty incident.partial_failures))
        (containment_blocked "cannot release while containment has unresolved partial failures")
    step released at (canonical_sha256 (object (("human_release_id", str id) ∷ [])))
    c ← get
    let receipt = sign (record incident {
      final_state = released;
      human_release_id = some id;
      transition_root_sha256 = transition_root c;
      receipt_sha256 = "";
    })
    modify (λ d. record d { incident = some receipt })
    pure receipt

  unfoldable pub release : String → Bool → ℤ → Exec (Coordinator W) IncidentReceipt
  release id approved at = do
    c ← get
    raise_if (not (is_review c.state)) (containment_blocked "release requires REVIEW state")
    release_incident c.incident id approved at

  unfoldable pub replay : Coordinator W → Result (List (String × Value))
  replay c = of_incident c.incident
    where
      of_incident : Option IncidentReceipt → Result (List (String × Value))
      of_incident none = err (containment_blocked "no incident")
      of_incident (some r) = ok (
          ("state", str (stage_name c.state))
          ∷ ("transition_root_sha256", str (transition_root c))
          ∷ ("incident_receipt_sha256", str r.receipt_sha256)
          ∷ [])
