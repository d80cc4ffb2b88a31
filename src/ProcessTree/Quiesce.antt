-- ===== src/ProcessTree/Quiesce.antt =====
-- `_quiesce`, `quiesce_session` and `quiesce_all`. They give the receipt; `as_document` is the dict that
-- the source returns.
use liminal_osai.Prelude.{
  ◌+◌, String, Bool, true, false, not, ◌&&◌, ◌||◌, List, [], ◌∷◌, ◌++◌, length, map, nat_beq,
  if◌then◌else◌, Result, ok, err, Done, Exec, sorted, is_empty,
}
use liminal_osai.Json.{object, array}
use liminal_osai.Hashing.{Hashing, canonical_sha256}
use liminal_osai.Exec.{pure, lift, get, modify, raise_if, attempt, ◌>>=◌, ◌>>◌}
use liminal_osai.ProcessTree.Observation.{process_tree_error, validate_id, ProcessTreeObservation}
use liminal_osai.ProcessTree.State.{
  frozen, terminated, completed, error, SessionBinding, binding_body, Host, Supervisor, candidates,
  ProcessTreeContainmentReceipt, receipt_body,
}
use liminal_osai.ProcessTree.Sessions.{host_call, inspect, get_binding}
use liminal_osai.ProcessTree.Freeze.{
  Sweep, on_supervisor, fail, fail_with, add_before, add_after, mark, sweep,
}

module _ {W : Type 0} (host : Host W) ⦃h : Hashing⦄ where
  -- A session is still there: `set_status(ERROR)` and `survivors += 1`.
  unfoldable pub survive : SessionBinding → Exec (Sweep W) Done
  survive b = do mark b error; modify (λ p. record p { survivors = p.survivors + 1 })

  -- the look at a session after its termination
  unfoldable pub judge : SessionBinding → Result ProcessTreeObservation → Exec (Sweep W) Done
  judge b (err e) = do fail_with "inspect_after" b e; survive b
  judge b (ok after) = do
    add_after after
    if after.exists || after.running || not (nat_beq after.descendant_count 0)
        then (do fail "survivor" b; survive b)
        else (do modify (λ p. record p { terminated = p.terminated + 1 }); mark b terminated)

  unfoldable pub note_failure :
      {A : Type 0} → String → SessionBinding → Result A → Exec (Sweep W) Done
  note_failure kind b (ok a) = pure tt
  note_failure kind b (err e) = fail_with kind b e

  unfoldable pub terminate : SessionBinding → Exec (Sweep W) Done
  terminate b = do
    r ← attempt (on_supervisor (host_call (host.terminate_session b.session_id)))
    note_failure "terminate" b r
    after ← attempt (on_supervisor (inspect host b.session_id))
    judge b after

  -- the body of the emergency freeze's `try`
  unfoldable pub emergency_freeze : SessionBinding → Exec (Sweep W) Done
  emergency_freeze b = do
    on_supervisor (host_call (host.freeze_session b.session_id))
    mark b frozen
    before ← on_supervisor (inspect host b.session_id)
    raise_if before.running (process_tree_error "emergency freeze left session running")

  unfoldable pub after_emergency : SessionBinding → Result Done → Exec (Sweep W) Done
  after_emergency b (ok done) = terminate b
  after_emergency b (err e) = do fail_with "freeze" b e; survive b

  unfoldable pub quiesce_running :
      Bool → SessionBinding → ProcessTreeObservation → Exec (Sweep W) Done
  quiesce_running true b before = do r ← attempt (emergency_freeze b); after_emergency b r
  quiesce_running false b before = do fail "not_frozen" b; survive b; add_after before

  unfoldable pub quiesce_present :
      Bool → SessionBinding → ProcessTreeObservation → Exec (Sweep W) Done
  quiesce_present allow b before = do
    modify (λ p. record p { active_before = p.active_before + 1 })
    if before.running then quiesce_running allow b before else terminate b

  unfoldable pub quiesce_seen :
      Bool → SessionBinding → Result ProcessTreeObservation → Exec (Sweep W) Done
  quiesce_seen allow b (err e) = do fail_with "inspect_before" b e; survive b
  quiesce_seen allow b (ok before) = do
    add_before before
    if not before.exists
        then (do
          modify (λ p. record p { already_absent = p.already_absent + 1 })
          mark b completed
          add_after before)
        else quiesce_present allow b before

  -- one round of the loop
  unfoldable pub quiesce_one : Bool → SessionBinding → Exec (Sweep W) Done
  quiesce_one allow b = do
    r ← attempt (on_supervisor (inspect host b.session_id))
    quiesce_seen allow b r

  unfoldable pub quiesce_each : Bool → List SessionBinding → Exec (Sweep W) Done
  quiesce_each allow [] = pure tt
  quiesce_each allow (b ∷ bs) = do quiesce_one allow b; quiesce_each allow bs

  -- the receipt of a sweep that took the sessions `bs`
  unfoldable pub new_receipt :
      List SessionBinding → String → Sweep W → ProcessTreeContainmentReceipt
  new_receipt bs incident p =
      let base : ProcessTreeContainmentReceipt = record {
        incident_id = incident;
        session_count = length bs;
        active_before_count = p.active_before;
        terminated_count = p.terminated;
        already_absent_count = p.already_absent;
        survivor_count = p.survivors;
        session_set_sha256 = canonical_sha256 (array (map (λ b. object (binding_body b)) bs));
        before_root_sha256 = canonical_sha256 (array p.before_docs);
        after_root_sha256 = canonical_sha256 (array p.after_docs);
        failure_codes = sorted p.failure_codes;
        zero_survivors = nat_beq p.survivors 0 && is_empty p.failure_codes;
        receipt_sha256 = "";
      } in
      record base { receipt_sha256 = canonical_sha256 (object (receipt_body base)) }

  unfoldable pub record_receipt :
      List SessionBinding → String → Exec (Sweep W) ProcessTreeContainmentReceipt
  record_receipt bs incident = do
    p ← get
    let receipt = new_receipt bs incident p
    on_supervisor (modify (λ s. record s { receipts = s.receipts ++ receipt ∷ [] }))
    pure receipt

  -- `_quiesce`, which returns the receipt's document
  unfoldable pub quiesce :
      List SessionBinding → String → Bool → Exec (Supervisor W) ProcessTreeContainmentReceipt
  quiesce bs incident allow = sweep (do quiesce_each allow bs; record_receipt bs incident)

  unfoldable pub quiesce_session :
      String → String → Exec (Supervisor W) ProcessTreeContainmentReceipt
  quiesce_session id incident = do
    lift (validate_id incident "incident_id")
    binding ← get_binding id
    quiesce (binding ∷ []) incident true

  unfoldable pub quiesce_all : String → Exec (Supervisor W) ProcessTreeContainmentReceipt
  quiesce_all incident = do
    lift (validate_id incident "incident_id")
    s ← get
    quiesce (candidates s.sessions) incident false
