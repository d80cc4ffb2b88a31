-- ===== src/Trcp/Protocol.antt =====
-- The private methods of `TRCPSimulator`: the trace, transitions, checks of a task, records of a
-- run, and the capture of a finding.
use Prim.Native.String
use liminal_osai.Prelude.{
  ◌+◌, String, not, none, some, List, [], ◌∷◌, ◌++◌, Result, ok, err, Done, Exec, length, last?,
  concat, show, is_subset, if◌then◌else◌,
}
use liminal_osai.Json.{Fields, fields, str, obj, object, keys, select, is_end}
use liminal_osai.Hashing.{Hashing, canonical_sha256, zero_sha256}
use liminal_osai.Exec.{pure, raise, get, modify, raise_if, ◌>>=◌, ◌>>◌}
use liminal_osai.Trcp.Errors.{trcp_error}
use liminal_osai.Trcp.Provider.{MockProvider, ProviderOutput, or_empty}
use liminal_osai.Trcp.State.{
  State, state_name, may_move, TraceEvent, core, RunRecord, run_body, Finding, finding_body,
  Simulator,
}

-- `self.trace[-1]["event_sha256"] if self.trace else "0" * 64`
abbrev pub trace_head : List TraceEvent → String
trace_head trace = elim (last? trace) [ none ↦ zero_sha256 | some e ↦ e.event_sha256 ]

-- `sorted(allowed)` and `allowed - {"confidence_claim"}` of `_capture_finding`
abbrev allowed_finding_keys : List String
allowed_finding_keys =
    "confidence_claim" ∷ "finding_class" ∷ "location_reference" ∷ "severity_claim" ∷ "summary" ∷ []

abbrev required_finding_keys : List String
required_finding_keys = "finding_class" ∷ "location_reference" ∷ "severity_claim" ∷ "summary" ∷ []

module _ ⦃h : Hashing⦄ where
  -- the event that `_append` adds to the trace of `s`
  unfoldable pub next_event : Simulator → String → Fields → TraceEvent
  next_event s kind payload =
      let body : TraceEvent = record {
        sequence = length s.trace + 1;
        observed_at_unix = s.now_unix;
        kind = kind;
        state = s.state;
        payload = payload;
        previous_event_sha256 = trace_head s.trace;
        event_sha256 = "";
      } in
      record body { event_sha256 = canonical_sha256 (core body) }

  unfoldable pub append : String → Fields → Exec Simulator Done
  append kind payload = modify λ s. record s { trace = s.trace ++ next_event s kind payload ∷ [] }

  unfoldable pub transition : State → String → Exec Simulator Done
  transition new_state reason = do
    s ← get
    raise_if (not (may_move s.state new_state)) (
        trcp_error (
          concat (
            "invalid TRCP transition: " ∷ state_name s.state ∷ " -> " ∷ state_name new_state ∷ [])))
    modify (λ t. record t { state = new_state })
    append "STATE_TRANSITION" (
        fields (
          ("from", str (state_name s.state))
          ∷ ("to", str (state_name new_state))
          ∷ ("reason", str reason)
          ∷ []))

  unfoldable pub fail_failover : {A : Type 0} → State → String → String → Exec Simulator A
  fail_failover new_state reason message = do
    transition new_state reason
    raise (trcp_error message)

  -- `try: check  except TRCPError as exc: self._fail_failover(new_state, reason, str(exc))`
  unfoldable pub or_fail : {A : Type 0} → Result A → State → String → Exec Simulator A
  or_fail (ok a) new_state reason = pure a
  or_fail (err e) new_state reason = fail_failover new_state reason e.message

  unfoldable pub provider_run_record :
      Simulator → MockProvider → String → ProviderOutput → RunRecord
  provider_run_record s provider task_hash output =
      let number = show (length s.provider_runs + 1) in
      let body : RunRecord = record {
        run_id = concat ("run:" ∷ number ∷ []);
        scope_id = s.scope.scope_id;
        provider_id = provider.provider_id;
        model_id = provider.model_id;
        started_at = s.now_unix;
        ended_at = s.now_unix;
        normalized_task_hash = task_hash;
        provider_request_reference = concat ("mock://" ∷ provider.provider_id ∷ "/" ∷ number ∷ []);
        outcome = output.outcome;
        output_artifact_reference = concat ("sha256:" ∷ output.provider_output_sha256 ∷ []);
        provider_metadata = or_empty provider.provider_metadata;
        record_sha256 = "";
      } in
      record body { record_sha256 = canonical_sha256 (object (run_body body)) }

  -- the run that both executions add to the simulator and to the trace
  unfoldable pub record_run : MockProvider → String → ProviderOutput → Exec Simulator RunRecord
  record_run provider task_hash output = do
    s ← get
    let run = provider_run_record s provider task_hash output
    modify (λ t. record t { provider_runs = t.provider_runs ++ run ∷ [] })
    append "PROVIDER_RUN_RECORDED"
        (fields (run_body run ++ ("record_sha256", str run.record_sha256) ∷ []))
    pure run

  -- the finding that `_capture_finding` stores, for the normalized fields of an output
  unfoldable pub new_finding : Simulator → Fields → ProviderOutput → String → Finding
  new_finding s normalized output run_id =
      let body : Finding = record {
        finding_id =
            concat ("finding:" ∷ String.slice (canonical_sha256 (obj normalized)) 0 16 ∷ []);
        source_run_ids = run_id ∷ [];
        asset_id = s.authorization.asset_id;
        normalized = normalized;
        evidence_references = concat ("sha256:" ∷ output.provider_output_sha256 ∷ []) ∷ [];
        status = "UNVERIFIED";
        created_at = s.now_unix;
        record_sha256 = "";
      } in
      record body { record_sha256 = canonical_sha256 (object (finding_body body)) }

  -- a finding as the trace shows it
  unfoldable pub finding_fields : Finding → Fields
  finding_fields f = fields (finding_body f ++ ("record_sha256", str f.record_sha256) ∷ [])

  unfoldable pub store_finding : Fields → ProviderOutput → String → Exec Simulator Done
  store_finding normalized output run_id = do
    raise_if (not (is_subset required_finding_keys (keys normalized)))
        (trcp_error "synthetic finding is missing required normalized fields")
    s ← get
    let finding = new_finding s normalized output run_id
    modify (λ t. record t { finding = some finding })
    append "FINDING_RECORDED" (finding_fields finding)

  unfoldable pub capture_finding : ProviderOutput → String → Exec Simulator Done
  capture_finding output run_id =
      if is_end output.synthetic_finding
      then pure tt
      else store_finding (select allowed_finding_keys output.synthetic_finding) output run_id

  -- `finding_body["status"] = status` on a copy, hashed anew
  unfoldable pub with_status : Finding → String → Finding
  with_status f status =
      let body : Finding = record f { status = status } in
      record body { record_sha256 = canonical_sha256 (object (finding_body body)) }
