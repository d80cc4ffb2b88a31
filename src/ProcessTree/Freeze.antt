-- ===== src/ProcessTree/Freeze.antt =====
-- `freeze_all`. A sweep is the supervisor with the local variables of the loop, which `freeze_all`
-- and `_quiesce` fill as they go.
use liminal_osai.Prelude.{
  ℕ, ◌+◌, String, not, List, [], ◌∷◌, ◌++◌, length, if◌then◌else◌, Exception, Result, ok, err, Done,
  Exec, concat, sorted,
}
use Prim.Native.String
use liminal_osai.Json.{Value, str, nat, object, array, strings}
use liminal_osai.Hashing.{Hashing, canonical_sha256}
use liminal_osai.Exec.{pure, get, modify, attempt, ◌>>=◌, ◌>>◌}
use liminal_osai.ProcessTree.Observation.{ProcessTreeObservation, safe_body}
use liminal_osai.ProcessTree.State.{
  Status, frozen, completed, error, SessionBinding, authority, Host, Supervisor, candidates,
}
use liminal_osai.ProcessTree.Sessions.{host_call, inspect, set_status}

pub record Sweep (W : Type 0) : Type 0 where
  pub supervisor : Supervisor W
  pub before_docs : List Value
  pub after_docs : List Value
  pub failure_codes : List String
  pub frozen_count : ℕ
  pub terminated : ℕ
  pub already_absent : ℕ
  pub active_before : ℕ
  pub survivors : ℕ

abbrev pub start : {W : Type 0} → Supervisor W → Sweep W
start s = record {
  supervisor = s;
  before_docs = [];
  after_docs = [];
  failure_codes = [];
  frozen_count = 0;
  terminated = 0;
  already_absent = 0;
  active_before = 0;
  survivors = 0;
}

-- a call of one of the supervisor's methods
unfoldable pub on_supervisor : {W A : Type 0} → Exec (Supervisor W) A → Exec (Sweep W) A
on_supervisor m p = let (r, s) = m p.supervisor in (r, record p { supervisor = s })

module _ {W : Type 0} ⦃h : Hashing⦄ where
  -- `failures.append(f"{kind}:{session_hash}")`
  unfoldable pub fail : String → SessionBinding → Exec (Sweep W) Done
  fail kind b =
      let session_hash = String.slice (canonical_sha256 (str b.session_id)) 0 16 in
      modify (λ p. record p {
        failure_codes = p.failure_codes ++ concat (kind ∷ ":" ∷ session_hash ∷ []) ∷ [];
      })

  -- `failures.append(f"{kind}:{session_hash}:{type(exc).__name__}")`
  unfoldable pub fail_with : String → SessionBinding → Exception → Exec (Sweep W) Done
  fail_with kind b e =
      let session_hash = String.slice (canonical_sha256 (str b.session_id)) 0 16 in
      modify (λ p. record p {
        failure_codes =
            p.failure_codes ++ concat (kind ∷ ":" ∷ session_hash ∷ ":" ∷ e.type_name ∷ []) ∷ [];
      })

  unfoldable pub add_before : ProcessTreeObservation → Exec (Sweep W) Done
  add_before o = modify (λ p. record p { before_docs = p.before_docs ++ object (safe_body o) ∷ [] })

  unfoldable pub add_after : ProcessTreeObservation → Exec (Sweep W) Done
  add_after o = modify (λ p. record p { after_docs = p.after_docs ++ object (safe_body o) ∷ [] })

  unfoldable pub mark : SessionBinding → Status → Exec (Sweep W) Done
  mark b status = on_supervisor (set_status b.session_id status)

module _ {W : Type 0} (host : Host W) ⦃h : Hashing⦄ where
  unfoldable pub freeze_if_running : SessionBinding → ProcessTreeObservation → Exec (Sweep W) Done
  freeze_if_running b before =
      if before.running
      then on_supervisor (host_call (host.freeze_session b.session_id))
      else pure tt

  -- the second look at a session, after the freeze
  unfoldable pub after_freeze : SessionBinding → ProcessTreeObservation → Exec (Sweep W) Done
  after_freeze b after =
      if not after.exists
      then (do modify (λ p. record p { already_absent = p.already_absent + 1 }); mark b completed)
      else if after.running
      then (do fail "still_running" b; mark b error)
      else (do modify (λ p. record p { frozen_count = p.frozen_count + 1 }); mark b frozen)

  -- the second `try` of the loop
  unfoldable pub try_freeze : SessionBinding → ProcessTreeObservation → Exec (Sweep W) Done
  try_freeze b before = do
    freeze_if_running b before
    after ← on_supervisor (inspect host b.session_id)
    add_after after
    after_freeze b after

  -- the handler of both `try`s, for an exception
  unfoldable pub recover : {A : Type 0} → String → SessionBinding → Result A → Exec (Sweep W) Done
  recover kind b (ok a) = pure tt
  recover kind b (err e) = do fail_with kind b e; mark b error

  unfoldable pub freeze_present : SessionBinding → ProcessTreeObservation → Exec (Sweep W) Done
  freeze_present b before =
      if not before.exists
      then (do
        modify (λ p. record p { already_absent = p.already_absent + 1 })
        mark b completed
        add_after before)
      else (do r ← attempt (try_freeze b before); recover "freeze" b r)

  unfoldable pub freeze_seen : SessionBinding → Result ProcessTreeObservation → Exec (Sweep W) Done
  freeze_seen b (ok before) = do add_before before; freeze_present b before
  freeze_seen b (err e) = do fail_with "inspect_before" b e; mark b error

  -- one round of the loop
  unfoldable pub freeze_one : SessionBinding → Exec (Sweep W) Done
  freeze_one b = do r ← attempt (on_supervisor (inspect host b.session_id)); freeze_seen b r

  unfoldable pub freeze_each : List SessionBinding → Exec (Sweep W) Done
  freeze_each [] = pure tt
  freeze_each (b ∷ bs) = do freeze_one b; freeze_each bs

  unfoldable pub freeze_body : ℕ → Sweep W → List (String × Value)
  freeze_body count p =
      ("schema", str "liminal-process-tree-freeze-receipt-v0.1")
      ∷ ("session_count", nat count)
      ∷ ("frozen_count", nat p.frozen_count)
      ∷ ("already_absent_count", nat p.already_absent)
      ∷ ("failure_codes", strings (sorted p.failure_codes))
      ∷ ("before_root_sha256", str (canonical_sha256 (array p.before_docs)))
      ∷ ("after_root_sha256", str (canonical_sha256 (array p.after_docs)))
      ∷ ("authority_sha256", str (canonical_sha256 (object authority)))
      ∷ []

  unfoldable pub record_freeze : ℕ → Exec (Sweep W) (List (String × Value))
  record_freeze count = do
    p ← get
    let body = freeze_body count p
    let receipt = body ++ ("receipt_sha256", str (canonical_sha256 (object body))) ∷ []
    on_supervisor (modify (λ s. record s { freeze_receipts = s.freeze_receipts ++ receipt ∷ [] }))
    pure receipt

-- runs a sweep on the supervisor, whose local variables are dropped at its end
unfoldable pub sweep : {W A : Type 0} → Exec (Sweep W) A → Exec (Supervisor W) A
sweep m s = let (r, p) = m (start s) in (r, p.supervisor)

module _ {W : Type 0} (host : Host W) ⦃h : Hashing⦄ where
  unfoldable pub freeze_all : Exec (Supervisor W) (List (String × Value))
  freeze_all = do
    s ← get
    let chosen = candidates s.sessions
    sweep (do freeze_each host chosen; record_freeze host (length chosen))
