-- ===== src/EffectCommit/Tests.antt =====
-- A broker whose host allows one effect, and each theorem there.
use liminal_osai.Prelude.{
  ℕ, suc, ◌+◌, ◌≤◌, pos, String, ◌≡◌, refl, true, false, List, [], ◌∷◌, ◌++◌, Option, none, some,
  Result, ok, err, Bool, length, map, is_sha256,
}
use liminal_osai.Prelude
use liminal_osai.Exec.{◌>>=◌, ◌>>◌, attempt}
use liminal_osai.Json.{Value, Fields, str, nat, bool, array, object, strings, fields}
use liminal_osai.Hashing.{Hashing, zero_sha256}
use liminal_osai.Mediation.Operation.{
  RuntimeOperation, ExecutionObservation, validate_observation, check_sha,
}
use liminal_osai.EffectCommit.State.{
  TrustedRuntimeWorld, TrustedExecutionSession, EffectBroker, Host, Executor, Lease,
  commit_document, create,
}
use liminal_osai.EffectCommit.Documents.{
  session_body, build_session_document, read_world, read_session, natural, sha, boolean, iterate,
  is_listed, verify_commit_receipt,
}
use liminal_osai.EffectCommit.Observe.{now, observe_world, observe_session, capability_active}
use liminal_osai.EffectCommit.Receipts.{append_commit, new_commit}
use liminal_osai.EffectCommit.Commit.{commit, commit_lease, burn, run, settle}
use liminal_osai.EffectCommit.Calls.{Call, issue_call, consume_call, after}
use liminal_osai.EffectCommit.Logged.{
  LoggedWorld, logged_host, logged_call, logged_executor, unused,
}
use liminal_osai.EffectCommit.Once.{effects_once}
use liminal_osai.EffectCommit.Issue.{
  issue, read_decision, capability_id_of, new_lease_id, new_authorization, new_lease, record_lease,
}
use liminal_osai.Contracts.Scope.{
  validate_scope, allowed_keys, check_items, check_item, check_list, sort_fields,
}
use liminal_osai.Contracts.Validators.{mapping, string, is_trimmed}
use liminal_osai.Prelude.{is_blank, has_nul, sorted, distinct, join, concat, show}
use liminal_osai.Mediation.Operation.{validate, normalized_scope, as_mediation_error}
use liminal_osai.EffectCommit.Gate.{Committed, commit_gate}
use liminal_osai.EffectCommit.Refused.{replay_refused, contained_refuses}
use liminal_osai.EffectCommit.Calls.{perform}
use liminal_osai.EffectCommit.State.{find_lease}
use liminal_osai.EffectCommit.Construct.{max_lease_ttl_seconds, construct}
use liminal_osai.EffectCommit.Expiry.{leases_brief}
use liminal_osai.EffectCommit.Verified.{
  verify_commit_receipt-new_commit, read_session-build_session_document,
}

-- every document has the digest of 64 zeros
instance abbrev zeros : Hashing
zeros = record { digest = λ v. zero_sha256 }

abbrev ones : String
ones = "1111111111111111111111111111111111111111111111111111111111111111"

abbrev capability_view : Value
capability_view = object (
    ("capability_id", str "capability:1")
    ∷ ("status", str "active")
    ∷ ("epoch_bound", bool true)
    ∷ ("runtime_epoch", nat 1)
    ∷ ("runtime_state_sha256", str zero_sha256)
    ∷ [])

abbrev world_document : Fields
world_document =
    fields (("epoch", nat 1) ∷ ("state_sha256", str zero_sha256) ∷ ("tainted", bool false) ∷ [])

abbrev session : Fields
session = fields (
    session_body zero_sha256 zero_sha256 zero_sha256 true
    ++ ("evidence_sha256", str zero_sha256) ∷ [])

abbrev host : Host (Unit {0})
host = record {
  state_document = λ w. (ok world_document, w);
  session_document = λ id w. (ok session, w);
  capability_document = λ w. (ok (fields (("capabilities", array (capability_view ∷ [])) ∷ [])), w);
  clock = λ w. (ok (nat 7), w);
  token_sha256 = λ token. zero_sha256;
  host_binding_sha256 = zero_sha256;
  adapter_token_sha256 = zero_sha256;
  lease_ttl_seconds = 10;
}

abbrev operation : RuntimeOperation
operation = record {
  operation_id = "operation:1";
  subject_id = "agent:1";
  policy_sha256 = zero_sha256;
  kind = "runtime.configure";
  scope = fields (("setting_keys", strings ("log_level" ∷ [])) ∷ []);
  payload_sha256 = zero_sha256;
  at_unix = pos 7;
  privilege_level_before = pos 0;
  privilege_level_after = pos 0;
}

abbrev decision : Fields
decision = fields (
    ("decision", str "ALLOW")
    ∷ ("capability_id", str "capability:1")
    ∷ ("receipt_sha256", str zero_sha256)
    ∷ ("bound_contract_sha256", str ones)
    ∷ [])

abbrev executor : Executor (Unit {0})
executor o w = (ok (record { outcome = "SUCCEEDED"; result_sha256 = zero_sha256 }), w)

abbrev lease_id : String
lease_id = "effect-lease:1:00000000000000000000"

abbrev calls : List (Call (Unit {0}))
calls =
    issue_call operation decision
    ∷ consume_call lease_id "token" executor
    ∷ consume_call lease_id "token" executor
    ∷ []

abbrev broker : EffectBroker (LoggedWorld (Unit {0}))
broker = after (logged_host host) (create (tt, [])) (map logged_call calls)

effects_once_example :
    (length broker.world.1 + unused broker.leases ≤ length broker.authorizations)
    × (length broker.commits ≡ length broker.world.1)
unfolding is_sha256
effects_once_example = effects_once host (λ v. refl) tt calls

abbrev world : TrustedRuntimeWorld
world = record {
  epoch = 1;
  state_sha256 = zero_sha256;
  tainted = false;
  snapshot_sha256 = zero_sha256;
}

abbrev trusted_session : TrustedExecutionSession
trusted_session = record {
  operation_id_sha256 = zero_sha256;
  session_sha256 = zero_sha256;
  host_binding_sha256 = zero_sha256;
  active = true;
  evidence_sha256 = zero_sha256;
}

abbrev lease : Bool → Lease
lease consumed = record {
  lease_id = lease_id;
  operation = operation;
  capability_id = "capability:1";
  capability_receipt_sha256 = zero_sha256;
  bound_contract_sha256 = ones;
  scope_sha256 = zero_sha256;
  runtime_world = world;
  session = trusted_session;
  authorization_receipt_sha256 = zero_sha256;
  issued_at_unix = 7;
  expires_at_unix = 17;
  consumed = consumed;
}

abbrev start : EffectBroker (Unit {0})
start = record (create tt) { leases = lease false ∷ [] }

abbrev observation : ExecutionObservation
observation = record { outcome = "SUCCEEDED"; result_sha256 = zero_sha256 }

abbrev ended : EffectBroker (Unit {0})
ended = (commit host lease_id executor start).1

commits : commit host lease_id executor start ≡ (ok observation, ended)
unfolding commit commit_lease now observe_world observe_session capability_active read_world
    read_session natural sha boolean iterate is_listed burn run settle append_commit
    validate_observation check_sha is_sha256 ◌>>=◌ ◌>>◌ attempt
commits = refl

commit_gate_example : Committed host lease_id executor start ended observation
commit_gate_example = commit_gate host lease_id executor start ended observation commits

abbrev burnt : EffectBroker (LoggedWorld (Unit {0}))
burnt = record (create (tt, [])) { leases = lease true ∷ [] }

abbrev refused : EffectBroker (LoggedWorld (Unit {0}))
refused = (commit (logged_host host) lease_id (logged_executor executor) burnt).1

replay_refused_example :
    (refused.world.1 ≡ burnt.world.1)
    × (refused.leases ≡ burnt.leases)
    × (refused.authorizations ≡ burnt.authorizations)
    × (refused.commits ≡ burnt.commits)
replay_refused_example = replay_refused host lease_id executor burnt (lease true) refl refl

verify_commit_receipt-new_commit_example :
    let document = commit_document (
      new_commit
        (lease false)
        world
        trusted_session
        9
        "SUCCEEDED"
        zero_sha256
        ("lease_consumed" ∷ [])) in
    verify_commit_receipt document ≡ ok document
verify_commit_receipt-new_commit_example =
    verify_commit_receipt-new_commit (lease false) world trusted_session 9 "SUCCEEDED" zero_sha256
      ("lease_consumed" ∷ [])

read_session-build_session_document_example :
    Prelude.◌>>=◌
      (build_session_document "operation:1" ones zero_sha256 true)
      (λ document. read_session document "operation:1" zero_sha256)
    ≡ ok (record {
      operation_id_sha256 = zero_sha256;
      session_sha256 = ones;
      host_binding_sha256 = zero_sha256;
      active = true;
      evidence_sha256 = zero_sha256;
    })
unfolding is_sha256
read_session-build_session_document_example =
    read_session-build_session_document (λ v. refl) "operation:1" ones zero_sha256 true refl refl

abbrev contained : EffectBroker (Unit {0})
contained = record start { contained = true }

contained_refuses_example :
    ((issue host operation decision contained).1 ≡ contained)
    × ((commit host lease_id executor contained).1 ≡ (now host contained).1)
contained_refuses_example =
    contained_refuses host operation decision lease_id executor contained refl

-- the world and the constructor, and a lease that is issued
made : construct host tt ≡ ok (create tt)
unfolding construct sha is_sha256
made = refl

issued :
    find_lease lease_id (after host (create tt) (issue_call operation decision ∷ [])).leases
    ≡ some (lease false)
unfolding after perform issue validate check_sha is_sha256 is_blank normalized_scope
    as_mediation_error validate_scope allowed_keys check_items check_item check_list mapping string
    is_trimmed has_nul sorted distinct sort_fields join concat show read_decision capability_id_of
    sha now observe_world observe_session capability_active read_world read_session natural boolean
    iterate is_listed new_lease_id new_authorization new_lease record_lease ◌>>=◌ ◌>>◌ attempt
issued = refl

leases_brief_example :
    (lease false).issued_at_unix + 1 ≤ (lease false).expires_at_unix
    × (lease false).expires_at_unix ≤ (lease false).issued_at_unix + max_lease_ttl_seconds
leases_brief_example =
    leases_brief host tt (create tt) (issue_call operation decision ∷ []) lease_id (lease false)
      made issued
