-- ===== src/ProcessTree/Tests.antt =====
-- A host with one session, a run that freezes and terminates it, and each theorem there.
use liminal_osai.Prelude.{◌≡◌, refl, Bool, true, false, List, [], ◌∷◌, some, ok}
use liminal_osai.Json.{Fields, fields, bool, nat, str}
use liminal_osai.Hashing.{zero_sha256}
use liminal_osai.Hashing.Toy.{toy}
use liminal_osai.ProcessTree.State.{
  active, completed, SessionBinding, Host, Supervisor, find_session, as_document,
}
use liminal_osai.ProcessTree.Freeze.{start}
use liminal_osai.ProcessTree.Quiesce.{new_receipt}
use liminal_osai.ProcessTree.Receipt.{verify_receipt}
use liminal_osai.ProcessTree.Calls.{
  Call, freeze_all_call, mark_complete_call, quiesce_session_call, quiesce_all_call, after,
}
use liminal_osai.ProcessTree.Verified.{verify_receipt-new_receipt}
use liminal_osai.ProcessTree.NoFreeze.{other_host, quiesce_all_without_freeze}
use liminal_osai.ProcessTree.Quiesce.{quiesce_all}
use liminal_osai.Prelude.{Done, Result, err, String}
use liminal_osai.ProcessTree.Sweeps.{terminal_persists}

-- what the host has: whether the session's processes exist, and whether they run
record Processes : Type 0 where
  present : Bool
  moving : Bool

abbrev observed : Processes → Fields
observed w = fields (
    ("exists", bool w.present)
    ∷ ("running", bool w.moving)
    ∷ ("descendant_count", nat 0)
    ∷ ("tree_sha256", str zero_sha256)
    ∷ [])

abbrev one_session : Host Processes
one_session = record {
  inspect_session = λ id w. (ok (observed w), w);
  freeze_session = λ id w. (ok tt, record w { moving = false });
  terminate_session = λ id w. (ok tt, record { present = false; moving = false });
}

abbrev binding : SessionBinding
binding = record {
  session_id = "session:1";
  operation_id = "operation:1";
  plan_sha256 = zero_sha256;
  backend_identity_sha256 = zero_sha256;
  status = active;
}

abbrev finished : SessionBinding
finished = record binding { session_id = "session:2"; status = completed }

abbrev supervisor : Supervisor Processes
supervisor = record {
  world = record { present = true; moving = true };
  sessions = binding ∷ finished ∷ [];
  receipts = [];
  freeze_receipts = [];
}

abbrev calls : List Call
calls =
    quiesce_all_call "incident:1"
    ∷ freeze_all_call
    ∷ quiesce_all_call "incident:1"
    ∷ quiesce_session_call "session:2" "incident:1"
    ∷ mark_complete_call "session:2"
    ∷ []

terminal_persists_example :
    find_session "session:2" (after one_session supervisor calls).sessions ≡ some finished
terminal_persists_example =
    terminal_persists one_session supervisor calls "session:2" finished refl refl

verify_receipt-new_receipt_example :
    verify_receipt (
      fields (as_document (new_receipt one_session (binding ∷ []) "incident:1" (start supervisor))))
    ≡ ok (
        fields
          (as_document (new_receipt one_session (binding ∷ []) "incident:1" (start supervisor))))
verify_receipt-new_receipt_example =
    verify_receipt-new_receipt one_session (binding ∷ []) "incident:1" (start supervisor)

-- a freeze that raises
abbrev broken_freeze : String → Processes → Result Done × Processes
broken_freeze id w = (err (record { type_name = "RuntimeError"; message = id }), w)

quiesce_all_without_freeze_example :
    quiesce_all (other_host one_session broken_freeze) "incident:1" supervisor
    ≡ quiesce_all one_session "incident:1" supervisor
quiesce_all_without_freeze_example =
    quiesce_all_without_freeze one_session broken_freeze "incident:1" supervisor
