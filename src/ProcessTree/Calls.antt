-- ===== src/ProcessTree/Calls.antt =====
-- The public methods of `ProcessTreeSupervisor` that change it, as calls that a client may make.
use liminal_osai.Prelude.{String, List, [], ◌∷◌, Done, Exec}
use liminal_osai.Hashing.{Hashing}
use liminal_osai.Exec.{pure, ◌>>◌}
use liminal_osai.ProcessTree.State.{Host, Supervisor}
use liminal_osai.ProcessTree.Sessions.{register_session, mark_complete}
use liminal_osai.ProcessTree.Freeze.{freeze_all}
use liminal_osai.ProcessTree.Quiesce.{quiesce_session, quiesce_all}

pub data Call : Type 0 where
  register_session_call : (session_id operation_id plan backend : String) → Call
  mark_complete_call : (session_id : String) → Call
  freeze_all_call : Call
  quiesce_session_call : (session_id incident_id : String) → Call
  quiesce_all_call : (incident_id : String) → Call

module _ {W : Type 0} (host : Host W) ⦃h : Hashing⦄ where
  unfoldable pub perform : Call → Exec (Supervisor W) Done
  perform (register_session_call id operation plan backend) = do
    register_session id operation plan backend
    pure tt
  perform (mark_complete_call id) = do mark_complete host id; pure tt
  perform freeze_all_call = do freeze_all host; pure tt
  perform (quiesce_session_call id incident) = do quiesce_session host id incident; pure tt
  perform (quiesce_all_call incident) = do quiesce_all host incident; pure tt

  -- the supervisor after some calls, returned or raised
  unfoldable pub after : Supervisor W → List Call → Supervisor W
  after s [] = s
  after s (c ∷ cs) = after (perform c s).1 cs
