-- ===== src/ProcessTree/Sweeps.antt =====
-- No call resurrects a terminal session: the sweeps of `freeze_all` and `_quiesce`, then all calls.
use liminal_osai.Prelude.{
  String, ◌≡◌, Bool, true, false, List, [], ◌∷◌, some, Exec, Done, Result, ok, err, Exception,
}
use liminal_osai.Hashing.{Hashing}
use liminal_osai.Exec.Keeps.{Keeps, Keeps-modify, Keeps-pure, Keeps-then, keeps_rules}
use liminal_osai.ProcessTree.Observation.{ProcessTreeObservation}
use liminal_osai.ProcessTree.State.{
  Status, is_terminal, SessionBinding, Host, Supervisor, find_session,
}
use liminal_osai.ProcessTree.Freeze.{
  Sweep, start, on_supervisor, fail, fail_with, add_before, add_after, mark, freeze_if_running,
  after_freeze, try_freeze, recover, freeze_present, freeze_seen, freeze_one, freeze_each,
  record_freeze, sweep, freeze_all,
}
use liminal_osai.ProcessTree.Quiesce.{
  survive, judge, note_failure, terminate, emergency_freeze, after_emergency, quiesce_running,
  quiesce_present, quiesce_seen, quiesce_one, quiesce_each, record_receipt, quiesce,
  quiesce_session, quiesce_all,
}
use liminal_osai.ProcessTree.Calls.{
  Call, register_session_call, mark_complete_call, freeze_all_call, quiesce_session_call,
  quiesce_all_call, perform, after,
}
use liminal_osai.ProcessTree.Terminal.{
  Safe, host_call-Safe, set_status-Safe, get_binding-Safe, inspect-Safe, register_session-Safe,
  mark_complete-Safe,
}

module _ {W : Type 0} (before : List SessionBinding) where
  abbrev Sound : Sweep W → Type 0
  Sound p = Safe before p.supervisor

  on_supervisor-Sound :
      {A : Type 0} (m : Exec (Supervisor W) A)
      → Keeps (Safe before) m
      → Keeps Sound (on_supervisor m)
  unfolding on_supervisor
  on_supervisor-Sound m km = record { at = λ p s. km.at p.supervisor s }

  sweep-Safe : {A : Type 0} (m : Exec (Sweep W) A) → Keeps Sound m → Keeps (Safe before) (sweep m)
  unfolding sweep
  sweep-Safe m km = record { at = λ s p. km.at (start s) p }

  module _ ⦃h : Hashing⦄ where
    fail-Sound : (kind : String) (b : SessionBinding) → Keeps Sound (fail kind b)
    unfolding fail
    fail-Sound kind b = record { at = λ p s. s }

    fail_with-Sound :
        (kind : String) (b : SessionBinding) (e : Exception) → Keeps Sound (fail_with kind b e)
    unfolding fail_with
    fail_with-Sound kind b e = record { at = λ p s. s }

    add_before-Sound : (o : ProcessTreeObservation) → Keeps Sound (add_before o)
    unfolding add_before
    add_before-Sound o = record { at = λ p s. s }

    add_after-Sound : (o : ProcessTreeObservation) → Keeps Sound (add_after o)
    unfolding add_after
    add_after-Sound o = record { at = λ p s. s }

    mark-Sound : (b : SessionBinding) (status : Status) → Keeps Sound (mark b status)
    unfolding mark
    mark-Sound b status = on_supervisor-Sound _ (set_status-Safe before b.session_id status)

    ruleset sweep_rules = (
      keeps_rules, Keeps-modify, on_supervisor-Sound, fail-Sound, fail_with-Sound, add_before-Sound,
      add_after-Sound, mark-Sound, host_call-Safe, inspect-Safe,
    )

    module _ (host : Host W) where
      after_freeze-Sound :
          (b : SessionBinding) (o : ProcessTreeObservation) → Keeps Sound (after_freeze host b o)
      unfolding after_freeze
      after_freeze-Sound b o = search sweep_rules depth 30

      freeze_if_running-Sound :
          (b : SessionBinding) (o : ProcessTreeObservation)
          → Keeps Sound (freeze_if_running host b o)
      unfolding freeze_if_running
      freeze_if_running-Sound b o = search sweep_rules depth 30

      try_freeze-Sound :
          (b : SessionBinding) (o : ProcessTreeObservation) → Keeps Sound (try_freeze host b o)
      unfolding try_freeze
      try_freeze-Sound b o =
          search (sweep_rules, freeze_if_running-Sound, after_freeze-Sound) depth 30

      recover-Sound :
          {A : Type 0} (kind : String) (b : SessionBinding) (r : Result A)
          → Keeps Sound (recover host kind b r)
      unfolding recover
      recover-Sound kind b (ok a) = search sweep_rules depth 30
      recover-Sound kind b (err e) = search sweep_rules depth 30

      freeze_seen-Sound :
          (b : SessionBinding) (r : Result ProcessTreeObservation)
          → Keeps Sound (freeze_seen host b r)
      unfolding freeze_seen freeze_present
      freeze_seen-Sound b (ok o) = search (sweep_rules, try_freeze-Sound, recover-Sound) depth 30
      freeze_seen-Sound b (err e) = search sweep_rules depth 30

      freeze_one-Sound : (b : SessionBinding) → Keeps Sound (freeze_one host b)
      unfolding freeze_one
      freeze_one-Sound b = search (sweep_rules, freeze_seen-Sound) depth 30

      freeze_each-Sound : (bs : List SessionBinding) → Keeps Sound (freeze_each host bs)
      unfolding freeze_each
      freeze_each-Sound [] = Keeps-pure tt
      freeze_each-Sound (b ∷ bs) = Keeps-then _ _ (freeze_one-Sound b) (freeze_each-Sound bs)

      freeze_all-Safe : Keeps (Safe before) (freeze_all host)
      unfolding freeze_all record_freeze
      freeze_all-Safe = search (sweep_rules, sweep-Safe, freeze_each-Sound) depth 30

      survive-Sound : (b : SessionBinding) → Keeps Sound (survive host b)
      unfolding survive
      survive-Sound b = search sweep_rules depth 30

      judge-Sound :
          (b : SessionBinding) (r : Result ProcessTreeObservation) → Keeps Sound (judge host b r)
      unfolding judge
      judge-Sound b (ok o) = search (sweep_rules, survive-Sound) depth 30
      judge-Sound b (err e) = search (sweep_rules, survive-Sound) depth 30

      note_failure-Sound :
          {A : Type 0} (kind : String) (b : SessionBinding) (r : Result A)
          → Keeps Sound (note_failure host kind b r)
      unfolding note_failure
      note_failure-Sound kind b (ok a) = search sweep_rules depth 30
      note_failure-Sound kind b (err e) = search sweep_rules depth 30

      terminate-Sound : (b : SessionBinding) → Keeps Sound (terminate host b)
      unfolding terminate
      terminate-Sound b = search (sweep_rules, judge-Sound, note_failure-Sound) depth 30

      after_emergency-Sound :
          (b : SessionBinding) (r : Result Done) → Keeps Sound (after_emergency host b r)
      unfolding after_emergency
      after_emergency-Sound b (ok a) = terminate-Sound b
      after_emergency-Sound b (err e) = search (sweep_rules, survive-Sound) depth 30

      quiesce_running-Sound :
          (allow : Bool) (b : SessionBinding) (o : ProcessTreeObservation)
          → Keeps Sound (quiesce_running host allow b o)
      unfolding quiesce_running emergency_freeze
      quiesce_running-Sound true b o = search (sweep_rules, after_emergency-Sound) depth 30
      quiesce_running-Sound false b o = search (sweep_rules, survive-Sound) depth 30

      quiesce_seen-Sound :
          (allow : Bool) (b : SessionBinding) (r : Result ProcessTreeObservation)
          → Keeps Sound (quiesce_seen host allow b r)
      unfolding quiesce_seen quiesce_present
      quiesce_seen-Sound allow b (ok o) =
          search (sweep_rules, quiesce_running-Sound, terminate-Sound) depth 30
      quiesce_seen-Sound allow b (err e) = search (sweep_rules, survive-Sound) depth 30

      quiesce_one-Sound :
          (allow : Bool) (b : SessionBinding) → Keeps Sound (quiesce_one host allow b)
      unfolding quiesce_one
      quiesce_one-Sound allow b = search (sweep_rules, quiesce_seen-Sound) depth 30

      quiesce_each-Sound :
          (allow : Bool) (bs : List SessionBinding) → Keeps Sound (quiesce_each host allow bs)
      unfolding quiesce_each
      quiesce_each-Sound allow [] = Keeps-pure tt
      quiesce_each-Sound allow (b ∷ bs) =
          Keeps-then _ _ (quiesce_one-Sound allow b) (quiesce_each-Sound allow bs)

      quiesce-Safe :
          (bs : List SessionBinding) (incident : String) (allow : Bool)
          → Keeps (Safe before) (quiesce host bs incident allow)
      unfolding quiesce record_receipt
      quiesce-Safe bs incident allow = search (sweep_rules, sweep-Safe, quiesce_each-Sound) depth 30

      perform-Safe : (c : Call) → Keeps (Safe before) (perform host c)
      unfolding perform quiesce_session quiesce_all
      perform-Safe (register_session_call id operation plan backend) =
          search (keeps_rules, register_session-Safe) depth 30
      perform-Safe (mark_complete_call id) = search (keeps_rules, mark_complete-Safe) depth 30
      perform-Safe freeze_all_call = search (keeps_rules, freeze_all-Safe) depth 30
      perform-Safe (quiesce_session_call id incident) =
          search (keeps_rules, quiesce-Safe, get_binding-Safe) depth 30
      perform-Safe (quiesce_all_call incident) = search (keeps_rules, quiesce-Safe) depth 30

      after-Safe :
          (calls : List Call) (s : Supervisor W) → Safe before s → Safe before (after host s calls)
      unfolding after
      after-Safe [] s p = p
      after-Safe (c ∷ cs) s p = after-Safe cs (perform host c s).1 ((perform-Safe c).at s p)

-- A session that is COMPLETED or TERMINATED keeps its binding, status included, whatever calls
-- follow and whatever the host reports or raises.
pub terminal_persists :
    {W : Type 0} (host : Host W) ⦃h : Hashing⦄ (s : Supervisor W) (calls : List Call) (id : String)
    (b : SessionBinding)
    → find_session id s.sessions ≡ some b
    → is_terminal b.status ≡ true
    → find_session id (after host s calls).sessions ≡ some b
terminal_persists host s calls id b found ended =
    (after-Safe s.sessions host calls s (record { kept = λ j c here still. here })).kept id b found
      ended
