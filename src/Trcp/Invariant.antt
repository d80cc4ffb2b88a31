-- ===== src/Trcp/Invariant.antt =====
-- What every call keeps: the protocol graph, the linked trace, the bounds of the scope, and the
-- evidence behind a confirmed finding.
use liminal_osai.Prelude.{
  ℤ, String, ◌≡◌, ◌⊎◌, true, Option, none, some, List, Result, ok, err, Bool-cases, inl, inr,
}
use liminal_osai.Json.{Fields}
use liminal_osai.Hashing.{Hashing, zero_sha256}
use liminal_osai.Exec.{◌>>=◌, ◌>>◌}
use liminal_osai.Exec.Keeps.{Keeps, keeps_rules}
use liminal_osai.Trcp.Scope.{ScopeEnvelope, is_equal_or_narrower_than}
use liminal_osai.Trcp.State.{
  State, may_move, Simulator, RunRecord, FailoverRecord, Finding, VerificationRecord,
}
use liminal_osai.Trcp.Protocol.{append, transition, fail_failover, or_fail}
use liminal_osai.Trcp.Trace.{IsTrace, next_event-IsTrace}

-- the protocol's graph: any number of allowed transitions
pub data Moves (s : State) : State → Type 0 where
  here : Moves s s
  next : {t u : State} → Moves s t → may_move t u ≡ true → Moves s u

abbrev pub HasStatus : String → Option Finding → Type 0
HasStatus status none = ⊥
HasStatus status (some f) = f.status ≡ status

abbrev pub HasResult : String → Option VerificationRecord → Type 0
HasResult result none = ⊥
HasResult result (some v) = v.result ≡ result

module _ ⦃h : Hashing⦄ where
  pub record Inv (start s : Simulator) : Type 0 where
    pub moved : Moves start.state s.state
    pub traced : IsTrace 1 zero_sha256 s.trace
    pub same_authorization : s.authorization ≡ start.authorization
    pub same_initial : s.initial_scope ≡ start.initial_scope
    pub narrowed : (s.scope ≡ start.scope) ⊎ (is_equal_or_narrower_than s.scope start.scope ≡ true)
    pub evidenced : HasStatus "CONFIRMED" s.finding → HasResult "REPRODUCED" s.verification

module _ ⦃h : Hashing⦄ (start : Simulator) where
  pub append-Inv : (kind : String) (payload : Fields) → Keeps (Inv start) (append kind payload)
  unfolding append
  append-Inv kind payload = record {
    at = λ s i. record {
      moved = i.moved;
      traced = next_event-IsTrace s kind payload i.traced;
      same_authorization = i.same_authorization;
      same_initial = i.same_initial;
      narrowed = i.narrowed;
      evidenced = i.evidenced;
    };
  }

  set_state-Inv :
      (s : Simulator) (t : State)
      → may_move s.state t ≡ true
      → Inv start s
      → Inv start (record s { state = t })
  set_state-Inv s t allowed i = record {
    moved = Moves.next i.moved allowed;
    traced = i.traced;
    same_authorization = i.same_authorization;
    same_initial = i.same_initial;
    narrowed = i.narrowed;
    evidenced = i.evidenced;
  }

  pub transition-Inv : (t : State) (reason : String) → Keeps (Inv start) (transition t reason)
  unfolding transition ◌>>=◌ ◌>>◌
  transition-Inv t reason = record {
    at = λ s i. elim (Bool-cases (may_move s.state t)) [
      | inl allowed ↦ rw allowed ((append-Inv _ _).at _ (set_state-Inv s t allowed i))
      | inr refused ↦ rw refused i
    ];
  }

  pub fail_failover-Inv :
      {A : Type 0} (t : State) (reason message : String)
      → Keeps (Inv start) (fail_failover {A = A} t reason message)
  unfolding fail_failover
  fail_failover-Inv t reason message = search (keeps_rules, transition-Inv)

  pub or_fail-Inv :
      {A : Type 0} (r : Result A) (t : State) (reason : String)
      → Keeps (Inv start) (or_fail r t reason)
  unfolding or_fail
  or_fail-Inv (ok a) t reason = search keeps_rules
  or_fail-Inv (err e) t reason = fail_failover-Inv t reason e.message

  -- changes of one field, each with what the invariant asks of it
  pub set_runs-Inv :
      (s : Simulator) (runs : List RunRecord)
      → Inv start s
      → Inv start (record s { provider_runs = runs })
  set_runs-Inv s runs i = record {
    moved = i.moved;
    traced = i.traced;
    same_authorization = i.same_authorization;
    same_initial = i.same_initial;
    narrowed = i.narrowed;
    evidenced = i.evidenced;
  }

  pub set_now-Inv :
      (s : Simulator) (now : ℤ) → Inv start s → Inv start (record s { now_unix = now })
  set_now-Inv s now i = record {
    moved = i.moved;
    traced = i.traced;
    same_authorization = i.same_authorization;
    same_initial = i.same_initial;
    narrowed = i.narrowed;
    evidenced = i.evidenced;
  }

  pub set_failover-Inv :
      (s : Simulator) (r : Option FailoverRecord)
      → Inv start s
      → Inv start (record s { failover_record = r })
  set_failover-Inv s r i = record {
    moved = i.moved;
    traced = i.traced;
    same_authorization = i.same_authorization;
    same_initial = i.same_initial;
    narrowed = i.narrowed;
    evidenced = i.evidenced;
  }

  pub set_scope-Inv :
      (s : Simulator) (candidate : ScopeEnvelope)
      → is_equal_or_narrower_than candidate start.scope ≡ true
      → Inv start s
      → Inv start (record s { scope = candidate })
  set_scope-Inv s candidate n i = record {
    moved = i.moved;
    traced = i.traced;
    same_authorization = i.same_authorization;
    same_initial = i.same_initial;
    narrowed = inr n;
    evidenced = i.evidenced;
  }

  pub set_finding-Inv :
      (s : Simulator) (f : Option Finding)
      → (HasStatus "CONFIRMED" f → HasResult "REPRODUCED" s.verification)
      → Inv start s
      → Inv start (record s { finding = f })
  set_finding-Inv s f e i = record {
    moved = i.moved;
    traced = i.traced;
    same_authorization = i.same_authorization;
    same_initial = i.same_initial;
    narrowed = i.narrowed;
    evidenced = e;
  }

  pub set_verified-Inv :
      (s : Simulator) (f : Option Finding) (v : Option VerificationRecord)
      → (HasStatus "CONFIRMED" f → HasResult "REPRODUCED" v)
      → Inv start s
      → Inv start (record s { finding = f; verification = v })
  set_verified-Inv s f v e i = record {
    moved = i.moved;
    traced = i.traced;
    same_authorization = i.same_authorization;
    same_initial = i.same_initial;
    narrowed = i.narrowed;
    evidenced = e;
  }
