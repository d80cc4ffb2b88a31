-- ===== src/Trcp/Gate.antt =====
-- No provider runs unless the authorization, the effective scope and the task are valid at that
-- moment, and a fallback runs the recorded provider on the task of the run before.
use liminal_osai.Prelude.{
  String, ◌≡◌, ◌⊎◌, refl, Bool, true, false, Option, none, some, Exec, Done, Result, Exception, ok,
  err, arith, inl, inr, eq_iff, last?,
}
use liminal_osai.Json.{Fields}
use liminal_osai.Hashing.{Hashing}
use liminal_osai.Exec.{raise_if, ◌>>=◌, ◌>>◌}
use liminal_osai.Exec.Keeps.{get_bind-at}
use liminal_osai.Trcp.Authorization
use liminal_osai.Trcp.Scope
use liminal_osai.Trcp.Provider.{MockProvider}
use liminal_osai.Trcp.State.{
  State, Simulator, RunRecord, FailoverRecord, is_authorized, is_failover_pending,
}
use liminal_osai.Trcp.Task.{validate_task}
use liminal_osai.Trcp.Protocol.{append, transition, fail_failover, or_fail}
use liminal_osai.Trcp.Common.{or_raise}
use liminal_osai.Trcp.Methods.{execute_primary}
use liminal_osai.Trcp.Failover.{fail_if, execute_fallback}

module _ ⦃h : Hashing⦄ where
  -- what is checked of the task that a provider runs
  pub record IsAdmitted (s : Simulator) (task : Fields) (task_hash : String) : Type 0 where
    pub authorization_valid : Authorization.validate s.authorization s.now_unix ≡ ok tt
    pub scope_valid : Scope.validate s.scope s.authorization s.now_unix ≡ ok tt
    pub task_valid : validate_task s.authorization s.scope task ≡ ok task_hash

  -- what is checked before a fallback provider runs
  pub record IsFallback (s : Simulator) (task : Fields) (provider : MockProvider) : Type 0 where
    pub decision : FailoverRecord
    pub previous : RunRecord
    pub recorded : s.failover_record ≡ some decision
    pub same_provider : provider.provider_id ≡ decision.new_provider_id
    pub same_model : provider.model_id ≡ decision.new_model_id
    pub latest : last? s.provider_runs ≡ some previous
    pub admitted : IsAdmitted s task previous.normalized_task_hash

module _ ⦃h : Hashing⦄ where
  abbrev SameRuns : Simulator → Simulator → Type 0
  SameRuns s t = t.provider_runs ≡ s.provider_runs

  runs-fail_failover :
      {A B : Type 0} (t : State) (reason message : String) (f : A → Exec Simulator B)
      (s : Simulator)
      → SameRuns s ((fail_failover t reason message >>= f) s).1
  unfolding fail_failover transition append ◌>>=◌ ◌>>◌
  runs-fail_failover t reason message f s = ground arith

  -- The runs of `t` are those of `s`, or the evidence is there.
  data Gated (E : Type 0) (s t : Simulator) : Type 0 where
    unchanged : SameRuns s t → Gated E s t
    evidence : E → Gated E s t

  gate : {E : Type 0} {s t : Simulator} → Gated E s t → SameRuns s t ⊎ E
  gate (unchanged e) = inl e
  gate (evidence e) = inr e

  module _ (E : Type 0) (s : Simulator) where
    or_fail-gate :
        {A B : Type 0} (r : Result A) (t : State) (reason : String) (f : A → Exec Simulator B)
        → ((a : A) → r ≡ ok a → Gated E s (f a s).1)
        → Gated E s ((or_fail r t reason >>= f) s).1
    unfolding or_fail ◌>>=◌
    or_fail-gate (ok a) t reason f k = k a refl
    or_fail-gate (err e) t reason f k = unchanged (runs-fail_failover t reason e.message f s)

    fail_if-gate :
        {B : Type 0} (c : Bool) (t : State) (reason message : String) (n : Exec Simulator B)
        → (c ≡ false → Gated E s (n s).1)
        → Gated E s ((fail_if c t reason message >> n) s).1
    unfolding ◌>>◌
    fail_if-gate true t reason message n k =
        unchanged (runs-fail_failover t reason message (λ _. n) s)
    fail_if-gate false t reason message n k = k refl

    or_fail_then-gate :
        {A B : Type 0} (r : Result A) (t : State) (reason : String) (n : Exec Simulator B)
        → ((a : A) → r ≡ ok a → Gated E s (n s).1)
        → Gated E s ((or_fail r t reason >> n) s).1
    unfolding ◌>>◌
    or_fail_then-gate r t reason n k = or_fail-gate r t reason (λ _. n) k

    or_raise-gate :
        {A B : Type 0} (o : Option A) (e : Exception) (f : A → Exec Simulator B)
        → ((a : A) → o ≡ some a → Gated E s (f a s).1)
        → Gated E s ((or_raise o e >>= f) s).1
    unfolding ◌>>=◌
    or_raise-gate none e f k = unchanged refl
    or_raise-gate (some a) e f k = k a refl

    raise_if-gate :
        {B : Type 0} (c : Bool) (e : Exception) (n : Exec Simulator B)
        → (c ≡ false → Gated E s (n s).1)
        → Gated E s ((raise_if c e >> n) s).1
    unfolding ◌>>◌
    raise_if-gate true e n k = unchanged refl
    raise_if-gate false e n k = k refl

  admit :
      (s : Simulator) (task : Fields) {a b : Done} {task_hash recorded_hash : String}
      → Authorization.validate s.authorization s.now_unix ≡ ok a
      → Scope.validate s.scope s.authorization s.now_unix ≡ ok b
      → validate_task s.authorization s.scope task ≡ ok task_hash
      → task_hash ≡ recorded_hash
      → IsAdmitted s task recorded_hash
  admit s task auth scope valid same = record {
    authorization_valid = auth;
    scope_valid = scope;
    task_valid = cc;
  }

  -- `execute_primary` records a run only from AUTHORIZED, for a task that is valid under an
  -- authorization and a scope that are valid at that moment; else the runs stay as they were.
  pub execute_primary_gate :
      (task : Fields) (provider : MockProvider) (s : Simulator)
      → SameRuns s (execute_primary task provider s).1
        ⊎ ((is_authorized s.state ≡ true) × ((task_hash : String) × IsAdmitted s task task_hash))
  unfolding execute_primary
  execute_primary_gate task provider s = gate (
      get_bind-at (Gated _ s) _ s (
        raise_if-gate _ s _ _ _ λ state. or_fail_then-gate _ s _ _ _ _ λ _ auth.
          or_fail_then-gate _ s _ _ _ _ λ _ scope. or_fail-gate _ s _ _ _ _ λ task_hash valid.
            evidence (
              ground arith,
              (
                task_hash,
                record { authorization_valid = auth; scope_valid = scope; task_valid = valid },
              ),
            )))

  -- `execute_fallback` records a run only from FAILOVER_PENDING, with the provider and model of the
  -- recorded decision, for the very task of the run before, valid under an authorization and an
  -- effective scope that are valid at that moment; else the runs stay as they were.
  pub execute_fallback_gate :
      (task : Fields) (provider : MockProvider) (s : Simulator)
      → SameRuns s (execute_fallback task provider s).1
        ⊎ ((is_failover_pending s.state ≡ true) × IsFallback s task provider)
  unfolding execute_fallback
  execute_fallback_gate task provider s = gate (
      get_bind-at (Gated _ s) _ s (
        raise_if-gate _ s _ _ _ λ state.
          or_raise-gate _ s s.failover_record _ _ λ decision recorded.
            fail_if-gate _ s _ _ _ _ _ λ same. or_fail_then-gate _ s _ _ _ _ λ _ auth.
              or_fail_then-gate _ s _ _ _ _ λ _ scope. or_fail-gate _ s _ _ _ _ λ task_hash valid.
                or_raise-gate _ s (last? s.provider_runs) _ _ λ previous latest.
                  fail_if-gate _ s _ _ _ _ _ λ same_task. evidence (
                    ground arith,
                    record {
                      decision = decision;
                      previous = previous;
                      recorded = recorded;
                      same_provider =
                          ground (arith, eq_iff provider.provider_id decision.new_provider_id);
                      same_model = ground (arith, eq_iff provider.model_id decision.new_model_id);
                      latest = latest;
                      admitted =
                          admit s task auth scope valid
                            (ground (arith, eq_iff task_hash previous.normalized_task_hash));
                    },
                  )))
