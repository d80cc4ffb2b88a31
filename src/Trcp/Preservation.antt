-- ===== src/Trcp/Preservation.antt =====
-- Every public method keeps the invariant, whether it returns or raises.
use liminal_osai.Prelude.{
  ℤ, String, ◌≡◌, refl, Bool, true, false, not, Option, none, some, List, [], ◌∷◌, Exec, Exception,
  arith, if◌then◌else◌, inl, inr, eq_iff, subst,
}
use liminal_osai.Json.{Fields}
use liminal_osai.Hashing.{Hashing}
use liminal_osai.Exec.{◌>>=◌, ◌>>◌}
use liminal_osai.Exec.Keeps.{
  Keeps, Keeps-modify, Keeps-bind, Keeps-then, Keeps-get_bind, Keeps-pure, get_bind-at,
  raise_if_then-at, modify_then-at, keeps_rules,
}
use liminal_osai.Trcp.Scope.{ScopeEnvelope, is_equal_or_narrower_than}
use liminal_osai.Trcp.Narrowing.{is_equal_or_narrower_than_trans}
use liminal_osai.Trcp.Provider.{MockProvider, ProviderOutput}
use liminal_osai.Trcp.State.{State, Simulator, RunRecord, Finding, VerificationRecord}
use liminal_osai.Trcp.Protocol.{
  fail_failover, record_run, new_finding, store_finding, capture_finding, with_status,
}
use liminal_osai.Trcp.Common.{or_raise, or_scope}
use liminal_osai.Trcp.Methods.{advance_time, authorize, after_primary, execute_primary}
use liminal_osai.Trcp.Failover.{fail_if, record_failover, after_fallback, execute_fallback}
use liminal_osai.Trcp.Verification.{
  not_reproduced, new_verification, verify_finding, verify_or_close, verify, confirm_finding,
}
use liminal_osai.Trcp.Calls.{Call, perform, after}
use liminal_osai.Trcp.Invariant.{
  Inv, HasStatus, HasResult, append-Inv, transition-Inv, fail_failover-Inv, or_fail-Inv,
  set_runs-Inv, set_now-Inv, set_failover-Inv, set_scope-Inv, set_finding-Inv, set_verified-Inv,
}

module _ ⦃h : Hashing⦄ (start : Simulator) where
  or_raise-Inv : {A : Type 0} (o : Option A) (e : Exception) → Keeps (Inv start) (or_raise o e)
  or_raise-Inv none e = search keeps_rules
  or_raise-Inv (some a) e = search keeps_rules

  record_run-Inv :
      (p : MockProvider) (t : String) (o : ProviderOutput) → Keeps (Inv start) (record_run p t o)
  unfolding record_run
  record_run-Inv p t o = search (keeps_rules, append-Inv, Keeps-modify, set_runs-Inv)

  advance_time-Inv : (now : ℤ) → Keeps (Inv start) (advance_time now)
  unfolding advance_time
  advance_time-Inv now = search (keeps_rules, append-Inv, Keeps-modify, set_now-Inv)

  authorize-Inv : Keeps (Inv start) authorize
  unfolding authorize
  authorize-Inv = search (keeps_rules, transition-Inv)

  unverified :
      (s : Simulator) (n : Fields) (o : ProviderOutput) (r : String)
      → HasStatus "CONFIRMED" (some (new_finding s n o r))
      → ⊥
  unfolding new_finding
  unverified s n o r e = ground (arith, eq_iff "UNVERIFIED" "CONFIRMED")

  store_finding-Inv :
      (n : Fields) (o : ProviderOutput) (r : String) → Keeps (Inv start) (store_finding n o r)
  unfolding store_finding
  store_finding-Inv n o r = Keeps-then _ _ (search keeps_rules) (
      Keeps-get_bind _ λ s i.
        Keeps-then _ _
          (Keeps-modify _ (λ t j. set_finding-Inv start t _ (λ e. absurd (unverified s n o r e)) j))
          (append-Inv start _ _))

  capture_finding-Inv : (o : ProviderOutput) (r : String) → Keeps (Inv start) (capture_finding o r)
  unfolding capture_finding
  capture_finding-Inv o r = search (keeps_rules, store_finding-Inv)

  after_primary-Inv : (o : ProviderOutput) (r : RunRecord) → Keeps (Inv start) (after_primary o r)
  unfolding after_primary
  after_primary-Inv o r = search (keeps_rules, transition-Inv, capture_finding-Inv)

  execute_primary-Inv :
      (task : Fields) (p : MockProvider) → Keeps (Inv start) (execute_primary task p)
  unfolding execute_primary
  execute_primary-Inv task p =
      search (keeps_rules, or_fail-Inv, transition-Inv, record_run-Inv, after_primary-Inv) depth 20

  fail_if-Inv :
      (c : Bool) (t : State) (reason message : String)
      → Keeps (Inv start) (fail_if c t reason message)
  fail_if-Inv c t reason message = search (keeps_rules, fail_failover-Inv)

  -- `_fail_failover` always raises, so nothing after it runs.
  fail_failover_stops :
      {A B : Type 0} (t : State) (reason message : String) (f : B → Exec Simulator A)
      (s : Simulator)
      → ((fail_failover {A = B} t reason message >>= f) s).1
        ≡ (fail_failover {A = B} t reason message s).1
  unfolding fail_failover ◌>>=◌ ◌>>◌
  fail_failover_stops t reason message f s = ground arith

  -- What follows a check that did not fail may use its outcome.
  fail_if_then-Inv :
      {A : Type 0} (c : Bool) (t : State) (reason message : String) (n : Exec Simulator A)
      → (c ≡ false → Keeps (Inv start) n)
      → Keeps (Inv start) (fail_if c t reason message >> n)
  unfolding ◌>>◌
  fail_if_then-Inv true t reason message n kn = record {
    at = λ s i. rw fail_failover_stops ((fail_failover-Inv start t reason message).at s i);
  }
  fail_if_then-Inv false t reason message n kn = Keeps-bind _ _ (Keeps-pure tt) (λ _. kn refl)

  candidate_narrows :
      (s : Simulator) (candidate : ScopeEnvelope)
      → Inv start s
      → not (is_equal_or_narrower_than candidate s.scope) ≡ false
      → is_equal_or_narrower_than candidate start.scope ≡ true
  candidate_narrows s candidate i n =
      let within : is_equal_or_narrower_than candidate s.scope ≡ true = ground arith in
      elim i.narrowed [
        | inl same ↦ subst (λ p. is_equal_or_narrower_than candidate p ≡ true) same within
        | inr more ↦ is_equal_or_narrower_than_trans candidate s.scope start.scope within more
      ]

  record_failover-Inv :
      (p : MockProvider) (o : Option ScopeEnvelope) (a m u : Bool) (r : Option String)
      → Keeps (Inv start) (record_failover p o a m u r)
  unfolding record_failover
  record_failover-Inv p o a m u r = Keeps-get_bind _ λ s i. Keeps-then _ _ (search keeps_rules) (
      Keeps-then _ _ (or_fail-Inv start _ _ _) (
        Keeps-then _ _ (fail_if-Inv _ _ _ _) (
          Keeps-then _ _ (or_fail-Inv start _ _ _) (
            fail_if_then-Inv _ _ _ _ _ λ n.
              let narrow = candidate_narrows s (or_scope o s.scope) i n in
              search
                (
                  keeps_rules, fail_if-Inv, or_raise-Inv, append-Inv, Keeps-modify,
                  set_failover-Inv, set_scope-Inv, narrow,
                )
                depth 20))))

  after_fallback-Inv : (o : ProviderOutput) (r : RunRecord) → Keeps (Inv start) (after_fallback o r)
  unfolding after_fallback
  after_fallback-Inv o r = search (keeps_rules, transition-Inv, capture_finding-Inv)

  execute_fallback-Inv :
      (task : Fields) (p : MockProvider) → Keeps (Inv start) (execute_fallback task p)
  unfolding execute_fallback
  execute_fallback-Inv task p =
      search
        (
          keeps_rules, or_raise-Inv, fail_if-Inv, or_fail-Inv, transition-Inv, record_run-Inv,
          after_fallback-Inv,
        )
        depth 24

  -- a result that could confirm is the result of the verification stored with it
  status_evidenced :
      (f : Finding) (v : VerificationRecord) (b : Bool)
      → v.result ≡ (if b then "REPRODUCED" else "NOT_REPRODUCED")
      → HasStatus "CONFIRMED" (some (with_status f (if b then "REPRODUCED" else "NOT_REPRODUCED")))
      → HasResult "REPRODUCED" (some v)
  unfolding with_status
  status_evidenced f v true r e = r
  status_evidenced f v false r e = ground (arith, eq_iff "NOT_REPRODUCED" "CONFIRMED")

  verify_finding-Inv : (b : Bool) (f : Finding) → Keeps (Inv start) (verify_finding b f)
  unfolding verify_finding new_verification
  verify_finding-Inv b f = Keeps-get_bind _ λ s i.
      Keeps-then _ _
        (Keeps-modify _ (λ t j.
          set_verified-Inv start t
            (some (with_status f (if b then "REPRODUCED" else "NOT_REPRODUCED")))
            (some (new_verification s f (if b then "REPRODUCED" else "NOT_REPRODUCED")))
            (status_evidenced f
              (new_verification s f (if b then "REPRODUCED" else "NOT_REPRODUCED")) b refl)
            j))
        (search (keeps_rules, append-Inv, transition-Inv) depth 12)

  verify_or_close-Inv : (b : Bool) (f : Option Finding) → Keeps (Inv start) (verify_or_close b f)
  unfolding verify_or_close
  verify_or_close-Inv b none = search (keeps_rules, transition-Inv)
  verify_or_close-Inv b (some f) = verify_finding-Inv b f

  verify-Inv : (b : Bool) → Keeps (Inv start) (verify b)
  unfolding verify
  verify-Inv b = search (keeps_rules, verify_or_close-Inv) depth 12

  or_raise_bind-at :
      {A B : Type 0} (o : Option A) (e : Exception) (f : A → Exec Simulator B) (s : Simulator)
      → Inv start s
      → ((x : A) → Inv start (f x s).1)
      → Inv start ((or_raise o e >>= f) s).1
  unfolding ◌>>=◌
  or_raise_bind-at none e f s i k = i
  or_raise_bind-at (some x) e f s i k = k x

  reproduced_result :
      (v : Option VerificationRecord) → not_reproduced v ≡ false → HasResult "REPRODUCED" v
  reproduced_result none e = absurd (cc)
  reproduced_result (some v) e = ground (arith, eq_iff v.result "REPRODUCED")

  confirm_finding-Inv : Keeps (Inv start) confirm_finding
  unfolding confirm_finding
  confirm_finding-Inv = record {
    at = λ s i. get_bind-at (Inv start) _ s (
        or_raise_bind-at s.finding _ _ s i λ f. raise_if_then-at (Inv start) _ _ _ s i λ reproduced.
          raise_if_then-at (Inv start) _ _ _ s i λ _.
            modify_then-at (Inv start) _ _ s (search (keeps_rules, append-Inv, transition-Inv)) (
              set_finding-Inv start s (some (with_status f "CONFIRMED"))
                (λ _. reproduced_result s.verification reproduced) i));
  }

  pub perform-Inv : (c : Call) → Keeps (Inv start) (perform c)
  unfolding perform
  perform-Inv (Call.advance_time_call now) = advance_time-Inv now
  perform-Inv Call.authorize_call = authorize-Inv
  perform-Inv (Call.execute_primary_call task p) = search (keeps_rules, execute_primary-Inv)
  perform-Inv (Call.record_failover_call p o a m u r) = search (keeps_rules, record_failover-Inv)
  perform-Inv (Call.execute_fallback_call task p) = search (keeps_rules, execute_fallback-Inv)
  perform-Inv (Call.verify_call b) = search (keeps_rules, verify-Inv)
  perform-Inv Call.confirm_finding_call = confirm_finding-Inv

  -- Whatever calls a client makes, in any order and whether they return or raise, the simulator
  -- keeps the invariant.
  pub after-Inv : (s : Simulator) (calls : List Call) → Inv start s → Inv start (after s calls)
  unfolding after
  after-Inv s [] i = i
  after-Inv s (c ∷ cs) i = after-Inv (perform c s).1 cs ((perform-Inv c).at s i)
