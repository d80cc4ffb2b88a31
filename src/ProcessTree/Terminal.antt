-- ===== src/ProcessTree/Terminal.antt =====
-- A session that is COMPLETED or TERMINATED keeps its binding for ever.
use liminal_osai.Prelude.{
  String, ◌≡◌, refl, sym, ap, subst, ◌∙◌, inl, inr, true, false, not, ◌&&◌, Bool-cases, List, [],
  ◌∷◌, ◌++◌, Option, none, some, ◌==◌, eq_iff, arith, Result,
}
use liminal_osai.Hashing.{Hashing}
use liminal_osai.Exec.{modify, ◌>>=◌, ◌>>◌}
use liminal_osai.Exec.Keeps.{Keeps, Keeps-raise, Keeps-pure, raise_if_then-at, keeps_rules}
use liminal_osai.ProcessTree.State.{
  Status, status_name, is_terminal, SessionBinding, Host, Supervisor, find_session, replace_session,
}
use liminal_osai.ProcessTree.Sessions
use liminal_osai.ProcessTree.Sessions.{
  host_call, get_binding, move_status, set_status, inspect, register_session, complete_if_absent,
  mark_complete,
}
use liminal_osai.ProcessTree.Lookup.{
  find_session-id, find-replace_same, find-replace_other, find-append, status_same,
}

-- what is terminal in `s` is the same in `t`
pub record Persist (s t : List SessionBinding) : Type 0 where
  pub kept :
      (id : String) (b : SessionBinding)
      → find_session id s ≡ some b
      → is_terminal b.status ≡ true
      → find_session id t ≡ some b

unchanged :
    (status : Status) (c : SessionBinding)
    → is_terminal c.status ≡ true
    → (is_terminal c.status && not (status_name status == status_name c.status)) ≡ false
    → record c { status = status } ≡ c
unchanged status c ended allowed =
    let e = status_same status c.status ended (ground arith) in rw e refl

replace-Persist :
    (id : String) (status : Status) (s t : List SessionBinding) (c : SessionBinding)
    → Persist s t
    → find_session id t ≡ some c
    → (is_terminal c.status && not (status_name status == status_name c.status)) ≡ false
    → Persist s (replace_session id (record c { status = status }) t)
replace-Persist id status s t c p found allowed = record {
  kept = λ j b here ended. elim (Bool-cases (id == j)) [
    | inl same ↦
        let at_j : id ≡ j = (eq_iff id j).0 same in
        let still = p.kept j b here ended in
        let one : c ≡ b = cc in
        let ended_c : is_terminal c.status ≡ true =
          subst (λ x. is_terminal x.status ≡ true) (sym one) ended in
        let new =
          find-replace_same id (record c { status = status }) t c (find_session-id id t c found)
            found in
        let eq = unchanged status c ended_c allowed in
        subst (λ x. find_session x (replace_session id (record c { status = status }) t) ≡ some b)
          at_j (new ∙ ap some (eq ∙ one))
    | inr other ↦
        find-replace_other id j (record c { status = status }) t (find_session-id id t c found)
          other
        ∙ p.kept j b here ended
  ];
}

module _ {W : Type 0} (before : List SessionBinding) where
  -- what the supervisor's methods keep
  abbrev pub Safe : Supervisor W → Type 0
  Safe s = Persist before s.sessions

  pub host_call-Safe :
      {A : Type 0} (f : W → Result A × W) → Keeps Safe (host_call {W = W} {A = A} f)
  host_call-Safe f = record { at = λ s p. p }

  move_status-Safe :
      (id : String) (status : Status) (s : Supervisor W)
      → Safe s
      → Safe (move_status id status (find_session id s.sessions) s).1
  unfolding move_status ◌>>◌ ◌>>=◌
  move_status-Safe id status s p = go (find_session id s.sessions) refl
    where
      go :
          (o : Option SessionBinding)
          → find_session id s.sessions ≡ o
          → Safe (move_status id status o s).1
      go none e = p
      go (some c) e =
          raise_if_then-at Safe _ _ _ s p
            λ allowed. replace-Persist id status before s.sessions c p e allowed

  pub set_status-Safe : (id : String) (status : Status) → Keeps Safe (set_status {W = W} id status)
  unfolding set_status ◌>>=◌
  set_status-Safe id status = record { at = λ s p. move_status-Safe id status s p }

  pub get_binding-Safe : (id : String) → Keeps Safe (get_binding {W = W} id)
  unfolding get_binding
  get_binding-Safe id = search (keeps_rules, known-Safe) depth 20
    where
      known-Safe : (o : Option SessionBinding) → Keeps Safe (Sessions.known {W = W} o)
      known-Safe none = Keeps-raise _
      known-Safe (some b) = Keeps-pure b

  pub inspect-Safe : (host : Host W) (id : String) → Keeps Safe (inspect host id)
  unfolding inspect
  inspect-Safe host id = search (keeps_rules, host_call-Safe) depth 20

  module _ ⦃h : Hashing⦄ where
    pub register_session-Safe :
        (id operation plan backend : String)
        → Keeps Safe (register_session {W = W} id operation plan backend)
    unfolding register_session
    register_session-Safe id operation plan backend = search (keeps_rules, add-Safe) depth 30
      where
        add-Safe :
            (b : SessionBinding)
            → Keeps Safe (modify (λ t. record t { sessions = t.sessions ++ b ∷ [] }))
        add-Safe b = record {
          at = λ s p. record {
            kept = λ j c here ended. find-append j s.sessions _ c (p.kept j c here ended);
          };
        }

    pub mark_complete-Safe : (host : Host W) (id : String) → Keeps Safe (mark_complete host id)
    unfolding mark_complete complete_if_absent
    mark_complete-Safe host id =
        search (keeps_rules, set_status-Safe, get_binding-Safe, inspect-Safe) depth 30
