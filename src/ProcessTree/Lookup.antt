-- ===== src/ProcessTree/Lookup.antt =====
-- Lookups in the dict of sessions, after a binding is replaced or added.
use liminal_osai.Prelude.{
  String, ◌≡◌, refl, true, false, List, [], ◌∷◌, ◌++◌, some, ◌==◌, eq_iff, arith,
}
use liminal_osai.ProcessTree.State.{
  Status, active, frozen, terminated, completed, error, status_name, is_terminal, SessionBinding,
  find_session, replace_session,
}

pub find_session-id :
    (id : String) (bs : List SessionBinding) (b : SessionBinding)
    → find_session id bs ≡ some b
    → b.session_id ≡ id
find_session-id id [] b h = cc
find_session-id id (c ∷ bs) b h = ground (arith, eq_iff c.session_id id, find_session-id id bs b)

pub find-replace_same :
    (id : String) (new : SessionBinding) (bs : List SessionBinding) (b : SessionBinding)
    → new.session_id ≡ id
    → find_session id bs ≡ some b
    → find_session id (replace_session id new bs) ≡ some new
find-replace_same id new [] b n h = cc
find-replace_same id new (c ∷ bs) b n h =
    ground (arith, eq_iff new.session_id id, find-replace_same id new bs b)

pub find-replace_other :
    (id j : String) (new : SessionBinding) (bs : List SessionBinding)
    → new.session_id ≡ id
    → (id == j) ≡ false
    → find_session j (replace_session id new bs) ≡ find_session j bs
find-replace_other id j new [] n h = refl
find-replace_other id j new (c ∷ bs) n h =
    ground (arith, eq_iff c.session_id id, find-replace_other id j new bs)

pub find-append :
    (id : String) (bs cs : List SessionBinding) (b : SessionBinding)
    → find_session id bs ≡ some b
    → find_session id (bs ++ cs) ≡ some b
find-append id [] cs b h = cc
find-append id (c ∷ bs) cs b h = ground (arith, find-append id bs cs b)

pub status_same :
    (s c : Status) → is_terminal c ≡ true → (status_name s == status_name c) ≡ true → s ≡ c
status_same active terminated t h = cc
status_same frozen terminated t h = cc
status_same terminated terminated t h = refl
status_same completed terminated t h = cc
status_same error terminated t h = cc
status_same active completed t h = cc
status_same frozen completed t h = cc
status_same terminated completed t h = cc
status_same completed completed t h = refl
status_same error completed t h = cc
status_same s active t h = cc
status_same s frozen t h = cc
status_same s error t h = cc
