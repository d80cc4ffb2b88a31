-- ===== src/Trcp/Admission.antt =====
-- A task inside a narrower scope is inside the wider one.
use liminal_osai.Prelude.{
  ℤ, String, ◌≡◌, refl, subst, Bool, true, false, not, Bool-cases, inl, inr, List, [], ◌∷◌, ok,
  eq_iff, any, member, is_subset, ◌==◌, arith, raise_if, ◌>>◌, Exception, Result,
}
use liminal_osai.Json.{Fields, field_is, field_in, has_exactly}
use liminal_osai.Hashing.{Hashing}
use liminal_osai.Trcp.Authorization.{AuthorizationRecord}
use liminal_osai.Trcp.Scope.{ScopeEnvelope}
use liminal_osai.Trcp.Narrowing.{IsNarrower, IsNarrower-of_test}
use liminal_osai.Trcp.Task.{task_keys, validate_task}
use liminal_osai.Trcp.Methods.{create}
use liminal_osai.Trcp.Calls.{Call, after}
use liminal_osai.Trcp.Guarantees.{after_narrows}

any-member :
    (p : String → Bool) (x : String) (ys : List String)
    → p x ≡ true
    → member x ys ≡ true
    → any p ys ≡ true
any-member p x [] holds there = absurd cc
any-member p x (y ∷ ys) holds there = elim (Bool-cases (x == y)) [
  | inl same ↦ let at_y = subst (λ z. p z ≡ true) ((eq_iff x y).0 same) holds in ground arith
  | inr other ↦ let rest = any-member p x ys holds (ground arith) in ground arith
]

any-subset :
    (p : String → Bool) (xs ys : List String)
    → is_subset xs ys ≡ true
    → any p xs ≡ true
    → any p ys ≡ true
any-subset p [] ys inside some_x = absurd cc
any-subset p (x ∷ xs) ys inside some_x = elim (Bool-cases (p x)) [
  | inl holds ↦ any-member p x ys holds (ground arith)
  | inr fails ↦ any-subset p xs ys (ground arith) (ground arith)
]

-- what is prohibited in the wider scope is prohibited in the narrower one
any-subset_false :
    (p : String → Bool) (xs ys : List String)
    → is_subset xs ys ≡ true
    → any p ys ≡ false
    → any p xs ≡ false
any-subset_false p xs ys inside none_y = elim (Bool-cases (any p xs)) [
  | inl found ↦ absurd (let both = any-subset p xs ys inside found in cc)
  | inr missing ↦ missing
]

guard-ok :
    (c : Bool) (e : Exception) (m : Result String) (b : String)
    → (raise_if c e >> m) ≡ ok b
    → (c ≡ false) × (m ≡ ok b)
guard-ok true e m b h = absurd cc
guard-ok false e m b h = (refl, h)

true_of : (b : Bool) → not b ≡ false → b ≡ true
true_of b t = ground arith

module _ ⦃h : Hashing⦄ where
  validate_task-widen :
      (a : AuthorizationRecord) (narrow wide : ScopeEnvelope) (task : Fields) (hash : String)
      → IsNarrower narrow wide
      → validate_task a narrow task ≡ ok hash
      → validate_task a wide task ≡ ok hash
  unfolding validate_task
  validate_task-widen a narrow wide task hash n accepted =
      let (shape, later) = guard-ok (not (has_exactly task task_keys)) _ _ hash accepted in
      let (asset, later) = guard-ok (not (field_is "asset_id" task a.asset_id)) _ _ hash later in
      let (target, later) =
        guard-ok (not (field_in "asset_id" task narrow.allowed_targets)) _ _ hash later in
      let (activity, later) =
        guard-ok (not (field_in "activity_class" task a.allowed_activity_classes)) _ _ hash later in
      let (free, later) =
        guard-ok (field_in "action" task narrow.prohibited_actions) _ _ hash later in
      let (action, later) =
        guard-ok (not (field_in "action" task narrow.allowed_actions)) _ _ hash later in
      let (local, later) = guard-ok (not (narrow.network_mode == "LOCAL_ONLY")) _ _ hash later in
      let in_target : field_in "asset_id" task wide.allowed_targets ≡ true =
        any-subset (field_is "asset_id" task) narrow.allowed_targets wide.allowed_targets n.targets
          (true_of (field_in "asset_id" task narrow.allowed_targets) target) in
      let in_action : field_in "action" task wide.allowed_actions ≡ true =
        any-subset (field_is "action" task) narrow.allowed_actions wide.allowed_actions n.actions
          (true_of (field_in "action" task narrow.allowed_actions) action) in
      let unprohibited : field_in "action" task wide.prohibited_actions ≡ false =
        any-subset_false (field_is "action" task) wide.prohibited_actions narrow.prohibited_actions
          n.prohibitions free in
      rw shape
        (rw asset (rw in_target (rw activity (rw unprohibited (rw in_action (rw n.local later))))))

  -- After any calls on a fresh simulator, a task that `_validate_task` accepts under the effective
  -- scope, whatever scope a failover has put there, is accepted under the scope that the simulator
  -- was made with, with the same digest: no task is gained.
  pub no_task_gained :
      (a : AuthorizationRecord) (sc : ScopeEnvelope) (now : ℤ) (calls : List Call) (task : Fields)
      (task_hash : String)
      → validate_task a (after (create a sc now) calls).scope task ≡ ok task_hash
      → validate_task a sc task ≡ ok task_hash
  no_task_gained a sc now calls task task_hash accepted = elim ((after_narrows a sc now calls).2) [
    | inl same ↦ subst (λ x. validate_task a x task ≡ ok task_hash) same accepted
    | inr narrower ↦
        validate_task-widen a (after (create a sc now) calls).scope sc task task_hash
          (IsNarrower-of_test _ _ narrower) accepted
  ]
