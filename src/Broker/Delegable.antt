-- ===== src/Broker/Delegable.antt =====
-- What the check of a child against its parent has found.
use liminal_osai.Prelude.{
  ◌≤◌, String, ◌≡◌, refl, Bool, true, false, not, ◌||◌, List, Option, none, some, ◌==◌, eq_iff,
  arith, if◌then◌else◌, ltb, Exception, ok, err, Done,
}
use liminal_osai.Contracts.Capability.{CapabilityContract}
use liminal_osai.Broker.State.{is_active, CapabilityState, find_state}
use liminal_osai.Broker.Scopes.{scope_contains}
use liminal_osai.Broker.Admission.{check_parent, validate_parent}

-- A child's contract within its parent's.
pub record Narrows (child parent : CapabilityContract) : Type 0 where
  pub delegable : parent.delegable ≡ true
  pub same_type : child.capability_type ≡ parent.capability_type
  pub same_policy : child.policy_sha256 ≡ parent.policy_sha256
  pub no_longer : child.expires_at_unix ≤ parent.expires_at_unix
  pub no_more : child.max_uses ≤ parent.max_uses
  pub contained : scope_contains child.capability_type parent.scope child.scope ≡ true

-- Six tests in a row that raise nothing are false.
guards-ok :
    (a b c d e f : Bool) (u v w x y z : Exception) (done : Done)
    → (if a
        then err u
        else if b
        then err v
        else if c
        then err w
        else if d
        then err x
        else if e
        then err y
        else if f
        then err z
        else ok tt)
      ≡ ok done
    → (a ≡ false) × (b ≡ false) × (c ≡ false) × (d ≡ false) × (e ≡ false) × (f ≡ false)
guards-ok true b c d e f u v w x y z done h = absurd cc
guards-ok false true c d e f u v w x y z done h = absurd cc
guards-ok false false true d e f u v w x y z done h = absurd cc
guards-ok false false false true e f u v w x y z done h = absurd cc
guards-ok false false false false true f u v w x y z done h = absurd cc
guards-ok false false false false false true u v w x y z done h = absurd cc
guards-ok false false false false false false u v w x y z done h =
    (refl, refl, refl, refl, refl, refl)

-- the parent that was found, for a child that has one
abbrev pub HasParent : CapabilityContract → List CapabilityState → Option String → Type 0
HasParent child ss none = Unit
HasParent child ss (some id) =
    (parent : CapabilityState) × (find_state id ss ≡ some parent)
    × (is_active parent.status ≡ true)
    × Narrows child parent.contract

check_parent-ok :
    (child : CapabilityContract) (o : Option CapabilityState) (d : Done)
    → check_parent child o ≡ ok d
    → (parent : CapabilityState) × (o ≡ some parent)
      × (is_active parent.status ≡ true)
      × Narrows child parent.contract
unfolding check_parent
check_parent-ok child none d h = absurd cc
check_parent-ok child (some s) d h =
    let parent = s.contract in
    let (closed, undelegable, type, policy, wide, outside) =
      guards-ok (not (is_active s.status)) (not parent.delegable)
        (not (child.capability_type == parent.capability_type))
        (not (child.policy_sha256 == parent.policy_sha256))
        (ltb parent.expires_at_unix child.expires_at_unix || ltb parent.max_uses child.max_uses)
        (not (scope_contains child.capability_type parent.scope child.scope)) _ _ _ _ _ _ d h in
    (
      s,
      refl,
      ground arith,
      record {
        delegable = ground arith;
        same_type = (eq_iff _ _).0 (ground arith);
        same_policy = (eq_iff _ _).0 (ground arith);
        no_longer = ground arith;
        no_more = ground arith;
        contained = ground arith;
      },
    )

pub validate_parent-ok :
    (child : CapabilityContract) (o : Option String) (ss : List CapabilityState) (d : Done)
    → validate_parent child o ss ≡ ok d
    → HasParent child ss o
validate_parent-ok child none ss d h = tt
validate_parent-ok child (some id) ss d h = check_parent-ok child (find_state id ss) d h
