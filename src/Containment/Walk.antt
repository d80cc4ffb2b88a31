-- ===== src/Containment/Walk.antt =====
-- The transitions of a coordinator are a hash-linked walk through the stages, one by one.
use liminal_osai.Prelude.{
  ℤ, String, ◌≡◌, refl, sym, ap, ◌∙◌, Bool, true, List, [], ◌∷◌, ◌++◌, Option, none, some, ◌==◌,
  Bool-cases, if◌then◌else◌, Result, is_sha256, eq_iff, inl, inr,
}
use liminal_osai.Json.{Fields, object}
use liminal_osai.Hashing.{Hashing, canonical_sha256, zero_sha256}
use liminal_osai.Exec.{modify, ◌>>=◌, ◌>>◌}
use liminal_osai.Exec.Keeps.{
  Keeps, Keeps-pure, Keeps-raise, Keeps-bind, Keeps-attempt, Keeps-if, keeps_rules,
}
use liminal_osai.Containment.State.{
  Stage, stage_name, next_stage, idle, detect, freeze, revoke, seal, snapshot, review, released,
  Transition, transition_body, Environment, Coordinator, CapabilityView, IncidentReceipt, create,
  chain_head,
}
use liminal_osai.Containment.Checks.{require_sha}
use liminal_osai.Containment.Stages.{
  call, new_transition, step, revoke_each, quiesce, seal_stage, snapshot_stage,
}
use liminal_osai.Containment.Coordinator.{contain_stages, contain, release_incident, release}
use liminal_osai.Containment.Calls.{Call, contain_call, release_call, perform, after}

module _ ⦃h : Hashing⦄ where
  -- `t` leaves `from` for the next stage, after a transition with the digest `previous`
  pub record IsStep (from : Stage) (previous : String) (t : Transition) : Type 0 where
    pub left : t.source ≡ from
    pub follows : next_stage from ≡ some t.target
    pub linked : t.previous_transition_sha256 ≡ previous
    pub hashed : t.transition_sha256 ≡ canonical_sha256 (object (transition_body t))

  -- the transitions lead from `from` to `to`
  abbrev pub IsWalk : Stage → String → List Transition → Stage → Type 0
  IsWalk from previous [] to = to ≡ from
  IsWalk from previous (t ∷ ts) to =
      IsStep from previous t × IsWalk t.target t.transition_sha256 ts to

  abbrev head_after : String → List Transition → String
  head_after previous [] = previous
  head_after previous (t ∷ ts) = head_after t.transition_sha256 ts

  head_after-last :
      (t : Transition) (ts : List Transition)
      → chain_head (t ∷ ts) ≡ head_after t.transition_sha256 ts
  head_after-last t [] = refl
  head_after-last t (u ∷ ts) = head_after-last u ts

  chain_head-eq : (ts : List Transition) → chain_head ts ≡ head_after zero_sha256 ts
  chain_head-eq [] = refl
  chain_head-eq (t ∷ ts) = head_after-last t ts

  IsWalk-append :
      (from x : Stage) (previous : String) (ts : List Transition) (t : Transition)
      → IsWalk from previous ts x
      → IsStep x (head_after previous ts) t
      → IsWalk from previous (ts ++ t ∷ []) t.target
  IsWalk-append from x previous [] t w l = (
    record {
      left = l.left ∙ w;
      follows = ap next_stage (sym w) ∙ l.follows;
      linked = l.linked;
      hashed = l.hashed;
    },
    refl,
  )
  IsWalk-append from x previous (u ∷ ts) t (s, w) l =
      (s, IsWalk-append u.target x u.transition_sha256 ts t w l)

  pub record Walks {W : Type 0} (c : Coordinator W) : Type 0 where
    pub walk : IsWalk idle zero_sha256 c.transitions c.state

  -- the stage with a name
  abbrev stage_of : String → Stage
  stage_of n =
      if n == "IDLE"
      then idle
      else if n == "DETECT"
      then detect
      else if n == "FREEZE"
      then freeze
      else if n == "REVOKE"
      then revoke
      else if n == "SEAL"
      then seal
      else if n == "SNAPSHOT"
      then snapshot
      else if n == "REVIEW"
      then review
      else released

  stage_of_name : (a : Stage) → stage_of (stage_name a) ≡ a
  stage_of_name idle = refl
  stage_of_name detect = refl
  stage_of_name freeze = refl
  stage_of_name revoke = refl
  stage_of_name seal = refl
  stage_of_name snapshot = refl
  stage_of_name review = refl
  stage_of_name released = refl

  pub name_injective : (a b : Stage) → (stage_name a == stage_name b) ≡ true → a ≡ b
  name_injective a b e =
      sym (stage_of_name a)
      ∙ ap stage_of ((eq_iff (stage_name a) (stage_name b)).0 e)
      ∙ stage_of_name b

  module _ {W : Type 0} where
    step-Walks :
        (y : Stage) (at : ℤ) (evidence : String)
        → Keeps {S = Coordinator W} Walks (step y at evidence)
    unfolding step ◌>>=◌ ◌>>◌ require_sha new_transition
    step-Walks y at evidence = record { at = λ c w. go c w (next_stage c.state) refl }
      where
        moved :
            (c : Coordinator W)
            → Walks c
            → next_stage c.state ≡ some y
            → Walks (record c {
              transitions = c.transitions ++ new_transition c y at evidence ∷ [];
              state = y;
            })
        moved c w n = record {
          walk =
              IsWalk-append idle c.state zero_sha256 c.transitions (new_transition c y at evidence)
                w.walk
                (record {
                  left = refl;
                  follows = n;
                  linked = chain_head-eq c.transitions;
                  hashed = refl;
                });
        }

        go :
            (c : Coordinator W)
            → Walks c
            → (o : Option Stage) → next_stage c.state ≡ o
            → Walks (step y at evidence c).1
        go c w none e = rw e w
        go c w (some x) e = elim (Bool-cases (stage_name y == stage_name x)) [
          | inl same ↦
              let target : y ≡ x = name_injective y x same in
              let n : next_stage c.state ≡ some y = e ∙ ap some (sym target) in
              rw e (
                rw same (elim (Bool-cases (is_sha256 evidence)) [
                  | inl digest ↦ rw digest (moved c w n)
                  | inr other ↦ rw other w
                ]))
          | inr other ↦ rw e (rw other w)
        ]

    call-Walks :
        {A : Type 0} (f : W → Result A × W)
        → Keeps {S = Coordinator W} Walks (call {W = W} {A = A} f)
    call-Walks f = record { at = λ c w. record { walk = w.walk } }

    store-Walks :
        (r : IncidentReceipt)
        → Keeps {S = Coordinator W} Walks (modify (λ c. record c { incident = some r }))
    store-Walks r = record { at = λ c w. record { walk = w.walk } }

    ruleset walk_rules = (keeps_rules, step-Walks, call-Walks, store-Walks)

    module _ (env : Environment W) where
      revoke_each-Walks :
          (at : ℤ) (caps : List CapabilityView)
          → Keeps {S = Coordinator W} Walks (revoke_each env at caps)
      unfolding revoke_each
      revoke_each-Walks at [] = Keeps-pure _
      revoke_each-Walks at (view ∷ caps) =
          Keeps-if (view.status == "active") _ _
            (Keeps-bind _ _ (Keeps-attempt _ (call-Walks _))
              λ r. Keeps-bind _ _ (revoke_each-Walks at caps) λ rest. Keeps-pure _)
            (revoke_each-Walks at caps)

      quiesce-Walks :
          (callback : Option (W → Result Fields × W))
          → Keeps {S = Coordinator W} Walks (quiesce env callback)
      unfolding quiesce
      quiesce-Walks none = Keeps-pure _
      quiesce-Walks (some callback) = search walk_rules depth 30

      contain_stages-Walks :
          (phase3 incident : String) (at : ℤ)
          → Keeps {S = Coordinator W} Walks (contain_stages env phase3 incident at)
      unfolding contain_stages seal_stage snapshot_stage
      contain_stages-Walks phase3 incident at =
          search (walk_rules, revoke_each-Walks, quiesce-Walks) depth 60

      release_incident-Walks :
          (o : Option IncidentReceipt) (id : String) (approved : Bool) (at : ℤ)
          → Keeps {S = Coordinator W} Walks (release_incident o id approved at)
      unfolding release_incident
      release_incident-Walks none id approved at = Keeps-raise _
      release_incident-Walks (some r) id approved at = search walk_rules depth 30

      perform-Walks : (c : Call) → Keeps {S = Coordinator W} Walks (perform env c)
      unfolding perform contain release
      perform-Walks (contain_call receipt incident at) =
          search (walk_rules, contain_stages-Walks) depth 30
      perform-Walks (release_call id approved at) =
          search (walk_rules, release_incident-Walks) depth 30

      after-Walks : (calls : List Call) (c : Coordinator W) → Walks c → Walks (after env c calls)
      unfolding after
      after-Walks [] c w = w
      after-Walks (call ∷ calls) c w =
          after-Walks calls (perform env call c).1 ((perform-Walks call).at c w)

      -- After any calls on a new coordinator, whatever the callbacks return or raise, the
      -- transitions lead from IDLE to its state, each to the stage that follows in `STATES`, each
      -- with the digest of the one before it (64 zeros for the first) and the digest of its own
      -- body.
      pub after-IsWalk :
          (w : W) (calls : List Call)
          → IsWalk idle zero_sha256
              (after env (create w) calls).transitions
              (after env (create w) calls).state
      after-IsWalk w calls = (after-Walks calls (create w) (record { walk = refl })).walk
