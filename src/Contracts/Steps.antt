-- ===== src/Contracts/Steps.antt =====
-- The transitions that the contract allows are the coordinator's steps.
use liminal_osai.Prelude.{◌≡◌, refl, sym, ◌∙◌, Bool, true, false, some, arith}
use liminal_osai.Containment.State.{
  Stage, idle, detect, freeze, revoke, seal, snapshot, review, released, stage_name, next_stage,
}
use liminal_osai.Contracts.Transition.{is_legal}

-- the following stage, as a test
abbrev is_next : Stage → Stage → Bool
is_next idle detect = true
is_next detect freeze = true
is_next freeze revoke = true
is_next revoke seal = true
is_next seal snapshot = true
is_next snapshot review = true
is_next review released = true
is_next _ _ = false

is_legal-is_next : (a b : Stage) → is_legal (stage_name a) (stage_name b) ≡ is_next a b
unfolding is_legal
is_legal-is_next a b = elim a as (λ x. is_legal (stage_name x) (stage_name b) ≡ is_next x b) [
  | idle ↦ elim b as (λ y. is_legal (stage_name idle) (stage_name y) ≡ is_next idle y) [
    | idle ↦ refl
    | detect ↦ refl
    | freeze ↦ refl
    | revoke ↦ refl
    | seal ↦ refl
    | snapshot ↦ refl
    | review ↦ refl
    | released ↦ refl
  ]
  | detect ↦ elim b as (λ y. is_legal (stage_name detect) (stage_name y) ≡ is_next detect y) [
    | idle ↦ refl
    | detect ↦ refl
    | freeze ↦ refl
    | revoke ↦ refl
    | seal ↦ refl
    | snapshot ↦ refl
    | review ↦ refl
    | released ↦ refl
  ]
  | freeze ↦ elim b as (λ y. is_legal (stage_name freeze) (stage_name y) ≡ is_next freeze y) [
    | idle ↦ refl
    | detect ↦ refl
    | freeze ↦ refl
    | revoke ↦ refl
    | seal ↦ refl
    | snapshot ↦ refl
    | review ↦ refl
    | released ↦ refl
  ]
  | revoke ↦ elim b as (λ y. is_legal (stage_name revoke) (stage_name y) ≡ is_next revoke y) [
    | idle ↦ refl
    | detect ↦ refl
    | freeze ↦ refl
    | revoke ↦ refl
    | seal ↦ refl
    | snapshot ↦ refl
    | review ↦ refl
    | released ↦ refl
  ]
  | seal ↦ elim b as (λ y. is_legal (stage_name seal) (stage_name y) ≡ is_next seal y) [
    | idle ↦ refl
    | detect ↦ refl
    | freeze ↦ refl
    | revoke ↦ refl
    | seal ↦ refl
    | snapshot ↦ refl
    | review ↦ refl
    | released ↦ refl
  ]
  | snapshot ↦ elim b as (λ y. is_legal (stage_name snapshot) (stage_name y) ≡ is_next snapshot y) [
    | idle ↦ refl
    | detect ↦ refl
    | freeze ↦ refl
    | revoke ↦ refl
    | seal ↦ refl
    | snapshot ↦ refl
    | review ↦ refl
    | released ↦ refl
  ]
  | review ↦ elim b as (λ y. is_legal (stage_name review) (stage_name y) ≡ is_next review y) [
    | idle ↦ refl
    | detect ↦ refl
    | freeze ↦ refl
    | revoke ↦ refl
    | seal ↦ refl
    | snapshot ↦ refl
    | review ↦ refl
    | released ↦ refl
  ]
  | released ↦ elim b as (λ y. is_legal (stage_name released) (stage_name y) ≡ is_next released y) [
    | idle ↦ refl
    | detect ↦ refl
    | freeze ↦ refl
    | revoke ↦ refl
    | seal ↦ refl
    | snapshot ↦ refl
    | review ↦ refl
    | released ↦ refl
  ]
]

next_of : (a b : Stage) → is_next a b ≡ true → next_stage a ≡ some b
next_of a b h = ground arith

of_next : (a b : Stage) → next_stage a ≡ some b → is_next a b ≡ true
of_next a b h = ground arith

pub legal_of_next :
    (a b : Stage) → next_stage a ≡ some b → is_legal (stage_name a) (stage_name b) ≡ true
legal_of_next a b h = is_legal-is_next a b ∙ of_next a b h

pub next_of_legal :
    (a b : Stage) → is_legal (stage_name a) (stage_name b) ≡ true → next_stage a ≡ some b
next_of_legal a b h = next_of a b (sym (is_legal-is_next a b) ∙ h)
