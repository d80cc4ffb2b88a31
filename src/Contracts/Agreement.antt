-- ===== src/Contracts/Agreement.antt =====
-- `validate_containment_transition` and `_step` of the containment coordinator.
use liminal_osai.Prelude.{ℕ, String, false, ◌≡◌, List, [], ◌∷◌, Option, ok, is_empty, Exec}
use liminal_osai.Json.{Value, str, nat, object}
use liminal_osai.Hashing.{Hashing}
use liminal_osai.Contracts.Validators.{sorted_unique_strings, identifier, sha, authority}
use liminal_osai.Contracts.Transition.{release_id_of}
use liminal_osai.Containment.State.{Stage, stage_name}

-- the document of a transition
abbrev pub transition_document :
    Stage → Stage → Value → Value → Value → Value → ℕ → List (String × Value)
transition_document a b incident reasons evidence release at =
    ("schema", str "liminal-containment-transition-v0.1")
    ∷ ("incident_id", incident)
    ∷ ("from_state", str (stage_name a))
    ∷ ("to_state", str (stage_name b))
    ∷ ("reason_codes", reasons)
    ∷ ("evidence_sha256", evidence)
    ∷ ("at_unix", nat at)
    ∷ ("human_release_id", release)
    ∷ ("authority", object authority)
    ∷ []

-- What is beside the states is in order: the reasons are at least one, the release id is there for
-- RELEASED and for nothing else, and the evidence has the given digest.
pub record IsFilled (target : Stage) (incident reasons evidence release : Value) (digest : String)
    : Type 0 where
  pub incident_id : String
  pub incident_read : identifier incident "incident_id" ≡ ok incident_id
  pub codes : List String
  pub reasons_read : sorted_unique_strings reasons "reason_codes" ≡ ok codes
  pub reasoned : is_empty codes ≡ false
  pub release_id : Option String
  pub release_read : release_id_of (stage_name target) release ≡ ok release_id
  pub evidence_read : sha evidence "evidence_sha256" ≡ ok digest
