-- ===== src/Containment/Calls.antt =====
-- The calls that a client may make on a coordinator.
use liminal_osai.Prelude.{ℤ, String, Bool, List, [], ◌∷◌, Done, Exec}
use liminal_osai.Json.{Fields}
use liminal_osai.Hashing.{Hashing}
use liminal_osai.Exec.{pure, ◌>>◌}
use liminal_osai.Containment.State.{Environment, Coordinator}
use liminal_osai.Containment.Coordinator.{contain, release}

pub data Call : Type 0 where
  contain_call : Fields → String → ℤ → Call
  release_call : String → Bool → ℤ → Call

module _ {W : Type 0} (env : Environment W) ⦃h : Hashing⦄ where
  unfoldable pub perform : Call → Exec (Coordinator W) Done
  perform (contain_call receipt incident at) = do contain env receipt incident at; pure tt
  perform (release_call id approved at) = do release id approved at; pure tt

  -- the coordinator after some calls, returned or raised
  unfoldable pub after : Coordinator W → List Call → Coordinator W
  after c [] = c
  after c (call ∷ calls) = after (perform call c).1 calls
