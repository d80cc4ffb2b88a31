-- ===== src/Broker/Calls.antt =====
-- The calls that a client may make on a broker.
use liminal_osai.Prelude.{ℤ, String, List, [], ◌∷◌, Done, Exec}
use liminal_osai.Json.{Fields}
use liminal_osai.Hashing.{Hashing}
use liminal_osai.Exec.{pure, ◌>>◌}
use liminal_osai.Broker.State.{Broker}
use liminal_osai.Broker.Admission.{admit}
use liminal_osai.Broker.Authorize.{Request, authorize}
use liminal_osai.Broker.Lifecycle.{revoke, expire_due}

pub data Call : Type 0 where
  admit_call : Fields → ℤ → Call
  authorize_call : Request → Call
  revoke_call : String → ℤ → Call
  expire_due_call : ℤ → Call

module _ ⦃h : Hashing⦄ where
  unfoldable pub perform : Call → Exec Broker Done
  perform (admit_call document at) = do admit document at; pure tt
  perform (authorize_call q) = do authorize q; pure tt
  perform (revoke_call id at) = do revoke id at; pure tt
  perform (expire_due_call at) = do expire_due at; pure tt

  -- the broker after some calls, returned or raised
  unfoldable pub after : Broker → List Call → Broker
  after b [] = b
  after b (call ∷ calls) = after (perform call b).1 calls
