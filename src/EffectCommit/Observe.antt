-- ===== src/EffectCommit/Observe.antt =====
-- What the broker asks of its providers: the runtime's world, the session, the capability, the time.
use liminal_osai.Prelude.{ℕ, String, Bool, true, false, Result, ok, err, Exec}
use liminal_osai.Json.{Fields}
use liminal_osai.Hashing.{Hashing}
use liminal_osai.Exec.{lift, attempt, ◌>>=◌}
use liminal_osai.Prelude
use liminal_osai.EffectCommit.State.{
  TrustedRuntimeWorld, TrustedExecutionSession, Host, EffectBroker, call,
}
use liminal_osai.EffectCommit.Documents.{
  natural, read_world, read_session, iterate, is_listed, capabilities_of,
}

module _ {W : Type 0} (host : Host W) where
  -- `_now`
  unfoldable pub now : Exec (EffectBroker W) ℕ
  now = do value ← call host.clock; lift (natural value "invalid_trusted_clock")

  -- after the `try`
  abbrev pub is_active_in : String → TrustedRuntimeWorld → Result Fields → Result Bool
  is_active_in id world (err e) = ok false
  is_active_in id world (ok state) =
      Prelude.◌>>=◌ (iterate (capabilities_of state)) (is_listed id world)

  -- `_capability_active`
  unfoldable pub capability_active : String → TrustedRuntimeWorld → Exec (EffectBroker W) Bool
  capability_active id world = do
    state ← attempt (call host.capability_document)
    lift (is_active_in id world state)

  module _ ⦃h : Hashing⦄ where
    unfoldable pub observe_world : Exec (EffectBroker W) TrustedRuntimeWorld
    observe_world = do raw ← call host.state_document; lift (read_world raw)

    unfoldable pub observe_session : String → Exec (EffectBroker W) TrustedExecutionSession
    observe_session operation_id = do
      raw ← call (host.session_document operation_id)
      lift (read_session raw operation_id host.host_binding_sha256)
