-- ===== src/Contracts/Tests.antt =====
-- A coordinator that froze the runtime, and the transition that follows.
use liminal_osai.Prelude.{[], ◌∷◌}
use liminal_osai.Json.{Value, str, strings}
use liminal_osai.Containment.State.{Coordinator, freeze, create}

abbrev frozen : Coordinator (Unit {0})
frozen = record (create tt) { state = freeze }

abbrev incident : Value
incident = str "incident:1"

abbrev reasons : Value
reasons = strings ("credential_egress" ∷ [])
