-- ===== src/Trcp/Common.antt =====
-- Python's `or`, `is None` and indexing, as the methods of the simulator use them.
use liminal_osai.Prelude.{
  String, Bool, true, false, Option, none, some, List, Exception, Exec, ◌==◌, last?, if◌then◌else◌,
}
use liminal_osai.Exec.{pure, raise}
use liminal_osai.Trcp.Scope.{ScopeEnvelope}
use liminal_osai.Trcp.State.{Simulator}

-- `not reference`
abbrev pub is_falsy : Option String → Bool
is_falsy none = true
is_falsy (some s) = s == ""

-- `xs[-1]` of an empty list
abbrev pub index_error : Exception
index_error = record { type_name = "IndexError"; message = "list index out of range" }

-- `fallback_scope or self.scope`
abbrev pub or_scope : Option ScopeEnvelope → ScopeEnvelope → ScopeEnvelope
or_scope none scope = scope
or_scope (some candidate) scope = candidate

-- `if x is None: raise e`
abbrev pub or_raise : {A : Type 0} → Option A → Exception → Exec Simulator A
or_raise none e = raise e
or_raise (some x) e = pure x

abbrev pub is_some : {A : Type 0} → Option A → Bool
is_some none = false
is_some (some x) = true

-- `outcome.lower()`, on the outcomes that a run can have here
abbrev pub lower : String → String
lower s =
    if s == "REFUSED"
    then "refused"
    else if s == "ACCESS_RESTRICTED"
    then "access_restricted"
    else if s == "RATE_LIMITED"
    then "rate_limited"
    else if s == "PROVIDER_ERROR"
    then "provider_error"
    else if s == "TIMEOUT"
    then "timeout"
    else if s == "ABORTED_BY_OPERATOR"
    then "aborted_by_operator"
    else s

-- `xs[-1]`
abbrev pub last_or_raise : {A : Type 0} → List A → Exec Simulator A
last_or_raise xs = or_raise (last? xs) index_error
